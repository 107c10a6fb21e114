-- ===== src/Proxy/HeaderMap.antt =====
-- `Headers` of the Fetch standard: names without case, a name that may repeat, and `String.includes`.
use Prim.Native.String.{◌++◌}
use cassist.Prelude.{
  ℕ, ◌≡◌, refl, String, Bool, true, false, Option, none, some, List, [], ◌∷◌, ◌&&◌, ◌||◌,
  if◌then◌else◌, codes, eqb, eq_codes, lower, arith,
}

-- The lower-cased names, each with a value, in order.
abbrev pub Headers : Type 0
Headers = List (String × String)

abbrev pub same_name : String → String → Bool
same_name a b = eq_codes (lower (codes a)) (lower (codes b))

abbrev pub join_values : String → Option String → String
join_values v none = v
join_values v (some more) = v ++ ", " ++ more

-- `headers.get(name)`: the values of the name, with a comma between them
unfoldable pub header_get : String → Headers → Option String
header_get name [] = none
header_get name ((n, v) ∷ hs) =
    let rest = header_get name hs in if same_name n name then some (join_values v rest) else rest

unfoldable pub header_drop : String → Headers → Headers
header_drop name [] = []
header_drop name ((n, v) ∷ hs) =
    let rest = header_drop name hs in if same_name n name then rest else (n, v) ∷ rest

-- `headers.set(name, value)`: one value in the place of all
unfoldable pub header_set : String → String → Headers → Headers
unfolding header_drop
header_set name value [] = (name, value) ∷ []
header_set name value ((n, v) ∷ hs) =
    let rest = header_set name value hs in
    if same_name n name then (n, value) ∷ header_drop name hs else (n, v) ∷ rest

abbrev starts_with : List ℕ → List ℕ → Bool
starts_with [] s = true
starts_with (c ∷ p) [] = false
starts_with (c ∷ p) (d ∷ s) = eqb c d && starts_with p s

-- `text.includes(part)`
unfoldable pub includes : List ℕ → List ℕ → Bool
includes part [] = starts_with part []
includes part (c ∷ s) = starts_with part (c ∷ s) || includes part s

eq_codes_eq : (s t : List ℕ) → eq_codes s t ≡ true → s ≡ t
eq_codes_eq [] [] h = refl
eq_codes_eq [] (b ∷ t) h = ground arith
eq_codes_eq (a ∷ s) [] h = ground arith
eq_codes_eq (a ∷ s) (b ∷ t) h = ground (arith, eq_codes_eq s t)

eq_codes_refl : (s : List ℕ) → eq_codes s s ≡ true
eq_codes_refl [] = refl
eq_codes_refl (a ∷ s) = ground (arith, eq_codes_refl s)

pub same_name_refl : (a : String) → same_name a a ≡ true
same_name_refl a = eq_codes_refl (lower (codes a))

-- Names that are the same as a third are so in either place.
same_name_congr : (a b c : String) → same_name a b ≡ true → same_name a c ≡ same_name b c
same_name_congr a b c h = rw (eq_codes_eq (lower (codes a)) (lower (codes b)) h) refl

header_get-header_drop : (k : String) (hs : Headers) → header_get k (header_drop k hs) ≡ none
unfolding header_get header_drop
header_get-header_drop k [] = refl
header_get-header_drop k ((n, v) ∷ hs) = ground (arith, header_get-header_drop k hs)

pub header_get-header_set :
    (k v : String) (hs : Headers) → header_get k (header_set k v hs) ≡ some v
unfolding header_get header_set
header_get-header_set k v [] = ground (arith, same_name_refl k)
header_get-header_set k v ((n, w) ∷ hs) =
    ground (arith, header_get-header_drop k hs, header_get-header_set k v hs)

header_get-header_drop_other :
    (k j : String) (hs : Headers)
    → same_name k j ≡ false
    → header_get j (header_drop k hs) ≡ header_get j hs
unfolding header_get header_drop
header_get-header_drop_other k j [] h = refl
header_get-header_drop_other k j ((n, v) ∷ hs) h =
    ground (arith, header_get-header_drop_other k j hs h, same_name_congr n k j)

pub header_get-header_set_other :
    (k j v : String) (hs : Headers)
    → same_name k j ≡ false
    → header_get j (header_set k v hs) ≡ header_get j hs
unfolding header_get header_set
header_get-header_set_other k j v [] h = ground arith
header_get-header_set_other k j v ((n, w) ∷ hs) h = ground (
  arith,
  header_get-header_drop_other k j hs h,
  header_get-header_set_other k j v hs h,
  same_name_congr n k j,
)
