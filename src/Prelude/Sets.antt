-- ===== src/Prelude/Sets.antt =====
-- JavaScript's `Set` and `Map` with texts for keys: lists in insertion order.
use Prim.Native.String.{String}
use mathlib.Core.Path.{◌≡◌, refl}
use mathlib.Core.Bool.{Bool, false, not, ◌&&◌, ◌||◌}
use mathlib.Core.Option.{Option, none, some}
use mathlib.Core.List.{List, [], ◌∷◌, ◌++◌}
use native.Mathlib.Omega.{arith}
use text.Mathlib.Text.{◌==◌}
use text.Mathlib.TextEquality.{eq_iff}
use cassist.Prelude.Tests.{if◌then◌else◌}

-- `set.has(k)`, and `array.includes(k)`
abbrev pub has : String → List String → Bool
has k [] = false
has k (x ∷ s) = x == k || has k s

-- `set.add(k)`
unfoldable pub add : String → List String → List String
add k s = if has k s then s else s ++ k ∷ []

-- `set.delete(k)`
unfoldable pub delete : String → List String → List String
delete k [] = []
delete k (x ∷ s) = let rest = delete k s in if x == k then rest else x ∷ rest

-- `new Set(array)`
unfoldable pub set_of : List String → List String → List String
set_of s [] = s
set_of s (x ∷ xs) = set_of (add x s) xs

abbrev pub IsNodup : List String → Type 0
IsNodup [] = Unit
IsNodup (x ∷ xs) = (has x xs ≡ false) × IsNodup xs

pub has-append : (j : String) (s t : List String) → has j (s ++ t) ≡ (has j s || has j t)
has-append j [] t = refl
has-append j (x ∷ s) t = ground (arith, has-append j s t)

pub has-add : (j k : String) (s : List String) → has j (add k s) ≡ (k == j || has j s)
unfolding add
has-add j k s = ground (arith, has-append j s (k ∷ []), eq_iff k j)

pub has-delete : (j k : String) (s : List String) → has j (delete k s) ≡ (not (k == j) && has j s)
unfolding delete
has-delete j k [] = ground arith
has-delete j k (x ∷ s) = ground (arith, has-delete j k s, eq_iff x k, eq_iff x j, eq_iff k j)

module _ {ℓ} {V : Type ℓ} where
  -- `map.get(key)`
  abbrev pub lookup : (key : String) → List (String × V) → Option V
  lookup key [] = none
  lookup key (entry ∷ entries) =
      let later = lookup key entries in if entry.0 == key then some entry.1 else later

  -- `map.set(key, value)`: a new key goes to the end
  unfoldable pub insert : (key : String) (value : V) → List (String × V) → List (String × V)
  insert key value [] = (key, value) ∷ []
  insert key value (entry ∷ entries) =
      let later = insert key value entries in
      if entry.0 == key then (key, value) ∷ entries else entry ∷ later

  pub lookup-insert :
      (key other : String) (value : V) (entries : List (String × V))
      → lookup other (insert key value entries)
        ≡ (if key == other then some value else lookup other entries)
  unfolding insert
  lookup-insert key other value [] = refl
  lookup-insert key other value (entry ∷ entries) = ground (
    arith,
    lookup-insert key other value entries,
    eq_iff entry.0 key,
    eq_iff entry.0 other,
    eq_iff key other,
  )
