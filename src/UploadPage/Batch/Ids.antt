-- ===== src/UploadPage/Batch/Ids.antt =====
-- Finding the items of the page by their ids, which are all different.
use mathlib.Core.Path.{subst}
use cassist.Prelude.{
  String, ℕ, zero, suc, ◌≡◌, ◌≢◌, refl, sym, ap, ◌∙◌, Bool, true, false, Option, none, some, List,
  [], ◌∷◌, get_elem?, if◌then◌else◌, eq_iff, eq_refl, arith, Bool-cases, inl, inr, true-ne-false,
  some_eq,
}
use cassist.UploadPage.{Item, ItemId, same_id, update_item}

pub same_id_refl : (a : ItemId) → same_id a a ≡ true
same_id_refl a = ground (arith, eq_refl a.name)

abbrev id_of : String → ℕ → ℕ → ℕ → ItemId
id_of name size last_modified index = record {
  name = name;
  size = size;
  last_modified = last_modified;
  index = index;
}

id_of-ap :
    {n m : String} {s t l k i j : ℕ} → n ≡ m → s ≡ t → l ≡ k → i ≡ j → id_of n s l i ≡ id_of m t k j
id_of-ap a b c d = rw (a, b, c, d) refl

pub same_id_eq : (a b : ItemId) → same_id a b ≡ true → a ≡ b
same_id_eq a b h =
    let name : a.name ≡ b.name = ground (arith, eq_iff a.name b.name) in
    let size : a.size ≡ b.size = ground arith in
    let modified : a.last_modified ≡ b.last_modified = ground arith in
    let index : a.index ≡ b.index = ground arith in id_of-ap name size modified index

same_id_apart :
    (x id other : ItemId) → same_id id other ≡ false → same_id x other ≡ true → same_id x id ≡ false
same_id_apart x id other h e = elim (Bool-cases (same_id x id)) [
  | inr f ↦ f
  | inl f ↦
      let y = same_id_eq x other e in
      let z = same_id_eq x id f in
      absurd (true-ne-false (sym (same_id_refl id) ∙ ap (λ k. same_id id k) (sym z ∙ y) ∙ h))
]

unfoldable pub item_with : ItemId → List Item → Option Item
item_with id [] = none
item_with id (item ∷ items) =
    let rest = item_with id items in if same_id item.id id then some item else rest

-- No two items have one id.
abbrev pub IsDistinct : List Item → Type 0
IsDistinct [] = Unit
IsDistinct (item ∷ items) = (item_with item.id items ≡ none) × IsDistinct items

module _ (f : Item → Item) (keeps : (item : Item) → (f item).id ≡ item.id) where
  -- A change of the item with this id.
  pub item_with-update_self :
      (id : ItemId) (items : List Item) (item : Item)
      → item_with id items ≡ some item
      → item_with id (update_item id f items) ≡ some (f item)
  unfolding item_with update_item
  item_with-update_self id [] item h = ground arith
  item_with-update_self id (x ∷ xs) item h =
      go (item_with-update_self id xs item) (same_id x.id id) refl h
    where
      go :
          (item_with id xs ≡ some item → item_with id (update_item id f xs) ≡ some (f item))
          → (b : Bool) → same_id x.id id ≡ b
          → (if b then some x else item_with id xs) ≡ some item
          → (if same_id (if b then f x else x).id id
              then some (if b then f x else x)
              else item_with id (update_item id f xs))
            ≡ some (f item)
      go later true e g =
          let fx : same_id (f x).id id ≡ true = ap (λ k. same_id k id) (keeps x) ∙ e in rw fx cc
      go later false e g = rw e (later g)

  -- A change of another item.
  pub item_with-update_other :
      (id other : ItemId) (items : List Item)
      → same_id id other ≡ false
      → item_with id (update_item other f items) ≡ item_with id items
  unfolding item_with update_item
  item_with-update_other id other [] h = refl
  item_with-update_other id other (x ∷ xs) h =
      let later = item_with-update_other id other xs h in
      elim (Bool-cases (same_id x.id other)) [
        | inl e ↦
            let apart = same_id_apart x.id id other h e in
            let fx : same_id (f x).id id ≡ false = ap (λ k. same_id k id) (keeps x) ∙ apart in
            rw (e, fx, apart) later
        | inr e ↦ rw (e, later) refl
      ]

  update-absent :
      (id other : ItemId) (items : List Item)
      → item_with id items ≡ none
      → item_with id (update_item other f items) ≡ none
  unfolding item_with update_item
  update-absent id other [] h = refl
  update-absent id other (x ∷ xs) h =
      let later = update-absent id other xs (ground arith) in
      let fx : same_id (f x).id id ≡ false = ap (λ k. same_id k id) (keeps x) ∙ ground arith in
      elim (Bool-cases (same_id x.id other)) [
        | inl e ↦ rw (e, fx) later
        | inr e ↦ let apart : same_id x.id id ≡ false = ground arith in rw (e, apart) later
      ]

  pub update-IsDistinct :
      (other : ItemId) (items : List Item)
      → IsDistinct items
      → IsDistinct (update_item other f items)
  unfolding update_item
  update-IsDistinct other [] d = tt
  update-IsDistinct other (x ∷ xs) d =
      let later = update-IsDistinct other xs d.1 in
      let absent = update-absent x.id other xs d.0 in
      let changed : item_with (f x).id (update_item other f xs) ≡ none =
        ap (λ k. item_with k (update_item other f xs)) (keeps x) ∙ absent in
      elim (Bool-cases (same_id x.id other)) [
        | inl e ↦ rw e (changed, later)
        | inr e ↦ rw e (absent, later)
      ]

-- A change that keeps the ids keeps what holds of an item and is kept by the change.
abbrev pub Found : (Item → Type 0) → ItemId → List Item → Type 0
Found P id items = (item : Item) × (item_with id items ≡ some item) × P item

module _ (f : Item → Item) (keeps : (item : Item) → (f item).id ≡ item.id) (P : Item → Type 0)
    (kept : (item : Item) → P item → P (f item)) where
  pub Found-update :
      (id other : ItemId) (items : List Item)
      → Found P id items
      → Found P id (update_item other f items)
  Found-update id other items (item, at, holds) = elim (Bool-cases (same_id id other)) [
    | inl e ↦ (
      f item,
      subst (λ k. item_with id (update_item k f items) ≡ some (f item)) (same_id_eq id other e)
          (item_with-update_self f keeps id items item at),
      kept item holds,
    )
    | inr e ↦ (item, item_with-update_other f keeps id other items e ∙ at, holds)
  ]

same_id_sym : (a b : ItemId) → same_id a b ≡ false → same_id b a ≡ false
same_id_sym a b h = elim (Bool-cases (same_id b a)) [
  | inr f ↦ f
  | inl e ↦
      absurd
        (true-ne-false (sym (same_id_refl a) ∙ ap (λ k. same_id a k) (sym (same_id_eq b a e)) ∙ h))
]

-- An id that no item has is not that of an item at some place.
absent-apart :
    (id : ItemId) (items : List Item) (j : ℕ) (b : Item)
    → item_with id items ≡ none
    → get_elem? items j ≡ some b
    → same_id b.id id ≡ false
unfolding item_with
absent-apart id [] j b h at = ground arith
absent-apart id (x ∷ xs) zero b h at =
    subst (λ y. same_id y.id id ≡ false) (some_eq at) (ground arith)
absent-apart id (x ∷ xs) (suc j) b h at = absent-apart id xs j b (ground arith) at

pub absent-other :
    (id : ItemId) (items : List Item) (j : ℕ) (b : Item)
    → item_with id items ≡ none
    → get_elem? items j ≡ some b
    → same_id id b.id ≡ false
absent-other id items j b h at = same_id_sym b.id id (absent-apart id items j b h at)

-- Items at different places have different ids.
pub IsDistinct-apart :
    (items : List Item) (i j : ℕ) (a b : Item)
    → IsDistinct items
    → i ≢ j
    → get_elem? items i ≡ some a
    → get_elem? items j ≡ some b
    → same_id a.id b.id ≡ false
IsDistinct-apart [] i j a b d ne ha hb = ground arith
IsDistinct-apart (x ∷ xs) zero zero a b d ne ha hb = absurd (ne refl)
IsDistinct-apart (x ∷ xs) zero (suc j) a b d ne ha hb =
    subst (λ y. same_id y.id b.id ≡ false) (some_eq ha)
      (same_id_sym b.id x.id (absent-apart x.id xs j b d.0 hb))
IsDistinct-apart (x ∷ xs) (suc i) zero a b d ne ha hb =
    subst (λ y. same_id a.id y.id ≡ false) (some_eq hb) (absent-apart x.id xs i a d.0 ha)
IsDistinct-apart (x ∷ xs) (suc i) (suc j) a b d ne ha hb =
    IsDistinct-apart xs i j a b d.1 (λ e. ne (ap suc e)) ha hb
