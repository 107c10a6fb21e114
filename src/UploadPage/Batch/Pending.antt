-- ===== src/UploadPage/Batch/Pending.antt =====
-- The pending items of the page, which a batch takes, among its items.
use mathlib.Core.Path.{subst}
use cassist.Prelude.{
  ℕ, zero, suc, ◌≡◌, ◌⊎◌, refl, sym, ap, ◌∙◌, true, false, none, some, List, [], ◌∷◌, get_elem?,
  arith, Bool-cases, inl, inr, some_eq, none_ne_some,
}
use cassist.UploadPage.{Item, ItemId, same_id, is_pending, pending}
use cassist.UploadPage.Batch.Ids.{IsDistinct, item_with, same_id_eq, same_id_refl}

absent-pending :
    (id : ItemId) (items : List Item)
    → item_with id items ≡ none
    → item_with id (pending items) ≡ none
unfolding item_with pending
absent-pending id [] h = refl
absent-pending id (x ∷ xs) h = elim (Bool-cases (is_pending x)) [
  | inl e ↦ rw e (ground (arith, absent-pending id xs))
  | inr e ↦ rw e (absent-pending id xs (ground arith))
]

pub pending-IsDistinct : (items : List Item) → IsDistinct items → IsDistinct (pending items)
unfolding pending
pending-IsDistinct [] d = tt
pending-IsDistinct (x ∷ xs) d = elim (Bool-cases (is_pending x)) [
  | inl e ↦ rw e (absent-pending x.id xs d.0, pending-IsDistinct xs d.1)
  | inr e ↦ rw e (pending-IsDistinct xs d.1)
]

-- A pending item is found by its id.
pub item_with-pending :
    (items : List Item) (i : ℕ) (a : Item)
    → IsDistinct items
    → get_elem? (pending items) i ≡ some a
    → item_with a.id items ≡ some a
unfolding pending item_with
item_with-pending [] i a d at = ground arith
item_with-pending (x ∷ xs) i a d at =
    go i (Bool-cases (is_pending x)) at (λ j. item_with-pending xs j a d.1)
  where
    later : (item_with a.id xs ≡ some a) → item_with a.id (x ∷ xs) ≡ some a
    later h = elim (Bool-cases (same_id x.id a.id)) [
      | inr e ↦ rw e h
      | inl e ↦
          absurd (none_ne_some (sym d.0 ∙ ap (λ k. item_with k xs) (same_id_eq x.id a.id e) ∙ h))
    ]

    go :
        (i : ℕ)
        → (is_pending x ≡ true) ⊎ (is_pending x ≡ false)
        → get_elem? (pending (x ∷ xs)) i ≡ some a
        → ((j : ℕ) → get_elem? (pending xs) j ≡ some a → item_with a.id xs ≡ some a)
        → item_with a.id (x ∷ xs) ≡ some a
    go i (inr e) at rest = later (rest i (rw (← at) (rw e refl)))
    go zero (inl e) at rest =
        let same : x ≡ a = some_eq (rw (← at) (rw e refl)) in
        subst (λ y. item_with y.id (x ∷ xs) ≡ some y) same (rw (same_id_refl x.id) refl)
    go (suc i) (inl e) at rest = later (rest i (rw (← at) (rw e refl)))

pub pending-result :
    (items : List Item) (i : ℕ) (a : Item) → get_elem? (pending items) i ≡ some a → a.result ≡ none
unfolding pending
pending-result [] i a at = ground arith
pending-result (x ∷ xs) i a at = go i (Bool-cases (is_pending x)) at (λ j. pending-result xs j a)
  where
    go :
        (i : ℕ)
        → (is_pending x ≡ true) ⊎ (is_pending x ≡ false)
        → get_elem? (pending (x ∷ xs)) i ≡ some a
        → ((j : ℕ) → get_elem? (pending xs) j ≡ some a → a.result ≡ none)
        → a.result ≡ none
    go i (inr e) at rest = rest i (rw (← at) (rw e refl))
    go zero (inl e) at rest =
        let same : x ≡ a = some_eq (rw (← at) (rw e refl)) in
        subst (λ y. y.result ≡ none) same (ground arith)
    go (suc i) (inl e) at rest = rest i (rw (← at) (rw e refl))
