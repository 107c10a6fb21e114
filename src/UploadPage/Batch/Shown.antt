-- ===== src/UploadPage/Batch/Shown.antt =====
-- What the items of a batch show, for the outcomes that are there so far.
use cassist.Prelude.{
  ℕ, zero, suc, ◌≡◌, ◌≢◌, ◌↔◌, refl, ap, sym, ◌∙◌, Option, none, some, List, [], ◌∷◌, get_elem?,
  eqb, ltb, arith, inl, inr, Bool-cases, some_eq,
}
use mathlib.Core.Path.{subst}
use cassist.Pool.{State, ready, busy, resume, resolve, max_concurrent_uploads}
use cassist.Pool.Count.{holds, has_outcome, get_elem?-total_le}
use cassist.Pool.Keeps.{Reachable-IsSound}
use cassist.UploadPage.{Item, update_item}
use cassist.UploadPage.Submit.{Outcome}
use cassist.UploadPage.Batch.{Uploads}
use cassist.UploadPage.Batch.Ids.{
  Found, IsDistinct, IsDistinct-apart, item_with-update_self, item_with-update_other,
}
use cassist.UploadPage.Batch.Outcomes.{IsOngoing, IsSettled}

-- The pool of a batch has a run of `mapWithConcurrency` behind it.
abbrev pub IsRun : List Item → State Outcome → Type 0
IsRun batch pool = cassist.Pool.Reachable Uploads max_concurrent_uploads batch pool

-- What an item that has no outcome yet shows, or one that has.
abbrev pub IsShown : Item → Option (Option Outcome) → Item → Type 0
IsShown a (some (some o)) = IsSettled a o
IsShown a (some none) = IsOngoing a
IsShown a none = IsOngoing a

abbrev pub AreShown : List Item → List (Option Outcome) → List Item → Type 0
AreShown batch outcomes items =
    (i : ℕ) (a : Item)
    → get_elem? batch i ≡ some a
    → Found (IsShown a (get_elem? outcomes i)) a.id items

-- An item without an outcome is changed, and perhaps given one.
module _ (batch : List Item) (distinct : IsDistinct batch) (f : Item → Item)
    (keeps : (item : Item) → (f item).id ≡ item.id) (before after : List (Option Outcome))
    (items : List Item) (i : ℕ) (item : Item) (at : get_elem? batch i ≡ some item) where
  pub update-AreShown :
      ((x : Item) → IsShown item (get_elem? before i) x → IsShown item (get_elem? after i) (f x))
      → ((j : ℕ) → i ≢ j → get_elem? after j ≡ get_elem? before j)
      → AreShown batch before items
      → AreShown batch after (update_item item.id f items)
  update-AreShown here others shown j b there = elim (Bool-cases (eqb i j)) [
    | inl e ↦
        let ij : i ≡ j = ground arith in
        let same : item ≡ b = some_eq (sym at ∙ ap (get_elem? batch) ij ∙ there) in
        let (x, found, shows) = shown i item at in
        subst (λ n. Found (IsShown b (get_elem? after n)) b.id (update_item item.id f items)) ij
          (subst (λ y. Found (IsShown y (get_elem? after i)) y.id (update_item item.id f items))
            same (f x, item_with-update_self f keeps item.id items x found, here x shows))
    | inr e ↦
        let ne : i ≢ j = (λ q. ground arith) in
        let ne' : j ≢ i = (λ q. ground arith) in
        let (x, found, shows) = shown j b there in
        let apart = IsDistinct-apart batch j i b item distinct ne' there at in
        (
          x,
          item_with-update_other f keeps b.id item.id items apart ∙ found,
          subst (λ r. IsShown b r x) (sym (others j ne)) shows,
        )
  ]

pub not_settled :
    (batch : List Item) (pool : State Outcome) (k i : ℕ)
    → IsRun batch pool
    → get_elem? pool.workers k ≡ some (busy i)
    → has_outcome i pool.outcomes ≡ 0
not_settled batch pool k i run h =
    let sound = Reachable-IsSound Uploads max_concurrent_uploads batch pool run in
    ground (arith, sound.held i, get_elem?-total_le (holds i) pool.workers k (busy i) h)

-- An item without an outcome shows none.
pub IsShown-iff :
    (a x : Item) (os : List (Option Outcome)) (i : ℕ)
    → has_outcome i os ≡ 0
    → IsShown a (get_elem? os i) x ↔ IsOngoing a x
IsShown-iff a x [] i z = ((λ h. h), λ h. h)
IsShown-iff a x (none ∷ os) zero z = ((λ h. h), λ h. h)
IsShown-iff a x (some o ∷ os) zero z = absurd (ground arith)
IsShown-iff a x (o ∷ os) (suc i) z = IsShown-iff a x os i z

pub resume-outcomes :
    (count k : ℕ) (pool : State Outcome) → (resume count k pool).outcomes ≡ pool.outcomes
unfolding resume
resume-outcomes count k pool = elim (Bool-cases (ltb pool.next_index count)) [
  | inl e ↦ rw e refl
  | inr e ↦ rw e refl
]
