-- ===== src/UploadPage/Retry.antt =====
-- What is left to upload on upload-page.jsx after the outcomes of a batch are written.
use cassist.Prelude.{
  ◌≡◌, refl, ap, ◌∙◌, Bool, true, false, not, ◌&&◌, ◌||◌, List, [], ◌∷◌, map, filter, any,
  if◌then◌else◌, Bool-cases, inl, inr,
}
use mathlib.Core.Path.{ap₂}
use cassist.UploadPage.{Item, ItemId, same_id, is_pending, pending, update_item}
use cassist.UploadPage.Submit.{Outcome, done, was_cancelled, went_wrong, settle_item, settle_all}

abbrev pub is_done : Outcome → Bool
is_done (done _) = true
is_done _ = false

-- An upload of this item was completed.
abbrev pub was_done : List (ItemId × Outcome) → Item → Bool
was_done settled item = any (λ (id, o). same_id item.id id && is_done o) settled

abbrev pub left_over : List (ItemId × Outcome) → List Item → List ItemId
left_over settled items =
    map (λ item. item.id) (filter (λ item. is_pending item && not (was_done settled item)) items)

module _ (f : Item → Item) (p q : Item → Bool) (same : (x : Item) → (f x).id ≡ x.id)
    (agree : (x : Item) → p (f x) ≡ q x) where
  ids-filter :
      (items : List Item)
      → map (λ x. x.id) (filter p (map f items)) ≡ map (λ x. x.id) (filter q items)
  ids-filter [] = refl
  ids-filter (x ∷ xs) = elim (Bool-cases (q x)) [
    | inl e ↦ rw (agree x, e) (ap₂ (λ i is. i ∷ is) (same x) (ids-filter xs))
    | inr e ↦ rw (agree x, e) (ids-filter xs)
  ]

module _ (id : ItemId) (settled : List (ItemId × Outcome)) where
  write : Outcome → Item → Item
  write o item = if same_id item.id id then settle_item o item else item

  is_left : List (ItemId × Outcome) → Item → Bool
  is_left done_so_far item = is_pending item && not (was_done done_so_far item)

  settle_item-id : (o : Outcome) (item : Item) → (settle_item o item).id ≡ item.id
  unfolding settle_item
  settle_item-id (done r) item = refl
  settle_item-id was_cancelled item = refl
  settle_item-id (went_wrong e) item = refl

  is_left-settle_item :
      (o : Outcome) (item : Item)
      → (is_pending (settle_item o item) && not (was_done settled (settle_item o item)))
        ≡ (is_pending item && not (is_done o || was_done settled item))
  unfolding settle_item
  is_left-settle_item (done r) item = elim (Bool-cases (is_pending item)) [
    | inl e ↦ rw e refl
    | inr e ↦ rw e refl
  ]
  is_left-settle_item was_cancelled item = refl
  is_left-settle_item (went_wrong e) item = refl

  write-id : (o : Outcome) (item : Item) → (write o item).id ≡ item.id
  unfolding write settle_item
  write-id o item = elim (Bool-cases (same_id item.id id)) [
    | inl e ↦ rw e (settle_item-id o item)
    | inr e ↦ rw e refl
  ]

  is_left-write :
      (o : Outcome) (item : Item)
      → is_left settled (write o item) ≡ is_left ((id, o) ∷ settled) item
  unfolding write settle_item is_left
  is_left-write o item = elim (Bool-cases (same_id item.id id)) [
    | inl e ↦ rw e (is_left-settle_item o item)
    | inr e ↦ rw e refl
  ]

update-left_over :
    (id : ItemId) (o : Outcome) (settled : List (ItemId × Outcome)) (items : List Item)
    → left_over settled (update_item id (settle_item o) items) ≡ left_over ((id, o) ∷ settled) items
unfolding update_item write is_left
update-left_over id o settled items =
    ids-filter (write id settled o) (is_left id settled settled)
      (is_left id settled ((id, o) ∷ settled)) (write-id id settled o) (is_left-write id settled o)
      items

filter_same :
    (items : List Item) → filter is_pending items ≡ filter (λ item. is_pending item && true) items
filter_same [] = refl
filter_same (item ∷ items) = elim (Bool-cases (is_pending item)) [
  | inl e ↦ rw e (ap (λ is. item ∷ is) (filter_same items))
  | inr e ↦ rw e (filter_same items)
]

-- After the outcomes of a batch are written to the items, in whatever order they came, the items
-- left to upload are those that were pending before, less those with a completed upload: a failed
-- or cancelled upload can be tried again, and no completed one is.
pub pending-settle_all :
    (settled : List (ItemId × Outcome)) (items : List Item)
    → map (λ item. item.id) (pending (settle_all settled items)) ≡ left_over settled items
unfolding settle_all pending
pending-settle_all [] items = ap (map (λ item. item.id)) (filter_same items)
pending-settle_all ((id, o) ∷ settled) items =
    pending-settle_all settled (update_item id (settle_item o) items)
    ∙ update-left_over id o settled items
