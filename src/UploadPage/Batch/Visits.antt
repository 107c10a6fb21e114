-- ===== src/UploadPage/Batch/Visits.antt =====
-- The items of the page from selection to selection and from batch to batch: their ids are all
-- different, since each has its place in the selection as a part.
use cassist.Prelude.{
  ℕ, suc, ◌≡◌, ◌<◌, refl, Option, none, some, List, [], ◌∷◌, length, ltb, arith, inl, inr,
  Bool-cases,
}
use cassist.Api.Upload.{File}
use cassist.UploadPage.{
  same_id, Capabilities, Item, ItemId, Selection, new_items, select_files, update_item, pending,
}
use cassist.UploadPage.Submit.{Page, restart, update_all, set_progress, set_stage, settle_item}
use cassist.UploadPage.Zone.{remove_item}
use cassist.UploadPage.Batch.{
  Batch, start_batch, Reachable, takes, progresses, reports, settles, starts, steps,
}
use cassist.UploadPage.Batch.Ids.{IsDistinct, item_with, update-IsDistinct}
use cassist.UploadPage.Batch.Outcomes.{settle_item-id}

-- The items that the page can have: none at first, then those of a selection, or what is left of
-- them when one is removed, or those at some moment of a batch.
pub data Visit : List Item → Type 0 where
  opens : Visit []
  selects :
      (files : List File) (c : Option Capabilities) (s : Selection)
      → Visit s.items
      → Visit (select_files files c s).items
  removes : (id : ItemId) {items : List Item} → Visit items → Visit (remove_item id items)
  uploads : {page : Page} {s : Batch} → Visit page.items → Reachable page s → Visit s.items

new_items-absent :
    (c : Capabilities) (id : ItemId) (n : ℕ) (files : List File)
    → id.index < n
    → item_with id (new_items c n files) ≡ none
unfolding item_with new_items
new_items-absent c id n [] h = refl
new_items-absent c id n (f ∷ fs) h = ground (arith, new_items-absent c id (suc n) fs (omega arith))

new_items-IsDistinct :
    (c : Capabilities) (n : ℕ) (files : List File) → IsDistinct (new_items c n files)
unfolding new_items
new_items-IsDistinct c n [] = tt
new_items-IsDistinct c n (f ∷ fs) =
    (new_items-absent c _ (suc n) fs (omega arith), new_items-IsDistinct c (suc n) fs)

select_files-IsDistinct :
    (files : List File) (c : Option Capabilities) (s : Selection)
    → IsDistinct s.items
    → IsDistinct (select_files files c s).items
unfolding select_files
select_files-IsDistinct [] c s d = d
select_files-IsDistinct (f ∷ fs) none s d = d
select_files-IsDistinct (f ∷ fs) (some c) s d =
    elim (Bool-cases (ltb c.maximum_batch_files (length (f ∷ fs)))) [
      | inl e ↦ rw e tt
      | inr e ↦ rw e (new_items-IsDistinct c 0 (f ∷ fs))
    ]

update_all-IsDistinct :
    (ps items : List Item) → IsDistinct items → IsDistinct (update_all ps restart items)
unfolding update_all
update_all-IsDistinct [] items d = d
update_all-IsDistinct (p ∷ ps) items d =
    update_all-IsDistinct ps (update_item p.id restart items)
      (update-IsDistinct restart (λ x. refl) p.id items d)

Reachable-IsDistinct :
    (page : Page) (s : Batch) → IsDistinct page.items → Reachable page s → IsDistinct s.items
unfolding start_batch
Reachable-IsDistinct page s d starts = update_all-IsDistinct (pending page.items) page.items d
Reachable-IsDistinct page s d (steps {s = t} before (takes k h)) =
    Reachable-IsDistinct page t d before
Reachable-IsDistinct page s d (steps {s = t} before (progresses k i n item h at)) =
    update-IsDistinct (set_progress n) (λ x. refl) item.id t.items
      (Reachable-IsDistinct page t d before)
Reachable-IsDistinct page s d (steps {s = t} before (reports k i stage item h at)) =
    update-IsDistinct (set_stage stage) (λ x. refl) item.id t.items
      (Reachable-IsDistinct page t d before)
Reachable-IsDistinct page s d (steps {s = t} before (settles k i item o h at given)) =
    update-IsDistinct (settle_item o) (settle_item-id o) item.id t.items
      (Reachable-IsDistinct page t d before)

remove_item-absent :
    (id other : ItemId) (items : List Item)
    → item_with id items ≡ none
    → item_with id (remove_item other items) ≡ none
unfolding item_with remove_item
remove_item-absent id other [] h = refl
remove_item-absent id other (x ∷ xs) h = elim (Bool-cases (same_id x.id other)) [
  | inl e ↦ rw e (remove_item-absent id other xs (ground arith))
  | inr e ↦ rw e (ground (arith, remove_item-absent id other xs))
]

remove_item-IsDistinct :
    (other : ItemId) (items : List Item) → IsDistinct items → IsDistinct (remove_item other items)
unfolding remove_item
remove_item-IsDistinct other [] d = tt
remove_item-IsDistinct other (x ∷ xs) d = elim (Bool-cases (same_id x.id other)) [
  | inl e ↦ rw e (remove_item-IsDistinct other xs d.1)
  | inr e ↦ rw e (remove_item-absent x.id other xs d.0, remove_item-IsDistinct other xs d.1)
]

-- After any selections, removals and at any moment of any batches, no two items of the page have one id, so
-- that what an upload writes by the id of its item goes to this item alone.
pub Visit-IsDistinct : (items : List Item) → Visit items → IsDistinct items
Visit-IsDistinct items opens = tt
Visit-IsDistinct items (selects files c s before) =
    select_files-IsDistinct files c s (Visit-IsDistinct s.items before)
Visit-IsDistinct items (removes id {items = before_it} before) =
    remove_item-IsDistinct id before_it (Visit-IsDistinct before_it before)
Visit-IsDistinct items (uploads {page} {s} before reach) =
    Reachable-IsDistinct page s (Visit-IsDistinct page.items before) reach
