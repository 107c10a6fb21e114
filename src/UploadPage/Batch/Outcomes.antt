-- ===== src/UploadPage/Batch/Outcomes.antt =====
-- What the items of the page show during the batch of `handleSubmit` and after it.
use cassist.Prelude.{
  ℕ, zero, suc, ◌≡◌, refl, sym, none, some, List, [], ◌∷◌, get_elem?, arith, some_eq,
}
use mathlib.Core.Path.{subst}
use cassist.Api.World.{Stage}
use cassist.UploadPage.{Item, update_item, complete, cancelled}
use cassist.UploadPage.Submit.{
  Outcome, done, was_cancelled, went_wrong, restart, update_all, set_progress, set_stage,
  settle_item,
}
use cassist.UploadPage.Batch.Ids.{Found, Found-update, item_with-update_self}

-- The item is still this one, and has no result.
pub record IsKept (a item : Item) : Type 0 where
  pub id : item.id ≡ a.id
  pub file : item.file ≡ a.file
  pub validation_error : item.validation_error ≡ a.validation_error
  pub result : item.result ≡ none

-- The item is started again: it shows no outcome.
pub record IsOngoing (a item : Item) : Type 0 where
  pub kept : IsKept a item
  pub error : item.error ≡ none

-- What the item shows of the outcome.
abbrev pub Shows : Outcome → Item → Type 0
Shows (done r) item =
    (item.stage ≡ some complete)
    × (item.progress ≡ 100)
    × (item.result ≡ some r)
    × (item.error ≡ none)
Shows was_cancelled item =
    (item.stage ≡ some cancelled) × (item.progress ≡ 0) × (item.result ≡ none) × (item.error ≡ none)
Shows (went_wrong e) item =
    (item.stage ≡ none) × (item.result ≡ none) × (item.error ≡ some e.message)

-- The item is still this one, and shows this outcome.
pub record IsSettled (a : Item) (o : Outcome) (item : Item) : Type 0 where
  pub id : item.id ≡ a.id
  pub file : item.file ≡ a.file
  pub validation_error : item.validation_error ≡ a.validation_error
  pub shows : Shows o item

pub settle_item-IsSettled :
    (a : Item) (o : Outcome) (item : Item) → IsOngoing a item → IsSettled a o (settle_item o item)
unfolding settle_item
settle_item-IsSettled a (done r) item h = record {
  id = h.kept.id;
  file = h.kept.file;
  validation_error = h.kept.validation_error;
  shows = (refl, refl, refl, h.error);
}
settle_item-IsSettled a was_cancelled item h = record {
  id = h.kept.id;
  file = h.kept.file;
  validation_error = h.kept.validation_error;
  shows = (refl, refl, h.kept.result, refl);
}
settle_item-IsSettled a (went_wrong e) item h = record {
  id = h.kept.id;
  file = h.kept.file;
  validation_error = h.kept.validation_error;
  shows = (refl, h.kept.result, refl);
}

pub settle_item-id : (o : Outcome) (item : Item) → (settle_item o item).id ≡ item.id
unfolding settle_item
settle_item-id (done r) item = refl
settle_item-id was_cancelled item = refl
settle_item-id (went_wrong e) item = refl

restart-IsKept : (a item : Item) → IsKept a item → IsKept a (restart item)
restart-IsKept a item h = record {
  id = h.id;
  file = h.file;
  validation_error = h.validation_error;
  result = h.result;
}

restart-IsOngoing : (a item : Item) → IsKept a item → IsOngoing a (restart item)
restart-IsOngoing a item h = record { kept = restart-IsKept a item h; error = refl }

Found-update_all :
    (a : Item) (ps items : List Item)
    → Found (IsOngoing a) a.id items
    → Found (IsOngoing a) a.id (update_all ps restart items)
unfolding update_all
Found-update_all a [] items h = h
Found-update_all a (p ∷ ps) items h = Found-update_all a ps (update_item p.id restart items) (
    Found-update restart (λ item. refl) (IsOngoing a) (λ item k. restart-IsOngoing a item k.kept)
      a.id p.id items h)

-- Each of the items that are started again is found so.
pub update_all-restart :
    (a : Item) (i : ℕ) (ps items : List Item)
    → get_elem? ps i ≡ some a
    → Found (IsKept a) a.id items
    → Found (IsOngoing a) a.id (update_all ps restart items)
unfolding update_all
update_all-restart a i [] items at h = ground arith
update_all-restart a zero (p ∷ ps) items at (item, here, kept) =
    Found-update_all a ps (update_item p.id restart items) (
      subst (λ q. Found (IsOngoing a) a.id (update_item q.id restart items)) (sym (some_eq at))
        (
          restart item,
          item_with-update_self restart (λ x. refl) a.id items item here,
          restart-IsOngoing a item kept,
        ))
update_all-restart a (suc i) (p ∷ ps) items at h =
    update_all-restart a i ps (update_item p.id restart items) at
      (Found-update restart (λ item. refl) (IsKept a) (restart-IsKept a) a.id p.id items h)

-- A change of the stage or the progress.
pub set_progress-IsOngoing :
    (n : ℕ) (a item : Item) → IsOngoing a item → IsOngoing a (set_progress n item)
set_progress-IsOngoing n a item h = record {
  kept = record {
    id = h.kept.id;
    file = h.kept.file;
    validation_error = h.kept.validation_error;
    result = h.kept.result;
  };
  error = h.error;
}

pub set_stage-IsOngoing :
    (s : Stage) (a item : Item) → IsOngoing a item → IsOngoing a (set_stage s item)
set_stage-IsOngoing s a item h = record {
  kept = record {
    id = h.kept.id;
    file = h.kept.file;
    validation_error = h.kept.validation_error;
    result = h.kept.result;
  };
  error = h.error;
}
