-- ===== src/UploadPage/Submit.antt =====
-- `handleSubmit` of upload-page.jsx: its guard, what it does to the items, and what it does at the
-- end of the batch. The batch itself is `cassist.Pool`.
use cassist.Prelude.{
  ℕ, Bool, true, false, not, Option, none, some, List, [], ◌∷◌, ◌++◌, ◌&&◌, ◌==◌, eqb, ltb,
  if◌then◌else◌, filter, length, all, words, count, Message,
}
use cassist.Api.Json.{Json, null, bool, num, str, property}
use cassist.Api.World.{Stage, Error, Result, ok, err}
use cassist.UploadPage.{
  Quota, Item, ItemId, during, complete, cancelled, update_item, pending, total_bytes,
}

-- What the operation gives for one item.
pub data Outcome : Type 0 where
  done : Json → Outcome
  was_cancelled : Outcome
  went_wrong : Error → Outcome

-- `error` of the page, its items, and `uploading`.
pub record Page : Type 0 where
  pub items : List Item
  pub error : Option Message
  pub uploading : Bool

-- The guard of `handleSubmit`, which is not an early return.
unfoldable pub may_submit : Page → Option Quota → Bool
may_submit page none = false
may_submit page (some quota) =
    not (eqb (length (pending page.items)) 0)
    && not page.uploading
    && quota.upload_allowed
    && not (ltb quota.available_bytes (total_bytes (pending page.items)))

abbrev pub restart : Item → Item
restart item = record {
  id = item.id;
  file = item.file;
  stage = none;
  progress = 0;
  result = item.result;
  error = none;
  validation_error = item.validation_error;
}

unfoldable pub update_all : List Item → (Item → Item) → List Item → List Item
update_all [] change items = items
update_all (item ∷ more) change items = update_all more change (update_item item.id change items)

-- From the guard to the start of the batch.
unfoldable pub begin_submit : Page → Page
unfolding update_all
begin_submit page = record {
  items = update_all (pending page.items) restart page.items;
  error = none;
  uploading = true;
}

-- `onProgress` and `onStage`
abbrev pub set_progress : ℕ → Item → Item
set_progress n item = record {
  id = item.id;
  file = item.file;
  stage = item.stage;
  progress = n;
  result = item.result;
  error = item.error;
  validation_error = item.validation_error;
}

abbrev pub set_stage : Stage → Item → Item
set_stage s item = record {
  id = item.id;
  file = item.file;
  stage = some (during s);
  progress = item.progress;
  result = item.result;
  error = item.error;
  validation_error = item.validation_error;
}

-- The operation's outcome, by how `uploadDocument` settles.
unfoldable pub outcome_of : Result Json → Outcome
outcome_of (ok result) = done result
outcome_of (err e) = if e.name == "AbortError" then was_cancelled else went_wrong e

-- What the operation writes to its item at the end.
unfoldable pub settle_item : Outcome → Item → Item
settle_item (done result) item = record {
  id = item.id;
  file = item.file;
  stage = some complete;
  progress = 100;
  result = some result;
  error = item.error;
  validation_error = item.validation_error;
}
settle_item was_cancelled item = record {
  id = item.id;
  file = item.file;
  stage = some cancelled;
  progress = 0;
  result = item.result;
  error = none;
  validation_error = item.validation_error;
}
settle_item (went_wrong e) item = record {
  id = item.id;
  file = item.file;
  stage = none;
  progress = item.progress;
  result = item.result;
  error = some e.message;
  validation_error = item.validation_error;
}

-- The operations' writes, in the order in which they settle.
unfoldable pub settle_all : List (ItemId × Outcome) → List Item → List Item
unfolding settle_item
settle_all [] items = items
settle_all ((id, outcome) ∷ more) items =
    settle_all more (update_item id (settle_item outcome) items)

abbrev pub is_failed : Outcome → Bool
is_failed (went_wrong _) = true
is_failed _ = false

abbrev pub is_cancelled : Outcome → Bool
is_cancelled was_cancelled = true
is_cancelled _ = false

abbrev pub outcome_results : List Outcome → List Json
outcome_results [] = []
outcome_results (done result ∷ outcomes) = result ∷ outcome_results outcomes
outcome_results (_ ∷ outcomes) = outcome_results outcomes

abbrev pub item_results : List Item → List Json
item_results [] = []
item_results (item ∷ items) = elim item.result [
  | none ↦ item_results items
  | some r ↦ r ∷ item_results items
]

-- A value as a condition.
abbrev pub is_true : Option Json → Bool
is_true none = false
is_true (some null) = false
is_true (some (bool b)) = b
is_true (some (num n)) = not (eqb n 0)
is_true (some (str s)) = not (s == "")
is_true (some _) = true

-- How the submission ends: the page is left with this state, or it stays with a message.
pub data Ending : Type 0 where
  leave : (deduplicated : Bool) (upload_count : ℕ) → Ending
  stay : Message → Ending

-- `handleSubmit` after the batch. `items` are those that the page had when it was submitted.
unfoldable pub end_submit : List Item → List Outcome → Ending
end_submit items outcomes =
    if eqb failed_count 0 && eqb cancelled_count 0
    then leave (all (λ result. is_true (property "deduplicated" result)) completed_results)
        (length completed_results)
    else if not (eqb failed_count 0)
    then stay (
        count failed_count
        ∷ words " of "
        ∷ count (length outcomes)
        ∷ words " files failed. Retry the failed files."
        ∷ [])
    else stay (
        count cancelled_count
        ∷ words " "
        ∷ words (if eqb cancelled_count 1 then "upload was" else "uploads were")
        ∷ words " cancelled. Retry when ready."
        ∷ [])
  where
    failed_count : ℕ
    failed_count = length (filter is_failed outcomes)

    cancelled_count : ℕ
    cancelled_count = length (filter is_cancelled outcomes)

    completed_results : List Json
    completed_results = item_results items ++ outcome_results outcomes
