-- ===== src/UploadPage/Batch.antt =====
-- The batch of `handleSubmit` as a whole: the workers of `mapWithConcurrency` with the operation on
-- an item, which uploads its file and writes what happens to the items of the page.
pub mod Ids
pub mod Pending
pub mod Outcomes
pub mod Shown
pub mod Keeps
pub mod Visits
pub mod Ends
use cassist.Prelude.{ℕ, ◌≡◌, Bool, true, Option, none, some, List, [], ◌∷◌, length, get_elem?}
use cassist.Api.World.{Stage, World, Log}
use cassist.Api.Upload.{upload_document}
use cassist.Pool.{State, ready, busy, start, resume, resolve, max_concurrent_uploads}
use cassist.UploadPage.{Item, update_item, pending}
use cassist.UploadPage.Submit.{
  Outcome, Page, outcome_of, begin_submit, set_progress, set_stage, settle_item,
}

-- The workers, and the items of the page meanwhile.
pub record Batch : Type 0 where
  pub pool : State Outcome
  pub items : List Item

-- The operation may give this outcome on an item: an upload of its file, with a signal, ends so
-- against some network, server and user, after some events.
abbrev pub Uploads : Item → Outcome → Type 0
Uploads item o = (w : World) × (l : Log) × (outcome_of (upload_document item.file true w l).0 ≡ o)

-- The call of `mapWithConcurrency`, once the pending items are restarted.
unfoldable pub start_batch : Page → Batch
unfolding start begin_submit
start_batch page = record {
  pool = start max_concurrent_uploads (length (pending page.items));
  items = (begin_submit page).items;
}

-- A worker goes on, or an operation under way tells its progress or its stage, or it settles and
-- its worker has the outcome.
pub data Step (batch : List Item) : Batch → Batch → Type 0 where
  takes :
      {s : Batch} (k : ℕ)
      → get_elem? s.pool.workers k ≡ some ready
      → Step batch s (record s { pool = resume (length batch) k s.pool })
  progresses :
      {s : Batch} (k i n : ℕ) (item : Item)
      → get_elem? s.pool.workers k ≡ some (busy i)
      → get_elem? batch i ≡ some item
      → Step batch s (record s { items = update_item item.id (set_progress n) s.items })
  reports :
      {s : Batch} (k i : ℕ) (stage : Stage) (item : Item)
      → get_elem? s.pool.workers k ≡ some (busy i)
      → get_elem? batch i ≡ some item
      → Step batch s (record s { items = update_item item.id (set_stage stage) s.items })
  settles :
      {s : Batch} (k i : ℕ) (item : Item) (o : Outcome)
      → get_elem? s.pool.workers k ≡ some (busy i)
      → get_elem? batch i ≡ some item
      → Uploads item o
      → Step batch s (record {
        pool = resolve k i o s.pool;
        items = update_item item.id (settle_item o) s.items;
      })

pub data Reachable (page : Page) : Batch → Type 0 where
  starts : Reachable page (start_batch page)
  steps : {s t : Batch} → Reachable page s → Step (pending page.items) s t → Reachable page t
