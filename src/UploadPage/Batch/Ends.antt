-- ===== src/UploadPage/Batch/Ends.antt =====
-- What the end of the batch of `handleSubmit` leaves on the page, and when the page is left.
use mathlib.Core.Path.{subst}
use cassist.Prelude.{
  ℕ, zero, suc, ◌≡◌, Option, none, some, List, [], ◌∷◌, get_elem?, arith, All, some_eq,
}
use cassist.Api.Json.{Json}
use cassist.Pool.{max_concurrent_uploads}
use cassist.Pool.Ends.{IsResolved, resolved-outcomes}
use cassist.UploadPage.{Item, pending}
use cassist.UploadPage.Submit.{Outcome, done, was_cancelled, went_wrong, Page, end_submit}
use cassist.UploadPage.Gate.{IsDone, IsLeft, IsLeft-IsDone}
use cassist.UploadPage.Batch.{Batch, Uploads, Reachable}
use cassist.UploadPage.Batch.Ids.{Found}
use cassist.UploadPage.Batch.Outcomes.{IsSettled}
use cassist.UploadPage.Batch.Shown.{IsShown}
use cassist.UploadPage.Batch.Keeps.{Reachable-IsFaithful}
use cassist.UploadPage.Batch.Visits.{Visit, Visit-IsDistinct}

-- The outcome of the batch's item `a` at the place `i`, which an upload of its file gave.
abbrev pub HasOutcome : Batch → ℕ → Item → Outcome → Type 0
HasOutcome s i a o = (get_elem? s.pool.outcomes i ≡ some (some o)) × Uploads a o

-- The array of outcomes, without its holes.
abbrev pub present : List (Option Outcome) → List Outcome
present [] = []
present (none ∷ os) = present os
present (some o ∷ os) = o ∷ present os

present-IsDone :
    (os : List (Option Outcome)) (i : ℕ) (o : Outcome)
    → All IsDone (present os)
    → get_elem? os i ≡ some (some o)
    → IsDone o
present-IsDone [] i o h at = absurd (ground arith)
present-IsDone (none ∷ os) zero o h at = absurd (ground arith)
present-IsDone (none ∷ os) (suc i) o h at = present-IsDone os i o h at
present-IsDone (some p ∷ os) zero o h at = subst IsDone (some_eq (some_eq at)) h.0
present-IsDone (some p ∷ os) (suc i) o h at = present-IsDone os i o h.1 at

-- The item shows a completed upload.
abbrev pub IsComplete : Item → Item → Type 0
IsComplete a item = (r : Json) × IsSettled a (done r) item

settled-IsComplete :
    (a item : Item) (o : Outcome) → IsDone o → IsSettled a o item → IsComplete a item
settled-IsComplete a item (done r) h settled = (r, settled)
settled-IsComplete a item was_cancelled h settled = absurd h
settled-IsComplete a item (went_wrong e) h settled = absurd h

-- When the workers of a batch have ended, whatever the order in which its uploads told their
-- progress and their stages, failed, were cancelled or came to their ends, there is for each item
-- of the batch an outcome that an upload of its file gave, at the item's place among the outcomes,
-- and the page shows this outcome at this item.
pub resolved-IsSettled :
    (page : Page) (s : Batch)
    → Visit page.items
    → Reachable page s
    → IsResolved s.pool
    → (i : ℕ) (a : Item) → get_elem? (pending page.items) i ≡ some a
    → (o : Outcome) × HasOutcome s i a o × Found (IsSettled a o) a.id s.items
resolved-IsSettled page s visit reach over i a at =
    let faithful = Reachable-IsFaithful page (Visit-IsDistinct page.items visit) s reach in
    let (o, is, given) =
      resolved-outcomes Uploads max_concurrent_uploads (pending page.items) s.pool faithful.run
        (omega arith) over i a at in
    (o, (is, given), subst (λ r. Found (IsShown a r) a.id s.items) is (faithful.shown i a at))

-- If the page is left after a batch, every item of the batch shows a completed upload, however the
-- uploads ran: no failed and no cancelled one is lost.
pub left-IsComplete :
    (page : Page) (s : Batch) (n : ℕ)
    → Visit page.items
    → Reachable page s
    → IsResolved s.pool
    → IsLeft n (end_submit page.items (present s.pool.outcomes))
    → (i : ℕ) (a : Item) → get_elem? (pending page.items) i ≡ some a
    → Found (IsComplete a) a.id s.items
left-IsComplete page s n visit reach over left i a at =
    let (o, has, (x, found, settled)) = resolved-IsSettled page s visit reach over i a at in
    let is_done =
      present-IsDone s.pool.outcomes i o (IsLeft-IsDone n page.items (present s.pool.outcomes) left)
        has.0 in
    (x, found, settled-IsComplete a x o is_done settled)
