-- ===== src/UploadPage/Batch/Keeps.antt =====
-- What every moment of the batch of `handleSubmit` keeps, and what its end leaves on the page.
use cassist.Prelude.{
  ℕ, ◌≡◌, ◌↔◌, ◌<◌, refl, sym, ◌∙◌, none, some, List, [], ◌∷◌, length, get_elem?, arith,
  get_elem?-lt, get_elem?-set_self, get_elem?-set_ne, set, replicate,
}
use mathlib.Core.Path.{subst}
use cassist.Pool.{State, ready, busy, resume, resolve, max_concurrent_uploads}
use cassist.Pool.Keeps.{Reachable-IsSound, has_outcome-replicate}
use cassist.UploadPage.{Item, ItemId, update_item, pending}
use cassist.UploadPage.Submit.{
  Outcome, Page, restart, update_all, set_progress, set_stage, settle_item,
}
use cassist.UploadPage.Batch.{
  Batch, Uploads, start_batch, takes, progresses, reports, settles, Reachable, starts, steps,
}
use cassist.UploadPage.Batch.Ids.{
  Found, IsDistinct, absent-other, item_with, item_with-update_other,
}
use cassist.UploadPage.Batch.Pending.{item_with-pending, pending-IsDistinct, pending-result}
use cassist.UploadPage.Batch.Shown.{
  IsRun, IsShown, AreShown, update-AreShown, not_settled, IsShown-iff, resume-outcomes,
}
use cassist.UploadPage.Batch.Outcomes.{
  IsKept, IsOngoing, settle_item-IsSettled, settle_item-id, update_all-restart,
  set_progress-IsOngoing, set_stage-IsOngoing,
}

-- What a batch keeps: each of its items shows its outcome, or none while there is none, and the
-- page has its other items as they were.
pub record IsFaithful (page : Page) (s : Batch) : Type 0 where
  pub run : IsRun (pending page.items) s.pool
  pub shown : AreShown (pending page.items) s.pool.outcomes s.items
  pub others :
      (id : ItemId)
      → item_with id (pending page.items) ≡ none
      → item_with id s.items ≡ item_with id page.items

module _ (page : Page) (distinct : IsDistinct page.items) where
  batch-IsDistinct : IsDistinct (pending page.items)
  batch-IsDistinct = pending-IsDistinct page.items distinct

  restart-others :
      (id : ItemId) (ps items : List Item)
      → item_with id ps ≡ none
      → item_with id (update_all ps restart items) ≡ item_with id items
  unfolding item_with update_all
  restart-others id [] items h = refl
  restart-others id (p ∷ ps) items h =
      restart-others id ps (update_item p.id restart items) (ground arith)
      ∙ item_with-update_other restart (λ x. refl) id p.id items
          (absent-other id (p ∷ ps) 0 p h refl)

  start-IsShown :
      (i : ℕ) (a : Item)
      → get_elem? (pending page.items) i ≡ some a
      → Found
          (IsShown a (get_elem? (replicate (length (pending page.items)) none) i))
          a.id
          (update_all (pending page.items) restart page.items)
  start-IsShown i a at =
      let kept : IsKept a a = record {
        id = refl;
        file = refl;
        validation_error = refl;
        result = pending-result page.items i a at;
      } in
      let (x, found, ongoing) =
        update_all-restart a i (pending page.items) page.items at
          (a, item_with-pending page.items i a distinct at, kept) in
      (
        x,
        found,
        (IsShown-iff a x (replicate (length (pending page.items)) none) i
              (has_outcome-replicate Outcome i (length (pending page.items)))).1
            ongoing,
      )

  start-IsFaithful : IsFaithful page (start_batch page)
  unfolding start_batch
  start-IsFaithful = record {
    run = cassist.Pool.starts;
    shown = λ i a at. start-IsShown i a at;
    others = λ id h. restart-others id (pending page.items) page.items h;
  }

  module _ (s : Batch) (faithful : IsFaithful page s) where
    same :
        (k i : ℕ) (item : Item)
        → get_elem? s.pool.workers k ≡ some (busy i)
        → (x : Item) → IsShown item (get_elem? s.pool.outcomes i) x ↔ IsOngoing item x
    same k i item h x =
        IsShown-iff item x s.pool.outcomes i
          (not_settled (pending page.items) s.pool k i faithful.run h)

    write-IsFaithful :
        (f : Item → Item) (keeps : (item : Item) → (f item).id ≡ item.id)
        → (ongoing : (a item : Item) → IsOngoing a item → IsOngoing a (f item))
        → (k i : ℕ) (item : Item) → get_elem? s.pool.workers k ≡ some (busy i)
        → get_elem? (pending page.items) i ≡ some item
        → IsFaithful page (record s { items = update_item item.id f s.items })
    write-IsFaithful f keeps ongoing k i item h at = record {
      run = faithful.run;
      shown =
          update-AreShown (pending page.items) batch-IsDistinct f keeps s.pool.outcomes
            s.pool.outcomes s.items i item at
            (λ x shows. (same k i item h (f x)).1 (ongoing item x ((same k i item h x).0 shows)))
            (λ j ne. refl) faithful.shown;
      others = λ id absent.
          item_with-update_other f keeps id item.id s.items
            (absent-other id (pending page.items) i item absent at)
          ∙ faithful.others id absent;
    }

    settles-IsFaithful :
        (k i : ℕ) (item : Item) (o : Outcome)
        → get_elem? s.pool.workers k ≡ some (busy i)
        → get_elem? (pending page.items) i ≡ some item
        → Uploads item o
        → IsFaithful page (record {
          pool = resolve k i o s.pool;
          items = update_item item.id (settle_item o) s.items;
        })
    unfolding resolve
    settles-IsFaithful k i item o h at given =
        let sound =
          Reachable-IsSound Uploads max_concurrent_uploads (pending page.items) s.pool
            faithful.run in
        let inside : i < length s.pool.outcomes =
          omega (arith, get_elem?-lt (pending page.items) i item at, sound.outcomes) in
        record {
          run = cassist.Pool.steps faithful.run (cassist.Pool.resolves k i item o h at given);
          shown =
              update-AreShown (pending page.items) batch-IsDistinct (settle_item o)
                (settle_item-id o) s.pool.outcomes (set s.pool.outcomes i (some o)) s.items i item
                at
                (λ x shows.
                  subst (λ r. IsShown item r (settle_item o x))
                    (sym (get_elem?-set_self s.pool.outcomes i (some o) inside))
                    (settle_item-IsSettled item o x ((same k i item h x).0 shows)))
                (λ j ne. get_elem?-set_ne s.pool.outcomes i j (some o) ne) faithful.shown;
          others = λ id absent.
              item_with-update_other (settle_item o) (settle_item-id o) id item.id s.items
                (absent-other id (pending page.items) i item absent at)
              ∙ faithful.others id absent;
        }

    takes-IsFaithful :
        (k : ℕ)
        → get_elem? s.pool.workers k ≡ some ready
        → IsFaithful page (record s { pool = resume (length (pending page.items)) k s.pool })
    takes-IsFaithful k h = record {
      run = cassist.Pool.steps faithful.run (cassist.Pool.resumes k h);
      shown =
          subst (λ os. AreShown (pending page.items) os s.items)
            (sym (resume-outcomes (length (pending page.items)) k s.pool)) faithful.shown;
      others = faithful.others;
    }

  -- An item of the page has an id of its own. Then every moment of the batch, whatever the order
  -- of events, is faithful.
  pub Reachable-IsFaithful : (s : Batch) → Reachable page s → IsFaithful page s
  Reachable-IsFaithful s starts = start-IsFaithful
  Reachable-IsFaithful s (steps {s = t} before (takes k h)) =
      takes-IsFaithful t (Reachable-IsFaithful t before) k h
  Reachable-IsFaithful s (steps {s = t} before (progresses k i n item h at)) =
      write-IsFaithful t (Reachable-IsFaithful t before) (set_progress n) (λ x. refl)
        (set_progress-IsOngoing n) k i item h at
  Reachable-IsFaithful s (steps {s = t} before (reports k i stage item h at)) =
      write-IsFaithful t (Reachable-IsFaithful t before) (set_stage stage) (λ x. refl)
        (set_stage-IsOngoing stage) k i item h at
  Reachable-IsFaithful s (steps {s = t} before (settles k i item o h at given)) =
      settles-IsFaithful t (Reachable-IsFaithful t before) k i item o h at given
