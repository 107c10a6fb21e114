-- ===== src/Pool.antt =====
-- `mapWithConcurrency` of frontend/src/pages/upload-page.jsx: workers that take the items in turn,
-- as functions of the state that they share and as a step relation over all orders of events.
pub mod Count
pub mod Keeps
pub mod Ends
use cassist.Prelude.{
  ℕ, suc, ◌<◌, ◌≡◌, min, Bool, Option, none, some, List, [], ◌∷◌, length, get_elem?, set, replicate,
  ltb, if◌then◌else◌,
}

-- A worker: at the head of its loop, awaiting the operation on an item, ended, or rejected with it.
pub data Worker : Type 0 where
  ready finished : Worker
  busy failed : ℕ → Worker

-- The variables that the workers share, the workers, and the items whose operation was called, the
-- latest first.
pub record State (R : Type 0) : Type 0 where
  pub next_index : ℕ
  pub outcomes : List (Option R)
  pub workers : List Worker
  pub calls : List ℕ

abbrev pub max_concurrent_uploads : ℕ
max_concurrent_uploads = 3

module _ {R : Type 0} where
  -- The state before the workers run: `Array(items.length)` and `Math.min(limit, items.length)`
  -- workers.
  unfoldable pub start : ℕ → ℕ → State R
  start limit count = record {
    next_index = 0;
    outcomes = replicate count none;
    workers = replicate (min limit count) ready;
    calls = [];
  }

  -- The worker `k` at the head of its loop: it takes the next item and calls the operation on it,
  -- or it ends.
  unfoldable pub resume : ℕ → ℕ → State R → State R
  resume count k s =
      if ltb s.next_index count
      then record {
        next_index = suc s.next_index;
        outcomes = s.outcomes;
        workers = set s.workers k (busy s.next_index);
        calls = s.next_index ∷ s.calls;
      }
      else record {
        next_index = s.next_index;
        outcomes = s.outcomes;
        workers = set s.workers k finished;
        calls = s.calls;
      }

  -- The operation on item `i`, which the worker `k` awaits, resolves to `r`.
  unfoldable pub resolve : ℕ → ℕ → R → State R → State R
  resolve k i r s = record {
    next_index = s.next_index;
    outcomes = set s.outcomes i (some r);
    workers = set s.workers k ready;
    calls = s.calls;
  }

  -- The operation on item `i` rejects, and the worker `k` with it.
  unfoldable pub reject : ℕ → ℕ → State R → State R
  reject k i s = record {
    next_index = s.next_index;
    outcomes = s.outcomes;
    workers = set s.workers k (failed i);
    calls = s.calls;
  }

-- One event of a run on `items`, where `Settles a r` says that the operation may give `r` on `a`.
pub data Step {A R : Type 0} (Settles : A → R → Type 0) (items : List A)
    : State R → State R → Type 0 where
  resumes :
      {s : State R} (k : ℕ)
      → get_elem? s.workers k ≡ some ready
      → Step Settles items s (resume (length items) k s)
  resolves :
      {s : State R} (k i : ℕ) (a : A) (r : R)
      → get_elem? s.workers k ≡ some (busy i)
      → get_elem? items i ≡ some a
      → Settles a r
      → Step Settles items s (resolve k i r s)
  rejects :
      {s : State R} (k i : ℕ)
      → get_elem? s.workers k ≡ some (busy i)
      → Step Settles items s (reject k i s)

-- The states that a run on `items` with a limit gets to.
pub data Reachable {A R : Type 0} (Settles : A → R → Type 0) (limit : ℕ) (items : List A)
    : State R → Type 0 where
  starts : Reachable Settles limit items (start limit (length items))
  steps :
      {s t : State R}
      → Reachable Settles limit items s
      → Step Settles items s t
      → Reachable Settles limit items t
