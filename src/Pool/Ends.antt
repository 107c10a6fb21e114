-- ===== src/Pool/Ends.antt =====
-- How a run of `mapWithConcurrency` ends: never later than after a number of events that the items
-- bound, and with every outcome if no operation rejects.
use mathlib.Core.Path.{subst}
use cassist.Prelude.{
  some_eq, ℕ, zero, suc, ◌+◌, ◌*◌, ◌-◌, ◌≡◌, ◌≤◌, ◌<◌, refl, ap, sym, ◌∙◌, Option, none, some, List,
  [], ◌∷◌, length, get_elem?, arith, inl, inr, All, get_elem?-lt,
}
use cassist.Pool.{
  Worker, ready, busy, finished, failed, State, resume, resolve, reject, Step, resumes, resolves,
  rejects, Reachable,
}
use cassist.Pool.Count.{total, total-set, holds, is_finished, has_outcome, left}
use cassist.Pool.Keeps.{Reachable-IsSound}

-- What a run has left to do: three events for an item that is not taken, and what its workers have.
abbrev pub measure : {R : Type 0} → ℕ → State R → ℕ
measure count s = 3 * (count - s.next_index) + total left s.workers

-- Each event of a run of `mapWithConcurrency` lowers what is left of it, so that no run has
-- infinitely many events.
pub Step-measure :
    {A R : Type 0} (Settles : A → R → Type 0) (items : List A) (s t : State R)
    → Step Settles items s t
    → measure (length items) t < measure (length items) s
unfolding resume resolve reject
Step-measure Settles items s t (resumes k h) = ground (
  arith,
  total-set left s.workers k ready (busy s.next_index) h,
  total-set left s.workers k ready finished h,
)
Step-measure Settles items s t (resolves k i a r h at given) =
    omega (arith, total-set left s.workers k (busy i) ready h)
Step-measure Settles items s t (rejects k i h) =
    omega (arith, total-set left s.workers k (busy i) (failed i) h)

-- `Promise.all` over the workers resolves: each of them ended, and none was rejected.
abbrev pub IsResolved : {R : Type 0} → State R → Type 0
IsResolved s = All (λ w. w ≡ finished) s.workers

total_of_finished :
    (f : Worker → ℕ) (ws : List Worker)
    → f finished ≡ 0
    → All (λ w. w ≡ finished) ws
    → total f ws ≡ 0
unfolding total
total_of_finished f [] z h = refl
total_of_finished f (w ∷ ws) z h =
    let here : f w ≡ 0 = ap f h.0 ∙ z in omega (arith, total_of_finished f ws z h.1)

all_finished : (ws : List Worker) → All (λ w. w ≡ finished) ws → total is_finished ws ≡ length ws
unfolding total
all_finished [] h = refl
all_finished (w ∷ ws) h =
    let here : is_finished w ≡ 1 = ap is_finished h.0 in omega (arith, all_finished ws h.1)

outcome_of_one :
    {R : Type 0} (os : List (Option R)) (i : ℕ)
    → has_outcome i os ≡ 1
    → (r : R) × (get_elem? os i ≡ some (some r))
outcome_of_one [] i h = ground arith
outcome_of_one (none ∷ os) zero h = ground arith
outcome_of_one (some r ∷ os) zero h = (r, refl)
outcome_of_one (o ∷ os) (suc i) h = outcome_of_one os i h

-- The limit is at least 1. When a run of `mapWithConcurrency` resolves, there is an outcome at
-- the place of every item, one that the operation gives on that item.
pub resolved-outcomes :
    {A R : Type 0} (Settles : A → R → Type 0) (limit : ℕ) (items : List A) (s : State R)
    → Reachable Settles limit items s
    → 1 ≤ limit
    → IsResolved s
    → (i : ℕ) (a : A) → get_elem? items i ≡ some a
    → (r : R) × (get_elem? s.outcomes i ≡ some (some r)) × Settles a r
resolved-outcomes Settles limit items s reach positive resolved i a h =
    let sound = Reachable-IsSound Settles limit items s reach in
    let inside : i < length items = get_elem?-lt items i a h in
    let ended : length items ≤ s.next_index = elim sound.ended [
      | inl over ↦ over
      | inr z ↦ absurd (omega (arith, all_finished s.workers resolved, sound.workers))
    ] in
    let one : has_outcome i s.outcomes ≡ 1 =
      ground (arith, sound.held i, total_of_finished (holds i) s.workers refl resolved) in
    let (r, at) = outcome_of_one s.outcomes i one in
    let (b, same, given) = sound.settled i r at in
    (r, at, subst (λ x. Settles x r) (some_eq (sym same ∙ h)) given)
