-- ===== src/Pool/Keeps.antt =====
-- What every run of `mapWithConcurrency` keeps: who holds which item, and how many are held.
use cassist.Prelude.{
  ℕ, zero, suc, ◌+◌, ◌≡◌, ◌≤◌, ◌<◌, min, refl, ap, sym, ◌∙◌, Option, none, some, List, [], ◌∷◌,
  length, get_elem?, set, replicate, eqb, ltb, if◌then◌else◌, arith, length-set, length-replicate,
  ◌⊎◌, inl, inr, Bool-cases, get_elem?-set_self, get_elem?-set_ne, get_elem?-lt,
}
use mathlib.Core.Path.{subst}
use cassist.Pool.{
  Worker, ready, busy, finished, failed, State, start, resume, resolve, reject, resumes, resolves,
  rejects, Reachable, starts, steps,
}
use cassist.Pool.Count.{
  total, total-set, total-replicate, get_elem?-total_le, total-le_length, holds, is_busy,
  is_finished, has_outcome, down_from,
}

pub has_outcome-replicate :
    (R : Type 0) (i n : ℕ) → has_outcome i (replicate {A = Option R} n none) ≡ 0
has_outcome-replicate R i zero = refl
has_outcome-replicate R zero (suc n) = refl
has_outcome-replicate R (suc i) (suc n) = has_outcome-replicate R i n

module _ {R : Type 0} where
  has_outcome-set :
      (i j : ℕ) (os : List (Option R)) (r : R)
      → j < length os
      → has_outcome i (set os j (some r)) ≡ (if eqb i j then 1 else has_outcome i os)
  has_outcome-set i j [] r h = elim h [ ]
  has_outcome-set zero zero (none ∷ os) r h = refl
  has_outcome-set zero zero (some _ ∷ os) r h = refl
  has_outcome-set zero (suc j) (none ∷ os) r h = ground arith
  has_outcome-set zero (suc j) (some _ ∷ os) r h = ground arith
  has_outcome-set (suc i) zero (o ∷ os) r h = ground arith
  has_outcome-set (suc i) (suc j) (o ∷ os) r h =
      ground (arith, has_outcome-set i j os r (omega arith))

-- Every item is called in order, and is then held by just one worker until it has an outcome.
pub record IsSound {A R : Type 0} (Settles : A → R → Type 0) (limit : ℕ) (items : List A)
    (s : State R) : Type 0 where
  pub workers : length s.workers ≡ min limit (length items)
  pub outcomes : length s.outcomes ≡ length items
  pub bound : s.next_index ≤ length items
  pub calls : s.calls ≡ down_from s.next_index
  pub held :
      (i : ℕ)
      → total (holds i) s.workers + has_outcome i s.outcomes ≡ (if ltb i s.next_index then 1 else 0)
  pub ended : length items ≤ s.next_index ⊎ total is_finished s.workers ≡ 0
  pub settled :
      (i : ℕ) (r : R)
      → get_elem? s.outcomes i ≡ some (some r)
      → (a : A) × (get_elem? items i ≡ some a) × Settles a r

module _ {A R : Type 0} (Settles : A → R → Type 0) (limit : ℕ) (items : List A) where
  inner_eq : {x y : R} → some (some x) ≡ some (some y) → x ≡ y
  inner_eq h = cc

  no_outcome : (n i : ℕ) (r : R) → get_elem? (replicate n none) i ≡ some (some r) → ⊥
  no_outcome zero i r h = ground arith
  no_outcome (suc n) zero r h = ground arith
  no_outcome (suc n) (suc i) r h = no_outcome n i r h

  start-IsSound : IsSound Settles limit items (start limit (length items))
  unfolding start
  start-IsSound = record {
    workers = length-replicate (min limit (length items)) ready;
    outcomes = length-replicate (length items) none;
    bound = omega arith;
    calls = refl;
    held = λ i. ground (
      arith,
      total-replicate (holds i) (min limit (length items)) ready refl,
      has_outcome-replicate R i (length items),
    );
    ended = inr (total-replicate is_finished (min limit (length items)) ready refl);
    settled = λ i r h. absurd (no_outcome (length items) i r h);
  }

  module _ (s : State R) (sound : IsSound Settles limit items s) where
    resume-IsSound :
        (k : ℕ)
        → get_elem? s.workers k ≡ some ready
        → IsSound Settles limit items (resume (length items) k s)
    unfolding resume
    resume-IsSound k h = elim (Bool-cases (ltb s.next_index (length items))) [
      | inl e ↦ rw e (record {
        workers = length-set s.workers k (busy s.next_index) ∙ sound.workers;
        outcomes = sound.outcomes;
        bound = ground arith;
        calls = ap (λ c. s.next_index ∷ c) sound.calls;
        held = λ i.
            ground
              (arith, sound.held i, total-set (holds i) s.workers k ready (busy s.next_index) h);
        ended = inr (elim sound.ended [
          | inl over ↦ absurd (ground arith)
          | inr z ↦ omega (arith, total-set is_finished s.workers k ready (busy s.next_index) h)
        ]);
        settled = sound.settled;
      })
      | inr e ↦ rw e (record {
        workers = length-set s.workers k finished ∙ sound.workers;
        outcomes = sound.outcomes;
        bound = sound.bound;
        calls = sound.calls;
        held = λ i. omega (arith, sound.held i, total-set (holds i) s.workers k ready finished h);
        ended = inl (ground arith);
        settled = sound.settled;
      })
    ]

    still_ended :
        (k : ℕ) (v w : Worker)
        → get_elem? s.workers k ≡ some v
        → is_finished v ≡ 0
        → is_finished w ≡ 0
        → length items ≤ s.next_index ⊎ total is_finished (set s.workers k w) ≡ 0
    still_ended k v w h p q = elim sound.ended [
      | inl over ↦ inl over
      | inr z ↦ inr (omega (arith, total-set is_finished s.workers k v w h))
    ]

    still_settled :
        (i : ℕ) (a : A) (r : R)
        → get_elem? items i ≡ some a
        → Settles a r
        → i < length s.outcomes
        → (j : ℕ) (q : R) → get_elem? (set s.outcomes i (some r)) j ≡ some (some q)
        → (b : A) × (get_elem? items j ≡ some b) × Settles b q
    still_settled i a r at given inside j q e = elim (Bool-cases (eqb i j)) [
      | inl same ↦
          let ij : i ≡ j = ground arith in
          let rq : r ≡ q = inner_eq (
            sym (get_elem?-set_self s.outcomes i (some r) inside)
            ∙ subst (λ n. get_elem? (set s.outcomes i (some r)) n ≡ some (some q)) (sym ij) e) in
          (a, rw (sym ij) at, subst (λ x. Settles a x) rq given)
      | inr other ↦
          sound.settled j q
            (sym (get_elem?-set_ne s.outcomes i j (some r) (λ same. ground arith)) ∙ e)
    ]

    resolve-IsSound :
        (k i : ℕ) (a : A) (r : R)
        → get_elem? s.workers k ≡ some (busy i)
        → get_elem? items i ≡ some a
        → Settles a r
        → IsSound Settles limit items (resolve k i r s)
    unfolding resolve
    resolve-IsSound k i a r h at given =
        let inside : i < length s.outcomes =
          omega (arith, get_elem?-lt items i a at, sound.outcomes) in
        record {
          workers = length-set s.workers k ready ∙ sound.workers;
          outcomes = length-set s.outcomes i (some r) ∙ sound.outcomes;
          bound = sound.bound;
          calls = sound.calls;
          held = λ j. ground (
            arith,
            sound.held j,
            total-set (holds j) s.workers k (busy i) ready h,
            get_elem?-total_le (holds j) s.workers k (busy i) h,
            has_outcome-set j i s.outcomes r inside,
          );
          ended = still_ended k (busy i) ready h refl refl;
          settled = λ j q e. still_settled i a r at given inside j q e;
        }

    reject-IsSound :
        (k i : ℕ)
        → get_elem? s.workers k ≡ some (busy i)
        → IsSound Settles limit items (reject k i s)
    unfolding reject
    reject-IsSound k i h = record {
      workers = length-set s.workers k (failed i) ∙ sound.workers;
      outcomes = sound.outcomes;
      bound = sound.bound;
      calls = sound.calls;
      held =
          λ j. omega (arith, sound.held j, total-set (holds j) s.workers k (busy i) (failed i) h);
      ended = still_ended k (busy i) (failed i) h refl refl;
      settled = sound.settled;
    }

-- Whatever the order in which the operations settle, a run of `mapWithConcurrency` keeps its
-- workers to the limit, calls the operation on the items in order and on each once, and holds each
-- item that was called either as one worker's own or as one outcome; an outcome stands at its
-- item's place and is one that the operation gives on that item.
pub Reachable-IsSound :
    {A R : Type 0} (Settles : A → R → Type 0) (limit : ℕ) (items : List A) (s : State R)
    → Reachable Settles limit items s
    → IsSound Settles limit items s
Reachable-IsSound Settles limit items s starts = start-IsSound Settles limit items
Reachable-IsSound Settles limit items s (steps {s = t} before (resumes k h)) =
    resume-IsSound Settles limit items t (Reachable-IsSound Settles limit items t before) k h
Reachable-IsSound Settles limit items s (steps {s = t} before (resolves k i a r h at given)) =
    resolve-IsSound Settles limit items t (Reachable-IsSound Settles limit items t before) k i a r h
      at given
Reachable-IsSound Settles limit items s (steps {s = t} before (rejects k i h)) =
    reject-IsSound Settles limit items t (Reachable-IsSound Settles limit items t before) k i h

-- At every moment of a run of `mapWithConcurrency`, at most as many operations are awaited as the
-- limit says, and no more than there are items.
pub Reachable-at_most_limit :
    {A R : Type 0} (Settles : A → R → Type 0) (limit : ℕ) (items : List A) (s : State R)
    → Reachable Settles limit items s
    → total is_busy s.workers ≤ min limit (length items)
Reachable-at_most_limit Settles limit items s h = omega (
  arith,
  total-le_length is_busy s.workers (λ w. ground arith),
  (Reachable-IsSound Settles limit items s h).workers,
)
