-- ===== src/Pool/Count.antt =====
-- Sums over the workers of `mapWithConcurrency`.
use cassist.Prelude.{
  ℕ, zero, suc, ◌+◌, ◌≡◌, ◌≤◌, refl, Option, none, some, List, [], ◌∷◌, length, get_elem?, set,
  replicate, eqb, if◌then◌else◌, arith,
}
use cassist.Pool.{Worker, ready, busy, finished, failed}

module _ {ℓ} {A : Type ℓ} (weight : A → ℕ) where
  unfoldable pub total : List A → ℕ
  total [] = 0
  total (x ∷ xs) = weight x + total xs

  pub total-set :
      (xs : List A) (k : ℕ) (x v : A)
      → get_elem? xs k ≡ some x
      → total (set xs k v) + weight x ≡ total xs + weight v
  unfolding total
  total-set [] k x v h = ground arith
  total-set (y ∷ ys) zero x v h = ground arith
  total-set (y ∷ ys) (suc k) x v h = omega (arith, total-set ys k x v h)

  pub total-replicate : (n : ℕ) (x : A) → weight x ≡ 0 → total (replicate n x) ≡ 0
  unfolding total
  total-replicate zero x h = refl
  total-replicate (suc n) x h = omega (arith, total-replicate n x h)

  pub get_elem?-total_le :
      (xs : List A) (k : ℕ) (x : A) → get_elem? xs k ≡ some x → weight x ≤ total xs
  unfolding total
  get_elem?-total_le [] k x h = ground arith
  get_elem?-total_le (y ∷ ys) zero x h = ground arith
  get_elem?-total_le (y ∷ ys) (suc k) x h = omega (arith, get_elem?-total_le ys k x h)

  pub total-le_length : (xs : List A) → ((x : A) → weight x ≤ 1) → total xs ≤ length xs
  unfolding total
  total-le_length [] h = omega arith
  total-le_length (x ∷ xs) h = omega (arith, total-le_length xs h, h x)

-- 1 where the worker holds item `i`, so that it has been called and gave nothing yet.
abbrev pub holds : ℕ → Worker → ℕ
holds i ready = 0
holds i finished = 0
holds i (busy j) = if eqb i j then 1 else 0
holds i (failed j) = if eqb i j then 1 else 0

abbrev pub is_busy : Worker → ℕ
is_busy (busy _) = 1
is_busy _ = 0

abbrev pub is_finished : Worker → ℕ
is_finished finished = 1
is_finished _ = 0

-- What a worker has left to do before it looks at the items again.
abbrev pub left : Worker → ℕ
left ready = 1
left (busy _) = 2
left _ = 0

-- 1 where item `i` has its outcome.
abbrev pub has_outcome {ℓ} : {R : Type ℓ} → ℕ → List (Option R) → ℕ
has_outcome i [] = 0
has_outcome zero (none ∷ os) = 0
has_outcome zero (some _ ∷ os) = 1
has_outcome (suc i) (o ∷ os) = has_outcome i os

-- The numbers below `n`, the last first.
abbrev pub down_from : ℕ → List ℕ
down_from zero = []
down_from (suc n) = n ∷ down_from n
