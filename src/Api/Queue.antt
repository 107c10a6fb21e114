-- ===== src/Api/Queue.antt =====
-- `csrfMutationQueue` of api.js: each mutation waits for the promise of the one called before it.
use cassist.Prelude.{
  ℕ, zero, suc, ◌≡◌, refl, Bool, true, false, some, List, [], ◌∷◌, ◌++◌, get_elem?, set, any, All,
  arith,
}

-- The promise of one call of `csrfRequest`: its `request` has not begun, is under way, or has settled,
-- with success or not.
pub data Status : Type 0 where
  waiting running : Status
  settled : (fulfilled : Bool) → Status

-- The promises, in the order of the calls. The last one is what `csrfMutationQueue` follows.
abbrev pub Queue : Type 0
Queue = List Status

-- `csrfMutationQueue.then(request, request)` may run `request`: the promise that it was chained to
-- has settled, either way, or there was none.
abbrev pub IsFree : Queue → ℕ → Type 0
IsFree q zero = Unit
IsFree q (suc i) = (fulfilled : Bool) × (get_elem? q i ≡ some (settled fulfilled))

-- `csrfRequest` is called, a request begins, or one settles.
pub data Step : Queue → Queue → Type 0 where
  calls : {q : Queue} → Step q (q ++ waiting ∷ [])
  begins :
      {q : Queue} (i : ℕ) → get_elem? q i ≡ some waiting → IsFree q i → Step q (set q i running)
  settles :
      {q : Queue} (i : ℕ) (fulfilled : Bool)
      → get_elem? q i ≡ some running
      → Step q (set q i (settled fulfilled))

pub data Reachable : Queue → Type 0 where
  empty : Reachable []
  steps : {q r : Queue} → Reachable q → Step q r → Reachable r

abbrev AllWaiting : Queue → Type 0
AllWaiting q = All (λ s. s ≡ waiting) q

-- First the calls that have settled, then at most one that is under way, then those that wait.
abbrev pub IsInTurn : Queue → Type 0
IsInTurn [] = Unit
IsInTurn (settled _ ∷ q) = IsInTurn q
IsInTurn (running ∷ q) = AllWaiting q
IsInTurn (waiting ∷ q) = AllWaiting q

not_waiting : (q : Queue) (i : ℕ) (s : Status) → AllWaiting q → get_elem? q i ≡ some s → s ≡ waiting
not_waiting [] i s h at = absurd (ground arith)
not_waiting (x ∷ q) zero s h at = cc
not_waiting (x ∷ q) (suc i) s h at = not_waiting q i s h.1 at

InTurn-AllWaiting : (q : Queue) → AllWaiting q → IsInTurn q
InTurn-AllWaiting [] h = tt
InTurn-AllWaiting (waiting ∷ q) h = h.1
InTurn-AllWaiting (running ∷ q) h = h.1
InTurn-AllWaiting (settled b ∷ q) h = InTurn-AllWaiting q h.1

AllWaiting-call : (q : Queue) → AllWaiting q → AllWaiting (q ++ waiting ∷ [])
AllWaiting-call [] h = (refl, tt)
AllWaiting-call (x ∷ q) h = (h.0, AllWaiting-call q h.1)

InTurn-call : (q : Queue) → IsInTurn q → IsInTurn (q ++ waiting ∷ [])
InTurn-call [] h = tt
InTurn-call (settled b ∷ q) h = InTurn-call q h
InTurn-call (running ∷ q) h = AllWaiting-call q h
InTurn-call (waiting ∷ q) h = AllWaiting-call q h

settled-ne-waiting : (b : Bool) → settled b ≡ waiting → ⊥
settled-ne-waiting b h = cc

running-ne-waiting : running ≡ waiting → ⊥
running-ne-waiting h = cc

InTurn-begin :
    (q : Queue) (i : ℕ)
    → IsInTurn q
    → get_elem? q i ≡ some waiting
    → IsFree q i
    → IsInTurn (set q i running)
InTurn-begin [] i h at free = tt
InTurn-begin (settled b ∷ q) zero h at free = absurd (ground arith)
InTurn-begin (settled b ∷ q) (suc zero) h at free = InTurn-begin q zero h at tt
InTurn-begin (settled b ∷ q) (suc (suc i)) h at free = InTurn-begin q (suc i) h at free
InTurn-begin (running ∷ q) zero h at free = absurd (ground arith)
InTurn-begin (running ∷ q) (suc zero) h at (b, prev) = absurd (ground arith)
InTurn-begin (running ∷ q) (suc (suc i)) h at (b, prev) =
    absurd (settled-ne-waiting b (not_waiting q i (settled b) h prev))
InTurn-begin (waiting ∷ q) zero h at free = h
InTurn-begin (waiting ∷ q) (suc zero) h at (b, prev) = absurd (ground arith)
InTurn-begin (waiting ∷ q) (suc (suc i)) h at (b, prev) =
    absurd (settled-ne-waiting b (not_waiting q i (settled b) h prev))

InTurn-settle :
    (q : Queue) (i : ℕ) (b : Bool)
    → IsInTurn q
    → get_elem? q i ≡ some running
    → IsInTurn (set q i (settled b))
InTurn-settle [] i b h at = tt
InTurn-settle (settled c ∷ q) zero b h at = h
InTurn-settle (settled c ∷ q) (suc i) b h at = InTurn-settle q i b h at
InTurn-settle (running ∷ q) zero b h at = InTurn-AllWaiting q h
InTurn-settle (running ∷ q) (suc i) b h at =
    absurd (running-ne-waiting (not_waiting q i running h at))
InTurn-settle (waiting ∷ q) zero b h at = absurd (ground arith)
InTurn-settle (waiting ∷ q) (suc i) b h at =
    absurd (running-ne-waiting (not_waiting q i running h at))

-- In whatever order mutations are called and settle, with success or not, their requests run in the
-- order of the calls and one at a time: those called before the one under way have settled, and those
-- called after it have not begun.
pub Reachable-IsInTurn : (q : Queue) → Reachable q → IsInTurn q
Reachable-IsInTurn q empty = tt
Reachable-IsInTurn q (steps {q = p} before calls) = InTurn-call p (Reachable-IsInTurn p before)
Reachable-IsInTurn q (steps {q = p} before (begins i at free)) =
    InTurn-begin p i (Reachable-IsInTurn p before) at free
Reachable-IsInTurn q (steps {q = p} before (settles i b at)) =
    InTurn-settle p i b (Reachable-IsInTurn p before) at

abbrev pub is_running : Status → Bool
is_running running = true
is_running _ = false

abbrev pub is_waiting : Status → Bool
is_waiting waiting = true
is_waiting _ = false

first_waiting :
    (q : Queue)
    → IsInTurn q
    → any is_running q ≡ false
    → any is_waiting q ≡ true
    → (i : ℕ) × (get_elem? q i ≡ some waiting) × IsFree q i
first_waiting [] h r w = absurd (ground arith)
first_waiting (waiting ∷ q) h r w = (0, refl, tt)
first_waiting (running ∷ q) h r w = absurd (ground arith)
first_waiting (settled b ∷ q) h r w = go (first_waiting q h r w)
  where
    go :
        (i : ℕ) × (get_elem? q i ≡ some waiting) × IsFree q i
        → (j : ℕ) × (get_elem? (settled b ∷ q) j ≡ some waiting) × IsFree (settled b ∷ q) j
    go (zero, at, free) = (1, at, (b, refl))
    go (suc i, at, free) = (suc (suc i), at, free)

-- A failed mutation never blocks the others: whenever some mutation waits and no request is under way,
-- the next one in line can begin.
pub waiting-CanBegin :
    (q : Queue)
    → Reachable q
    → any is_running q ≡ false
    → any is_waiting q ≡ true
    → (i : ℕ) × (get_elem? q i ≡ some waiting) × IsFree q i
waiting-CanBegin q reach r w = first_waiting q (Reachable-IsInTurn q reach) r w
