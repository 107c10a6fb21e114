-- ===== src/Preview/Load/Refinement.antt =====
-- The loads refine a viewer that has one load at a time and ignores what comes of the others.
use cassist.Prelude.{
  ℕ, suc, eqb, if◌then◌else◌, ◌≡◌, ◌≢◌, inl, inr, refl, ap, String, true, false, Option, none, some,
  List, [], ◌∷◌, arith, Bool-cases,
}
use cassist.Preview.Load.{
  importing, loading, ended, Load, clean_up, start_load, is_active, continue_load, end_load,
  fail_load, Step, restarts, unmounts, continues, ends, fails, Reachable, begins, steps,
}

-- What the viewer is doing: which load it has, counted from 1, and the pages that it shows.
pub data Viewer {ℓ} (P : Type ℓ) : Type ℓ where
  waiting : ℕ → P → Viewer P
  ready : ℕ → P → Viewer P
  broken : ℕ → P → String → Viewer P
  closed : ℕ → P → Viewer P

-- What happens to the viewer: a restart, its end, the pages of a load, or the error of a load.
pub data Label {ℓ} (P : Type ℓ) : Type ℓ where
  reload : Label P
  close : Label P
  give : ℕ → P → Label P
  reject : ℕ → String → Label P

module _ {ℓ} {P : Type ℓ} where
  abbrev pub load_of : Viewer P → ℕ
  load_of (waiting k p) = k
  load_of (ready k p) = k
  load_of (broken k p e) = k
  load_of (closed k p) = k

  abbrev pub pages_of : Viewer P → P
  pages_of (waiting k p) = p
  pages_of (ready k p) = p
  pages_of (broken k p e) = p
  pages_of (closed k p) = p

  -- Only the load that the viewer waits for changes what it shows.
  abbrev pub observe : Label P → Viewer P → Viewer P
  observe reload v = waiting (suc (load_of v)) (pages_of v)
  observe close v = closed (load_of v) (pages_of v)
  observe (give k new) (waiting j old) = if eqb k j then ready j new else waiting j old
  observe (give k new) v = v
  observe (reject k e) (waiting j old) = if eqb k j then broken j old e else waiting j old
  observe (reject k e) v = v

  -- The newest label stands first.
  abbrev pub observe_all : List (Label P) → Viewer P → Viewer P
  observe_all [] v = v
  observe_all (l ∷ ls) v = observe l (observe_all ls v)

  -- What a step means to the viewer; that a load goes on means nothing.
  abbrev pub label : {s t : Load P} → Step s t → Option (Label P)
  label restarts = some reload
  label unmounts = some close
  label (continues k due) = none
  label (ends k pages due) = some (give k pages)
  label (fails k e due) = some (reject k e)

  abbrev pub more : Option (Label P) → List (Label P) → List (Label P)
  more none ls = ls
  more (some l) ls = l ∷ ls

  abbrev pub labels : {nothing : P} {s : Load P} → Reachable nothing s → List (Label P)
  labels begins = []
  labels (steps before step) = more (label step) (labels before)

  -- The state of the loads that a viewer stands for.
  abbrev pub Refines : Load P → Viewer P → Type ℓ
  Refines s (waiting k p) =
      (s.attempt ≡ k) × (s.pages ≡ p) × (s.error ≡ none) × (s.active ≡ true) × (s.stage ≢ ended)
  Refines s (ready k p) =
      (s.attempt ≡ k) × (s.pages ≡ p) × (s.error ≡ none) × (s.active ≡ true) × (s.stage ≡ ended)
  Refines s (broken k p e) =
      (s.attempt ≡ k) × (s.pages ≡ p) × (s.error ≡ some e) × (s.active ≡ true) × (s.stage ≡ ended)
  Refines s (closed k p) = (s.attempt ≡ k) × (s.pages ≡ p) × (s.active ≡ false)

  clean_up-Refines :
      (s : Load P) (v : Viewer P) → Refines s v → Refines (clean_up s) (observe close v)
  unfolding clean_up
  clean_up-Refines s (waiting k p) h = (h.0, h.1, refl)
  clean_up-Refines s (ready k p) h = (h.0, h.1, refl)
  clean_up-Refines s (broken k p e) h = (h.0, h.1, refl)
  clean_up-Refines s (closed k p) h = (h.0, h.1, refl)

  started :
      (s : Load P) (k : ℕ) (p : P)
      → s.attempt ≡ k
      → s.pages ≡ p
      → Refines (start_load s) (waiting (suc k) p)
  unfolding start_load clean_up
  started s k p at same = (ap suc at, same, refl, refl, λ e. ground arith)

  start_load-Refines :
      (s : Load P) (v : Viewer P) → Refines s v → Refines (start_load s) (observe reload v)
  start_load-Refines s (waiting k p) h = started s k p h.0 h.1
  start_load-Refines s (ready k p) h = started s k p h.0 h.1
  start_load-Refines s (broken k p e) h = started s k p h.0 h.1
  start_load-Refines s (closed k p) h = started s k p h.0 h.1

  is_active_lem : (k : ℕ) (s : Load P) → is_active k s ≡ true → (s.active ≡ true) × (k ≡ s.attempt)
  is_active_lem k s h = ground arith

  importing_open : (s : Load P) → s.stage ≡ importing → s.stage ≢ ended
  importing_open s h e = ground arith

  loading_open : (s : Load P) → s.stage ≡ loading → s.stage ≢ ended
  loading_open s h e = ground arith

  continue_active :
      (s : Load P) (v : Viewer P)
      → s.active ≡ true
      → s.stage ≢ ended
      → Refines s v
      → Refines (record s { stage = loading; task = true }) v
  continue_active s (waiting k p) on open_stage h = (h.0, h.1, h.2, h.3, λ e. ground arith)
  continue_active s (ready k p) on open_stage h = absurd (open_stage h.4)
  continue_active s (broken k p e) on open_stage h = absurd (open_stage h.4)
  continue_active s (closed k p) on open_stage h = ground arith

  -- The one load that is waited for.
  its_own : (s : Load P) (k j : ℕ) → is_active k s ≡ true → s.attempt ≡ j → eqb k j ≡ true
  its_own s k j e at = ground arith

  another :
      (s : Load P) (k j : ℕ)
      → is_active k s ≡ false
      → s.active ≡ true
      → s.attempt ≡ j
      → eqb k j ≡ false
  another s k j e on at = ground arith

  end_load-Refines :
      (s : Load P) (v : Viewer P) (k : ℕ) (pages : P)
      → (k ≡ s.attempt → s.stage ≡ loading)
      → Refines s v
      → Refines (end_load k pages s) (observe (give k pages) v)
  unfolding end_load
  end_load-Refines s (waiting j p) k pages due h = elim (Bool-cases (is_active k s)) [
    | inl e ↦ rw (e, its_own s k j e h.0) (h.0, refl, h.2, h.3, refl)
    | inr e ↦ rw (e, another s k j e h.3 h.0) h
  ]
  end_load-Refines s (ready j p) k pages due h = elim (Bool-cases (is_active k s)) [
    | inl e ↦ absurd (loading_open s (due (is_active_lem k s e).1) h.4)
    | inr e ↦ rw e h
  ]
  end_load-Refines s (broken j p f) k pages due h = elim (Bool-cases (is_active k s)) [
    | inl e ↦ absurd (loading_open s (due (is_active_lem k s e).1) h.4)
    | inr e ↦ rw e h
  ]
  end_load-Refines s (closed j p) k pages due h = elim (Bool-cases (is_active k s)) [
    | inl e ↦ ground arith
    | inr e ↦ rw e h
  ]

  fail_load-Refines :
      (s : Load P) (v : Viewer P) (k : ℕ) (f : String)
      → (k ≡ s.attempt → s.stage ≢ ended)
      → Refines s v
      → Refines (fail_load k f s) (observe (reject k f) v)
  unfolding fail_load
  fail_load-Refines s (waiting j p) k f due h = elim (Bool-cases (is_active k s)) [
    | inl e ↦ rw (e, its_own s k j e h.0) (h.0, h.1, refl, h.3, refl)
    | inr e ↦ rw (e, another s k j e h.3 h.0) h
  ]
  fail_load-Refines s (ready j p) k f due h = elim (Bool-cases (is_active k s)) [
    | inl e ↦ absurd (due (is_active_lem k s e).1 h.4)
    | inr e ↦ rw e h
  ]
  fail_load-Refines s (broken j p g) k f due h = elim (Bool-cases (is_active k s)) [
    | inl e ↦ absurd (due (is_active_lem k s e).1 h.4)
    | inr e ↦ rw e h
  ]
  fail_load-Refines s (closed j p) k f due h = elim (Bool-cases (is_active k s)) [
    | inl e ↦ ground arith
    | inr e ↦ rw e h
  ]

  continue_load-Refines :
      (s : Load P) (v : Viewer P) (k : ℕ)
      → (k ≡ s.attempt → s.stage ≡ importing)
      → Refines s v
      → Refines (continue_load k s) v
  unfolding continue_load
  continue_load-Refines s v k due h = elim (Bool-cases (is_active k s)) [
    | inr e ↦ rw e h
    | inl e ↦
        let (on, at) = is_active_lem k s e in
        rw e (continue_active s v on (importing_open s (due at)) h)
  ]

  -- From the first render on, after any restarts, clean-ups and ends of loads, in any order and even
  -- of loads that were replaced: the state is that of the viewer that has seen these events. The
  -- viewer starts without pages and has one load at a time. A restart keeps the pages that it has
  -- and drops an error, and a clean-up closes it; else what it shows changes just where the load
  -- that it waits for gives its pages or an error, and every other end of a load is ignored.
  pub Reachable-Refines :
      (nothing : P) (s : Load P) (run : Reachable nothing s)
      → Refines s (observe_all (labels run) (waiting 1 nothing))
  unfolding start_load clean_up
  Reachable-Refines nothing s begins = (refl, refl, refl, refl, λ e. ground arith)
  Reachable-Refines nothing s (steps {s = u} before restarts) =
      start_load-Refines u _ (Reachable-Refines nothing u before)
  Reachable-Refines nothing s (steps {s = u} before unmounts) =
      clean_up-Refines u _ (Reachable-Refines nothing u before)
  Reachable-Refines nothing s (steps {s = u} before (continues k due)) =
      continue_load-Refines u _ k due (Reachable-Refines nothing u before)
  Reachable-Refines nothing s (steps {s = u} before (ends k pages due)) =
      end_load-Refines u _ k pages due (Reachable-Refines nothing u before)
  Reachable-Refines nothing s (steps {s = u} before (fails k e due)) =
      fail_load-Refines u _ k e due (Reachable-Refines nothing u before)
