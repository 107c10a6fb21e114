-- ===== src/Preview/Load.antt =====
-- The loads of a PDF: the effect of `PdfPreview`, whose attempts may end after they were replaced.
use cassist.Prelude.{
  ℕ, zero, suc, ◌+◌, ◌<◌, ◌≡◌, ◌≢◌, ◌⊎◌, String, Bool, true, false, ◌&&◌, Option, none, some, List,
  [], ◌∷◌, if◌then◌else◌, eqb,
}
pub mod Refinement
pub mod Descriptors

-- The size of a page at scale 1, as the PDF library gives it.
pub record Viewport {ℓ} (W : Type ℓ) : Type ℓ where
  pub width : W
  pub height : W

pub record Descriptor {ℓ} (W : Type ℓ) : Type ℓ where
  pub page_number : ℕ
  pub width : W
  pub height : W

-- `Promise.all(Array.from(...))`, where `get_page` is of the PDF library and counts from 1
unfoldable pub descriptors_from {ℓ} : {W : Type ℓ} → (ℕ → Viewport W) → ℕ → ℕ → List (Descriptor W)
descriptors_from get_page index zero = []
descriptors_from get_page index (suc more) =
    record {
      page_number = index + 1;
      width = (get_page (index + 1)).width;
      height = (get_page (index + 1)).height;
    }
    ∷ descriptors_from get_page (suc index) more

unfoldable pub descriptors {ℓ} : {W : Type ℓ} → (ℕ → Viewport W) → ℕ → List (Descriptor W)
unfolding descriptors_from
descriptors get_page num_pages = descriptors_from get_page 0 num_pages

-- Where the latest attempt is: awaiting the library, awaiting the document, or at its end.
pub data Stage : Type 0 where
  importing loading ended : Stage

-- `attempt` is the latest one, which is `active` until its clean-up, and `task` says that it has a
-- loading task. `destroyed` has the attempts whose tasks or documents were destroyed.
pub record Load {ℓ} (P : Type ℓ) : Type ℓ where
  pub pages : P
  pub error : Option String
  pub attempt : ℕ
  pub active : Bool
  pub stage : Stage
  pub task : Bool
  pub destroyed : List ℕ

module _ {ℓ} {P : Type ℓ} where
  -- The clean-up of the effect.
  unfoldable pub clean_up : Load P → Load P
  clean_up s = record s {
    active = false;
    destroyed = if s.active && s.task then s.attempt ∷ s.destroyed else s.destroyed;
  }

  -- The effect, by a retry or another source, up to its first `await`.
  unfoldable pub start_load : Load P → Load P
  unfolding clean_up
  start_load s = record (clean_up s) {
    error = none;
    attempt = suc s.attempt;
    active = true;
    stage = importing;
    task = false;
  }

  abbrev pub is_active : ℕ → Load P → Bool
  is_active k s = s.active && eqb k s.attempt

  -- The attempt `k` goes on from `await import("pdfjs-dist")`.
  unfoldable pub continue_load : ℕ → Load P → Load P
  continue_load k s = if is_active k s then record s { stage = loading; task = true } else s

  -- The attempt `k` has all its pages.
  unfoldable pub end_load : ℕ → P → Load P → Load P
  end_load k pages s =
      if is_active k s
      then record s { pages = pages; stage = ended }
      else record s { destroyed = k ∷ s.destroyed }

  -- The attempt `k` was rejected.
  unfoldable pub fail_load : ℕ → String → Load P → Load P
  fail_load k e s = if is_active k s then record s { error = some e; stage = ended } else s

-- A step of the effects and of the attempts. An attempt that was replaced may be anywhere.
pub data Step {ℓ} {P : Type ℓ} : Load P → Load P → Type ℓ where
  restarts : {s : Load P} → Step s (start_load s)
  unmounts : {s : Load P} → Step s (clean_up s)
  continues :
      {s : Load P} (k : ℕ) → (k ≡ s.attempt → s.stage ≡ importing) → Step s (continue_load k s)
  ends :
      {s : Load P} (k : ℕ) (pages : P)
      → (k ≡ s.attempt → s.stage ≡ loading)
      → Step s (end_load k pages s)
  fails :
      {s : Load P} (k : ℕ) (e : String)
      → (k ≡ s.attempt → s.stage ≢ ended)
      → Step s (fail_load k e s)

-- The first render.
abbrev pub unloaded {ℓ} : {P : Type ℓ} → P → Load P
unloaded nothing = record {
  pages = nothing;
  error = none;
  attempt = 0;
  active = false;
  stage = ended;
  task = false;
  destroyed = [];
}

pub data Reachable {ℓ} {P : Type ℓ} (nothing : P) : Load P → Type ℓ where
  begins : Reachable nothing (start_load (unloaded nothing))
  steps : {s t : Load P} → Reachable nothing s → Step s t → Reachable nothing t
