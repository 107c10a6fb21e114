-- ===== src/Preview/Draws/Exclusive.antt =====
-- What the drawings of one page of a PDF keep: one rendering and one text layer at a time.
use mathlib.Core.Path.{subst}
use cassist.Prelude.{
  ℕ, suc, ◌≡◌, refl, ap, sym, ◌∙◌, Bool, true, false, not, ◌&&◌, Option, none, some, List, [], ◌∷◌,
  is_some, arith, Bool-cases, inl, inr,
}
use cassist.Pool.Count.{down_from}
use cassist.Preview.Numbers.{Numbers}
use cassist.Preview.Load.{Viewport}
use cassist.Preview.Pdf.{RenderView}
use cassist.Preview.Page.{
  Page, Drawing, is_task, cancel_task, settle_render, retry_render, render_page,
}
use cassist.Preview.Text.{Text, clean_up_text, start_text, text_arrives, with_layer}
use cassist.Preview.Draws.{
  Drawn, Event, seen, view_changed, resized, retried, removed, rendered, text_arrived, see,
  keep_text, same, handle, handle_all, unseen,
}

-- Each rendering that was started is cancelled, once, but for the latest while it is active.
abbrev pub IsExclusive : Option ℕ → ℕ → List ℕ → Type 0
IsExclusive none tasks cancelled = cancelled ≡ down_from tasks
IsExclusive (some k) tasks cancelled = (tasks ≡ suc k) × (cancelled ≡ down_from k)

-- Each layer that was made is cancelled, once, but for that of the active run, whose text is the
-- one in the container.
abbrev pub IsLayered : Option ℕ → Text → Type 0
IsLayered none t = t.created ≡ t.cancelled
IsLayered (some k) t = (t.created ≡ k ∷ t.cancelled) × (t.active ≡ some k) × (t.shown ≡ some k)

pub record IsDrawn {ℓ} {W : Type ℓ} (d : Drawn W) : Type 0 where
  pub exclusive : IsExclusive d.page.task d.page.tasks d.page.cancelled
  pub layered : IsLayered d.text.layer d.text

-- The clean-up of the rendering effect.
cancel_task-IsExclusive :
    (task : Option ℕ) (p : Page)
    → p.task ≡ task
    → IsExclusive task p.tasks p.cancelled
    → ((cancel_task task p).task ≡ none)
      × ((cancel_task task p).cancelled ≡ down_from (cancel_task task p).tasks)
unfolding cancel_task
cancel_task-IsExclusive none p same h = (same, h)
cancel_task-IsExclusive (some k) p same (more, all) =
    (refl, ap (λ ks. k ∷ ks) all ∙ ap down_from (sym more))

created-IsLayered :
    (layer : Option ℕ) (t : Text) → IsLayered layer t → t.created ≡ with_layer layer t.cancelled
created-IsLayered none t h = h
created-IsLayered (some k) t h = h.0

start_text-IsLayered :
    (near available : Bool) (t : Text)
    → t.created ≡ with_layer t.layer t.cancelled
    → IsLayered (start_text near available t).layer (start_text near available t)
unfolding start_text clean_up_text
start_text-IsLayered near available t h = elim (Bool-cases (near && available)) [
  | inl e ↦ rw e h
  | inr e ↦ rw e h
]

is_task_eq : (task : Option ℕ) (k : ℕ) → is_task task k ≡ true → task ≡ some k
unfolding is_task
is_task_eq none k h = ground arith
is_task_eq (some j) k h = ap some (ground arith)

no_layer :
    (layer : Option ℕ) (t : Text)
    → is_some layer ≡ false
    → IsLayered layer t
    → t.created ≡ t.cancelled
no_layer none t e h = h
no_layer (some k) t e h = absurd (ground arith)

text_arrives-IsLayered :
    (k : ℕ) (t : Text) → IsLayered t.layer t → IsLayered (text_arrives k t).layer (text_arrives k t)
unfolding text_arrives
text_arrives-IsLayered k t h = elim (Bool-cases (is_task t.active k && not (is_some t.layer))) [
  | inr e ↦ rw e h
  | inl e ↦
      let bare = no_layer t.layer t (ground arith) h in
      rw e (ap (λ ks. k ∷ ks) bare, is_task_eq t.active k (ground arith), refl)
]

settle_render-IsExclusive :
    (k : ℕ) (result : Drawing) (p : Page)
    → IsExclusive p.task p.tasks p.cancelled
    → (let q = settle_render k result p in IsExclusive q.task q.tasks q.cancelled)
unfolding settle_render
settle_render-IsExclusive k result p h = elim (Bool-cases (is_task p.task k)) [
  | inl e ↦ rw e h
  | inr e ↦ rw e h
]

module _ {ℓ} {W : Type ℓ} ⦃n : Numbers W⦄ (viewport_at : ℕ → W → Viewport W)
    (device_pixel_ratio : W) where
  render_page-IsExclusive :
      (view : RenderView W) (p : Page)
      → IsExclusive p.task p.tasks p.cancelled
      → (let q = render_page viewport_at device_pixel_ratio view p in
          IsExclusive q.task q.tasks q.cancelled)
  unfolding render_page
  render_page-IsExclusive view p h =
      let q = cancel_task p.task p in
      let (idle, all) = cancel_task-IsExclusive p.task p refl h in
      elim (Bool-cases (q.near_viewport && q.mounted)) [
        | inl e ↦ rw e (refl, all)
        | inr e ↦ rw e (subst (λ t. IsExclusive t q.tasks q.cancelled) (sym idle) all)
      ]

  module _ (has_text_layer : Bool) where
    handle-IsDrawn :
        (event : Event W) (d : Drawn W)
        → IsDrawn d
        → IsDrawn (handle viewport_at device_pixel_ratio has_text_layer event d)
    unfolding handle retry_render clean_up_text
    handle-IsDrawn (seen near) d h = elim (Bool-cases (same near d.page.near_viewport)) [
      | inl e ↦ rw e h
      | inr e ↦ rw e (record {
        exclusive = render_page-IsExclusive d.view (see near d.page) h.exclusive;
        layered =
            start_text-IsLayered near has_text_layer (keep_text near d.text)
              (created-IsLayered d.text.layer d.text h.layered);
      })
    ]
    handle-IsDrawn (view_changed view) d h = record {
      exclusive = render_page-IsExclusive view d.page h.exclusive;
      layered = h.layered;
    }
    handle-IsDrawn resized d h = record {
      exclusive = h.exclusive;
      layered =
          start_text-IsLayered d.page.near_viewport has_text_layer d.text
            (created-IsLayered d.text.layer d.text h.layered);
    }
    handle-IsDrawn retried d h = record {
      exclusive = render_page-IsExclusive d.view (retry_render d.page) h.exclusive;
      layered = h.layered;
    }
    handle-IsDrawn removed d h =
        let (idle, all) = cancel_task-IsExclusive d.page.task d.page refl h.exclusive in
        let q = cancel_task d.page.task d.page in
        record {
          exclusive = subst (λ t. IsExclusive t q.tasks q.cancelled) (sym idle) all;
          layered = created-IsLayered d.text.layer d.text h.layered;
        }
    handle-IsDrawn (rendered k result) d h = record {
      exclusive = settle_render-IsExclusive k result d.page h.exclusive;
      layered = h.layered;
    }
    handle-IsDrawn (text_arrived k) d h = record {
      exclusive = h.exclusive;
      layered = text_arrives-IsLayered k d.text h.layered;
    }

    kept-IsDrawn :
        (events : List (Event W)) (d : Drawn W)
        → IsDrawn d
        → IsDrawn (handle_all viewport_at device_pixel_ratio has_text_layer events d)
    unfolding handle_all
    kept-IsDrawn [] d h = h
    kept-IsDrawn (event ∷ events) d h =
        kept-IsDrawn events (handle viewport_at device_pixel_ratio has_text_layer event d)
          (handle-IsDrawn event d h)

    -- Whatever happens to a page, in whatever order: each rendering that was started is cancelled,
    -- and once, when another follows or the page goes, so that at most one is active on its canvas;
    -- and each text layer that was made is cancelled, and once, but for one, which is that of the
    -- effect's latest run, and whose text is the one that is shown.
    pub handle_all-IsDrawn :
        (events : List (Event W)) (view : RenderView W)
        → IsDrawn (handle_all viewport_at device_pixel_ratio has_text_layer events (unseen view))
    unfolding unseen
    handle_all-IsDrawn events view =
        kept-IsDrawn events (unseen view) (record { exclusive = refl; layered = refl })
