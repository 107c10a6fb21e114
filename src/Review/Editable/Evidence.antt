-- ===== src/Review/Editable/Evidence.antt =====
-- Which evidence the values on the review page make active: `onEvidenceChange` in
-- frontend/src/pages/review-components.jsx and review-page.jsx.
use cassist.Prelude.{
  ◌≡◌, refl, Bool, true, false, not, ◌&&◌, ◌||◌, Option, none, some, List, [], ◌∷◌, ◌==◌,
  if◌then◌else◌,
}
use cassist.Review.Editor.{
  Editor, Key, enter, escape, tab, other, Request, Reaction, save, move, choose, start_editing,
  cancel_editing, key_down, use_suggestion, settle_save,
}
use cassist.Review.Value.{
  Props, Event, press_edit, press_save, press_cancel, type_draft, type_reason, accept, press_key,
  press_box, hover, settled, guarded, handle,
}
use cassist.Review.Editable.{show_evidence}

-- The evidence of the value becomes active when the pointer or the focus comes to it, none when they
-- leave it, and nothing else changes which is.
abbrev pub evidence_after {ℓ} : {E : Type ℓ} → (evidence : E) → Event → Option E → Option E
evidence_after evidence (hover here) active = if here then some evidence else none
evidence_after evidence _ active = active

module _ {ℓ} {E : Type ℓ} (evidence : E) (active : Option E) (props : Props) where
  -- These requests leave the active evidence alone.
  Keeps : List Request → Type ℓ
  Keeps requests = show_evidence evidence requests active ≡ active

  Keeps-guarded : (b : Bool) (r : Reaction) (e : Editor) → Keeps r.1 → Keeps (guarded b r e).1
  unfolding Keeps show_evidence
  Keeps-guarded true r e h = h
  Keeps-guarded false r e h = refl

  Keeps-if :
      (b : Bool) (r q : Reaction)
      → Keeps r.1
      → Keeps q.1
      → Keeps (if◌then◌else◌ {A = Reaction} b r q).1
  Keeps-if true r q h g = h
  Keeps-if false r q h g = g

  Keeps-key_down :
      (blank : Bool) (key : Key) (e : Editor)
      → Keeps (key_down props.value props.saving props.navigates blank key e).1
  unfolding Keeps show_evidence key_down
  Keeps-key_down blank escape e = refl
  Keeps-key_down blank other e = refl
  Keeps-key_down blank (enter m) e =
      Keeps-if (m && not (e.draft == "") && not props.saving) (e, save e.draft e.reason none ∷ [])
        (e, []) refl refl
  Keeps-key_down blank (tab shift) e =
      let saved : Reaction = (e, save e.draft e.reason (some (not shift)) ∷ []) in
      let moved : Reaction = (cancel_editing props.value, move (not shift) ∷ []) in
      let changed = not (e.draft == props.value) || not blank in
      Keeps-if props.navigates (if changed then saved else moved) (e, [])
        (Keeps-if changed saved moved refl refl) refl

  pub show_evidence-handle :
      (event : Event) (e : Editor)
      → show_evidence evidence (handle props event e).1 active
        ≡ evidence_after evidence event active
  unfolding Keeps show_evidence handle use_suggestion settle_save
  show_evidence-handle press_edit e = Keeps-guarded _ (start_editing props.value e, []) e refl
  show_evidence-handle press_save e = Keeps-guarded _ (e, save e.draft e.reason none ∷ []) e refl
  show_evidence-handle press_cancel e = Keeps-guarded _ (cancel_editing props.value, []) e refl
  show_evidence-handle (type_draft text) e = Keeps-guarded _ (record e { draft = text }, []) e refl
  show_evidence-handle (type_reason text) e =
      Keeps-guarded _ (record e { reason = text }, []) e refl
  show_evidence-handle (accept text) e = Keeps-guarded _ (use_suggestion text e) e refl
  show_evidence-handle (press_key key) e =
      Keeps-guarded _
        (key_down props.value props.saving props.navigates (props.is_blank e.reason) key e) e
        (Keeps-key_down (props.is_blank e.reason) key e)
  show_evidence-handle (press_box chosen) e = Keeps-guarded _ (e, choose chosen ∷ []) e refl
  show_evidence-handle (hover here) e = refl
  show_evidence-handle (settled true none) e = refl
  show_evidence-handle (settled true (some m)) e = refl
  show_evidence-handle (settled false m) e = refl
