-- ===== src/Review/Editable/Careful.antt =====
-- What the events of a value do to the review page.
use cassist.Prelude.{
  has, has-add, has-delete, ◌≡◌, ◌⊎◌, inl, inr, refl, sym, ◌∙◌, String, Bool, true, false, not,
  ◌&&◌, ◌||◌, Option, none, some, List, [], ◌∷◌, ◌==◌, if◌then◌else◌, arith,
}
use cassist.Review.Editor.{
  Editor, Key, enter, escape, tab, other, Request, Reaction, save, move, choose, start_editing,
  cancel_editing, key_down, use_suggestion, settle_save,
}
use cassist.Review.Requests.{
  Page, is_pending, is_approved, save_correction, tick, idle, pending, correct,
}
use cassist.Review.{effective, set_section_selected}
use cassist.Review.Value.{
  Props, Event, press_edit, press_save, press_cancel, type_draft, type_reason, accept, press_key,
  press_box, hover, settled, is_typable, guarded, handle,
}
use cassist.Review.Editable.{Source, perform}

-- The page asks for one correction of the target, with the value and the trimmed reason, of a review that is not approved, while no other
-- correction is under way.
abbrev pub Corrects : Source → String → Page → Type 0
Corrects s id q =
    (value : String) × (reason : String) × (is_approved s.page ≡ false)
    × (is_pending s.page.correction ≡ false)
    × (q ≡ record s.page {
      correction = pending;
      sent =
          correct s.page.result.version id value
            (if s.trim reason == "" then none else some (s.trim reason))
          ∷ s.page.sent;
    })

-- The target is taken into the selection or out of it, and no other; nothing else of the page
-- changes but that the last save of a selection is forgotten.
abbrev pub Selects : String → Bool → Page → Page → Type 0
Selects id chosen p q =
    (q ≡ record p { selection = idle; draft_excluded = q.draft_excluded })
    × ((x : String)
        → has x (effective q.draft_excluded p.result.excluded_target_ids) ≡ (
            if id == x
            then not chosen
            else has x (effective p.draft_excluded p.result.excluded_target_ids)))

tick-Selects :
    (p : Page) (id : String) (chosen : Bool)
    → is_approved p ≡ false
    → is_pending p.selection ≡ false
    → Selects id chosen p (tick (id ∷ []) chosen p)
unfolding tick set_section_selected
tick-Selects p id true unapproved free =
    rw (unapproved, free)
      (
        refl,
        λ x.
            has-delete x id (effective p.draft_excluded p.result.excluded_target_ids)
            ∙ ground arith,
      )
tick-Selects p id false unapproved free =
    rw (unapproved, free)
      (
        refl,
        λ x. has-add x id (effective p.draft_excluded p.result.excluded_target_ids) ∙ ground arith,
      )

-- The box of the target was set, of a review that is not approved, while no selection is being saved.
abbrev pub Chooses : Source → String → Event → Page → Type 0
Chooses s id event q =
    (chosen : Bool) × (event ≡ press_box chosen)
    × (is_approved s.page ≡ false)
    × (is_pending s.page.selection ≡ false)
    × Selects id chosen s.page q

abbrev pub IsCareful : Source → String → Event → Page → Type 0
IsCareful s id event q = (q ≡ s.page) ⊎ (Corrects s id q ⊎ Chooses s id event q)

-- What the page tells its values of itself.
pub record Tells (s : Source) (props : Props) : Type 0 where
  pub can_edit : props.can_edit ≡ not (is_approved s.page)
  pub saving : props.saving ≡ is_pending s.page.correction
  pub box :
      props.on_selection_change ≡ true
      → props.selection_disabled ≡ false
      → (is_approved s.page ≡ false) × (is_pending s.page.selection ≡ false)

module _ (s : Source) (id : String) (event : Event) (props : Props) (tells : Tells s props) where
  after : List Request → Page
  after requests = perform s.trim id requests s.page

  after-guarded :
      (b : Bool) (r : Reaction) (e : Editor)
      → (b ≡ true → IsCareful s id event (after r.1))
      → IsCareful s id event (after (guarded b r e).1)
  unfolding after perform
  after-guarded true r e h = h refl
  after-guarded false r e h = inl refl

  saves :
      (value reason : String) (then_move : Option Bool)
      → props.can_edit ≡ true
      → props.saving ≡ false
      → IsCareful s id event (after (save value reason then_move ∷ []))
  unfolding after perform save_correction
  saves value reason then_move can free =
      inr (inl (value, reason, ground (arith, tells.can_edit), sym tells.saving ∙ free, refl))

  key_down-IsCareful :
      (blank : Bool) (key : Key) (e : Editor)
      → props.can_edit ≡ true
      → props.saving ≡ false
      → IsCareful s id event
          (after (key_down props.value props.saving props.navigates blank key e).1)
  unfolding key_down after perform
  key_down-IsCareful blank escape e can free = inl refl
  key_down-IsCareful blank other e can free = inl refl
  key_down-IsCareful blank (enter m) e can free = ask (m && not (e.draft == "") && not props.saving)
    where
      ask :
          (b : Bool)
          → IsCareful s id event (
              after (if◌then◌else◌ {A = Reaction} b (e, save e.draft e.reason none ∷ []) (e, [])).1)
      ask true = saves e.draft e.reason none can free
      ask false = inl refl
  key_down-IsCareful blank (tab shift) e can free =
      ask props.navigates (not (e.draft == props.value) || not blank)
    where
      ask :
          (navigates changed : Bool)
          → IsCareful s id event (
              after
                (if◌then◌else◌ {A = Reaction} navigates
                  (if◌then◌else◌ {A = Reaction} changed
                    (e, save e.draft e.reason (some (not shift)) ∷ [])
                    (cancel_editing props.value, move (not shift) ∷ []))
                  (e, [])).1)
      ask false changed = inl refl
      ask true true = saves e.draft e.reason (some (not shift)) can free
      ask true false = inl refl

  silent : (b : Bool) (e' e : Editor) → IsCareful s id event (after (guarded b (e', []) e).1)
  unfolding after perform
  silent true e' e = inl refl
  silent false e' e = inl refl

module _ (s : Source) (id : String) (props : Props) (tells : Tells s props) where
  pub handle-IsCareful :
      (event : Event) (e : Editor)
      → IsCareful s id event (perform s.trim id (handle props event e).1 s.page)
  unfolding handle after use_suggestion settle_save perform
  handle-IsCareful press_edit e =
      silent s id press_edit props tells (props.can_edit && not e.editing)
        (start_editing props.value e) e
  handle-IsCareful press_save e =
      after-guarded s id press_save props tells
        (props.can_edit && e.editing && not (props.saving || e.draft == ""))
        (e, save e.draft e.reason none ∷ []) e
        (λ b. saves s id press_save props tells e.draft e.reason none (ground arith) (ground arith))
  handle-IsCareful press_cancel e =
      silent s id press_cancel props tells (is_typable props e) (cancel_editing props.value) e
  handle-IsCareful (type_draft text) e =
      silent s id (type_draft text) props tells (is_typable props e) (record e { draft = text }) e
  handle-IsCareful (type_reason text) e =
      silent s id (type_reason text) props tells (is_typable props e) (record e { reason = text }) e
  handle-IsCareful (accept text) e =
      after-guarded s id (accept text) props tells (props.can_edit && not props.saving)
        (use_suggestion text e) e
        (λ b.
          saves s id (accept text) props tells text "Accepted quality-review suggestion" none
            (ground arith) (ground arith))
  handle-IsCareful (press_key key) e =
      after-guarded s id (press_key key) props tells (is_typable props e)
        (key_down props.value props.saving props.navigates (props.is_blank e.reason) key e) e
        (λ b.
          key_down-IsCareful s id (press_key key) props tells (props.is_blank e.reason) key e
            (ground arith) (ground arith))
  handle-IsCareful (press_box chosen) e =
      after-guarded s id (press_box chosen) props tells
        (props.on_selection_change && not props.selection_disabled) (e, choose chosen ∷ []) e
        (λ b.
          let (unapproved, free) = tells.box (ground arith) (ground arith) in
          inr (inr (chosen, refl, unapproved, free, tick-Selects s.page id chosen unapproved free)))
  handle-IsCareful (hover here) e = inl refl
  handle-IsCareful (settled true none) e = inl refl
  handle-IsCareful (settled true (some m)) e = inl refl
  handle-IsCareful (settled false m) e = inl refl
