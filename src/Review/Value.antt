-- ===== src/Review/Value.antt =====
-- `EditableValue` of frontend/src/pages/review-components.jsx as a whole: what it shows of a value,
-- and what it does when one of its controls is used.
use cassist.Prelude.{
  ℕ, String, Bool, not, ◌&&◌, ◌||◌, Option, none, some, List, [], ◌∷◌, ◌++◌, ◌==◌, if◌then◌else◌,
  eqb, Message, words, count, min, max, ltb,
}
use cassist.Review.Editor.{
  Editor, Key, Reaction, save, choose, point, cancel_editing, start_editing, key_down,
  use_suggestion, settle_save,
}

-- What the page tells the component. A box to select the value is there if `on_selection_change`
-- is; `navigates` says that `onNavigate` is given; `is_blank` that a text is empty when trimmed.
pub record Props : Type 0 where
  pub can_edit : Bool
  pub edited : Bool
  pub hide_label : Bool
  pub label : Message
  pub navigates : Bool
  pub original_value : Option String
  pub page_number : Option ℕ
  pub saving : Bool
  pub selected : Bool
  pub selection_disabled : Bool
  pub selection_label : Option String
  pub on_selection_change : Bool
  pub value : String
  pub is_blank : String → Bool

-- A box to tick.
pub record Tick : Type 0 where
  pub label : Message
  pub checked : Bool
  pub disabled : Bool

-- The value or its fields, with their labels.
pub data Body : Type 0 where
  reads : (value : String) (original : Option String) → Body
  edits : (draft reason : String) (reason_label : Message) (disabled : Bool) → Body

pub data Buttons : Type 0 where
  no_buttons : Buttons
  edit_button : Buttons
  save_buttons : (save_text : String) (save_disabled cancel_disabled : Bool) → Buttons

-- What the component shows.
pub record Shown : Type 0 where
  pub faded : Bool
  pub box : Option Tick
  pub label : Option Message
  pub page_badge : Option Message
  pub edited_badge : Bool
  pub body : Body
  pub buttons : Buttons

-- `canEdit && editing`
abbrev pub is_open : Props → Editor → Bool
is_open p e = p.can_edit && e.editing

-- The fields can be typed in: they are there and not disabled.
abbrev pub is_typable : Props → Editor → Bool
is_typable p e = is_open p e && not p.saving

abbrev save_disabled : Props → Editor → Bool
save_disabled p e = p.saving || e.draft == ""

unfoldable pub selection_box : Props → Option Tick
selection_box p =
    if p.on_selection_change
    then some (record {
      label = box_label p.selection_label;
      checked = p.selected;
      disabled = p.selection_disabled;
    })
    else none
  where
    include : Message
    include = words "Include " ∷ p.label ++ words " in Tally JSON" ∷ []

    box_label : Option String → Message
    box_label none = include
    box_label (some label) = if label == "" then include else words label ∷ []

-- `pageNumber ? … : null`
unfoldable pub page_badge : Option ℕ → Option Message
page_badge none = none
page_badge (some n) = if eqb n 0 then none else some (words "Page " ∷ count n ∷ [])

-- The original value is shown where it differs from the value.
unfoldable pub shown_original : Props → Option String
shown_original p = elim p.original_value [
  | none ↦ none
  | some original ↦ if p.edited && not (original == p.value) then some original else none
]

unfoldable pub editable_value : Props → Editor → Shown
unfolding selection_box page_badge shown_original
editable_value p e = record {
  faded = not p.selected;
  box = selection_box p;
  label = if p.hide_label then none else some p.label;
  page_badge = page_badge p.page_number;
  edited_badge = p.edited;
  body =
      if is_open p e
      then edits e.draft e.reason (words "Reason for changing " ∷ p.label) p.saving
      else reads p.value (shown_original p);
  buttons =
      if is_open p e
      then save_buttons (if p.saving then "Saving…" else "Save") (save_disabled p e) p.saving
      else if p.can_edit
      then edit_button
      else no_buttons;
}

-- The height of the editor's field, and whether it scrolls, for the height of its text.
unfoldable pub editor_height : ℕ → ℕ × Bool
editor_height scroll_height = (min 320 (max 40 scroll_height), ltb 320 scroll_height)

-- What the user does with the controls, and how a save settles, as `settle_save` has it. The box is
-- ticked or cleared, and `hover` says that the pointer or the focus comes to the value or leaves it.
pub data Event : Type 0 where
  press_edit press_save press_cancel : Event
  type_draft type_reason accept : String → Event
  press_key : Key → Event
  press_box hover : Bool → Event
  settled : (resolved : Bool) (then_move : Option Bool) → Event

-- A control that is not there or is disabled does nothing.
abbrev pub guarded : Bool → Reaction → Editor → Reaction
guarded b reaction e = if b then reaction else (e, [])

unfoldable pub handle : Props → Event → Editor → Reaction
unfolding start_editing cancel_editing key_down use_suggestion settle_save
handle p press_edit e = guarded (p.can_edit && not e.editing) (start_editing p.value e, []) e
handle p (type_draft text) e = guarded (is_typable p e) (record e { draft = text }, []) e
handle p (type_reason text) e = guarded (is_typable p e) (record e { reason = text }, []) e
handle p (press_key key) e =
    guarded (is_typable p e) (key_down p.value p.saving p.navigates (p.is_blank e.reason) key e) e
handle p press_save e =
    guarded (is_open p e && not (save_disabled p e)) (e, save e.draft e.reason none ∷ []) e
handle p press_cancel e = guarded (is_typable p e) (cancel_editing p.value, []) e
handle p (accept suggestion) e =
    guarded (p.can_edit && not p.saving) (use_suggestion suggestion e) e
handle p (press_box selected) e =
    guarded (p.on_selection_change && not p.selection_disabled) (e, choose selected ∷ []) e
handle p (hover here) e = (e, point here ∷ [])
handle p (settled resolved then_move) e = settle_save resolved then_move e

-- The events in turn, each with what the page tells at that moment.
unfoldable pub handle_all : List (Props × Event) → Editor → Reaction
unfolding handle
handle_all [] e = (e, [])
handle_all ((p, event) ∷ events) e =
    let (e', asked) = handle p event e in
    let (e'', more) = handle_all events e' in (e'', asked ++ more)
