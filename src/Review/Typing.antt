-- ===== src/Review/Typing.antt =====
-- What the editor of a value holds and asks to save while the user works in it.
use cassist.Prelude.{
  ◌≡◌, ◌⊎◌, String, Bool, true, false, not, none, some, List, [], ◌∷◌, ◌==◌, if◌then◌else◌,
}
use cassist.Review.Editor.{
  Editor, Key, escape, tab, Request, Reaction, save, move, choose, point, key_down,
}
use cassist.Review.Value.{
  Props, Event, press_cancel, type_draft, type_reason, accept, press_key, press_box, hover, settled,
  is_typable,
}

-- The text of a field after an event: what is typed, where the field is not disabled.
abbrev pub draft_after : Props → Event → String → String
draft_after p (type_draft text) draft = if p.saving then draft else text
draft_after p _ draft = draft

abbrev pub reason_after : Props → Event → String → String
reason_after p (type_reason text) reason = if p.saving then reason else text
reason_after p _ reason = reason

-- The last text that was typed into the field of the value, or into that of the reason.
abbrev pub typed : List (Props × Event) → String → String
typed [] draft = draft
typed ((p, event) ∷ events) draft = typed events (draft_after p event draft)

abbrev pub typed_reason : List (Props × Event) → String → String
typed_reason [] reason = reason
typed_reason ((p, event) ∷ events) reason = typed_reason events (reason_after p event reason)

-- The event does not end the editing: it is no cancellation, no Tab and no save that resolves.
abbrev pub goes_on : Event → Bool
goes_on press_cancel = false
goes_on (press_key escape) = false
goes_on (press_key (tab _)) = false
goes_on (settled resolved _) = not resolved
goes_on _ = true

-- The value may be edited, and the editing goes on.
abbrev pub GoesOn : Props × Event → Type 0
GoesOn (p, event) = (p.can_edit ≡ true) × (goes_on event ≡ true)

abbrev pub editor_of : String → String → Editor
editor_of draft reason = record { editing = true; draft = draft; reason = reason }

-- The requests that an event in an open editor with this draft and this reason may lead to: to
-- save just these, or the suggestion that the event accepts; or to move to another value, if nothing
-- was changed or after such a save; or what the box and the pointer ask for. A draft that is saved
-- without a move is not empty.
abbrev pub Asks : Props → Event → String → String → Request → Type 0
Asks p event draft reason (save text why none) =
    ((text ≡ draft) × (why ≡ reason) × ((text == "") ≡ false))
    ⊎ ((event ≡ accept text) × (why ≡ "Accepted quality-review suggestion"))
Asks p event draft reason (save text why (some _)) = (text ≡ draft) × (why ≡ reason)
Asks p event draft reason (move _) = ((draft == p.value) ≡ true) × (p.is_blank reason ≡ true)
Asks p event draft reason (choose selected) =
    (event ≡ press_box selected) × (p.on_selection_change ≡ true) × (p.selection_disabled ≡ false)
Asks p event draft reason (point here) = event ≡ hover here

-- The event is the end of a save.
abbrev pub is_settled : Event → Bool
is_settled (settled _ _) = true
is_settled _ = false

module _ (p : Props) (draft reason : String) where
  on_key : Key → Reaction
  on_key key =
      key_down p.value p.saving p.navigates (p.is_blank reason) key (editor_of draft reason)

  typable : Bool
  typable = is_typable p (editor_of draft reason)
