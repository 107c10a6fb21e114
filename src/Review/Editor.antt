-- ===== src/Review/Editor.antt =====
-- `EditableValue` of frontend/src/pages/review-components.jsx: the editor of one value.
use cassist.Prelude.{
  ◌≡◌, refl, String, Bool, true, false, not, ◌&&◌, ◌||◌, Option, none, some, List, [], ◌∷◌, ◌==◌,
  if◌then◌else◌, arith,
}

pub record Editor : Type 0 where
  pub editing : Bool
  pub draft : String
  pub reason : String

-- A key in one of the fields of the editor, with the modifiers that are looked at.
pub data Key : Type 0 where
  escape : Key
  enter : (meta_or_control : Bool) → Key
  tab : (shift : Bool) → Key
  other : Key

-- What is asked of the page: to save a value with a reason, and, if `then_move` is given, to go on
-- to the next value, or to the one before, once it is saved; or to go on at once; or to take the
-- value into the export or out of it; or to point at where the value was read, or at nothing.
pub data Request : Type 0 where
  save : (value reason : String) (then_move : Option Bool) → Request
  move : (forward : Bool) → Request
  choose : (selected : Bool) → Request
  point : (here : Bool) → Request

-- `cancelEditing`, back to `value`
unfoldable pub cancel_editing : String → Editor
cancel_editing value = record { editing = false; draft = value; reason = "" }

-- The button "Edit".
unfoldable pub start_editing : String → Editor → Editor
start_editing value e = record { editing = true; draft = value; reason = e.reason }

-- What the editor does and asks for.
abbrev pub Reaction : Type 0
Reaction = Editor × List Request

-- `handleEditorKeyDown`; `blank_reason` says that the reason is empty when trimmed.
unfoldable pub key_down :
    (value : String) (saving navigates blank_reason : Bool) → Key → Editor → Reaction
unfolding cancel_editing
key_down value saving navigates blank_reason escape e = (cancel_editing value, [])
key_down value saving navigates blank_reason (enter modified) e =
    if modified && not (e.draft == "") && not saving
    then (e, save e.draft e.reason none ∷ [])
    else (e, [])
key_down value saving navigates blank_reason (tab shift) e =
    if navigates
    then (if not (e.draft == value) || not blank_reason
        then (e, save e.draft e.reason (some (not shift)) ∷ [])
        else (cancel_editing value, move (not shift) ∷ []))
    else (e, [])
key_down value saving navigates blank_reason other e = (e, [])

-- A suggestion of the quality review is accepted.
unfoldable pub use_suggestion : String → Editor → Reaction
use_suggestion suggestion e = (e, save suggestion "Accepted quality-review suggestion" none ∷ [])

-- `save` when `onSave` has settled: whether it resolved, and what was asked for after it.
unfoldable pub settle_save : (resolved : Bool) → Option Bool → Editor → Reaction
settle_save true none e = (record { editing = false; draft = e.draft; reason = "" }, [])
settle_save true (some forward) e =
    (record { editing = false; draft = e.draft; reason = "" }, move forward ∷ [])
settle_save false then_move e = (e, [])

-- The editor asks to go to another value.
abbrev pub moves : List Request → Bool
moves [] = false
moves (move _ ∷ rs) = true
moves (_ ∷ rs) = moves rs

-- The editor's text, its reason or both would be lost.
abbrev pub has_changes : String → Bool → Editor → Bool
has_changes value blank_reason e = not (e.draft == value) || not blank_reason

-- The editor leaves its value for another one only without losing a change: on a key it moves at
-- once only where there is no change, and after a save only if that was confirmed; and a save that
-- fails leaves the text, the reason and the open editor as they are.
pub moves-NoLoss :
    (value : String) (saving navigates blank_reason resolved : Bool) (then_move : Option Bool)
    (key : Key) (e : Editor)
    → ((moves (key_down value saving navigates blank_reason key e).1
          && has_changes value blank_reason e)
        ≡ false)
      × ((moves (settle_save resolved then_move e).1 && not resolved) ≡ false)
      × (settle_save false then_move e ≡ (e, []))
unfolding key_down settle_save
moves-NoLoss value saving navigates blank_reason resolved then_move key e =
    (on_key key, after resolved then_move, refl)
  where
    on_key :
        (key : Key)
        → (moves (key_down value saving navigates blank_reason key e).1
            && has_changes value blank_reason e)
          ≡ false
    on_key escape = refl
    on_key (enter modified) = ground arith
    on_key (tab shift) = ground arith
    on_key other = refl

    after :
        (resolved : Bool) (then_move : Option Bool)
        → (moves (settle_save resolved then_move e).1 && not resolved) ≡ false
    after true none = refl
    after true (some m) = refl
    after false m = refl
