-- ===== src/Dashboard/RowView.antt =====
-- What a row of the list shows: the rest of frontend/src/pages/dashboard-document-row.jsx.
use cassist.Prelude.{
  ℕ, String, Bool, false, not, Option, none, some, List, [], ◌∷◌, ◌++◌, ◌||◌, eqb, if◌then◌else◌,
  has, lookup, map, codes, words, Message,
}
use cassist.Dashboard.{Document, terminal_run_statuses}
use cassist.Dashboard.Row.{
  Row, Badge, Action, compare_models, review, retry, confirm, stop, delete_document, actions,
  run_of, is_running, delete_disabled, display_status, status_labels, status_badge_class,
  file_type_label, result_of,
}
use cassist.Dashboard.Requests.{Requests, is_pending, action_error, stop_label, cost_text}

-- `enabled` of the query of the run: there is one, and it is not over.
unfoldable pub polls : Document → Bool
polls document = elim document.latest_run [
  | none ↦ false
  | some run ↦ not (has run.status terminal_run_statuses)
]

-- `text.replaceAll("_", " ")`
unfoldable pub without_underscores : List ℕ → List ℕ
without_underscores [] = []
without_underscores (c ∷ cs) = (if eqb c b'_' then b' ' else c) ∷ without_underscores cs

-- `statusText`
unfoldable pub status_text : Row → List ℕ
unfolding display_status is_running without_underscores
status_text row = label ++ (if is_running row then codes "…" else [])
  where
    plain : List ℕ
    plain = without_underscores (codes (display_status row))

    label : List ℕ
    label = elim (lookup (display_status row) status_labels) [ some l ↦ codes l | none ↦ plain ]

-- The labels of the buttons, and where the links among them lead.
unfoldable pub action_label : Row → Action → String
unfolding stop_label
action_label row compare_models = "Compare models"
action_label row review = "Review extraction"
action_label row retry = "Retry extraction"
action_label row confirm = "Confirm document processing"
action_label row stop = stop_label row
action_label row delete_document = "Delete document"

unfoldable pub action_link : Row → Action → Option Message
unfolding run_of
action_link row compare_models = some (words "/dev/compare/" ∷ words row.document.id ∷ [])
action_link row review = elim (result_of (run_of row)) [
  | none ↦ none
  | some result_id ↦ some (words "/results/" ∷ words result_id ∷ words "/review" ∷ [])
]
action_link row _ = none

-- A box to tick: its label, whether it is ticked, and whether it is disabled.
pub record Box : Type 0 where
  pub label : Message
  pub checked : Bool
  pub disabled : Bool

pub record RowButton : Type 0 where
  pub label : String
  pub link : Option Message
  pub enabled : Bool

-- What the row reads besides its run: the document's name and type, whether documents are being
-- selected and this one is, and the run's cost and tokens.
pub record Details : Type 0 where
  pub original_filename : String
  pub mime_type : String
  pub selection_mode : Bool
  pub selected : Bool
  pub cost : Option String
  pub input_tokens : Option ℕ
  pub output_tokens : Option ℕ

-- `name_button` is the label of the button that opens the original, and whether it is disabled.
pub record RowView : Type 0 where
  pub box : Option Box
  pub name_button : Option (Message × Bool)
  pub name : String
  pub type_label : String
  pub badge : Badge
  pub spins : Bool
  pub status : List ℕ
  pub cost : Option Message
  pub error : Option String
  pub buttons : List RowButton

unfoldable pub row_view : Bool → Row → Details → Requests → RowView
unfolding delete_disabled status_text display_status status_badge_class file_type_label is_running
    cost_text action_error actions action_label action_link
row_view dev row details requests = record {
  box =
      if details.selection_mode
      then some (record {
        label = words "Select " ∷ words details.original_filename ∷ [];
        checked = details.selected;
        disabled = delete_disabled row || row.bulk_deleting;
      })
      else none;
  name_button =
      if row.document.original_available
      then some (
        words "Open " ∷ words details.original_filename ∷ words " in a new tab" ∷ [],
        is_pending requests.viewing,
      )
      else none;
  name = details.original_filename;
  type_label = file_type_label details.mime_type;
  badge = status_badge_class (display_status row);
  spins = is_running row;
  status = status_text row;
  cost = cost_text details.cost details.input_tokens details.output_tokens;
  error = action_error requests;
  buttons =
      map
        (λ (action, enabled). record {
          label = action_label row action;
          link = action_link row action;
          enabled = enabled;
        })
        (actions dev row);
}
