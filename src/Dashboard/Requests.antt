-- ===== src/Dashboard/Requests.antt =====
-- The requests of a row and its two dialogs: the mutations of
-- frontend/src/pages/dashboard-document-row.jsx.
use cassist.Prelude.{
  ℕ, ◌+◌, String, Bool, true, false, not, Option, none, some, List, [], ◌∷◌, ◌++◌, ◌&&◌, ◌||◌,
  if◌then◌else◌, Message, words, count,
}
use cassist.Dashboard.{Run, Document}
use cassist.Dashboard.Row.{Row, run_of, is_running, is_stopping, has_status, delete_disabled}
pub mod Laws

-- One mutation of the query library, as far as the row reads it.
pub data Mutation : Type 0 where
  idle pending succeeded : Mutation
  failed : (message : String) → Mutation

abbrev pub is_pending : Mutation → Bool
is_pending pending = true
is_pending _ = false

abbrev pub error_of : Mutation → Option String
error_of (failed message) = some message
error_of _ = none

pub data Request : Type 0 where
  view retry confirm cancel delete_original delete_permanently : Request

-- What the row keeps, besides what it is given, and what it did, the latest first: the requests it
-- sent, the queries that it invalidated, the tabs that it opened and the toasts.
pub record Requests : Type 0 where
  pub viewing : Mutation
  pub retrying : Mutation
  pub confirming : Mutation
  pub cancelling : Mutation
  pub deleting_original : Mutation
  pub deleting_permanently : Mutation
  pub delete_dialog_open : Bool
  pub confirm_dialog_open : Bool
  pub sent : List Request
  pub invalidated : List String
  pub tabs : List String
  pub toasts : List String

-- `deleting`
unfoldable pub deleting : Requests → Bool
deleting r = is_pending r.deleting_original || is_pending r.deleting_permanently

-- The button of a request is shown and enabled, in the row or in an open dialog.
unfoldable pub can_send : Row → Requests → Request → Bool
unfolding deleting run_of is_running is_stopping
can_send row r view = row.document.original_available && not (is_pending r.viewing)
can_send row r retry =
    has_status "failed" (run_of row)
    && row.document.original_available
    && not (is_pending r.retrying)
can_send row r confirm = r.confirm_dialog_open && not (is_pending r.confirming)
can_send row r cancel = is_running row && not (is_pending r.cancelling || is_stopping row)
can_send row r delete_original =
    r.delete_dialog_open && row.document.original_available && not (deleting r)
can_send row r delete_permanently = r.delete_dialog_open && not (deleting r)

unfoldable pub set_mutation : Request → Mutation → Requests → Requests
set_mutation view m r = record r { viewing = m }
set_mutation retry m r = record r { retrying = m }
set_mutation confirm m r = record r { confirming = m }
set_mutation cancel m r = record r { cancelling = m }
set_mutation delete_original m r = record r { deleting_original = m }
set_mutation delete_permanently m r = record r { deleting_permanently = m }

unfoldable pub mutation_of : Request → Requests → Mutation
mutation_of view r = r.viewing
mutation_of retry r = r.retrying
mutation_of confirm r = r.confirming
mutation_of cancel r = r.cancelling
mutation_of delete_original r = r.deleting_original
mutation_of delete_permanently r = r.deleting_permanently

-- A click on the button of a request.
unfoldable pub send : Row → Request → Requests → Requests
unfolding can_send set_mutation
send row request r =
    if can_send row r request
    then record (set_mutation request pending r) { sent = request ∷ r.sent }
    else r

-- `refreshDocuments`
unfoldable pub refresh_documents : Requests → Requests
refresh_documents r = record r { invalidated = "storage-quota" ∷ "documents" ∷ r.invalidated }

-- `onSuccess` of the mutations, `url` being the answer's to a view.
unfoldable pub on_success : (url : String) → Request → Requests → Requests
unfolding refresh_documents
on_success url view r = record r { tabs = url ∷ r.tabs }
on_success url retry r = refresh_documents r
on_success url confirm r = record (refresh_documents (record r { confirm_dialog_open = false })) {
  toasts = "Document confirmed and queued for extraction." ∷ r.toasts;
}
on_success url cancel r = record r { invalidated = "run" ∷ r.invalidated }
on_success url delete_original r = refresh_documents (record r { delete_dialog_open = false })
on_success url delete_permanently r = refresh_documents (record r { delete_dialog_open = false })

-- The buttons that open the dialogs: enabled as `actions` says.
unfoldable pub open_delete : Row → Requests → Requests
unfolding delete_disabled
open_delete row r =
    if delete_disabled row || row.bulk_deleting then r else record r { delete_dialog_open = true }

unfoldable pub open_confirm : Row → Requests → Requests
unfolding run_of
open_confirm row r =
    if has_status "needs_confirmation" (run_of row)
      && row.document.original_available
      && not (is_pending r.confirming)
    then record r { confirm_dialog_open = true }
    else r

pub data Event : Type 0 where
  clicked : Request → Event
  answered : (url : String) → Request → Event
  rejected : (message : String) → Request → Event
  pressed_delete pressed_confirm : Event
  delete_dialog_changed confirm_dialog_changed : (open_now : Bool) → Event

-- What happens while the row is as given. An answer comes only to a request under way.
unfoldable pub handle : Row → Event → Requests → Requests
unfolding send on_success set_mutation mutation_of open_delete open_confirm
handle row (clicked request) r = send row request r
handle row (answered url request) r =
    if is_pending (mutation_of request r)
    then on_success url request (set_mutation request succeeded r)
    else r
handle row (rejected message request) r =
    if is_pending (mutation_of request r) then set_mutation request (failed message) r else r
handle row pressed_delete r = open_delete row r
handle row pressed_confirm r = open_confirm row r
handle row (delete_dialog_changed open_now) r = record r { delete_dialog_open = open_now }
handle row (confirm_dialog_changed open_now) r = record r { confirm_dialog_open = open_now }

-- Each event with the row at that time.
unfoldable pub handle_all : List (Row × Event) → Requests → Requests
unfolding handle
handle_all [] r = r
handle_all ((row, e) ∷ es) r = handle_all es (handle row e r)

abbrev pub unsent : Requests
unsent = record {
  viewing = idle;
  retrying = idle;
  confirming = idle;
  cancelling = idle;
  deleting_original = idle;
  deleting_permanently = idle;
  delete_dialog_open = false;
  confirm_dialog_open = false;
  sent = [];
  invalidated = [];
  tabs = [];
  toasts = [];
}

abbrev pub first_error : List Mutation → Option String
first_error [] = none
first_error (m ∷ ms) =
    let rest = first_error ms in elim (error_of m) [ some e ↦ some e | none ↦ rest ]

-- `actionError`
unfoldable pub action_error : Requests → Option String
action_error r = first_error (
    r.viewing ∷ r.retrying ∷ r.confirming ∷ r.cancelling ∷ r.deleting_original
    ∷ r.deleting_permanently ∷ [])

-- The texts of the dialogs' buttons; the first is there only with an original.
unfoldable pub original_delete_text : Document → Requests → Option String
original_delete_text document r =
    if document.original_available
    then some (if is_pending r.deleting_original then "Deleting…" else "Delete File, Keep Data")
    else none

unfoldable pub permanent_delete_text : Document → Requests → String
permanent_delete_text document r =
    if is_pending r.deleting_permanently
    then "Deleting…"
    else if document.original_available
    then "Delete File and Data"
    else "Delete Data"

unfoldable pub confirm_text : Requests → String
confirm_text r = if is_pending r.confirming then "Queuing…" else "Process anyway"

unfoldable pub stop_label : Row → String
unfolding is_stopping
stop_label row = if is_stopping row then "Stopping processing" else "Stop processing"

-- `formatEstimatedCost` with the tokens, where `cost` is JavaScript's `toFixed(6)` of the cost
unfoldable pub cost_text : Option String → (input_tokens output_tokens : Option ℕ) → Option Message
cost_text none input_tokens output_tokens = none
cost_text (some cost) input_tokens output_tokens = some (
    words "Estimated model cost $"
    ∷ words cost
    ∷ words " · "
    ∷ count (or_zero input_tokens + or_zero output_tokens)
    ∷ words " tokens"
    ∷ [])
  where
    or_zero : Option ℕ → ℕ
    or_zero none = 0
    or_zero (some n) = n
