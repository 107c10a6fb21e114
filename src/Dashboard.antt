-- ===== src/Dashboard.antt =====
-- The list of documents: frontend/src/pages/dashboard-page.jsx and dashboard-utils.js, with the
-- polling interval of frontend/src/lib/polling.js.
pub mod Pages
pub mod Row
pub mod RowLaws
pub mod RowView
pub mod Requests
pub mod View
pub mod Documents
pub mod Selection
pub mod Bulk
use cassist.Prelude.{
  ℕ, suc, ◌+◌, ◌*◌, ◌-◌, ◌<◌, max, String, Bool, true, false, not, Option, none, some, List, [],
  ◌∷◌, ◌++◌, ◌&&◌, ◌||◌, ◌==◌, eqb, ltb, if◌then◌else◌, has, add, delete, is_some, filter, length,
  map, take, get_elem?, any, all, words, count, fixed, Message, round_div,
}

pub record Run : Type 0 where
  pub id : String
  pub status : String
  pub result_id : Option String
  pub cancellation_requested : Bool

pub record Document : Type 0 where
  pub id : String
  pub status : String
  pub original_available : Bool
  pub latest_run : Option Run

abbrev pub terminal_run_statuses : List String
terminal_run_statuses =
    "succeeded" ∷ "failed" ∷ "cancelled" ∷ "needs_confirmation" ∷ "unsupported" ∷ []

-- `documentDeletionDisabled(document, run)`
unfoldable pub document_deletion_disabled : Document → Option Run → Bool
document_deletion_disabled document (some run) = not (has run.status terminal_run_statuses)
document_deletion_disabled document none =
    has document.status ("upload_pending" ∷ "uploaded" ∷ "processing" ∷ [])

-- `adaptivePollingInterval`, of the status of the data, if there is any, and the updates so far;
-- `none` is `false`
unfoldable pub adaptive_polling_interval : Option String → ℕ → List String → Option ℕ
adaptive_polling_interval status updates terminal =
    if elim status [ none ↦ false | some s ↦ has s terminal ]
    then none
    else if ltb updates 3
    then some 2000
    else if ltb updates 6
    then some 5000
    else some 10000

-- `formatStorageGb`, for a number of bytes that is not so large that a double rounds it
unfoldable pub format_storage_gb : ℕ → Message
format_storage_gb bytes = fixed 2 (round_div (100 * bytes) 1000000000) ∷ words " GB" ∷ []

-- `formatStorageAmount`
unfoldable pub format_storage_amount : ℕ → Message
unfolding format_storage_gb
format_storage_amount bytes =
    if ltb bytes 1000000 && ltb kilobytes 1000
    then count kilobytes ∷ words " KB" ∷ []
    else if ltb bytes 1000000000 && ltb megabytes 1000
    then count megabytes ∷ words " MB" ∷ []
    else format_storage_gb bytes
  where
    kilobytes : ℕ
    kilobytes = max (if eqb bytes 0 then 0 else 1) (round_div bytes 1000)

    megabytes : ℕ
    megabytes = round_div bytes 1000000

pub data DeleteMode : Type 0 where
  original permanent : DeleteMode

-- The state of the page. A set is a list; `next_page_cursor` is what the list that is shown says.
pub record Dashboard : Type 0 where
  pub debounced_search : String
  pub status_filter : String
  pub document_type_filter : String
  pub page_index : ℕ
  pub page_cursors : List (Option String)
  pub selected : List String
  pub selection_mode : Bool
  pub dialog_open : Bool
  pub delete_error : Option Message

abbrev pub initial : Dashboard
initial = record {
  debounced_search = "";
  status_filter = "";
  document_type_filter = "";
  page_index = 0;
  page_cursors = none ∷ [];
  selected = [];
  selection_mode = false;
  dialog_open = false;
  delete_error = none;
}

-- `resetPagination`, in a page with these filters
abbrev pub reset_pagination : (search status document_type : String) → Dashboard → Dashboard
reset_pagination search status document_type d = record {
  debounced_search = search;
  status_filter = status;
  document_type_filter = document_type;
  page_index = 0;
  page_cursors = none ∷ [];
  selected = [];
  selection_mode = false;
  dialog_open = d.dialog_open;
  delete_error = d.delete_error;
}

-- A new selection, and the rest as it is.
abbrev pub with_selection : List String → Bool → Dashboard → Dashboard
with_selection selected mode d = record {
  debounced_search = d.debounced_search;
  status_filter = d.status_filter;
  document_type_filter = d.document_type_filter;
  page_index = d.page_index;
  page_cursors = d.page_cursors;
  selected = selected;
  selection_mode = mode;
  dialog_open = d.dialog_open;
  delete_error = d.delete_error;
}

abbrev pub with_page : ℕ → List (Option String) → Dashboard → Dashboard
with_page index cursors d = record {
  debounced_search = d.debounced_search;
  status_filter = d.status_filter;
  document_type_filter = d.document_type_filter;
  page_index = index;
  page_cursors = cursors;
  selected = [];
  selection_mode = false;
  dialog_open = d.dialog_open;
  delete_error = d.delete_error;
}

abbrev pub with_dialog : Bool → Option Message → Dashboard → Dashboard
with_dialog shown error d = record {
  debounced_search = d.debounced_search;
  status_filter = d.status_filter;
  document_type_filter = d.document_type_filter;
  page_index = d.page_index;
  page_cursors = d.page_cursors;
  selected = d.selected;
  selection_mode = d.selection_mode;
  dialog_open = shown;
  delete_error = error;
}

-- `showPreviousPage`
unfoldable pub show_previous_page : Dashboard → Dashboard
show_previous_page d = with_page (d.page_index - 1) d.page_cursors d

abbrev pub same_cursor : Option (Option String) → String → Bool
same_cursor (some (some c)) cursor = c == cursor
same_cursor _ cursor = false

-- The cursors once the page after page `index` is known to start at `cursor`.
unfoldable pub next_cursors : ℕ → String → List (Option String) → List (Option String)
next_cursors index cursor cursors =
    if same_cursor (get_elem? cursors (suc index)) cursor
    then cursors
    else take (suc index) cursors ++ some cursor ∷ []

-- `showNextPage`, with `next_cursor` of the list that is shown
unfoldable pub show_next_page : Option String → Dashboard → Dashboard
unfolding next_cursors
show_next_page none d = d
show_next_page (some cursor) d =
    if cursor == ""
    then d
    else with_page (suc d.page_index) (next_cursors d.page_index cursor d.page_cursors) d

-- The effect of the search field 250 ms after a change; `next_search` is the trimmed text.
unfoldable pub settle_search : String → Dashboard → Dashboard
settle_search next_search d =
    if next_search == d.debounced_search
    then d
    else reset_pagination next_search d.status_filter d.document_type_filter d

-- One document, ticked or not.
abbrev pub toggle : String → Bool → List String → List String
toggle id checked selected = if checked then add id selected else delete id selected

-- `onCheckedChange` of the box for all deletable documents
unfoldable pub select_all : List Document → Bool → List String → List String
select_all [] checked selected = selected
select_all (document ∷ documents) checked selected =
    select_all documents checked (toggle document.id checked selected)

unfoldable pub eligible_documents : List Document → List Document
unfolding document_deletion_disabled
eligible_documents documents =
    filter (λ document. not (document_deletion_disabled document document.latest_run)) documents

unfoldable pub selected_documents : List Document → Dashboard → List Document
selected_documents documents d = filter (λ document. has document.id d.selected) documents

unfoldable pub all_eligible_selected : List Document → Dashboard → Bool
unfolding eligible_documents
all_eligible_selected documents d =
    not (eqb (length (eligible_documents documents)) 0)
    && all (λ document. has document.id d.selected) (eligible_documents documents)

-- The documents that a bulk deletion acts on.
unfoldable pub actionable_targets : DeleteMode → List Document → List Document
actionable_targets original targets = filter (λ document. document.original_available) targets
actionable_targets permanent targets = targets

-- The ids of the targets whose request was rejected, by the outcomes in the targets' order.
unfoldable pub failed_ids : List Document → List Bool → List String
failed_ids (document ∷ documents) (rejected ∷ outcomes) =
    let rest = failed_ids documents outcomes in if rejected then document.id ∷ rest else rest
failed_ids _ _ = []

-- `onSuccess` of the bulk deletion
unfoldable pub finish_bulk_delete : List String → Dashboard → Dashboard
finish_bulk_delete [] d = with_dialog false none (with_selection [] false d)
finish_bulk_delete (id ∷ ids) d =
    with_dialog d.dialog_open
      (some (
        count (length (id ∷ ids))
        ∷ words " "
        ∷ words (if eqb (length (id ∷ ids)) 1 then "document" else "documents")
        ∷ words " could not be deleted. Try again."
        ∷ []))
      (with_selection (id ∷ ids) d.selection_mode d)

-- What can happen on the page. The documents are those that are listed then.
pub data Event : Type 0 where
  searched filtered_status filtered_type : String → Event
  previous_page : Event
  next_page : Option String → Event
  start_selecting stop_selecting open_dialog : Event
  ticked : String → Bool → Event
  ticked_all : List Document → Bool → Event
  dialog_changed : (pending shown : Bool) → Event
  deleted : (mode : DeleteMode) → (targets : List Document) → (rejected : List Bool) → Event

unfoldable pub handle : Event → Dashboard → Dashboard
unfolding settle_search show_previous_page finish_bulk_delete actionable_targets failed_ids
handle (searched text) d = settle_search text d
handle (filtered_status status) d =
    reset_pagination d.debounced_search status d.document_type_filter d
handle (filtered_type document_type) d =
    reset_pagination d.debounced_search d.status_filter document_type d
handle previous_page d = show_previous_page d
handle (next_page cursor) d = show_next_page cursor d
handle start_selecting d = with_selection d.selected true d
handle stop_selecting d = with_selection [] false d
handle open_dialog d = with_dialog true none d
handle (ticked id checked) d = with_selection (toggle id checked d.selected) d.selection_mode d
handle (ticked_all documents checked) d =
    with_selection (select_all (eligible_documents documents) checked d.selected) d.selection_mode d
handle (dialog_changed pending shown) d =
    if pending then d else with_dialog shown (if shown then d.delete_error else none) d
handle (deleted mode targets rejected) d =
    finish_bulk_delete (failed_ids (actionable_targets mode targets) rejected) d

unfoldable pub handle_all : List Event → Dashboard → Dashboard
handle_all [] d = d
handle_all (e ∷ es) d = handle_all es (handle e d)
