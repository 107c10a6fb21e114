-- ===== src/Dashboard/Documents.antt =====
-- The query of dashboard-page.jsx for the documents, and what the page shows of it and of the storage.
use cassist.Prelude.{
  ℕ, ◌≡◌, ap, String, Bool, true, false, Option, none, some, List, [], ◌∷◌, ◌==◌, if◌then◌else◌,
  get_elem?, words, count, Message, any, has, length, ◌++◌,
}
use cassist.Api.Reads.{ListOptions}
use cassist.Dashboard.{
  Dashboard, Document, DeleteMode, original, permanent, eligible_documents, selected_documents,
  format_storage_gb, format_storage_amount,
}
use cassist.Dashboard.View.{empty_text}

-- `currentCursor`; no cursor past the end, as JavaScript's undefined
unfoldable pub current_cursor : Dashboard → Option String
current_cursor d = elim (get_elem? d.page_cursors d.page_index) [
  | none ↦ none
  | some cursor ↦ cursor
]

-- The key of the query, after "documents".
pub record Key : Type 0 where
  pub cursor : Option String
  pub search : String
  pub document_type : String
  pub status : String

unfoldable pub query_key : Dashboard → Key
unfolding current_cursor
query_key d = record {
  cursor = current_cursor d;
  search = d.debounced_search;
  document_type = d.document_type_filter;
  status = d.status_filter;
}

-- `filter || undefined`
unfoldable pub or_undefined : String → Option String
or_undefined filter = if filter == "" then none else some filter

-- The arguments of `listDocuments` in the query's function.
unfoldable pub list_options : Dashboard → ListOptions
unfolding current_cursor or_undefined
list_options d = record {
  cursor = current_cursor d;
  document_type = or_undefined d.document_type_filter;
  limit = 10;
  search = or_undefined d.debounced_search;
  status = or_undefined d.status_filter;
}

-- What the state of the page puts in place of the list.
pub data ListView : Type 0 where
  skeleton : ListView
  list_error : (message : String) → ListView
  document_rows : List Document → ListView
  empty_list : (title hint : String) → ListView

unfoldable pub show_rows : Dashboard → List Document → ListView
unfolding empty_text
show_rows d [] = let (title, hint) = empty_text d in empty_list title hint
show_rows d (document ∷ documents) = document_rows (document ∷ documents)

unfoldable pub show_documents : Dashboard → Bool → Option String → List Document → ListView
unfolding show_rows
show_documents d true error documents = skeleton
show_documents d false (some message) documents = list_error message
show_documents d false none documents = show_rows d documents

-- `someEligibleSelected`
unfoldable pub some_eligible_selected : List Document → Dashboard → Bool
unfolding eligible_documents
some_eligible_selected documents d =
    any (λ document. has document.id d.selected) (eligible_documents documents)

pub record StorageQuota : Type 0 where
  pub used_bytes : ℕ
  pub limit_bytes : ℕ
  pub upload_allowed : Bool

-- The texts of the storage: in the page, and in the tooltip
unfoldable pub storage_text : StorageQuota → Message
unfolding format_storage_gb
storage_text q = format_storage_gb q.used_bytes ++ (words " / " ∷ format_storage_gb q.limit_bytes)

unfoldable pub storage_tooltip : StorageQuota → Message
unfolding format_storage_gb format_storage_amount
storage_tooltip q =
    format_storage_amount q.used_bytes ++ (words " / " ∷ format_storage_gb q.limit_bytes)

-- The button "Upload" leads to the page of that name, unless the storage is full.
unfoldable pub upload_button : Option StorageQuota → String × Option String
upload_button none = ("Upload", some "/upload")
upload_button (some q) =
    if q.upload_allowed then ("Upload", some "/upload") else ("Storage full", none)

-- The title of the dialog of a bulk deletion, and what is announced once it succeeded
unfoldable pub dialog_title : List Document → Dashboard → Message
unfolding selected_documents
dialog_title documents d =
    words "Delete "
    ∷ count (length (selected_documents documents d))
    ∷ words " selected documents?"
    ∷ []

unfoldable pub deleted_toast : DeleteMode → String
deleted_toast original = "Selected files deleted. Extracted data was kept."
deleted_toast permanent = "Selected files and extraction data deleted."

abbrev options_of : Key → ListOptions
options_of key = record {
  cursor = key.cursor;
  document_type = or_undefined key.document_type;
  limit = 10;
  search = or_undefined key.search;
  status = or_undefined key.status;
}

-- Two states of the page with one key ask for the same list: the cache gives a page no list that it
-- did not ask for.
pub list_options-query_key :
    (d e : Dashboard) → query_key d ≡ query_key e → list_options d ≡ list_options e
unfolding query_key list_options
list_options-query_key d e same = ap options_of same
