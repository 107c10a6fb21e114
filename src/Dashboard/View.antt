-- ===== src/Dashboard/View.antt =====
-- What dashboard-page.jsx says on arrival, for an empty list, and in the dialog of a bulk deletion.
use cassist.Prelude.{
  ℕ, ◌+◌, String, Bool, not, Option, none, some, List, [], ◌∷◌, ◌++◌, ◌||◌, ◌==◌, ltb,
  if◌then◌else◌, truthy, any, words, count, Message,
}
use cassist.Dashboard.{Dashboard, Document, DeleteMode, original, permanent, selected_documents}

-- The state that another page leaves in `location.state`.
pub record Arrival : Type 0 where
  pub deleted : Bool
  pub deduplicated : Bool
  pub uploaded : Bool
  pub upload_count : ℕ

-- The effect on `location.state`: what is announced. The state is cleared just where something is.
unfoldable pub arrival_toast : Option Arrival → Option Message
arrival_toast none = none
arrival_toast (some state) =
    if state.deleted
    then some (words "Document and extraction data deleted." ∷ [])
    else if state.deduplicated
    then some (words "Existing document and processing history reused." ∷ [])
    else if state.uploaded
    then (if ltb 1 state.upload_count
        then some
            (count state.upload_count ∷ words " documents uploaded and queued for extraction." ∷ [])
        else some (words "Document uploaded and queued for extraction." ∷ []))
    else none

-- The two lines that stand for an empty list.
unfoldable pub empty_text : Dashboard → String × String
empty_text d =
    if not (d.debounced_search == "")
      || not (d.status_filter == "")
      || not (d.document_type_filter == "")
    then ("No matching documents", "Adjust the search or filters and try again.")
    else ("No documents yet", "Upload documents to start the review workflow.")

-- The links below the list: to the page before, the number of this one, and to the next.
pub record PageLinks : Type 0 where
  pub previous : Bool
  pub number : ℕ
  pub next : Bool

unfoldable pub page_links : Option String → Dashboard → Option PageLinks
page_links next_cursor d =
    if ltb 0 d.page_index || truthy next_cursor
    then some (record {
      previous = ltb 0 d.page_index;
      number = d.page_index + 1;
      next = truthy next_cursor;
    })
    else none

-- The buttons of the dialog that delete, each with its text; both are disabled while one is at work.
unfoldable pub delete_buttons : Bool → List Document → Dashboard → List (DeleteMode × String)
unfolding selected_documents
delete_buttons is_pending documents d =
    (if any_original
      then (original, if is_pending then "Deleting…" else "Delete Files, Keep Data") ∷ []
      else [])
    ++ (
      permanent,
      if is_pending
          then "Deleting…"
          else if any_original
          then "Delete Files and Data"
          else "Delete Data",
    )
      ∷ []
  where
    any_original : Bool
    any_original = any (λ document. document.original_available) (selected_documents documents d)
