-- ===== src/Tests/Pages.antt =====
-- The list of documents with a few documents.
use cassist.Prelude.{
  ◌≡◌, ◌⊎◌, refl, String, true, false, not, ◌&&◌, ◌||◌, none, some, List, [], ◌∷◌, any, has,
  get_elem?, arith,
}
use cassist.Dashboard.{
  Run, Document, initial, permanent, next_page, ticked_all, handle, show_next_page,
  show_previous_page, all_eligible_selected,
}
use cassist.Theme
use cassist.Theme.{IsApplied, is_theme, set_theme, mount, handle_all-IsApplied}
use cassist.Dashboard.Pages.{IsPaged, query_of, previous_after_next, handle-selection}
use cassist.Tests.Client.{world}
use cassist.Dashboard.Bulk.{bulk_delete, IsWholeDeletion, IsPartialDeletion, bulk_delete-outcome}
use cassist.Dashboard.Selection.{deletable, listed_deletable, ticked_all-selected}
use cassist.Dashboard.Row.{Row}
use cassist.Dashboard.Requests
use cassist.Dashboard.Requests.{delete_original, delete_permanently, unsent}
use cassist.Dashboard.Requests.Laws.{IsOneDeletion, handle_all-IsOneDeletion}

abbrev run : String → Run
run status = record { id = "r1"; status = status; result_id = none; cancellation_requested = false }

abbrev document : String → String → Document
document id status = record {
  id = id;
  status = "processing";
  original_available = true;
  latest_run = some (run status);
}

abbrev documents : List Document
documents = document "a" "failed" ∷ document "b" "extracting" ∷ []

initial-IsPaged : IsPaged initial
initial-IsPaged = (omega arith, refl)

previous_after_next_example :
    (let n = show_next_page (some "c") initial in
      let p = show_previous_page n in
      (get_elem? n.page_cursors n.page_index ≡ some (some "c"))
      × (p.page_index ≡ 0)
      × (get_elem? p.page_cursors p.page_index ≡ some none))
previous_after_next_example = previous_after_next "c" initial initial-IsPaged refl

handle-selection_example :
    query_of (handle (next_page (some "c")) initial) ≡ query_of initial
    ⊎ (handle (next_page (some "c")) initial).selected ≡ []
handle-selection_example = handle-selection (next_page (some "c")) initial

ticked_all-selected_example :
    ((id : String)
      → has id (handle (ticked_all documents true) initial).selected
        ≡ (listed_deletable id documents || has id []))
    × (all_eligible_selected documents (handle (ticked_all documents true) initial)
        ≡ any deletable documents)
    × ((id : String)
        → has id (handle (ticked_all documents false) initial).selected
          ≡ (not (listed_deletable id documents) && has id []))
ticked_all-selected_example = ticked_all-selected documents initial

bulk_delete-outcome_example :
    IsWholeDeletion permanent documents
      (world false)
      []
      (bulk_delete permanent documents (world false) [] initial)
    ⊎ IsPartialDeletion permanent documents
        (world false)
        []
        (bulk_delete permanent documents (world false) [] initial)
bulk_delete-outcome_example = bulk_delete-outcome permanent documents (world false) [] initial

abbrev row : Row
row = record {
  document = document "b" "extracting";
  polled = some (run "extracting", some "extracting");
  retry_pending = false;
  confirm_pending = false;
  cancel_pending = false;
  bulk_deleting = false;
}

handle_all-IsApplied_example : IsApplied (
    Theme.handle_all "system"
      (set_theme "dark" ∷ [])
      (mount "system" false (some "?") ("light" ∷ [])))
unfolding is_theme
handle_all-IsApplied_example =
    handle_all-IsApplied "system" false (some "?") ("light" ∷ []) (set_theme "dark" ∷ []) refl
      (refl, tt)

-- A row whose run failed, with the dialog of the deletion open.
abbrev failed_row : Row
failed_row = record {
  document = document "a" "failed";
  polled = none;
  retry_pending = false;
  confirm_pending = false;
  cancel_pending = false;
  bulk_deleting = false;
}

-- Both deletions are asked for, the second while the first is under way.
abbrev deletions : List (Row × Requests.Event)
deletions =
    (failed_row, Requests.pressed_delete)
    ∷ (failed_row, Requests.clicked delete_original)
    ∷ (failed_row, Requests.clicked delete_permanently)
    ∷ []

handle_all-IsOneDeletion_example : IsOneDeletion (Requests.handle_all deletions unsent)
handle_all-IsOneDeletion_example = handle_all-IsOneDeletion deletions
