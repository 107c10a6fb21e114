-- ===== src/Dashboard/Row.antt =====
-- One row of the list: frontend/src/pages/dashboard-document-row.jsx.
use cassist.Prelude.{
  ℕ, String, Bool, true, false, not, Option, none, some, List, [], ◌∷◌, ◌++◌, ◌==◌, ◌&&◌, ◌||◌,
  if◌then◌else◌, has, truthy,
}
use cassist.Dashboard.{
  Run, Document, terminal_run_statuses, document_deletion_disabled, adaptive_polling_interval,
}

-- What the row is drawn from: the document, what polling the run gave, with the stage of its
-- progress, which requests are pending, and whether a bulk deletion is.
pub record Row : Type 0 where
  pub document : Document
  pub polled : Option (Run × Option String)
  pub retry_pending : Bool
  pub confirm_pending : Bool
  pub cancel_pending : Bool
  pub bulk_deleting : Bool

-- `runQuery.data || initialRun`
unfoldable pub run_of : Row → Option Run
run_of row = elim row.polled [ some (run, stage) ↦ some run | none ↦ row.document.latest_run ]

abbrev pub is_terminal : Run → Bool
is_terminal run = has run.status terminal_run_statuses

abbrev pub is_live : Option Run → Bool
is_live none = false
is_live (some run) = not (is_terminal run)

-- `isRunning` and `isStopping`
unfoldable pub is_running : Row → Bool
unfolding run_of
is_running row = is_live (run_of row)

abbrev pub asks_to_stop : Option Run → Bool
asks_to_stop none = false
asks_to_stop (some run) = run.cancellation_requested

unfoldable pub is_stopping : Row → Bool
unfolding is_running run_of
is_stopping row = is_running row && asks_to_stop (run_of row)

-- `deleteDisabled`. Without a run the function takes the document's own latest run, which is then
-- missing as well.
unfoldable pub delete_disabled : Row → Bool
unfolding run_of document_deletion_disabled
delete_disabled row = document_deletion_disabled row.document (run_of row)

-- `displayStatus`
unfoldable pub display_status : Row → String
unfolding run_of
display_status row = elim row.polled [
  | some (run, some stage) ↦ if stage == "" then of_run (run_of row) else stage
  | _ ↦ of_run (run_of row)
]
  where
    of_run : Option Run → String
    of_run none = row.document.status
    of_run (some run) = if run.status == "" then row.document.status else run.status

-- `STATUS_LABELS`
abbrev pub status_labels : List (String × String)
status_labels =
    ("upload_pending", "Upload pending")
    ∷ ("uploaded", "Queued")
    ∷ ("processing", "Processing")
    ∷ ("ready", "Completed")
    ∷ ("failed", "Failed")
    ∷ ("queued", "Queued")
    ∷ ("preprocessing", "Preparing")
    ∷ ("preparing", "Preparing")
    ∷ ("classifying", "Classifying")
    ∷ ("extracting", "Extracting")
    ∷ ("organizing", "Organizing")
    ∷ ("quality_check", "Checking quality")
    ∷ ("validating", "Saving")
    ∷ ("saving", "Saving")
    ∷ ("stopping", "Stopping")
    ∷ ("complete", "Completed")
    ∷ ("succeeded", "Completed")
    ∷ ("cancelled", "Cancelled")
    ∷ ("needs_confirmation", "Confirmation needed")
    ∷ ("unsupported", "Unsupported document")
    ∷ []

-- The colour that `statusBadgeClass` stands for.
pub data Badge : Type 0 where
  emerald destructive amber secondary : Badge

unfoldable pub status_badge_class : String → Badge
status_badge_class status =
    if has status ("ready" ∷ "succeeded" ∷ "complete" ∷ [])
    then emerald
    else if has status ("failed" ∷ "cancelled" ∷ [])
    then destructive
    else if status == "unsupported"
    then destructive
    else if status == "needs_confirmation"
    then amber
    else secondary

-- A button of the row.
pub data Action : Type 0 where
  compare_models review retry confirm stop delete_document : Action

abbrev pub has_status : String → Option Run → Bool
has_status status none = false
has_status status (some run) = run.status == status

abbrev pub result_of : Option Run → Option String
result_of none = none
result_of (some run) = run.result_id

abbrev pub when : Bool → Action → Bool → List (Action × Bool)
when shown action enabled = if shown then (action, enabled) ∷ [] else []

-- The buttons that the row shows, each with whether it is enabled; `dev` is `import.meta.env.DEV`.
unfoldable pub actions : Bool → Row → List (Action × Bool)
unfolding run_of is_running is_stopping delete_disabled
actions dev row =
    when (dev && row.document.original_available) compare_models true
    ++ (when (truthy (result_of (run_of row))) review true
        ++ (when (has_status "failed" (run_of row) && row.document.original_available) retry
              (not row.retry_pending)
            ++ (when
                  (has_status "needs_confirmation" (run_of row) && row.document.original_available)
                  confirm (not row.confirm_pending)
                ++ (when (is_running row) stop (not (row.cancel_pending || is_stopping row))
                    ++ (delete_document, not (delete_disabled row || row.bulk_deleting)) ∷ []))))

-- `refetchInterval` of the row's query after `updates` answers
unfoldable pub refetch_interval : Row → ℕ → Option ℕ
unfolding adaptive_polling_interval
refetch_interval row updates =
    adaptive_polling_interval (status_of row.polled) updates terminal_run_statuses
  where
    status_of : Option (Run × Option String) → Option String
    status_of none = none
    status_of (some (run, stage)) = some run.status

-- `fileTypeLabel`
unfoldable pub file_type_label : String → String
file_type_label mime_type =
    if mime_type == "application/pdf"
    then "PDF"
    else if mime_type == "image/jpeg"
    then "JPEG"
    else if mime_type == "image/png"
    then "PNG"
    else mime_type
