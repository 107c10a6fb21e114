-- ===== src/Tests/Uploads.antt =====
-- A page on which a file is chosen and uploaded in a batch of its own.
use cassist.Prelude.{◌≡◌, refl, ap, false, none, some, [], ◌∷◌, get_elem?}
use cassist.Api.Upload.{upload_mime_type}
use cassist.Pool.{finished, start, resume, resolve}
use cassist.UploadPage.{
  Capabilities, Item, Selection, complete, select_files, new_items, invalid_count, validate_file,
  pending, update_item,
}
use cassist.UploadPage.Submit.{
  Page, Outcome, done, outcome_of, settle_item, update_all, begin_submit, end_submit,
}
use cassist.UploadPage.Gate.{IsLeft}
use cassist.UploadPage.Batch.{
  Batch, Uploads, start_batch, Reachable, starts, steps, takes, progresses, settles,
}
use cassist.UploadPage.Batch.Ids.{Found, IsDistinct}
use cassist.UploadPage.Batch.Outcomes.{IsSettled}
use cassist.UploadPage.Batch.Visits.{Visit, opens, selects, uploads, Visit-IsDistinct}
use cassist.UploadPage.Batch.Ends.{
  HasOutcome, IsComplete, present, resolved-IsSettled, left-IsComplete,
}
use cassist.Tests.Client.{world, scan, upload_json, completed_upload}

abbrev capabilities : Capabilities
capabilities = record {
  accepted_mime_types = "application/pdf" ∷ [];
  accepted_extensions = ".pdf" ∷ [];
  maximum_file_bytes = 100;
  maximum_batch_files = 5;
}

abbrev nothing_selected : Selection
nothing_selected = record { items = []; error = none }

abbrev item : Item
item = record {
  id = record { name = "scan.pdf"; size = 7; last_modified = 1; index = 0 };
  file = scan;
  stage = none;
  progress = 0;
  result = none;
  error = none;
  validation_error = none;
}

abbrev page : Page
page = record { items = item ∷ []; error = none; uploading = false }

page-Visit : Visit page.items
unfolding select_files new_items invalid_count validate_file upload_mime_type
page-Visit = selects (scan ∷ []) (some capabilities) nothing_selected opens

given : Uploads item (done upload_json)
unfolding outcome_of
given = (world false, [], ap (λ r. outcome_of r.0) completed_upload)

abbrev ended : Batch
ended = record {
  pool = record {
    next_index = 1;
    outcomes = some (done upload_json) ∷ [];
    workers = finished ∷ [];
    calls = 0 ∷ [];
  };
  items =
      record {
        id = item.id;
        file = scan;
        stage = some complete;
        progress = 100;
        result = some upload_json;
        error = none;
        validation_error = none;
      }
      ∷ [];
}

ended-Reachable : Reachable page ended
unfolding start_batch start begin_submit update_all update_item resume resolve settle_item pending
ended-Reachable =
    steps
      (steps (steps (steps starts (takes 0 refl)) (progresses 0 0 40 item refl refl))
        (settles 0 0 item (done upload_json) refl refl given))
      (takes 0 refl)

at_first : get_elem? (pending page.items) 0 ≡ some item
unfolding pending
at_first = refl

ended-IsLeft : IsLeft 1 (end_submit page.items (present ended.pool.outcomes))
unfolding end_submit
ended-IsLeft = refl

Visit-IsDistinct_example : IsDistinct ended.items
Visit-IsDistinct_example = Visit-IsDistinct ended.items (uploads page-Visit ended-Reachable)

resolved-IsSettled_example :
    (o : Outcome) × HasOutcome ended 0 item o × Found (IsSettled item o) item.id ended.items
resolved-IsSettled_example =
    resolved-IsSettled page ended page-Visit ended-Reachable (refl, tt) 0 item at_first

left-IsComplete_example : Found (IsComplete item) item.id ended.items
left-IsComplete_example =
    left-IsComplete page ended 1 page-Visit ended-Reachable (refl, tt) ended-IsLeft 0 item at_first
