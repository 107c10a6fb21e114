-- ===== src/Tests/Batch.antt =====
-- A batch of two files with a limit of one, and the page on which it is uploaded.
use cassist.Prelude.{
  ℕ, ◌+◌, ◌≤◌, ◌<◌, ◌≡◌, ◌⊎◌, ◌↔◌, refl, true, false, none, some, List, [], ◌∷◌, length, is_some,
  get_elem?, arith,
}
use cassist.Api.Upload.{File}
use cassist.Pool.{
  State, start, resume, resolve, resumes, resolves, Reachable, starts, steps, busy, finished,
}
use cassist.Pool.Keeps.{IsSound, Reachable-IsSound}
use cassist.Pool.Ends.{measure, resolved-outcomes, Step-measure}
use cassist.UploadPage.{Capabilities, Quota, Item, Selection, select_files, pending, total_bytes}
use cassist.UploadPage.Submit.{Page}
use cassist.UploadPage.View.{Query, submit_disabled}
use cassist.UploadPage.Select.{AreItemsOf, select_files-AreItemsOf}

-- The operation that gives twice its item.
abbrev Doubles : ℕ → ℕ → Type 0
Doubles a r = r ≡ a + a

abbrev items : List ℕ
items = 5 ∷ 7 ∷ []

abbrev begun : State ℕ
begun = record {
  next_index = 1;
  outcomes = none ∷ none ∷ [];
  workers = busy 0 ∷ [];
  calls = 0 ∷ [];
}

begun-Reachable : Reachable Doubles 1 items begun
unfolding start resume
begun-Reachable = steps starts (resumes 0 refl)

abbrev ended : State ℕ
ended = record {
  next_index = 2;
  outcomes = some 10 ∷ some 14 ∷ [];
  workers = finished ∷ [];
  calls = 1 ∷ 0 ∷ [];
}

ended-Reachable : Reachable Doubles 1 items ended
unfolding start resume resolve
ended-Reachable =
    steps
      (steps
        (steps (steps (steps starts (resumes 0 refl)) (resolves 0 0 5 10 refl refl refl))
          (resumes 0 refl))
        (resolves 0 1 7 14 refl refl refl))
      (resumes 0 refl)

Reachable-IsSound_example : IsSound Doubles 1 items begun
Reachable-IsSound_example = Reachable-IsSound Doubles 1 items begun begun-Reachable

resolved-outcomes_example : (r : ℕ) × (get_elem? ended.outcomes 1 ≡ some (some r)) × Doubles 7 r
resolved-outcomes_example =
    resolved-outcomes Doubles 1 items ended ended-Reachable (omega arith) (refl, tt) 1 7 refl

Step-measure_example : measure 2 begun < measure 2 (start {R = ℕ} 1 2)
unfolding start resume
Step-measure_example = Step-measure Doubles items (start 1 2) begun (resumes 0 refl)

abbrev scan : File
scan = record { name = "scan.pdf"; size = 7; mime_type = ""; last_modified = 1 }

abbrev note : File
note = record { name = "note.txt"; size = 9; mime_type = "text/plain"; last_modified = 2 }

abbrev capabilities : Capabilities
capabilities = record {
  accepted_mime_types = "application/pdf" ∷ [];
  accepted_extensions = ".pdf" ∷ [];
  maximum_file_bytes = 100;
  maximum_batch_files = 5;
}

abbrev nothing_selected : Selection
nothing_selected = record { items = []; error = none }

select_files-AreItemsOf_example :
    (let t = select_files (scan ∷ note ∷ []) (some capabilities) nothing_selected in
      ((5 < 2) × (t.items ≡ []) × (is_some t.error ≡ true))
      ⊎ ((2 ≤ 5)
          × AreItemsOf capabilities 0 (scan ∷ note ∷ []) t.items
          × (t.error ≡ none ↔ length (pending t.items) ≡ 2)))
select_files-AreItemsOf_example =
    select_files-AreItemsOf (scan ∷ note ∷ []) capabilities nothing_selected (omega arith)

abbrev item : Item
item = record {
  id = record { name = "scan.pdf"; size = 7; last_modified = 1; index = 0 };
  file = scan;
  stage = none;
  progress = 0;
  result = none;
  error = none;
  validation_error = none;
}

abbrev page : Page
page = record { items = item ∷ []; error = none; uploading = false }

abbrev quota : Query Quota
quota = record {
  is_pending = false;
  error = none;
  data_of = some (record { upload_allowed = true; available_bytes = 50 });
}

abbrev known : Query Capabilities
known = record { is_pending = false; error = none; data_of = some capabilities }

page_enabled : submit_disabled page quota known ≡ false
unfolding submit_disabled pending total_bytes
page_enabled = refl
