-- ===== src/Review/Screen.antt =====
-- The screen of the review page: what review-page.jsx shows before there is a result, in its header,
-- and round its sections.
use cassist.Prelude.{
  ℕ, ◌-◌, String, Bool, false, not, Option, none, some, List, [], ◌∷◌, ◌++◌, ◌&&◌, eqb,
  if◌then◌else◌, length, map, Message, words, count,
}
use cassist.Review.{ReviewData, Issue, approve_disabled, save_selection_disabled, unmapped_issues}
use cassist.Review.Labels.{extracted_count, document_type_label}
use cassist.Review.Parts.{
  Correction, version_text, original_button, export_button, approve_button, save_selection_button,
  selection_notices,
}
use cassist.Review.Requests.{
  Page, is_pending, is_approved, is_dirty, pending_of, shown_exclusions, mutation_error,
}

-- What stands for the page: a wait, an error with a button to retry, or a result.
pub data Screen {ℓ} (R : Type ℓ) : Type ℓ where
  waiting : String → Screen R
  broken : (message retry : String) → Screen R
  shows : R → Screen R

-- The query of the result: whether it is pending, its error, and its data.
unfoldable pub screen {ℓ} : {R : Type ℓ} → (pending : Bool) → Option String → R → Screen R
screen pending error result =
    if pending
    then waiting "Loading extraction…"
    else elim error [ some message ↦ broken message "Retry" | none ↦ shows result ]

-- The buttons of the header.
pub data HeaderButton : Type 0 where
  toggle_document download return_to_review approve : HeaderButton

pub record ShownButton : Type 0 where
  pub button : HeaderButton
  pub text : String
  pub disabled : Bool

unfoldable pub document_button : Page → List ShownButton
document_button p =
    if p.result.original_available
    then record {
      button = toggle_document;
      text = original_button p.show_original;
      disabled = false;
    }
      ∷ []
    else []

unfoldable pub header_buttons : Page → List ShownButton
unfolding document_button is_dirty approve_disabled
header_buttons p =
    document_button p
    ++ (if is_approved p
        then record {
          button = download;
          text = export_button (is_pending p.exporting);
          disabled = is_pending p.exporting;
        }
          ∷ record {
            button = return_to_review;
            text = "Return to review";
            disabled = is_pending p.reviewing;
          }
          ∷ []
        else record {
          button = approve;
          text = approve_button (is_pending p.reviewing);
          disabled = approve_disabled (pending_of p) (is_dirty p);
        }
          ∷ [])

-- The header: the link back, the version, the document's type, and what was extracted.
pub record Header : Type 0 where
  pub back : Message
  pub version : Message
  pub document_type : Option (List ℕ)
  pub extracted : Message
  pub attention : Message
  pub buttons : List ShownButton

unfoldable pub header : Page → ReviewData → (document_type : List ℕ) → List Issue → Header
unfolding version_text document_type_label extracted_count header_buttons
header p shown_data document_type issues = record {
  back = words "/documents/" ∷ words p.result.document_id ∷ [];
  version = version_text p.result.version p.result.review_status;
  document_type = document_type_label document_type;
  extracted = count (extracted_count shown_data) ∷ words " extracted values" ∷ [];
  attention = count (length issues) ∷ words " need attention" ∷ [];
  buttons = header_buttons p;
}

-- The panel of the selection: how much is selected, the notices, and its button.
pub record SelectionPanel : Type 0 where
  pub selected : Message
  pub notices : List String
  pub button : String
  pub disabled : Bool

unfoldable pub selection_panel : Page → Option SelectionPanel
unfolding is_dirty shown_exclusions save_selection_disabled selection_notices
selection_panel p =
    if not (is_approved p) && not (eqb target_count 0)
    then some (record {
      selected =
          count selected_count
          ∷ words " of "
          ∷ count target_count
          ∷ words
              " items selected. Unchecked items stay in CAssist but are omitted from the export."
          ∷ [];
      notices = selection_notices (is_dirty p) selected_count;
      button = save_selection_button (is_pending p.selection);
      disabled = save_selection_disabled (pending_of p) (is_dirty p) selected_count;
    })
    else none
  where
    target_count : ℕ
    target_count = length p.result.target_ids

    selected_count : ℕ
    selected_count = target_count - length (shown_exclusions p)

-- The messages of the issues that are about the document, if there are some.
unfoldable pub document_issues : ReviewData → List Issue → Option (List String)
unfolding unmapped_issues
document_issues shown_data issues =
    messages_of (map (λ issue. issue.message) (unmapped_issues shown_data issues))
  where
    messages_of : List String → Option (List String)
    messages_of [] = none
    messages_of (m ∷ ms) = some (m ∷ ms)

-- The alert of the latest failure that is no conflict.
unfoldable pub alert : Page → Option String
unfolding mutation_error
alert p = elim (mutation_error p) [ none ↦ none | some e ↦ some e.message ]

-- The summary of the history of corrections.
unfoldable pub changes_summary : List Correction → Option Message
changes_summary [] = none
changes_summary (c ∷ cs) = some (words "Changes (" ∷ count (length (c ∷ cs)) ∷ words ")" ∷ [])
