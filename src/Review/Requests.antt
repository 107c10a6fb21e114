-- ===== src/Review/Requests.antt =====
-- The requests of the review page: the mutations and the effect on the original of
-- frontend/src/pages/review-page.jsx.
use cassist.Prelude.{
  ℕ, String, Bool, true, false, not, Option, none, some, List, [], ◌∷◌, ◌&&◌, ◌||◌, ◌==◌,
  if◌then◌else◌, eqb, suc, ◌-◌, length,
}
use cassist.Api.World.{Error}
use cassist.Review.{
  Pending, approve_disabled, save_selection_disabled, set_section_selected, effective,
  ordered_draft, selection_is_dirty,
}
pub mod Laws

-- What the page reads of a result: `target_ids` are the targets of its presentation in order.
pub record ReviewResult : Type 0 where
  pub version : ℕ
  pub review_status : String
  pub document_id : String
  pub original_available : Bool
  pub target_ids : List String
  pub excluded_target_ids : List String

-- A mutation of the query library, with the data of its last success.
pub data Mutation {ℓ} (D : Type ℓ) : Type ℓ where
  idle pending : Mutation D
  done : D → Mutation D
  failed : Error → Mutation D

abbrev pub is_pending {ℓ} : {D : Type ℓ} → Mutation D → Bool
is_pending pending = true
is_pending _ = false

abbrev pub error_of {ℓ} : {D : Type ℓ} → Mutation D → Option Error
error_of (failed e) = some e
error_of _ = none

-- A request of the page, with what it carries.
pub data Request : Type 0 where
  correct : (expected_version : ℕ) (target_id value : String) (reason : Option String) → Request
  review : (expected_version : ℕ) (status : String) → Request
  select : (expected_version : ℕ) (excluded_target_ids : List String) → Request
  export : (expected_version : ℕ) → Request
  source : (document_id : String) → Request

-- The cached result, the state and the mutations; `stored` is what `localStorage` has; `sent`,
-- `infos` and `invalidations` are what the page did, the latest first.
pub record Page : Type 0 where
  pub result : ReviewResult
  pub draft_excluded : Option (List String)
  pub show_original : Bool
  pub stored : Option String
  pub correction : Mutation ReviewResult
  pub reviewing : Mutation ReviewResult
  pub selection : Mutation ReviewResult
  pub exporting : Mutation (Unit {0})
  pub original : Mutation String
  pub sent : List Request
  pub infos : List String
  pub invalidations : ℕ

-- `localStorage.getItem(...) !== "false"`
unfoldable pub is_shown : Option String → Bool
is_shown none = true
is_shown (some value) = not (value == "false")

-- `toggleOriginal`
unfoldable pub toggle_original : Page → Page
toggle_original p = record p {
  show_original = not p.show_original;
  stored = some (if not p.show_original then "true" else "false");
}

-- `sourcePaneVisible`
unfoldable pub source_pane_visible : Page → Bool
source_pane_visible p = p.show_original && p.result.original_available

-- `!sourceMutation.data && !sourceMutation.error && !sourceMutation.isPending`
unfoldable pub is_unasked : Mutation String → Bool
is_unasked idle = true
is_unasked _ = false

unfoldable pub ask_source : Page → Page
ask_source p = record p { original = pending; sent = source p.result.document_id ∷ p.sent }

-- The effect that asks for the original.
unfoldable pub request_source : Page → Page
unfolding is_unasked ask_source
request_source p =
    if p.show_original
      && p.result.original_available
      && not (p.result.document_id == "")
      && is_unasked p.original
    then ask_source p
    else p

-- `error.status === 409`
abbrev pub is_conflict : Error → Bool
is_conflict e = elim e.status [ none ↦ false | some status ↦ eqb status 409 ]

-- `handleMutationError`
unfoldable pub handle_mutation_error : Error → Page → Page
handle_mutation_error e p =
    if is_conflict e
    then record p {
      infos = "A newer version was loaded. Review your change and try again." ∷ p.infos;
      invalidations = suc p.invalidations;
    }
    else p

-- `updateCachedResult`
unfoldable pub update_cached_result : ReviewResult → Page → Page
update_cached_result result p = record p { result = result }

abbrev pub pending_of : Page → Pending
pending_of p = record {
  correction = is_pending p.correction;
  review = is_pending p.reviewing;
  selection = is_pending p.selection;
  export = is_pending p.exporting;
}

-- The exclusions that the page shows, in the order of the targets.
unfoldable pub shown_exclusions : Page → List String
unfolding ordered_draft
shown_exclusions p =
    ordered_draft p.result.target_ids (effective p.draft_excluded p.result.excluded_target_ids)

unfoldable pub is_dirty : Page → Bool
unfolding shown_exclusions selection_is_dirty
is_dirty p = selection_is_dirty (shown_exclusions p) p.result.excluded_target_ids

abbrev pub is_approved : Page → Bool
is_approved p = p.result.review_status == "approved"

-- `saveCorrection`, where `trim` is JavaScript's
unfoldable pub save_correction : (String → String) → (target_id value reason : String) → Page → Page
save_correction trim target_id value reason p = record p {
  correction = pending;
  sent =
      correct p.result.version target_id value
        (if trim reason == "" then none else some (trim reason))
      ∷ p.sent;
}

unfoldable pub send_review : String → Page → Page
send_review status p = record p {
  reviewing = pending;
  sent = review p.result.version status ∷ p.sent;
}

-- The button "Approve", and "Return to review" in its place
unfoldable pub press_approve : Page → Page
unfolding approve_disabled is_dirty send_review
press_approve p =
    if is_approved p || approve_disabled (pending_of p) (is_dirty p)
    then p
    else send_review "approved" p

unfoldable pub press_return : Page → Page
unfolding send_review
press_return p =
    if is_approved p && not (is_pending p.reviewing) then send_review "in_review" p else p

-- The button "Save Tally selection"
unfoldable pub save_selection : Page → Page
unfolding save_selection_disabled is_dirty shown_exclusions
save_selection p =
    if is_approved p
      || save_selection_disabled (pending_of p) (is_dirty p)
          (length p.result.target_ids - length (shown_exclusions p))
    then p
    else record p {
      selection = pending;
      sent = select p.result.version (shown_exclusions p) ∷ p.sent;
    }

-- The button "Download Tally JSON"
unfoldable pub press_export : Page → Page
press_export p =
    if is_approved p && not (is_pending p.exporting)
    then record p { exporting = pending; sent = export p.result.version ∷ p.sent }
    else p

-- A target or a section is ticked or cleared; the boxes are disabled while a selection is saved.
unfoldable pub tick : List String → Bool → Page → Page
unfolding set_section_selected
tick target_ids selected p = if is_approved p || is_pending p.selection then p else record p {
  draft_excluded =
      some (set_section_selected target_ids selected p.result.excluded_target_ids p.draft_excluded);
  selection = idle;
}

-- `onRetry` of the original's preview
unfoldable pub retry_source : Page → Page
unfolding ask_source
retry_source p = ask_source p

pub data Event : Type 0 where
  corrects : (target_id value reason : String) → Event
  approves returns saves exports toggles retries renders : Event
  ticks : (target_ids : List String) (selected : Bool) → Event
  corrected reviewed selected : ReviewResult → Event
  correction_failed review_failed selection_failed export_failed source_failed : Error → Event
  exported : Event
  source_given : (url : String) → Event
  loaded : ReviewResult → Event

-- An event; `renders` is the effect, and `loaded` a new answer of the query of the result.
unfoldable pub handle : (String → String) → Event → Page → Page
unfolding save_correction press_approve press_return save_selection press_export toggle_original
    retry_source request_source tick handle_mutation_error update_cached_result
handle trim (corrects target_id value reason) p =
    if is_approved p then p else save_correction trim target_id value reason p
handle trim approves p = press_approve p
handle trim returns p = press_return p
handle trim saves p = save_selection p
handle trim exports p = press_export p
handle trim toggles p = toggle_original p
handle trim retries p = retry_source p
handle trim renders p = request_source p
handle trim (ticks target_ids chosen) p = tick target_ids chosen p
handle trim (corrected result) p =
    update_cached_result result (record p { correction = done result })
handle trim (reviewed result) p = update_cached_result result (record p { reviewing = done result })
handle trim (selected result) p =
    update_cached_result result (record p { selection = done result; draft_excluded = none })
handle trim (correction_failed e) p = handle_mutation_error e (record p { correction = failed e })
handle trim (review_failed e) p = handle_mutation_error e (record p { reviewing = failed e })
handle trim (selection_failed e) p = handle_mutation_error e (record p { selection = failed e })
handle trim (export_failed e) p = handle_mutation_error e (record p { exporting = failed e })
handle trim exported p = record p { exporting = done tt }
handle trim (source_failed e) p = record p { original = failed e }
handle trim (source_given url) p = record p { original = done url }
handle trim (loaded result) p = update_cached_result result p

unfoldable pub handle_all : (String → String) → List Event → Page → Page
unfolding handle
handle_all trim [] p = p
handle_all trim (e ∷ es) p = handle_all trim es (handle trim e p)

-- The first render with a result.
unfoldable pub mount : Option String → ReviewResult → Page
unfolding is_shown
mount stored result = record {
  result = result;
  draft_excluded = none;
  show_original = is_shown stored;
  stored = stored;
  correction = idle;
  reviewing = idle;
  selection = idle;
  exporting = idle;
  original = idle;
  sent = [];
  infos = [];
  invalidations = 0;
}

-- `find((error) => error && error.status !== 409)`
abbrev pub first_shown : List (Option Error) → Option Error
first_shown [] = none
first_shown (none ∷ es) = first_shown es
first_shown (some e ∷ es) = let rest = first_shown es in if is_conflict e then rest else some e

-- `mutationError`
unfoldable pub mutation_error : Page → Option Error
mutation_error p = first_shown (
    error_of p.correction ∷ error_of p.reviewing ∷ error_of p.selection ∷ error_of p.exporting ∷ [])
