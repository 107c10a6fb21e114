-- ===== src/Compare.antt =====
-- The page that compares two models: frontend/src/pages/compare-page.jsx.
use cassist.Prelude.{
  ℕ, ◌+◌, ◌≡◌, String, Bool, true, false, not, ◌&&◌, ◌||◌, Option, none, some, List, [], ◌∷◌, all,
  ltb, eqb, length, has, is_some, if◌then◌else◌, Message, words, count, ◌==◌, refl, ap, ◌∙◌,
}
use cassist.Dashboard.{adaptive_polling_interval}
use cassist.Dashboard.RowLaws.{IsBetween, interval-IsBetween, is_some-interval}
use cassist.Preview.Numbers.{Numbers}

abbrev pub terminal_statuses : List String
terminal_statuses = "succeeded" ∷ "failed" ∷ "cancelled" ∷ "needs_confirmation" ∷ "unsupported" ∷ []

abbrev pub comparison_complete : List String
comparison_complete = "succeeded" ∷ []

-- A run of one model. The cost is JavaScript's number of the server's text.
pub record Run (W : Type 0) : Type 0 where
  pub run_id : String
  pub provider : String
  pub model_id : String
  pub status : String
  pub latency_ms : Option ℕ
  pub input_tokens : Option ℕ
  pub output_tokens : Option ℕ
  pub estimated_cost_usd : Option W
  pub quality_issue_count : Option ℕ
  pub correction_count : Option ℕ

unfoldable pub number_or : ℕ → Option ℕ → ℕ
number_or fallback none = fallback
number_or fallback (some n) = n

module _ {W : Type 0} where
  abbrev pub is_terminal : Run W → Bool
  is_terminal run = has run.status terminal_statuses

  -- `comparisonStatus`
  unfoldable pub comparison_status : List (Run W) → String
  comparison_status runs =
      if eqb (length runs) 2 && all is_terminal runs then "succeeded" else "processing"

  -- `refetchInterval`, by the runs of the data, if there is any, and the updates so far
  unfoldable pub refetch_interval : Option (List (Run W)) → ℕ → Option ℕ
  unfolding comparison_status adaptive_polling_interval
  refetch_interval none updates = adaptive_polling_interval none updates comparison_complete
  refetch_interval (some runs) updates =
      adaptive_polling_interval (some (comparison_status runs)) updates comparison_complete

  unfoldable pub latency_text : Run W → Message
  latency_text run = elim run.latency_ms [
    | none ↦ words "—" ∷ []
    | some ms ↦ count ms ∷ words " ms" ∷ []
  ]

  unfoldable pub tokens_text : Run W → Message
  unfolding number_or
  tokens_text run = elim run.input_tokens [
    | none ↦ words "—" ∷ []
    | some tokens ↦ count (tokens + number_or 0 run.output_tokens) ∷ []
  ]

  -- `to_fixed` is JavaScript's `toFixed(6)`
  unfoldable pub cost_text : (W → String) → Run W → Message
  cost_text to_fixed run = elim run.estimated_cost_usd [
    | none ↦ words "—" ∷ []
    | some cost ↦ words "$" ∷ words (to_fixed cost) ∷ []
  ]

-- `run.quality_issue_count ?? "—"`, and the same of the corrections
unfoldable pub count_text : Option ℕ → Message
count_text none = words "—" ∷ []
count_text (some n) = count n ∷ []

pub record Difference : Type 0 where
  pub kind : String
  pub label : Option String
  pub value : String
  pub gemini_count : ℕ
  pub openai_count : ℕ

pub record Agreement (W : Type 0) : Type 0 where
  pub match_rate : W
  pub matching_observations : ℕ
  pub compared_observations : ℕ
  pub difference_count : ℕ
  pub differences : List Difference

-- The heading of the differences, or that there are none.
unfoldable pub differences_text : {W : Type 0} → Agreement W → Message
differences_text a =
    if eqb a.difference_count 0
    then words "No observation differences found." ∷ []
    else if ltb (length a.differences) a.difference_count
    then words "Showing "
      ∷ count (length a.differences)
      ∷ words " of "
      ∷ count a.difference_count
      ∷ []
    else count a.difference_count ∷ words " differing observations" ∷ []

-- `difference.label || difference.kind.replaceAll("_", " ")`, where the replacing is JavaScript's
unfoldable pub difference_title : (String → String) → Difference → String
difference_title spaced d = elim d.label [
  | none ↦ spaced d.kind
  | some label ↦ if label == "" then spaced d.kind else label
]

unfoldable pub agreement_text : {W : Type 0} ⦃n : Numbers W⦄ → Agreement W → Message
agreement_text ⦃n⦄ a =
    words "Exact observation agreement: "
    ∷ count (n.rounded (n.times a.match_rate (n.whole 100)))
    ∷ words "% ("
    ∷ count a.matching_observations
    ∷ words " of "
    ∷ count a.compared_observations
    ∷ words ")"
    ∷ []

pub record Comparison (W : Type 0) : Type 0 where
  pub runs : List (Run W)
  pub agreement : Option (Agreement W)

pub data CompareView (W : Type 0) : Type 0 where
  start_button : (disabled : Bool) → CompareView W
  queuing : CompareView W
  comparison_error : (message : String) → CompareView W
  compared : List (Run W) → Option (Agreement W) → CompareView W

-- What the page gets of its two queries.
pub record Queries (W : Type 0) : Type 0 where
  pub document_pending : Bool
  pub document_error : Option String
  pub comparison_pending : Bool
  pub comparison_error : Option String
  pub comparison : Comparison W

-- The branches of the page, by whether the comparison was started.
unfoldable pub show_comparison : {W : Type 0} → Bool → Queries W → CompareView W
show_comparison false q = start_button (q.document_pending || is_some q.document_error)
show_comparison true q = if q.comparison_pending then queuing else elim q.comparison_error [
  | some message ↦ comparison_error message
  | none ↦ compared q.comparison.runs q.comparison.agreement
]

is_complete_lem :
    (over : Bool) → has (if over then "succeeded" else "processing") comparison_complete ≡ over
is_complete_lem true = refl
is_complete_lem false = refl

-- Once the comparison has been answered, the page asks again if and only if it does not have exactly
-- two runs, all of them over, and it waits from 2 to 10 seconds before it does.
pub refetch_interval-comparison :
    {W : Type 0} (runs : List (Run W)) (updates : ℕ)
    → (is_some (refetch_interval (some runs) updates)
        ≡ not (eqb (length runs) 2 && all is_terminal runs))
      × IsBetween 2000 10000 (refetch_interval (some runs) updates)
unfolding refetch_interval comparison_status
refetch_interval-comparison runs updates =
    let over = eqb (length runs) 2 && all is_terminal runs in
    let status = if over then "succeeded" else "processing" in
    (
      is_some-interval status updates comparison_complete ∙ ap not (is_complete_lem over),
      interval-IsBetween (some status) updates comparison_complete,
    )
