-- ===== src/Review/Parts.antt =====
-- The parts that the review page is made of: frontend/src/pages/review-components.jsx, and what
-- review-page.jsx puts into them.
use cassist.Prelude.{
  ℕ, String, Bool, true, false, not, Option, none, some, List, [], ◌∷◌, ◌&&◌, ◌||◌, ◌==◌,
  if◌then◌else◌, eqb, has, length, map, lookup, Message, Part, words, count,
}
use Prim.Native.String.{◌++◌ as append}
use cassist.Review.{
  Field, Table, TextBlock, ReviewData, Section, Issue, Group, wide, compact, table_by_id,
  section_selected_count,
}
use cassist.Review.Labels.{review_labels}

-- `CopyValue`: what it says, whether that is open, and whether a timer will close it.
pub record Copy : Type 0 where
  pub feedback : String
  pub is_open : Bool
  pub timer : Bool

pub data CopyEvent : Type 0 where
  written : (ok : Bool) → CopyEvent
  timed_out : CopyEvent
  opened : (open_now : Bool) → CopyEvent

unfoldable pub copy : CopyEvent → Copy → Copy
copy (written ok) c = record {
  feedback = if ok then "Copied" else "Could not copy";
  is_open = true;
  timer = true;
}
copy timed_out c = if c.timer then record c { is_open = false; timer = false } else c
copy (opened open_now) c = record c { is_open = open_now }

-- The buttons of `QualityIssues`: each suggestion, and whether its button is disabled.
unfoldable pub suggestions : Bool → Bool → List (Issue × Option String) → List (String × Bool)
suggestions can_edit saving [] = []
suggestions can_edit saving ((issue, none) ∷ issues) = suggestions can_edit saving issues
suggestions can_edit saving ((issue, some suggested_value) ∷ issues) =
    let rest = suggestions can_edit saving issues in
    if can_edit then (suggested_value, saving) ∷ rest else rest

-- `Card`: the label of the button that opens it, its summary, and whether it shows its content
unfoldable pub card_label : Bool → String → Message
card_label is_open title =
    words (if is_open then "Collapse" else "Expand")
    ∷ words " "
    ∷ words title
    ∷ words " section"
    ∷ []

unfoldable pub item_summary : Option Message → ℕ → Message
item_summary (some summary) item_count = summary
item_summary none item_count =
    count item_count ∷ words " " ∷ words (if eqb item_count 1 then "item" else "items") ∷ []

unfoldable pub shows_content : (collapsible is_open : Bool) → Bool
shows_content collapsible is_open = not collapsible || is_open

-- A correction, as the history shows it.
pub record Correction : Type 0 where
  pub target_id : String
  pub previous_value : String
  pub corrected_value : String
  pub reason : Option String

-- `CorrectionHistory`: the label of each correction
unfoldable pub correction_label : List (String × String) → Correction → String
correction_label target_labels c = elim (lookup c.target_id target_labels) [
  | none ↦ "Extracted value"
  | some label ↦ if label == "" then "Extracted value" else label
]

unfoldable pub correction_history :
    List (String × String) → List Correction → List (String × Correction)
unfolding correction_label
correction_history target_labels corrections =
    map (λ c. (correction_label target_labels c, c)) corrections

unfoldable pub join_numbers : List ℕ → Message
join_numbers [] = []
join_numbers (n ∷ []) = count n ∷ []
join_numbers (n ∷ m ∷ ns) = count n ∷ words ", " ∷ join_numbers (m ∷ ns)

-- The pages and the heading of a `ReviewTable`
unfoldable pub pages_text : List ℕ → Message
unfolding join_numbers
pages_text page_numbers =
    words "Page"
    ∷ words (if eqb (length page_numbers) 1 then "" else "s")
    ∷ words " "
    ∷ join_numbers page_numbers

unfoldable pub table_heading : Option String → String → String
table_heading none section_title = "Table"
table_heading (some title) section_title =
    if title == "" || title == section_title then "Table" else title

unfoldable pub table_checkbox_label : Option String → String → Message
table_checkbox_label title section_title =
    words "Include " ∷ words (named_or title) ∷ words " table in Tally JSON" ∷ []
  where
    named_or : Option String → String
    named_or none = section_title
    named_or (some t) = if t == "" then section_title else t

-- The last of the entries with an id, as in a map made of them.
unfoldable pub field_by_id : List Field → String → Option Field
field_by_id [] id = none
field_by_id (f ∷ fs) id =
    let later = field_by_id fs id in
    elim later [ some g ↦ some g | none ↦ if f.id == id then some f else none ]

unfoldable pub block_by_id : List TextBlock → String → Option TextBlock
block_by_id [] id = none
block_by_id (b ∷ bs) id =
    let later = block_by_id bs id in
    elim later [ some c ↦ some c | none ↦ if b.id == id then some b else none ]

-- What a section's card shows for a target.
pub data Content : Type 0 where
  field_value : Field → Content
  shown_table : Table → Content
  text_value : TextBlock → Content
  nothing : Content

unfoldable pub target_content : ReviewData → String → Content
unfolding field_by_id block_by_id table_by_id
target_content data_shown id = elim (field_by_id data_shown.fields id) [
  | some f ↦ field_value f
  | none ↦ elim (table_by_id data_shown.tables id) [
    | some t ↦ shown_table t
    | none ↦ elim (block_by_id data_shown.text_blocks id) [ some b ↦ text_value b | none ↦ nothing ]
  ]
]

-- `itemSummary` of a section's card
unfoldable pub section_summary : Bool → List String → Section → Option Message
unfolding section_selected_count
section_summary approved excluded section =
    if approved
    then none
    else some (
        count (section_selected_count section.target_ids excluded)
        ∷ words " of "
        ∷ count (length section.target_ids)
        ∷ words " selected"
        ∷ [])

pub data Layout : Type 0 where
  wide_layout : Section → Layout
  balanced_layout : List Section → Layout

-- `data-review-layout` of a group
unfoldable pub group_layout : Group → Layout
group_layout (wide section) = wide_layout section
group_layout (compact (section ∷ [])) = wide_layout section
group_layout (compact sections) = balanced_layout sections

-- `editableProps`: whether a value can be edited, and whether it was
unfoldable pub can_edit : String → Bool
can_edit review_status = not (review_status == "approved")

unfoldable pub is_edited : List Correction → String → Bool
is_edited corrections target_id = has target_id (map (λ c. c.target_id) corrections)

-- The document's title
unfoldable pub review_title : Option String → String
review_title none = "Review — CAssist"
review_title (some filename) =
    if filename == "" then "Review — CAssist" else append "Review — " (append filename " — CAssist")

unfoldable pub version_text : ℕ → String → Message
version_text version review_status =
    words "Version " ∷ count version ∷ words " · " ∷ label (lookup review_status review_labels) ∷ []
  where
    label : Option String → Part
    label none = words ""
    label (some l) = words l

-- The texts of the buttons
unfoldable pub original_button : Bool → String
original_button show_original = if show_original then "Hide document" else "Show document"

unfoldable pub export_button : Bool → String
export_button pending = if pending then "Creating export…" else "Download Tally JSON"

unfoldable pub approve_button : Bool → String
approve_button pending = if pending then "Approving…" else "Approve"

unfoldable pub save_selection_button : Bool → String
save_selection_button pending = if pending then "Saving selection…" else "Save Tally selection"

-- The notices below the number of selected items
unfoldable pub selection_notices : Bool → ℕ → List String
selection_notices dirty selected_count =
    note dirty "Save this selection before approval."
      (note (eqb selected_count 0) "Select at least one item for export." [])
  where
    note : Bool → String → List String → List String
    note shown notice rest = if shown then notice ∷ rest else rest

-- The card that stands where nothing was extracted
unfoldable pub shows_empty_card : ReviewData → Bool
shows_empty_card d =
    eqb (length d.fields) 0 && eqb (length d.tables) 0 && eqb (length d.text_blocks) 0
