-- ===== src/Review.antt =====
-- The page on which an extraction is reviewed: frontend/src/pages/review-page.jsx.
pub mod Groups
pub mod Selection
pub mod Issues
pub mod Editor
pub mod Labels
pub mod Requests
pub mod Parts
pub mod Value
pub mod Screen
pub mod Typing
pub mod Editable
use cassist.Prelude.{
  ℕ, suc, ◌+◌, ◌-◌, String, Bool, true, false, not, Option, none, some, List, [], ◌∷◌, ◌++◌, ◌&&◌,
  ◌||◌, ◌==◌, eqb, leb, ltb, if◌then◌else◌, has, add, delete, is_some, filter, length, map, any,
  all, lookup, insert, get_elem?,
}

pub record Cell : Type 0 where
  pub id : String
  pub value : String

pub record Field : Type 0 where
  pub id : String
  pub label : String
  pub value : String

pub record TextBlock : Type 0 where
  pub id : String
  pub text : String

-- A table, its rows being the lists of their cells.
pub record Table : Type 0 where
  pub id : String
  pub headers : List String
  pub rows : List (List Cell)

pub record ReviewData : Type 0 where
  pub fields : List Field
  pub tables : List Table
  pub text_blocks : List TextBlock

pub record Section : Type 0 where
  pub id : String
  pub title : String
  pub target_ids : List String

pub record Issue : Type 0 where
  pub code : String
  pub target_id : String
  pub message : String

-- A group of sections in the layout: one that is wide, or some that are balanced. The id of a
-- group is made of its first section's.
pub data Group : Type 0 where
  wide : Section → Group
  compact : List Section → Group

-- `section.target_ids.some((targetId) => tablesById.has(targetId))`
unfoldable pub contains_table : List String → Section → Bool
contains_table tables section = any (λ id. has id tables) section.target_ids

-- `flushCompactSections`; the sections are gathered in order
abbrev pub flush : List Section → List Group → List Group
flush [] groups = groups
flush (s ∷ ss) groups = groups ++ compact (s ∷ ss) ∷ []

-- `groupReviewSections` from a state of its two variables on
unfoldable pub group_from : List String → List Section → List Section → List Group → List Group
group_from tables [] gathered groups = flush gathered groups
group_from tables (section ∷ sections) gathered groups =
    let apart = group_from tables sections [] (flush gathered groups ++ wide section ∷ []) in
    let along = group_from tables sections (gathered ++ section ∷ []) groups in
    if contains_table tables section then apart else along

unfoldable pub group_review_sections : List String → List Section → List Group
unfolding group_from
group_review_sections tables sections = group_from tables sections [] []

-- The ids of the cells of a table, by rows.
unfoldable pub cell_ids : List (List Cell) → List String
cell_ids [] = []
cell_ids (row ∷ rows) = map (λ cell. cell.id) row ++ cell_ids rows

unfoldable pub table_cell_ids : List Table → List String
unfolding cell_ids
table_cell_ids [] = []
table_cell_ids (table ∷ tables) = cell_ids table.rows ++ table_cell_ids tables

-- `presentationSections`: those of the server, or one with all there is
unfoldable pub presentation_sections : Option (List Section) → ReviewData → List Section
presentation_sections (some (s ∷ ss)) review_data = s ∷ ss
presentation_sections _ review_data =
    record {
      id = "section-0001";
      title = "Document details";
      target_ids =
          map (λ field. field.id) review_data.fields
          ++ (map (λ table. table.id) review_data.tables
              ++ map (λ block. block.id) review_data.text_blocks);
    }
    ∷ []

-- `presentationTargetIds`
unfoldable pub presentation_target_ids : List Section → List String
presentation_target_ids [] = []
presentation_target_ids (s ∷ ss) = s.target_ids ++ presentation_target_ids ss

-- `draftExcludedTargetIds || savedExcludedTargetIds`
abbrev pub effective : Option (List String) → List String → List String
effective none saved = saved
effective (some draft) saved = draft

-- `orderedDraftExcludedTargetIds`
unfoldable pub ordered_draft : List String → List String → List String
ordered_draft targets excluded = filter (λ id. has id excluded) targets

-- `selectionIsDirty`, of the ordered draft and the saved set
unfoldable pub selection_is_dirty : List String → List String → Bool
selection_is_dirty ordered saved =
    not (eqb (length ordered) (length saved)) || any (λ id. not (has id saved)) ordered

-- `setTargetSelected`
unfoldable pub set_target_selected :
    String → Bool → List String → Option (List String) → List String
set_target_selected id selected saved current =
    if selected then delete id (effective current saved) else add id (effective current saved)

abbrev pub set_each : List String → Bool → List String → List String
set_each [] selected next = next
set_each (id ∷ ids) selected next =
    set_each ids selected (if selected then delete id next else add id next)

-- `setSectionSelected`
unfoldable pub set_section_selected :
    List String → Bool → List String → Option (List String) → List String
set_section_selected ids selected saved current = set_each ids selected (effective current saved)

-- `sectionSelectedCount`, and what `SectionSelectionCheckbox` makes of it
unfoldable pub section_selected_count : List String → List String → ℕ
section_selected_count ids excluded = length (filter (λ id. not (has id excluded)) ids)

pub record Checkbox : Type 0 where
  pub checked : Bool
  pub indeterminate : Bool

unfoldable pub section_checkbox : (selected_count target_count : ℕ) → Checkbox
section_checkbox selected_count target_count = record {
  checked = eqb selected_count target_count;
  indeterminate = ltb 0 selected_count && ltb selected_count target_count;
}

-- `visiblePresentationSections`
unfoldable pub visible_sections : Bool → List String → List Section → List Section
visible_sections false saved sections = sections
visible_sections true saved sections =
    filter (λ section. not (eqb (length section.target_ids) 0)) (map without sections)
  where
    without : Section → Section
    without section = record {
      id = section.id;
      title = section.title;
      target_ids = filter (λ id. not (has id saved)) section.target_ids;
    }

-- `tablesById.get(id)`: the last of that id
unfoldable pub table_by_id : List Table → String → Option Table
table_by_id [] id = none
table_by_id (table ∷ tables) id = elim (table_by_id tables id) [
  | some later ↦ some later
  | none ↦ if table.id == id then some table else none
]

-- The cells of a table in its place, or the target itself.
unfoldable pub expand_targets : List Table → List String → List String
unfolding table_by_id cell_ids
expand_targets tables [] = []
expand_targets tables (id ∷ ids) =
    elim (table_by_id tables id) [ none ↦ id ∷ [] | some table ↦ cell_ids table.rows ]
    ++ expand_targets tables ids

-- `targetOrder`
unfoldable pub target_order : List Table → List Section → List String
unfolding expand_targets
target_order tables [] = []
target_order tables (s ∷ ss) = expand_targets tables s.target_ids ++ target_order tables ss

-- `indexOf`, plus one; 0 is -1
abbrev pub index_of : String → List String → ℕ
index_of id [] = 0
index_of id (x ∷ xs) =
    let rest = index_of id xs in if x == id then 1 else if eqb rest 0 then 0 else suc rest

-- `if (!nextTarget) return`
abbrev pub named : Option String → Option String
named none = none
named (some id) = if id == "" then none else some id

-- The target that `navigateTarget` goes to: the next one, or the one before.
unfoldable pub next_target : List String → String → (forward : Bool) → Option String
next_target order id true = named (get_elem? order (index_of id order))
next_target order id false =
    if leb 2 (index_of id order) then named (get_elem? order (index_of id order - 2)) else none

-- `issuesByTarget.get(id) || []`
abbrev pub or_empty : Option (List Issue) → List Issue
or_empty none = []
or_empty (some issues) = issues

-- `issuesByTarget.set(…)` for one issue
abbrev pub add_issue : Issue → List (String × List Issue) → List (String × List Issue)
add_issue issue grouped =
    insert issue.target_id (or_empty (lookup issue.target_id grouped) ++ issue ∷ []) grouped

unfoldable pub group_issues : List Issue → List (String × List Issue) → List (String × List Issue)
group_issues [] grouped = grouped
group_issues (issue ∷ issues) grouped = group_issues issues (add_issue issue grouped)

-- `knownTargets`
unfoldable pub known_targets : ReviewData → List String
unfolding table_cell_ids
known_targets review_data =
    map (λ field. field.id) review_data.fields
    ++ (table_cell_ids review_data.tables ++ map (λ block. block.id) review_data.text_blocks)

-- `unmappedIssues`
unfoldable pub unmapped_issues : ReviewData → List Issue → List Issue
unfolding known_targets
unmapped_issues review_data issues =
    filter (λ issue. not (has issue.target_id (known_targets review_data))) issues

-- Which requests of the page are pending.
pub record Pending : Type 0 where
  pub correction : Bool
  pub review : Bool
  pub selection : Bool
  pub export : Bool

-- `disabled` of the buttons "Approve" and "Save Tally selection"
unfoldable pub approve_disabled : Pending → Bool → Bool
approve_disabled pending dirty = pending.review || pending.correction || pending.selection || dirty

unfoldable pub save_selection_disabled : Pending → Bool → ℕ → Bool
save_selection_disabled pending dirty selected_count =
    not dirty || eqb selected_count 0 || pending.selection
