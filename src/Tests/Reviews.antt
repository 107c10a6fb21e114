-- ===== src/Tests/Reviews.antt =====
-- A review of three targets in two sections.
use cassist.Prelude.{
  map, words, All, ◌==◌, ◌-◌, ◌≡◌, ◌↔◌, refl, String, true, false, not, ◌&&◌, ◌||◌, none, some,
  List, [], ◌∷◌, length, has, filter, All, eqb,
}
use cassist.Review.{
  Cell, Field, TextBlock, Section, Issue, ReviewData, Pending, ordered_draft, selection_is_dirty,
  set_section_selected, section_selected_count, section_checkbox, approve_disabled,
  save_selection_disabled, group_review_sections, visible_sections, presentation_target_ids,
}
use cassist.Review.Selection.{
  IsPart, selection_is_dirty_iff, set_section_selected-section_checkbox, approve-AsShown,
}
use cassist.Review.Parts.{group_layout}
use cassist.Review.Groups.{
  IsLaidOut, IsMaximal, IsArranged, sections_of, group_review_sections-IsLaidOut,
  presentation_target_ids-visible_sections,
}
use cassist.Review.Value.{Props, Event, type_draft, press_save, settled}
use cassist.Review.Requests.{ReviewResult, mount}
use cassist.Review.Editable.{Source}

abbrev targets : List String
targets = "f1" ∷ "f2" ∷ "t1" ∷ []

abbrev saved : List String
saved = "f2" ∷ []

abbrev idle : Pending
idle = record { correction = false; review = false; selection = false; export = false }

selection_is_dirty_iff_example :
    (selection_is_dirty (ordered_draft targets ("t1" ∷ [])) saved ≡ false) ↔ (
      IsPart (ordered_draft targets ("t1" ∷ [])) saved
      × IsPart saved (ordered_draft targets ("t1" ∷ [])))
selection_is_dirty_iff_example =
    selection_is_dirty_iff targets ("t1" ∷ []) saved (refl, (refl, (refl, tt))) (refl, tt)

set_section_selected-section_checkbox_example :
    (let on = set_section_selected targets true saved none in
      let off = set_section_selected targets false saved none in
      ((id : String) → has id on ≡ (not (has id targets) && has id saved))
      × ((id : String) → has id off ≡ (has id targets || has id saved))
      × ((section_checkbox (section_selected_count targets on) 3).checked ≡ true)
      × ((section_checkbox (section_selected_count targets off) 3).checked ≡ false)
      × ((section_checkbox (section_selected_count targets off) 3).indeterminate ≡ false))
set_section_selected-section_checkbox_example =
    set_section_selected-section_checkbox targets saved none

clean : approve_disabled idle (selection_is_dirty (ordered_draft targets saved) saved) ≡ false
unfolding approve_disabled selection_is_dirty ordered_draft
clean = refl

approve-AsShown_example :
    (false ≡ false)
    × (false ≡ false)
    × (false ≡ false)
    × ((id : String) → has id targets ≡ true → has id saved ≡ has id saved)
approve-AsShown_example =
    approve-AsShown idle targets saved saved (refl, (refl, (refl, tt))) (refl, tt) clean

one_more :
    save_selection_disabled idle
      (selection_is_dirty (ordered_draft targets ("f1" ∷ [])) saved)
      (length targets - length (ordered_draft targets ("f1" ∷ [])))
    ≡ false
unfolding save_selection_disabled selection_is_dirty ordered_draft
one_more = refl

abbrev sections : List Section
sections =
    record { id = "s1"; title = "Details"; target_ids = "f1" ∷ "f2" ∷ [] }
    ∷ record { id = "s2"; title = "Items"; target_ids = "t1" ∷ [] }
    ∷ []

group_review_sections-IsLaidOut_example :
    (sections_of (group_review_sections ("t1" ∷ []) sections) ≡ sections)
    × All (IsLaidOut ("t1" ∷ [])) (group_review_sections ("t1" ∷ []) sections)
    × IsMaximal (group_review_sections ("t1" ∷ []) sections)
    × All (IsArranged ("t1" ∷ [])) (map group_layout (group_review_sections ("t1" ∷ []) sections))
group_review_sections-IsLaidOut_example = group_review_sections-IsLaidOut ("t1" ∷ []) sections

presentation_target_ids-visible_sections_example :
    (presentation_target_ids (visible_sections true ("t1" ∷ []) sections)
      ≡ filter (λ id. not (has id ("t1" ∷ []))) (presentation_target_ids sections))
    × All (λ s. eqb (length s.target_ids) 0 ≡ false) (visible_sections true ("t1" ∷ []) sections)
presentation_target_ids-visible_sections_example =
    presentation_target_ids-visible_sections ("t1" ∷ []) sections

abbrev review_data : ReviewData
review_data = record {
  fields = record { id = "f1"; label = "Total"; value = "7" } ∷ [];
  tables = [];
  text_blocks = [];
}

abbrev issue : Issue
issue = record { code = "sum"; target_id = "document"; message = "The totals differ." }

abbrev props : Props
props = record {
  can_edit = true;
  edited = false;
  hide_label = false;
  label = words "Total" ∷ [];
  navigates = true;
  original_value = none;
  page_number = some 1;
  saving = false;
  selected = true;
  selection_disabled = false;
  selection_label = none;
  on_selection_change = true;
  value = "7";
  is_blank = λ text. text == "";
}

abbrev typing : List (Props × Event)
typing = (props, type_draft "8") ∷ (props, press_save) ∷ (props, settled false none) ∷ []

abbrev reviewed : ReviewResult
reviewed = record {
  version = 2;
  review_status = "in_review";
  document_id = "d1";
  original_available = true;
  target_ids = "f1" ∷ [];
  excluded_target_ids = [];
}

abbrev source : Source
source = record {
  page = mount none reviewed;
  corrections = [];
  extracted = review_data;
  trim = λ text. text;
}

abbrev total_field : Field
total_field = record { id = "f1"; label = "Total"; value = "7" }

abbrev total_block : TextBlock
total_block = record { id = "b1"; text = "7" }

abbrev total_cell : Cell
total_cell = record { id = "c1"; value = "7" }
