-- ===== src/Review/Editable.antt =====
-- The values on the review page: `EditableValue` with what review-page.jsx gives it, and what a use of
-- it does to the page.
pub mod Evidence
pub mod Careful
pub mod Corrects
use Prim.Native.String.{◌++◌ as append}
use cassist.Prelude.{
  suc, get_elem?, words, count, Message, ℕ, ◌≡◌, ◌⊎◌, inl, inr, refl, sym, ap, ◌∙◌, String, Bool,
  true, false, not, ◌&&◌, ◌||◌, Option, none, some, List, [], ◌∷◌, ◌==◌, if◌then◌else◌, has, lookup,
  arith, Bool-cases, true-ne-false,
}
use cassist.Review.{Cell, Table, Field, TextBlock, ReviewData, effective}
use cassist.Review.Editor.{
  Editor, Key, enter, escape, tab, other, Request, Reaction, save, move, choose, point,
  start_editing, cancel_editing, key_down, use_suggestion, settle_save,
}
use cassist.Review.Labels.{header_text, original_values}
use cassist.Review.Parts.{
  table_checkbox_label, table_heading, pages_text, Correction, can_edit, is_edited,
}
use cassist.Review.Requests.{Page, is_pending, is_approved, save_correction, tick}
use cassist.Review.Value.{
  Tick, Props, Event, press_edit, press_save, press_cancel, type_draft, type_reason, accept,
  press_key, settled, is_open, is_typable, guarded, handle, editable_value, Shown, Body, reads,
  Buttons, no_buttons,
}

-- What the values are drawn from: the page, the corrections and the extracted data of its result,
-- and JavaScript's `trim`.
pub record Source : Type 0 where
  pub page : Page
  pub corrections : List Correction
  pub extracted : ReviewData
  pub trim : String → String

-- The values that `editableProps` gives, and the box, which an approved review does not have.
unfoldable pub value_props :
    Source → (id : String) → (label : Message) → (value : String) → (page_number : Option ℕ) → Props
value_props s id label value page_number = record {
  can_edit = can_edit s.page.result.review_status;
  edited = is_edited s.corrections id;
  hide_label = false;
  label = label;
  navigates = true;
  original_value = lookup id (original_values s.extracted);
  page_number = page_number;
  saving = is_pending s.page.correction;
  selected = not (has id (effective s.page.draft_excluded s.page.result.excluded_target_ids));
  selection_disabled = is_approved s.page || is_pending s.page.selection;
  selection_label = none;
  on_selection_change = not (is_approved s.page);
  value = value;
  is_blank = λ text. s.trim text == "";
}

unfoldable pub field_props : Source → (page_number : Option ℕ) → Field → Props
unfolding value_props
field_props s page_number field =
    value_props s field.id (words field.label ∷ []) field.value page_number

unfoldable pub block_props :
    Source → (title : String) → (page_number : Option ℕ) → TextBlock → Props
unfolding value_props
block_props s title page_number block =
    record (value_props s block.id (words title ∷ words " text" ∷ []) block.text page_number) {
      hide_label = true;
      selection_label = some (append "Include " (append title " text in Tally JSON"));
    }

-- A cell of a table, by its row and column. It has no box of its own and does not show its page.
unfoldable pub cell_props : Source → (headers : List String) → (row column : ℕ) → Cell → Props
unfolding value_props
cell_props s headers row column cell =
    record (value_props s cell.id
      (words (header_text (get_elem? headers column)) ∷ words ", row " ∷ count (suc row) ∷ [])
      cell.value none) {
        hide_label = true;
        selected = true;
        selection_disabled = false;
        on_selection_change = false;
      }

unfoldable pub row_props : Source → List String → (row column : ℕ) → List Cell → List Props
unfolding cell_props
row_props s headers row column [] = []
row_props s headers row column (cell ∷ cells) =
    cell_props s headers row column cell ∷ row_props s headers row (suc column) cells

unfoldable pub rows_props : Source → List String → (row : ℕ) → List (List Cell) → List (List Props)
unfolding row_props
rows_props s headers row [] = []
rows_props s headers row (cells ∷ rows) =
    row_props s headers row 0 cells ∷ rows_props s headers (suc row) rows

-- `ReviewTable`: its box, its heading, its pages, its headers and its cells
pub record TableView : Type 0 where
  pub faded : Bool
  pub box : Option Tick
  pub heading : String
  pub pages : Message
  pub headers : List String
  pub cells : List (List Props)

unfoldable pub review_table :
    Source
    → (title : Option String) → (section_title : String) → (page_numbers : List ℕ) → Table
    → TableView
unfolding rows_props table_checkbox_label table_heading pages_text
review_table s title section_title page_numbers table = record {
  faded = not selected;
  box =
      if is_approved s.page
      then none
      else some (record {
        label = table_checkbox_label title section_title;
        checked = selected;
        disabled = is_approved s.page || is_pending s.page.selection;
      });
  heading = table_heading title section_title;
  pages = pages_text page_numbers;
  headers = table.headers;
  cells = rows_props s table.headers 0 table.rows;
}
  where
    selected : Bool
    selected =
        not (has table.id (effective s.page.draft_excluded s.page.result.excluded_target_ids))

-- What the component asks for, as the page does it: it saves corrections, and takes the target into
-- the selection or out of it. A move to another value only sets the focus.
unfoldable pub perform : (String → String) → (id : String) → List Request → Page → Page
unfolding save_correction tick
perform trim id [] p = p
perform trim id (save value reason _ ∷ requests) p =
    perform trim id requests (save_correction trim id value reason p)
perform trim id (choose selected ∷ requests) p =
    perform trim id requests (tick (id ∷ []) selected p)
perform trim id (move _ ∷ requests) p = perform trim id requests p
perform trim id (point _ ∷ requests) p = perform trim id requests p

-- `onEvidenceChange`: the active evidence, which is of the target, or none.
unfoldable pub show_evidence {ℓ} :
    {E : Type ℓ} → (evidence : E) → List Request → Option E → Option E
show_evidence evidence [] active = active
show_evidence evidence (point here ∷ requests) active =
    show_evidence evidence requests (if here then some evidence else none)
show_evidence evidence (_ ∷ requests) active = show_evidence evidence requests active

-- An event at the component of the target `id`, which was read at `evidence`: the page afterwards,
-- and the evidence that is active then.
unfoldable pub use_value {ℓ} :
    {E : Type ℓ}
    → Source
    → (id : String) → (evidence : E) → (active : Option E) → Props
    → Event
    → Editor
    → Page × Option E
unfolding perform show_evidence
use_value s id evidence active props event e =
    let requests = (handle props event e).1 in
    (perform s.trim id requests s.page, show_evidence evidence requests active)
