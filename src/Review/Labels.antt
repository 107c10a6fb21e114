-- ===== src/Review/Labels.antt =====
-- What review-page.jsx calls things: labels, original values and counts.
use cassist.Prelude.{
  ℕ, suc, ◌+◌, ◌≡◌, refl, String, Option, none, some, List, [], ◌∷◌, ◌++◌, length, map,
  length-append, length-map, get_elem?, insert, words, count, Message, eqb, leb, ◌&&◌, ◌-◌,
  if◌then◌else◌, arith,
}
use cassist.Review.{
  Cell, Field, Table, TextBlock, ReviewData, cell_ids, table_cell_ids, known_targets,
}

-- `REVIEW_LABELS`
abbrev pub review_labels : List (String × String)
review_labels =
    ("unreviewed", "Not reviewed") ∷ ("in_review", "In review") ∷ ("approved", "Approved") ∷ []

-- `value.split("_")`, of what was read of a part, backwards or not
abbrev pub split_parts : List ℕ → List ℕ → List (List ℕ)
split_parts part [] = part ∷ []
split_parts part (c ∷ cs) =
    let next = split_parts [] cs in
    let same = split_parts (part ++ c ∷ []) cs in if eqb c b'_' then part ∷ next else same

abbrev pub upper_code : ℕ → ℕ
upper_code c = if leb b'a' c && leb c b'z' then c - 32 else c

-- `part[0].toUpperCase() + part.slice(1)` of an ASCII text; an empty part throws.
abbrev pub capitalised : List ℕ → Option (List ℕ)
capitalised [] = none
capitalised (c ∷ cs) = some (upper_code c ∷ cs)

unfoldable pub join_parts : List (List ℕ) → Option (List ℕ)
join_parts [] = some []
join_parts (p ∷ []) = capitalised p
join_parts (p ∷ q ∷ ps) =
    let rest = join_parts (q ∷ ps) in
    elim (capitalised p) [
      | none ↦ none
      | some word ↦ elim rest [ none ↦ none | some more ↦ some (word ++ b' ' ∷ more) ]
    ]

-- `documentTypeLabel`
unfoldable pub document_type_label : List ℕ → Option (List ℕ)
unfolding join_parts
document_type_label value = join_parts (split_parts [] value)

-- `originalValues`, from the values that were extracted
abbrev pub field_values : List Field → List (String × String) → List (String × String)
field_values [] values = values
field_values (f ∷ fs) values = field_values fs (insert f.id f.value values)

abbrev pub cell_values : List Cell → List (String × String) → List (String × String)
cell_values [] values = values
cell_values (c ∷ cs) values = cell_values cs (insert c.id c.value values)

abbrev pub row_values : List (List Cell) → List (String × String) → List (String × String)
row_values [] values = values
row_values (row ∷ rows) values = row_values rows (cell_values row values)

abbrev pub table_values : List Table → List (String × String) → List (String × String)
table_values [] values = values
table_values (t ∷ ts) values = table_values ts (row_values t.rows values)

abbrev pub block_values : List TextBlock → List (String × String) → List (String × String)
block_values [] values = values
block_values (b ∷ bs) values = block_values bs (insert b.id b.text values)

unfoldable pub original_values : ReviewData → List (String × String)
original_values extracted =
    block_values extracted.text_blocks
      (table_values extracted.tables (field_values extracted.fields []))

-- The header of a column as a template string writes it.
abbrev pub header_text : Option String → String
header_text none = "undefined"
header_text (some header) = header

-- `targetLabels` for the cells of a row, from a column on
abbrev pub cell_labels :
    List String → (row column : ℕ) → List Cell → List (String × Message) → List (String × Message)
cell_labels headers row column [] labels = labels
cell_labels headers row column (c ∷ cs) labels = cell_labels headers row (suc column) cs (
    insert c.id
      (words (header_text (get_elem? headers column)) ∷ words ", row " ∷ count (suc row) ∷ [])
      labels)

abbrev pub row_labels :
    List String → ℕ → List (List Cell) → List (String × Message) → List (String × Message)
row_labels headers row [] labels = labels
row_labels headers row (cells ∷ rows) labels =
    row_labels headers (suc row) rows (cell_labels headers row 0 cells labels)

-- `extractedCount`
unfoldable pub table_value_count : List (List Cell) → ℕ
table_value_count [] = 0
table_value_count (row ∷ rows) = length row + table_value_count rows

unfoldable pub tables_value_count : List Table → ℕ
unfolding table_value_count
tables_value_count [] = 0
tables_value_count (table ∷ tables) = table_value_count table.rows + tables_value_count tables

unfoldable pub extracted_count : ReviewData → ℕ
unfolding tables_value_count
extracted_count review_data =
    length review_data.fields
    + length review_data.text_blocks
    + tables_value_count review_data.tables

length-cell_ids : (rows : List (List Cell)) → length (cell_ids rows) ≡ table_value_count rows
unfolding cell_ids table_value_count
length-cell_ids [] = refl
length-cell_ids (row ∷ rows) = omega (
  arith,
  length-append (map (λ c. c.id) row) (cell_ids rows),
  length-map (λ c. c.id) row,
  length-cell_ids rows,
)

length-table_cell_ids :
    (tables : List Table) → length (table_cell_ids tables) ≡ tables_value_count tables
unfolding table_cell_ids tables_value_count
length-table_cell_ids [] = refl
length-table_cell_ids (t ∷ ts) = omega (
  arith,
  length-append (cell_ids t.rows) (table_cell_ids ts),
  length-cell_ids t.rows,
  length-table_cell_ids ts,
)

-- For every result, the number of extracted values that the page states is the number of targets that
-- an issue can be about: its fields, its tables' cells and its text blocks.
pub extracted_count-known_targets :
    (review_data : ReviewData) → extracted_count review_data ≡ length (known_targets review_data)
unfolding extracted_count known_targets
extracted_count-known_targets r = omega (
  arith,
  length-append (map (λ f. f.id) r.fields)
      (table_cell_ids r.tables ++ map (λ b. b.id) r.text_blocks),
  length-append (table_cell_ids r.tables) (map (λ b. b.id) r.text_blocks),
  length-map (λ f. f.id) r.fields,
  length-map (λ b. b.id) r.text_blocks,
  length-table_cell_ids r.tables,
)
