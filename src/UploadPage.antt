-- ===== src/UploadPage.antt =====
-- The page that uploads a batch of files: frontend/src/pages/upload-page.jsx.
pub mod Select
pub mod Submit
pub mod View
pub mod Gate
pub mod Retry
pub mod Zone
pub mod Signals
pub mod Batch
use cassist.Prelude.{
  ℕ, suc, ◌+◌, ◌*◌, ◌-◌, max, String, Bool, true, false, not, Option, none, some, List, [], ◌∷◌,
  ◌++◌, ◌&&◌, ◌||◌, ◌==◌, eqb, ltb, if◌then◌else◌, has, is_some, filter, length, map, Part, words,
  count, fixed, Message, round_div,
}
use cassist.Api.Json.{Json, property}
use cassist.Api.World.{Stage, creating, uploading, verifying, Error}
use cassist.Api.Upload.{File, upload_mime_type}

pub record Capabilities : Type 0 where
  pub accepted_mime_types : List String
  pub accepted_extensions : List String
  pub maximum_file_bytes : ℕ
  pub maximum_batch_files : ℕ

pub record Quota : Type 0 where
  pub upload_allowed : Bool
  pub available_bytes : ℕ

-- The stage of an item on the page: one that the upload tells, or one that the page sets at its end.
pub data ItemStage : Type 0 where
  during : Stage → ItemStage
  complete cancelled : ItemStage

-- `${file.name}-${file.size}-${file.lastModified}-${index}`, by its parts
pub record ItemId : Type 0 where
  pub name : String
  pub size : ℕ
  pub last_modified : ℕ
  pub index : ℕ

abbrev pub same_id : ItemId → ItemId → Bool
same_id a b =
    a.name == b.name
    && eqb a.size b.size
    && eqb a.last_modified b.last_modified
    && eqb a.index b.index

pub record Item : Type 0 where
  pub id : ItemId
  pub file : File
  pub stage : Option ItemStage
  pub progress : ℕ
  pub result : Option Json
  pub error : Option String
  pub validation_error : Option Message

-- `formatBytes`
unfoldable pub format_bytes : ℕ → Message
format_bytes bytes =
    if ltb bytes (1024 * 1024)
    then count (max 1 (round_div bytes 1024)) ∷ words " KiB" ∷ []
    else fixed 1 (round_div (10 * bytes) (1024 * 1024)) ∷ words " MiB" ∷ []

-- `validateFile`
unfoldable pub validate_file : File → Capabilities → Option Message
validate_file file capabilities =
    if not (has (upload_mime_type file) capabilities.accepted_mime_types)
    then some (words "Choose a PDF, JPEG, or PNG file." ∷ [])
    else if ltb capabilities.maximum_file_bytes file.size
    then some (words "Choose a file smaller than " ∷ smaller)
    else if eqb file.size 0
    then some (words "The selected file is empty." ∷ [])
    else none
  where
    smaller : Message
    smaller = format_bytes capabilities.maximum_file_bytes ++ words "." ∷ []

-- What the selection of files sets: `items` and `error`.
pub record Selection : Type 0 where
  pub items : List Item
  pub error : Option Message

abbrev pub new_item : Capabilities → ℕ → File → Item
new_item capabilities index file = record {
  id = record {
    name = file.name;
    size = file.size;
    last_modified = file.last_modified;
    index = index;
  };
  file = file;
  stage = none;
  progress = 0;
  result = none;
  error = none;
  validation_error = validate_file file capabilities;
}

unfoldable pub new_items : Capabilities → ℕ → List File → List Item
new_items capabilities index [] = []
new_items capabilities index (file ∷ files) =
    new_item capabilities index file ∷ new_items capabilities (suc index) files

unfoldable pub invalid_count : Capabilities → List File → ℕ
invalid_count capabilities [] = 0
invalid_count capabilities (file ∷ files) =
    (if is_some (validate_file file capabilities) then 1 else 0) + invalid_count capabilities files

-- `selectFiles`
unfoldable pub select_files : List File → Option Capabilities → Selection → Selection
unfolding new_items invalid_count
select_files [] capabilities s = s
select_files (f ∷ fs) none s = s
select_files (f ∷ fs) (some capabilities) s =
    if ltb capabilities.maximum_batch_files (length (f ∷ fs))
    then record {
      items = [];
      error = some (
          words "Choose no more than "
          ∷ count capabilities.maximum_batch_files
          ∷ words " files at once."
          ∷ []);
    }
    else record {
      items = new_items capabilities 0 (f ∷ fs);
      error = excluded (invalid_count capabilities (f ∷ fs));
    }
  where
    excluded : ℕ → Option Message
    excluded n =
        if eqb n 0
        then none
        else some (
            count n
            ∷ words " invalid "
            ∷ words (if eqb n 1 then "file was" else "files were")
            ∷ words " excluded from upload."
            ∷ [])

-- `updateItem(id, changes)`
unfoldable pub update_item : ItemId → (Item → Item) → List Item → List Item
update_item id change items = map (λ item. if same_id item.id id then change item else item) items

-- `!item.result && !item.validationError`
abbrev pub is_pending : Item → Bool
is_pending item = not (is_some item.result) && not (is_some item.validation_error)

unfoldable pub pending : List Item → List Item
pending items = filter is_pending items

unfoldable pub total_bytes : List Item → ℕ
total_bytes [] = 0
total_bytes (item ∷ items) = item.file.size + total_bytes items
