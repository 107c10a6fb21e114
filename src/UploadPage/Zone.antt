-- ===== src/UploadPage/Zone.antt =====
-- The drop zone of upload-page.jsx with the items in it, and the texts round it.
use Prim.Native.String.{◌++◌ as append}
use cassist.Prelude.{
  ℕ, ◌*◌, String, Bool, not, Option, none, some, List, [], ◌∷◌, ◌++◌, if◌then◌else◌, filter, map,
  words, count, fixed, Message, round_div,
}
use cassist.Api.World.{uploading}
use cassist.Api.Upload.{File}
use cassist.UploadPage.{
  Capabilities, Quota, Item, ItemId, ItemStage, Selection, during, same_id, format_bytes,
  select_files,
}
use cassist.UploadPage.Submit.{Page}
use cassist.UploadPage.View.{Drag, drop, drag, item_line, ItemButton, item_button}

-- The button "Remove" of an item.
unfoldable pub remove_item : ItemId → List Item → List Item
remove_item id items = filter (λ candidate. not (same_id candidate.id id)) items

-- `onDrop` and the input's `onChange`: what they do to the items and the error. The input is
-- disabled where the selection is.
unfoldable pub take_files :
    (selection_disabled : Bool) → List File → Option Capabilities → Selection → Selection
unfolding select_files
take_files selection_disabled files capabilities s =
    if selection_disabled then s else select_files files capabilities s

unfoldable pub drop_files :
    (selection_disabled : Bool)
    → List File
    → Option Capabilities
    → Drag × Selection
    → Drag × Selection
unfolding drag take_files
drop_files selection_disabled files capabilities (d, s) =
    (drag selection_disabled drop d, take_files selection_disabled files capabilities s)

-- `accept` of the input: types and extensions, with commas between them
unfoldable pub join_texts : List String → String
join_texts [] = ""
join_texts (text ∷ []) = text
join_texts (text ∷ more ∷ texts) = append text (append "," (join_texts (more ∷ texts)))

unfoldable pub accept : Option Capabilities → Option String
unfolding join_texts
accept none = none
accept (some c) = some (join_texts (c.accepted_mime_types ++ c.accepted_extensions))

-- `capabilities?.maximum_batch_files ?? "…"`
unfoldable pub batch_limit : Option Capabilities → Message
batch_limit none = words "…" ∷ []
batch_limit (some c) = count c.maximum_batch_files ∷ []

unfoldable pub file_limit : Option Capabilities → Message
unfolding format_bytes
file_limit none = words "…" ∷ []
file_limit (some c) = format_bytes c.maximum_file_bytes

-- The text below the title.
unfoldable pub introduction : Option Capabilities → Message
unfolding batch_limit file_limit
introduction c =
    words "Up to " ∷ batch_limit c
    ++ words " PDF, JPEG, or PNG files, " ∷ file_limit c
    ++ words " each. Originals stay private and require review after extraction." ∷ []

-- `(quota.available_bytes / 1_000_000_000).toFixed(2)`
unfoldable pub quota_text : Option Quota → Option Message
quota_text none = none
quota_text (some quota) = some (
    fixed 2 (round_div (100 * quota.available_bytes) 1000000000)
    ∷ words " GB available in shared document storage."
    ∷ [])

-- The bar of an upload: its label, and how full it is.
unfoldable pub progress_bar : Item → Option (Message × ℕ)
progress_bar item = bar item.stage
  where
    bar : Option ItemStage → Option (Message × ℕ)
    bar (some (during uploading)) =
        some (words item.file.name ∷ words " upload progress" ∷ [], item.progress)
    bar _ = none

-- What an item shows.
pub record Line : Type 0 where
  pub name : String
  pub text : Message
  pub bar : Option (Message × ℕ)
  pub button : Option ItemButton

unfoldable pub item_view : Page → Item → Line
unfolding item_line item_button progress_bar
item_view page item = record {
  name = item.file.name;
  text = item_line item;
  bar = progress_bar item;
  button = item_button page item;
}

-- What is in the zone: the items, and under them a button to choose others, or a prompt.
pub data Zone : Type 0 where
  listed : List Line → (choose : Option (String × Bool)) → Zone
  prompt : Message → (choose : String) → (disabled : Bool) → Zone

unfoldable pub zone : Page → (selection_disabled : Bool) → Option Capabilities → Zone
unfolding item_view batch_limit
zone page selection_disabled c = elim page.items [
  | [] ↦
      prompt (words "Drop up to " ∷ batch_limit c ++ words " documents here" ∷ []) "Choose files"
        selection_disabled
  | _ ∷ _ ↦
      listed (map (item_view page) page.items)
        (if page.uploading then none else some ("Choose different files", selection_disabled))
]

-- The notice and the button "Cancel all" are there while files are uploaded, and so is the warning
-- before the window is left.
unfoldable pub shows_cancel_all : Page → Bool
shows_cancel_all page = page.uploading

unfoldable pub warns_before_leaving : Page → Bool
warns_before_leaving page = page.uploading
