-- ===== src/UploadPage/View.antt =====
-- What upload-page.jsx shows and allows, and its drop zone.
use cassist.Prelude.{
  ℕ, ◌+◌, ◌-◌, String, Bool, true, false, not, Option, none, some, List, [], ◌∷◌, ◌&&◌, ◌||◌, ◌==◌,
  eqb, ltb, if◌then◌else◌, is_some, filter, length, words, count, Message,
}
use cassist.Api.World.{creating, uploading, verifying}
use cassist.UploadPage.{
  Capabilities, Quota, Item, ItemStage, during, complete, cancelled, format_bytes, pending,
  total_bytes,
}
use cassist.UploadPage.Submit.{Page}

-- A query: it may be pending, have failed with a message, and have data, fresh or stale.
pub record Query (A : Type 0) : Type 0 where
  pub is_pending : Bool
  pub error : Option String
  pub data_of : Option A

module _ {A : Type 0} where
  abbrev pub unavailable : Query A → Bool
  unavailable q = q.is_pending || is_some q.error

-- `storageFull` and `selectionExceedsQuota`
abbrev pub storage_full : Option Quota → Bool
storage_full none = false
storage_full (some quota) = not quota.upload_allowed

abbrev pub selection_exceeds_quota : Option Quota → List Item → Bool
selection_exceeds_quota none items = false
selection_exceeds_quota (some quota) items = ltb quota.available_bytes (total_bytes (pending items))

unfoldable pub selection_disabled : Page → Query Quota → Query Capabilities → Bool
selection_disabled page quota capabilities =
    page.uploading || storage_full quota.data_of || unavailable capabilities

-- `disabled` of the button that submits
unfoldable pub submit_disabled : Page → Query Quota → Query Capabilities → Bool
submit_disabled page quota capabilities =
    eqb (length (pending page.items)) 0
    || page.uploading
    || unavailable quota
    || unavailable capabilities
    || storage_full quota.data_of
    || selection_exceeds_quota quota.data_of page.items

-- Its text.
unfoldable pub submit_text : Page → Message
submit_text page =
    if page.uploading
    then words "Uploading…" ∷ []
    else if not (eqb completed_count 0)
    then words "Retry "
      ∷ count pending_count
      ∷ words " failed "
      ∷ words (if eqb pending_count 1 then "file" else "files")
      ∷ []
    else if ltb 1 pending_count
    then words "Upload and process" ∷ words " " ∷ count pending_count ∷ words " files" ∷ []
    else words "Upload and process" ∷ []
  where
    completed_count : ℕ
    completed_count = length (filter (λ item. is_some item.result) page.items)

    pending_count : ℕ
    pending_count = length (pending page.items)

-- The alert below the drop zone, of the queries and the quota.
unfoldable pub quota_alert : Page → Query Quota → Query Capabilities → Option String
quota_alert page quota capabilities = elim quota.error [
  | some message ↦ some message
  | none ↦ elim capabilities.error [
    | some message ↦ some message
    | none ↦
        if storage_full quota.data_of
        then some "Shared document storage is full. Delete stored files before uploading more."
        else if selection_exceeds_quota quota.data_of page.items
        then some
            "These files exceed the remaining shared storage. Remove files or delete stored documents first."
        else none
  ]
]

-- `STAGE_LABELS`
unfoldable pub stage_label : ItemStage → String
stage_label (during creating) = "Creating a secure upload…"
stage_label (during uploading) = "Uploading to private storage…"
stage_label (during verifying) = "Verifying the file and queuing extraction…"
stage_label complete = "Queued for extraction"
stage_label cancelled = "Upload cancelled"

-- The line below an item's name.
unfoldable pub item_line : Item → Message
unfolding stage_label
item_line item = elim item.validation_error [
  | some message ↦ message
  | none ↦ elim item.error [
    | none ↦ staged
    | some message ↦ if message == "" then staged else words message ∷ []
  ]
]
  where
    staged : Message
    staged = elim item.stage [
      | none ↦ format_bytes item.file.size
      | some s ↦ words (stage_label s) ∷ []
    ]

-- The button beside an item, if there is one.
pub data ItemButton : Type 0 where
  cancel_item remove : ItemButton

unfoldable pub item_button : Page → Item → Option ItemButton
item_button page item =
    if page.uploading && not (is_some item.result) && not (is_some item.validation_error)
    then some cancel_item
    else if not page.uploading && not (is_some item.result)
    then some remove
    else none

-- The drop zone: how deep a drag has entered, and whether it is shown as active.
pub record Drag : Type 0 where
  pub depth : ℕ
  pub active : Bool

pub data DragEvent : Type 0 where
  enter leave drop : DragEvent

-- `onDragEnter`, `onDragLeave` and `onDrop`, where the selection is disabled or not
unfoldable pub drag : Bool → DragEvent → Drag → Drag
drag disabled enter d = if disabled then d else record { depth = d.depth + 1; active = true }
drag disabled leave d = record {
  depth = d.depth - 1;
  active = if eqb (d.depth - 1) 0 then false else d.active;
}
drag disabled drop d = record { depth = 0; active = false }
