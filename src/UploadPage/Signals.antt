-- ===== src/UploadPage/Signals.antt =====
-- The controllers of the uploads on upload-page.jsx: which upload is cancelled by what.
use cassist.Prelude.{◌≡◌, refl, Bool, true, false, List, [], ◌∷◌, if◌then◌else◌}
use cassist.UploadPage.{ItemId, Item, same_id}

-- `uploadControllers`: the items that are being uploaded, each with whether its signal is aborted.
abbrev pub Signals : Type 0
Signals = List (ItemId × Bool)

-- `uploadControllers.current.set(item.id, new AbortController())`
unfoldable pub set_signal : ItemId → Signals → Signals
set_signal id [] = (id, false) ∷ []
set_signal id ((key, aborted) ∷ signals) =
    let rest = set_signal id signals in
    if same_id key id then (key, false) ∷ signals else (key, aborted) ∷ rest

-- The loop over the pending items.
unfoldable pub begin_signals : List Item → Signals → Signals
unfolding set_signal
begin_signals [] signals = signals
begin_signals (item ∷ items) signals = begin_signals items (set_signal item.id signals)

-- `uploadControllers.current.delete(item.id)`
unfoldable pub drop_signal : ItemId → Signals → Signals
drop_signal id [] = []
drop_signal id ((key, aborted) ∷ signals) =
    let rest = drop_signal id signals in if same_id key id then signals else (key, aborted) ∷ rest

-- `cancelUpload`
unfoldable pub cancel_upload : ItemId → Signals → Signals
cancel_upload id [] = []
cancel_upload id ((key, aborted) ∷ signals) =
    let rest = cancel_upload id signals in
    if same_id key id then (key, true) ∷ signals else (key, aborted) ∷ rest

-- `cancelAllUploads`, and the clean-up when the page is left
unfoldable pub cancel_all_uploads : Signals → Signals
cancel_all_uploads [] = []
cancel_all_uploads ((key, aborted) ∷ signals) = (key, true) ∷ cancel_all_uploads signals

-- `signal.aborted` of an item, which is false of one that is not being uploaded
unfoldable pub is_cancelled_by_user : ItemId → Signals → Bool
is_cancelled_by_user id [] = false
is_cancelled_by_user id ((key, aborted) ∷ signals) =
    let rest = is_cancelled_by_user id signals in if same_id key id then aborted else rest

unfoldable pub is_uploading : ItemId → Signals → Bool
is_uploading id [] = false
is_uploading id ((key, aborted) ∷ signals) =
    let rest = is_uploading id signals in if same_id key id then true else rest

-- Cancelling all aborts the signal of each item that is being uploaded.
pub is_cancelled_by_user-cancel_all_uploads :
    (id : ItemId) (signals : Signals)
    → is_cancelled_by_user id (cancel_all_uploads signals) ≡ is_uploading id signals
unfolding is_cancelled_by_user cancel_all_uploads is_uploading
is_cancelled_by_user-cancel_all_uploads id [] = refl
is_cancelled_by_user-cancel_all_uploads id ((key, aborted) ∷ signals) =
    rw (is_cancelled_by_user-cancel_all_uploads id signals) refl
