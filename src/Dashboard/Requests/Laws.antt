-- ===== src/Dashboard/Requests/Laws.antt =====
-- The requests of a row: one of each kind at a time, and one deletion.
use cassist.Prelude.{
  ◌≡◌, refl, String, Bool, true, false, List, [], ◌∷◌, ◌&&◌, if◌then◌else◌, arith,
}
use cassist.Dashboard.Row.{Row}
use cassist.Dashboard.Requests.{
  Mutation, succeeded, failed, is_pending, Request, view, retry, confirm, cancel, delete_original,
  delete_permanently, Requests, deleting, can_send, set_mutation, mutation_of, send,
  refresh_documents, on_success, open_delete, open_confirm, Event, clicked, answered, rejected,
  pressed_delete, pressed_confirm, delete_dialog_changed, confirm_dialog_changed, handle,
  handle_all, unsent,
}

-- Not both deletions are under way.
abbrev pub IsOneDeletion : Requests → Type 0
IsOneDeletion r = (is_pending r.deleting_original && is_pending r.deleting_permanently) ≡ false

send-IsOneDeletion :
    (row : Row) (request : Request) (r : Requests)
    → IsOneDeletion r
    → IsOneDeletion (send row request r)
unfolding send can_send set_mutation deleting
send-IsOneDeletion row view r h = ground arith
send-IsOneDeletion row retry r h = ground arith
send-IsOneDeletion row confirm r h = ground arith
send-IsOneDeletion row cancel r h = ground arith
send-IsOneDeletion row delete_original r h = ground arith
send-IsOneDeletion row delete_permanently r h = ground arith

-- A mutation that is no longer under way.
settled-IsOneDeletion :
    (request : Request) (m : Mutation) (r : Requests)
    → is_pending m ≡ false
    → IsOneDeletion r
    → IsOneDeletion (set_mutation request m r)
unfolding set_mutation
settled-IsOneDeletion view m r e h = h
settled-IsOneDeletion retry m r e h = h
settled-IsOneDeletion confirm m r e h = h
settled-IsOneDeletion cancel m r e h = h
settled-IsOneDeletion delete_original m r e h = ground arith
settled-IsOneDeletion delete_permanently m r e h = ground arith

on_success-IsOneDeletion :
    (url : String) (request : Request) (r : Requests)
    → IsOneDeletion r
    → IsOneDeletion (on_success url request r)
unfolding on_success refresh_documents
on_success-IsOneDeletion url view r h = h
on_success-IsOneDeletion url retry r h = h
on_success-IsOneDeletion url confirm r h = h
on_success-IsOneDeletion url cancel r h = h
on_success-IsOneDeletion url delete_original r h = h
on_success-IsOneDeletion url delete_permanently r h = h

either-IsOneDeletion :
    (b : Bool) (r s : Requests)
    → IsOneDeletion r
    → IsOneDeletion s
    → IsOneDeletion (if b then r else s)
either-IsOneDeletion true r s hr hs = hr
either-IsOneDeletion false r s hr hs = hs

handle-IsOneDeletion :
    (row : Row) (e : Event) (r : Requests) → IsOneDeletion r → IsOneDeletion (handle row e r)
unfolding handle open_delete open_confirm
handle-IsOneDeletion row (clicked request) r h = send-IsOneDeletion row request r h
handle-IsOneDeletion row (answered url request) r h =
    either-IsOneDeletion (is_pending (mutation_of request r))
      (on_success url request (set_mutation request succeeded r)) r
      (on_success-IsOneDeletion url request (set_mutation request succeeded r)
        (settled-IsOneDeletion request succeeded r refl h))
      h
handle-IsOneDeletion row (rejected message request) r h =
    either-IsOneDeletion (is_pending (mutation_of request r))
      (set_mutation request (failed message) r) r
      (settled-IsOneDeletion request (failed message) r refl h) h
handle-IsOneDeletion row pressed_delete r h = ground arith
handle-IsOneDeletion row pressed_confirm r h = ground arith
handle-IsOneDeletion row (delete_dialog_changed open_now) r h = h
handle-IsOneDeletion row (confirm_dialog_changed open_now) r h = h

handle_each-IsOneDeletion :
    (es : List (Row × Event)) (r : Requests) → IsOneDeletion r → IsOneDeletion (handle_all es r)
unfolding handle_all
handle_each-IsOneDeletion [] r h = h
handle_each-IsOneDeletion ((row, e) ∷ es) r h =
    handle_each-IsOneDeletion es (handle row e r) (handle-IsOneDeletion row e r h)

-- After any clicks, answers and changes of the dialogs, whatever the row was, the deletion of the
-- original and the permanent deletion of a document are not both under way.
pub handle_all-IsOneDeletion : (es : List (Row × Event)) → IsOneDeletion (handle_all es unsent)
handle_all-IsOneDeletion es = handle_each-IsOneDeletion es unsent refl
