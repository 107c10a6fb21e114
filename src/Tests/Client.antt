-- ===== src/Tests/Client.antt =====
-- The client of the API against one server, with and without a cancellation.
use cassist.Prelude.{
  ◌≡◌, refl, String, Bool, true, false, Option, none, some, List, [], ◌∷◌, ◌++◌, if◌then◌else◌,
}
use cassist.Api.Json.{Json, str, obj, end, field}
use cassist.Api.World.{
  checked_signal, Error, Result, rejected, ok, err, Reply, response, World, Log, loaded, aborted,
  abort_error,
}
use cassist.Api.Reads.{perform, storage_quota}
use cassist.Api.Reads.Laws.{SendsOneGet, perform-SendsOneGet}
use cassist.Api.Mutations.{mutate, retrying}
use cassist.Api.Mutations.Laws.{IsAuthorised, mutate-IsAuthorised}
use cassist.Api.Inversion.{Wire, requests}
use cassist.Api.Upload.{
  File, upload_document, create_upload, finish_upload, transfer_file, complete_upload,
  upload_to_private_storage, upload_of, send_file, report, upload_mime_type,
}
use cassist.Api.Request.{
  csrf_request, get_csrf_token, api_request, settle, ensure_ok, text_property,
}
use cassist.Api.Upload.Last.{upload_document_unaborted}
use cassist.Api.Upload.Order.{IsWholeUpload, upload_document_order}
use cassist.Api.Queue.{
  Queue, Reachable, empty, steps, calls, begins, settles, IsInTurn, Reachable-IsInTurn, settled,
  waiting, running,
}

abbrev pub upload_json : Json
upload_json = obj (
    field "csrf_token" (str "t") (
      field "document_id" (str "d1") (
        field "upload"
          (obj (
            field "method" (str "PUT")
              (field "url" (str "https://storage.example/d1") (field "headers" (obj end) end))))
          end)))

abbrev text_of : Option Json → String
text_of (some (str s)) = s
text_of _ = ""

-- A server that answers everything, and a user who cancels where the flag is set.
abbrev pub world : Bool → World
world cancels = record {
  reply = λ l c. response (record { status = 200; json = ok upload_json; blob = ok tt });
  signal_aborted = λ l. false;
  transfer_progress = λ l t. [];
  transfer_end = λ l t. if cancels then aborted else loaded 200;
  random_uuid = λ l. "u";
  online = λ l. true;
  click_fails = λ l. none;
  string_of = text_of;
}

abbrev pub scan : File
scan = record { name = "scan.pdf"; size = 7; mime_type = ""; last_modified = 1 }

abbrev pub log_of : Bool → Log
log_of cancels = (upload_document scan true (world cancels) []).1

perform-SendsOneGet_example :
    SendsOneGet (world false) [] (perform storage_quota (world false) []).1
perform-SendsOneGet_example = perform-SendsOneGet storage_quota (world false) []

mutate-IsAuthorised_example :
    IsAuthorised (world false) [] (mutate (retrying "d1") (world false) []).1
mutate-IsAuthorised_example = mutate-IsAuthorised (retrying "d1") (world false) []

pub completed_upload : upload_document scan true (world false) [] ≡ (ok upload_json, log_of false)
unfolding upload_document create_upload finish_upload transfer_file complete_upload
    upload_to_private_storage upload_of csrf_request get_csrf_token api_request settle ensure_ok
    text_property send_file report upload_mime_type
completed_upload = refl

upload_document_order_example :
    (ws : List Wire) × IsWholeUpload ws × (requests (log_of false) ≡ ws ++ [])
upload_document_order_example =
    upload_document_order scan true (world false) [] (log_of false) upload_json completed_upload

upload_document_unaborted_example :
    (k : Log) × (log_of false ≡ checked_signal ∷ k) × ((world false).signal_aborted k ≡ false)
upload_document_unaborted_example =
    upload_document_unaborted scan (world false) [] (log_of false) upload_json completed_upload

abbrev cancellation : Error
cancellation = abort_error "Upload cancelled"

abbrev json_of : Reply → Result Json
json_of (response r) = r.json
json_of (rejected e t o) = err e

-- A failed mutation, one under way and one that waits.
abbrev three_mutations : Queue
three_mutations = settled false ∷ running ∷ waiting ∷ []

three_mutations-Reachable : Reachable three_mutations
three_mutations-Reachable =
    steps
      (steps
        (steps (steps (steps (steps empty calls) calls) (begins 0 refl tt)) (settles 0 false refl))
        calls)
      (begins 1 refl (false, refl))

Reachable-IsInTurn_example : IsInTurn three_mutations
Reachable-IsInTurn_example = Reachable-IsInTurn three_mutations three_mutations-Reachable

abbrev failed_and_waiting : Queue
failed_and_waiting = settled false ∷ waiting ∷ []
