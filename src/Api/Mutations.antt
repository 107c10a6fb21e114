-- ===== src/Api/Mutations.antt =====
-- The requests of api.js that change something on the server; uploads are in `Upload`.
pub mod Laws
use Prim.Native.String.{◌++◌}
use cassist.Prelude.{ℕ, String, Bool, false, Option, none, some, List, [], ◌∷◌}
use cassist.Api.Json.{Json, null, num, bool, str, arr, obj, Items, nil, cons, end, field, texts}
use cassist.Api.World.{
  Method, post, patch, delete, Client, Error, Result, ok, err, World, Log, Response, pure, throw,
  lift, emit, ◌>>=◌, ◌>>◌, object_url_created, link_clicked, object_url_revoked,
}
use cassist.Api.Request.{Options, defaults, csrf_request, ensure_ok}

-- The shape that most share: request with a CSRF token, check, parse.
abbrev pub send_json : String → Options → String → Client Json
send_json path o fallback = do r ← csrf_request path o; ensure_ok r fallback; lift r.json

-- The same where the answer has no body to read.
abbrev pub send : String → Options → String → Client (Unit {0})
send path o fallback = do r ← csrf_request path o; ensure_ok r fallback

abbrev pub bare : Method → Options
bare m = record defaults { method = m }

-- A request whose body is `JSON.stringify(body)`.
abbrev pub with_json : Method → Json → Options
with_json m body = record (bare m) {
  headers = ("Content-Type", "application/json") ∷ [];
  body = some body;
}

unfoldable pub logout : Client Json
logout = send_json "/auth/logout" (bare post) "Unable to sign out."

unfoldable pub revoke_auth_session : String → Client (Unit {0})
revoke_auth_session session_id =
    send ("/auth/sessions/" ++ session_id) (bare delete) "Unable to sign out that device."

-- One entry of `changes`: the target, the new value, and the reason or null.
pub record Change : Type 0 where
  pub target_id : String
  pub value : String
  pub reason : Option String

abbrev pub text_or_null : Option String → Json
text_or_null none = null
text_or_null (some s) = str s

abbrev pub change_items : List Change → Items
change_items [] = nil
change_items (c ∷ cs) =
    cons
      (obj (
        field "target_id" (str c.target_id)
          (field "value" (str c.value) (field "reason" (text_or_null c.reason) end))))
      (change_items cs)

abbrev pub versioned : ℕ → String → Json → Json
versioned version key value = obj (field "expected_version" (num version) (field key value end))

unfoldable pub correct_result : String → ℕ → List Change → Client Json
correct_result result_id expected_version changes =
    send_json ("/results/" ++ result_id ++ "/fields")
      (with_json patch (versioned expected_version "changes" (arr (change_items changes))))
      "Unable to save the correction."

unfoldable pub update_result_review : String → ℕ → String → Client Json
update_result_review result_id expected_version status =
    send_json ("/results/" ++ result_id ++ "/review")
      (with_json post (versioned expected_version "status" (str status)))
      "Unable to update the review status."

unfoldable pub update_tally_selection : String → ℕ → List String → Client Json
update_tally_selection result_id expected_version excluded_target_ids =
    send_json ("/results/" ++ result_id ++ "/selection")
      (with_json patch
        (versioned expected_version "excluded_target_ids" (arr (texts excluded_target_ids))))
      "Unable to save the Tally selection."

unfoldable pub create_original_view_url : String → Client Json
create_original_view_url document_id =
    send_json ("/documents/" ++ document_id ++ "/view-url") (bare post)
      "Unable to open the original document."

unfoldable pub retry_document_processing : String → Client Json
retry_document_processing document_id =
    send_json ("/documents/" ++ document_id ++ "/retry") (bare post)
      "Unable to retry document extraction."

unfoldable pub confirm_document_processing : String → Client Json
confirm_document_processing document_id =
    send_json ("/documents/" ++ document_id ++ "/confirm-processing") (bare post)
      "Unable to confirm document processing."

unfoldable pub create_processing_run : String → Json → Client Json
create_processing_run document_id options =
    send_json ("/documents/" ++ document_id ++ "/runs") (with_json post options)
      "Unable to queue document extraction."

unfoldable pub cancel_processing_run : String → Client Json
cancel_processing_run run_id =
    send_json ("/runs/" ++ run_id ++ "/cancel") (bare post) "Unable to cancel document extraction."

unfoldable pub compare_document : String → Client Json
compare_document document_id =
    send_json ("/documents/" ++ document_id ++ "/comparisons") (bare post)
      "Unable to compare extraction models."

unfoldable pub delete_document_original : String → Client (Unit {0})
delete_document_original document_id =
    send ("/documents/" ++ document_id ++ "/original") (bare delete)
      "Unable to delete the original document."

unfoldable pub permanently_delete_document : String → Client (Unit {0})
permanently_delete_document document_id =
    send ("/documents/" ++ document_id) (bare delete) "Unable to permanently delete the document."

abbrev pub export_body : ℕ → Json
export_body expected_version = obj (
    field "expected_version" (num expected_version) (
      field "format" (str "tally_json")
        (field "options" (obj (field "include_quality_issues" (bool false) end)) end)))

-- `link.click()`, which may throw
click : String → Client (Unit {0})
click name w l = (raised (w.click_fails l), link_clicked name ∷ l)
  where
    raised : Option Error → Result (Unit {0})
    raised none = ok tt
    raised (some e) = err e

-- The file is handed to the browser, and its object URL is revoked also if the click throws.
hand_over : String → Client (Unit {0})
unfolding click
hand_over name = do
  emit object_url_created
  λ w l. let (r, l') = click name w l in (r, object_url_revoked ∷ l')

receive : String → Response → Client (Unit {0})
receive name r = do
  ensure_ok r "Unable to create the Tally JSON export."
  lift r.blob
  hand_over name

unfoldable pub download_tally_export : String → ℕ → Client (Unit {0})
unfolding hand_over receive
download_tally_export result_id expected_version = do
  r ←
      csrf_request ("/results/" ++ result_id ++ "/exports")
        (with_json post (export_body expected_version))
  receive ("cassist-tally-" ++ result_id ++ ".json") r

-- Every mutation, with its arguments.
pub data Mutation : Type 0 where
  signing_out : Mutation
  revoking viewing retrying confirming cancelling comparing : String → Mutation
  correcting : String → ℕ → List Change → Mutation
  reviewing : String → ℕ → String → Mutation
  selecting : String → ℕ → List String → Mutation
  running : String → Json → Mutation
  deleting_original deleting : String → Mutation
  exporting : String → ℕ → Mutation

abbrev forget : Client Json → Client (Unit {0})
forget m = do m; pure tt

unfoldable pub mutate : Mutation → Client (Unit {0})
unfolding logout revoke_auth_session correct_result update_result_review update_tally_selection
    create_original_view_url retry_document_processing confirm_document_processing
    create_processing_run cancel_processing_run compare_document delete_document_original
    permanently_delete_document download_tally_export
mutate signing_out = forget logout
mutate (revoking id) = revoke_auth_session id
mutate (viewing id) = forget (create_original_view_url id)
mutate (retrying id) = forget (retry_document_processing id)
mutate (confirming id) = forget (confirm_document_processing id)
mutate (cancelling id) = forget (cancel_processing_run id)
mutate (comparing id) = forget (compare_document id)
mutate (correcting id version changes) = forget (correct_result id version changes)
mutate (reviewing id version status) = forget (update_result_review id version status)
mutate (selecting id version excluded) = forget (update_tally_selection id version excluded)
mutate (running id options) = forget (create_processing_run id options)
mutate (deleting_original id) = delete_document_original id
mutate (deleting id) = permanently_delete_document id
mutate (exporting id version) = download_tally_export id version
