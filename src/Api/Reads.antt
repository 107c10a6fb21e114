-- ===== src/Api/Reads.antt =====
-- The requests of api.js that change nothing on the server, and the address of the sign-in page.
pub mod Laws
use Prim.Native.String.{◌++◌}
use cassist.Prelude.{
  ℕ, String, Bool, true, false, Option, none, some, List, [], ◌∷◌, eqb, truthy, if◌then◌else◌,
}
use cassist.Api.Json.{Json}
use cassist.Api.World.{
  Client, Pairs, Param, text, number, Response, pure, throw, lift, ◌>>=◌, ◌>>◌, plain_error,
}
use cassist.Api.Request.{Options, defaults, api_request, ensure_ok, auth_request_timeout_ms, is_ok}

-- The shape that most reads share: request, check, parse.
abbrev pub read_json : String → Options → String → Client Json
read_json path o fallback = do r ← api_request path o; ensure_ok r fallback; lift r.json

abbrev pub reading : Pairs Param → Options
reading query = record defaults { query = query; signalled = true }

-- A query parameter that is left out when the value is missing or empty.
abbrev pub optional : String → Option String → Pairs Param
optional key none = []
optional key (some value) = if truthy (some value) then (key, text value) ∷ [] else []

abbrev pub append_params : Pairs Param → Pairs Param → Pairs Param
append_params [] q = q
append_params (p ∷ ps) q = p ∷ append_params ps q

pub login_url : String → String × Pairs Param
login_url return_to = ("/auth/login", ("return_to", text return_to) ∷ [])

auth_failure : Response → String
auth_failure r =
    if eqb r.status 503
    then "Authentication is not configured yet."
    else "Unable to load the current session."

-- null for a visitor who is not signed in
auth_answer : Response → Client (Option Json)
unfolding auth_failure
auth_answer r =
    if eqb r.status 401
    then pure none
    else if is_ok r
    then (do j ← lift r.json; pure (some j))
    else throw (plain_error (auth_failure r))

abbrev auth_options : Options
auth_options = record (reading []) { timeout_ms = some auth_request_timeout_ms }

unfoldable pub get_current_auth : Client (Option Json)
unfolding api_request auth_answer
get_current_auth = do r ← api_request "/auth/me" auth_options; auth_answer r

unfoldable pub list_auth_sessions : ℕ → ℕ → Client Json
unfolding api_request ensure_ok
list_auth_sessions page page_size =
    read_json "/auth/sessions"
      (record (reading (("page", number page) ∷ ("page_size", number page_size) ∷ [])) {
        timeout_ms = some auth_request_timeout_ms;
      })
      "Unable to load active sessions."

unfoldable pub get_storage_quota : Client Json
unfolding api_request ensure_ok
get_storage_quota = read_json "/uploads/quota" (reading []) "Unable to load shared storage usage."

unfoldable pub get_upload_capabilities : Client Json
unfolding api_request ensure_ok
get_upload_capabilities =
    read_json "/uploads/capabilities" (reading []) "Unable to load upload limits."

unfoldable pub get_document : String → Client Json
unfolding api_request ensure_ok
get_document document_id =
    read_json ("/documents/" ++ document_id) (reading []) "Unable to load the document."

-- The arguments of `listDocuments`.
pub record ListOptions : Type 0 where
  pub cursor : Option String
  pub document_type : Option String
  pub limit : ℕ
  pub search : Option String
  pub status : Option String

abbrev pub list_query : ListOptions → Pairs Param
list_query o = append_params (("limit", number o.limit) ∷ []) (
    append_params (optional "cursor" o.cursor) (
      append_params (optional "document_type" o.document_type)
        (append_params (optional "search" o.search) (optional "status" o.status))))

unfoldable pub list_documents : ListOptions → Client Json
unfolding api_request ensure_ok
list_documents o =
    read_json "/documents" (reading (list_query o)) "Unable to load recent documents."

unfoldable pub get_run : String → Client Json
unfolding api_request ensure_ok
get_run run_id = read_json ("/runs/" ++ run_id) (reading []) "Unable to load processing status."

unfoldable pub get_result : String → Client Json
unfolding api_request ensure_ok
get_result result_id =
    read_json ("/results/" ++ result_id) (reading []) "Unable to load the extraction result."

-- Every read, with its arguments.
pub data Read : Type 0 where
  current_auth : Read
  auth_sessions : ℕ → ℕ → Read
  storage_quota : Read
  upload_capabilities : Read
  document : String → Read
  documents : ListOptions → Read
  run : String → Read
  result : String → Read

abbrev as_optional : Client Json → Client (Option Json)
as_optional m = do j ← m; pure (some j)

unfoldable pub perform : Read → Client (Option Json)
unfolding get_current_auth list_auth_sessions get_storage_quota get_upload_capabilities get_document
    list_documents get_run get_result
perform current_auth = get_current_auth
perform (auth_sessions page size) = as_optional (list_auth_sessions page size)
perform storage_quota = as_optional get_storage_quota
perform upload_capabilities = as_optional get_upload_capabilities
perform (document id) = as_optional (get_document id)
perform (documents o) = as_optional (list_documents o)
perform (run id) = as_optional (get_run id)
perform (result id) = as_optional (get_result id)
