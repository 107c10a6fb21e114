-- ===== src/Api/Request.antt =====
-- The requests of api.js: `apiRequest`, `responseError`, `getCsrfToken` and `csrfRequest`.
pub mod Laws
pub mod Token
use mathlib.Core.Bool.{◌&&◌}
use cassist.Prelude.{
  ℕ, ◌<◌, String, Bool, true, false, Option, none, some, List, [], ◌∷◌, ltb, leb, if◌then◌else◌,
  ◌==◌, truthy, insert,
}
use cassist.Api.Json.{Json, null, property, text?}
use cassist.Api.World.{
  Method, get, Error, Result, ok, err, Pairs, Param, Call, Response, Reply, response, rejected,
  called, Log, World, Client, pure, throw, lift, ◌>>=◌, ◌>>◌, emit, is_aborted, random_uuid,
  plain_error, abort_error,
}

abbrev pub api_request_timeout_ms : ℕ
api_request_timeout_ms = 30000

abbrev pub auth_request_timeout_ms : ℕ
auth_request_timeout_ms = 30000

-- The second argument of `apiRequest` and `csrfRequest`, with the query string of its first.
pub record Options : Type 0 where
  pub method : Method
  pub query : Pairs Param
  pub headers : Pairs String
  pub body : Option Json
  pub signalled : Bool
  pub timeout_ms : Option ℕ
  pub idempotency_key : Option String

abbrev pub defaults : Options
defaults = record {
  method = get;
  query = [];
  headers = [];
  body = none;
  signalled = false;
  timeout_ms = none;
  idempotency_key = none;
}

-- `{ ...base, ...overrides }` on headers
abbrev pub spread : Pairs String → Pairs String → Pairs String
spread base [] = base
spread base ((k, v) ∷ more) = spread (insert k v base) more

abbrev pub timeout_or : ℕ → Option ℕ → ℕ
timeout_or d none = d
timeout_or d (some t) = t

-- what `apiRequest` hands to `fetch`
abbrev pub call_of : String → Options → Call
call_of path o = record {
  method = o.method;
  path = path;
  query = o.query;
  headers = spread (("Accept", "application/json") ∷ []) o.headers;
  body = o.body;
  credentials = "include";
  timeout_ms = timeout_or api_request_timeout_ms o.timeout_ms;
  signalled = o.signalled;
}

abbrev pub timeout_message : String
timeout_message = "The request timed out. Try again."

abbrev pub offline_message : String
offline_message = "You’re offline. Reconnect and try again."

-- the `catch` of `apiRequest`
unfoldable pub settle : Reply → Result Response
settle (response r) = ok r
settle (rejected e true online) = err (plain_error timeout_message)
settle (rejected e false false) = err (plain_error offline_message)
settle (rejected e false true) = err e

-- `fetch` with a signal that is aborted already rejects and sends nothing.
fetch_unless : Bool → Call → Client Response
unfolding settle
fetch_unless true c w l =
    (settle (rejected (abort_error "signal is aborted without reason") false (w.online l)), l)
fetch_unless false c w l = (settle (w.reply l c), called c ∷ l)

unfoldable pub api_request : String → Options → Client Response
unfolding fetch_unless
api_request path o = do already ← is_aborted o.signalled; fetch_unless already (call_of path o)

-- `response.ok`
abbrev pub is_ok : Response → Bool
is_ok r = leb 200 r.status && ltb r.status 300

abbrev pub or_else : Option String → String → String
or_else none d = d
or_else (some s) d = s

-- `payload.error?.message` if it is a text, else `payload.detail` if it is one, else the fallback
abbrev pub message_in : Json → String → String
message_in payload fallback =
    elim (text? (property "message" (or_null (property "error" payload)))) [
      | some m ↦ m
      | none ↦ or_else (text? (property "detail" payload)) fallback
    ]
  where
    or_null : Option Json → Json
    or_null none = null
    or_null (some j) = j

unfoldable pub response_error : Response → String → Error
response_error r fallback = record {
  name = "Error";
  message = elim r.json [ ok payload ↦ message_in payload fallback | err e ↦ fallback ];
  status = some r.status;
}

-- `if (!response.ok) throw await responseError(response, fallback)`
unfoldable pub ensure_ok : Response → String → Client (Unit {0})
unfolding response_error
ensure_ok r fallback = if is_ok r then pure tt else throw (response_error r fallback)

abbrev pub csrf_fallback : String
csrf_fallback = "Unable to authorize this request."

-- `payload[key]` where a text is wanted: it throws on null, and any other value is converted.
unfoldable pub text_property : String → Json → Client String
text_property key null w l =
    (err (record { name = "TypeError"; message = "null has no properties"; status = none }), l)
text_property key payload w l = (ok (w.string_of (property key payload)), l)

unfoldable pub get_csrf_token : Bool → Client String
unfolding api_request ensure_ok text_property
get_csrf_token signalled = do
  r ← api_request "/auth/csrf" (record defaults { signalled = signalled })
  ensure_ok r csrf_fallback
  text_property "csrf_token" (← lift r.json)

-- `options.idempotencyKey || crypto.randomUUID()`
abbrev pub key_or_uuid : Option String → Client String
key_or_uuid key = if truthy key then pure (or_else key "") else random_uuid

abbrev pub with_mutation_headers : String → String → Options → Options
with_mutation_headers key token o = record o {
  headers = spread o.headers (("Idempotency-Key", key) ∷ ("X-CSRF-Token", token) ∷ []);
}

-- The body of `request` in `csrfRequest`; the queue that orders these is in `Queue`.
unfoldable pub csrf_request : String → Options → Client Response
csrf_request path o = do
  token ← get_csrf_token o.signalled
  key ← key_or_uuid o.idempotency_key
  api_request path (with_mutation_headers key token o)
