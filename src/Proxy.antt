-- ===== src/Proxy.antt =====
-- The Pages function functions/api/[[path]].js, which stands between the browser and the API.
pub mod HeaderMap
pub mod Forward
pub mod Answer
use cassist.Prelude.{
  ℕ, ◌+◌, String, Bool, true, false, not, Option, none, some, List, [], ◌∷◌, ◌++◌, ◌&&◌, ◌||◌, ◌==◌,
  leb, ltb, if◌then◌else◌, truthy, codes,
}
use cassist.Proxy.HeaderMap.{Headers, header_get, header_set, includes}

-- A parsed `URL`, by the properties that the proxy reads.
pub record Url : Type 0 where
  pub protocol : String
  pub username : String
  pub password : String
  pub host : String
  pub pathname : List ℕ
  pub search : List ℕ
  pub hash : String
  pub origin : String

-- The path of the origin's own address, `"/"`.
abbrev pub is_root : List ℕ → Bool
is_root (c ∷ []) = leb c b'/' && leb b'/' c
is_root _ = false

abbrev pub is_empty : List ℕ → Bool
is_empty [] = true
is_empty _ = false

pub record Request : Type 0 where
  pub method : String
  pub url : Url
  pub headers : Headers
  pub body : Option String
  pub redirect : String

pub record Response : Type 0 where
  pub status : ℕ
  pub status_text : String
  pub headers : Headers
  pub body : Option String

-- How `fetch` settles: a rejection has the name of its error, if it is an `Error`.
pub data Fetched : Type 0 where
  answered : Response → Fetched
  failed : Option String → Fetched

-- What the proxy does besides answering. A report is a line of `console.error`: its message, the
-- request's id, and the upstream's status or the error's name.
pub data Event : Type 0 where
  fetched : Request → Event
  body_cancelled : Event
  reported : (message request_id : String) → Event
  reported_status : (message request_id : String) → ℕ → Event
  reported_error : (message request_id error_type : String) → Event

-- What the runtime gives: the parser of URLs, the joining of a path and search to a base, random
-- ids, the network, and the cancelling of a body, which may fail.
pub record Platform : Type 0 where
  pub parse_url : String → Option Url
  pub resolve : List ℕ → Url → Url
  pub random_uuid : String
  pub fetch : Request → Fetched
  pub cancel_fails : Response → Option String

pub record Environment : Type 0 where
  pub origin : Option String
  pub proxy_secret : Option String

-- `configuredOrigin` on a parsed address
unfoldable pub accepted_origin : Url → Option Url
accepted_origin u =
    if not (u.protocol == "https:")
      || not (u.username == "")
      || not (u.password == "")
      || not (is_root u.pathname)
      || not (is_empty u.search)
      || not (u.hash == "")
    then none
    else some u

-- `configuredOrigin`
unfoldable pub configured_origin : Platform → Option String → Option Url
unfolding accepted_origin
configured_origin p none = none
configured_origin p (some value) =
    if value == ""
    then none
    else elim (p.parse_url value) [ none ↦ none | some u ↦ accepted_origin u ]

-- `unavailable`
unfoldable pub unavailable : String → Response
unavailable id = record {
  status = 503;
  status_text = "";
  headers =
      ("cache-control", "no-store")
      ∷ ("x-content-type-options", "nosniff")
      ∷ ("x-request-id", id)
      ∷ ("content-type", "application/json")
      ∷ [];
  body = some "{\"error\":{\"code\":\"EDGE_PROXY_UNAVAILABLE\",\"message\":\"API unavailable\"}}";
}

-- `text.length`, in 16-bit units
abbrev pub utf16_length : List ℕ → ℕ
utf16_length [] = 0
utf16_length (c ∷ cs) = (if ltb c 65536 then 1 else 2) + utf16_length cs

abbrev pub secret_ok : String → Bool
secret_ok s = leb 32 (utf16_length (codes s))

-- The address and the secret, where both are configured.
unfoldable pub configuration : Platform → Environment → Option (Url × String)
configuration p env = elim (configured_origin p env.origin) [
  | none ↦ none
  | some origin ↦ elim env.proxy_secret [
    | none ↦ none
    | some secret ↦ if secret_ok secret then some (origin, secret) else none
  ]
]

abbrev pub proxy_header : String
proxy_header = "X-CAssist-Proxy-Secret"

-- `new Request(targetUrl, …)`: what is sent upstream
unfoldable pub upstream_request : Platform → Url → String → Request → Request
upstream_request p origin secret request = record {
  method = request.method;
  url = p.resolve (request.url.pathname ++ request.url.search) origin;
  headers = header_set "X-Forwarded-Proto" "https" (
      header_set "X-Forwarded-Host" request.url.host
        (header_set "Origin" request.url.origin (header_set proxy_header secret request.headers)));
  body = if request.method == "GET" || request.method == "HEAD" then none else request.body;
  redirect = "manual";
}

-- A response's `content-type`, or the empty text.
abbrev pub content_type : Response → List ℕ
content_type r = elim (header_get "content-type" r.headers) [ none ↦ [] | some t ↦ codes t ]

-- `response.status >= 500 && !contentType.includes("application/json")`
unfoldable pub is_sanitised : Response → Bool
is_sanitised r = leb 500 r.status && not (includes (codes "application/json") (content_type r))

-- The origin's response with the proxy's headers.
unfoldable pub secured : Response → Response
secured r = record {
  status = r.status;
  status_text = r.status_text;
  headers = header_set "X-Frame-Options" "DENY" (
      header_set "Referrer-Policy" "no-referrer"
        (header_set "X-Content-Type-Options" "nosniff" r.headers));
  body = r.body;
}

-- the `catch`
abbrev pub request_failed : String → Option String → Response × List Event
request_failed id error_type = (
  unavailable id,
  reported_error "Pages API proxy request failed" id
        (elim error_type [ none ↦ "UnknownError" | some name ↦ name ])
      ∷ [],
)

-- the `try` after `fetch` has settled: the answer, and what is done meanwhile
unfoldable pub settle : Platform → String → Fetched → Response × List Event
settle p id (failed error_type) = request_failed id error_type
settle p id (answered r) =
    if is_sanitised r
    then (elim r.body [
      | none ↦ sanitised
      | some _ ↦ elim (p.cancel_fails r) [
        | some name ↦
            let (a, events) = request_failed id (some name) in (a, body_cancelled ∷ events)
        | none ↦ let (a, events) = sanitised in (a, body_cancelled ∷ events)
      ]
    ])
    else (secured r, [])
  where
    sanitised : Response × List Event
    sanitised = (
      unavailable id,
      reported_status "Pages API proxy sanitized a non-JSON origin failure" id r.status ∷ [],
    )

-- `context.request.headers.get("cf-ray") || crypto.randomUUID()`
unfoldable pub request_id : Platform → Request → String
request_id p request = elim (header_get "cf-ray" request.headers) [
  | none ↦ p.random_uuid
  | some ray ↦ if ray == "" then p.random_uuid else ray
]

-- `onRequest`: the answer to the browser, and what is done, in order
unfoldable pub on_request : Platform → Environment → Request → Response × List Event
unfolding configuration upstream_request
on_request p env request = elim (configuration p env) [
  | none ↦ (unavailable id, reported "Pages API proxy configuration is unavailable" id ∷ [])
  | some (origin, secret) ↦
      let sent = upstream_request p origin secret request in
      let (answer, events) = settle p id (p.fetch sent) in (answer, fetched sent ∷ events)
]
  where
    id : String
    id = request_id p request
