-- ===== src/Proxy/Forward.antt =====
-- What functions/api/[[path]].js sends to the API: where to, and with which headers.
use cassist.Prelude.{
  ℕ, ◌≤◌, ◌≡◌, ◌⊎◌, refl, ◌∙◌, sym, String, Bool, true, false, Option, none, some, List, [], ◌∷◌,
  ◌++◌, ◌||◌, length, All, eq_iff, Option-cases, inl, inr, arith, ap, ◌≢◌,
}
use cassist.Proxy.{
  Url, Request, Fetched, request_id, Event, fetched, Platform, Environment, proxy_header,
  configured_origin, configuration, upstream_request, settle, on_request, accepted_origin, is_empty,
}
use cassist.Proxy.HeaderMap.{
  Headers, same_name, header_get, header_set, header_get-header_set, header_get-header_set_other,
}

-- The requests among the events.
abbrev pub sent_requests : List Event → List Request
sent_requests [] = []
sent_requests (fetched r ∷ es) = r ∷ sent_requests es
sent_requests (_ ∷ es) = sent_requests es

-- The headers that the proxy writes.
abbrev pub is_own : String → Bool
is_own name =
    same_name proxy_header name
    || same_name "Origin" name
    || same_name "X-Forwarded-Host" name
    || same_name "X-Forwarded-Proto" name

-- An address that the secret may be sent to.
abbrev pub IsSafeOrigin : Url → Type 0
IsSafeOrigin u =
    (u.protocol ≡ "https:")
    × (u.username ≡ "")
    × (u.password ≡ "")
    × (u.search ≡ [])
    × (u.hash ≡ "")

nil_of_is_empty : (s : List ℕ) → is_empty s ≡ true → s ≡ []
nil_of_is_empty [] h = refl
nil_of_is_empty (c ∷ s) h = ground arith

accepted_origin-IsSafeOrigin : (v u : Url) → accepted_origin v ≡ some u → (v ≡ u) × IsSafeOrigin u
unfolding accepted_origin
accepted_origin-IsSafeOrigin v u h = ground (
  arith,
  eq_iff v.protocol "https:",
  eq_iff v.username "",
  eq_iff v.password "",
  eq_iff v.hash "",
  nil_of_is_empty v.search,
)

configured_origin-IsSafeOrigin :
    (p : Platform) (given : Option String) (u : Url)
    → configured_origin p given ≡ some u
    → (value : String) × (given ≡ some value) × (p.parse_url value ≡ some u) × IsSafeOrigin u
unfolding configured_origin
configured_origin-IsSafeOrigin p none u h = ground arith
configured_origin-IsSafeOrigin p (some value) u h = elim (Option-cases (p.parse_url value)) [
  | inl e ↦ ground arith
  | inr (v, e) ↦
      let (same, safe) = accepted_origin-IsSafeOrigin v u (ground arith) in
      (value, refl, e ∙ ap some same, safe)
]

-- The configured address, which is safe, and which the path and the query of `request` are joined to.
abbrev pub GoesTo : Platform → Environment → Request → Url → Type 0
GoesTo p env request url =
    (u : Url) × (value : String) × (env.origin ≡ some value)
    × (p.parse_url value ≡ some u)
    × IsSafeOrigin u
    × (url ≡ p.resolve (request.url.pathname ++ request.url.search) u)

-- What the API may rely on in a request that it gets for the browser's `request`.
pub record IsTrusted (p : Platform) (env : Environment) (request sent : Request) : Type 0 where
  pub target : GoesTo p env request sent.url
  pub secret : header_get proxy_header sent.headers ≡ env.proxy_secret
  pub origin : header_get "Origin" sent.headers ≡ some request.url.origin
  pub host : header_get "X-Forwarded-Host" sent.headers ≡ some request.url.host
  pub proto : header_get "X-Forwarded-Proto" sent.headers ≡ some "https"
  pub others :
      (name : String)
      → is_own name ≡ false
      → header_get name sent.headers ≡ header_get name request.headers
  pub method : sent.method ≡ request.method
  pub body : request.method ≢ "GET" → request.method ≢ "HEAD" → sent.body ≡ request.body
  pub bodiless : request.method ≡ "GET" ⊎ request.method ≡ "HEAD" → sent.body ≡ none
  pub redirect : sent.redirect ≡ "manual"

four_false :
    (a b c d : Bool)
    → (a || b || c || d) ≡ false
    → (a ≡ false) × (b ≡ false) × (c ≡ false) × (d ≡ false)
four_false a b c d h = ground arith

not_own :
    (name : String)
    → is_own name ≡ false
    → (same_name proxy_header name ≡ false)
      × (same_name "Origin" name ≡ false)
      × (same_name "X-Forwarded-Host" name ≡ false)
      × (same_name "X-Forwarded-Proto" name ≡ false)
not_own name h =
    four_false (same_name proxy_header name) (same_name "Origin" name)
      (same_name "X-Forwarded-Host" name) (same_name "X-Forwarded-Proto" name) h

module _ (secret host origin : String) (hs : Headers) where
  written : Headers
  written = header_set "X-Forwarded-Proto" "https" (
      header_set "X-Forwarded-Host" host
        (header_set "Origin" origin (header_set proxy_header secret hs)))

  written-secret : header_get proxy_header written ≡ some secret
  unfolding written
  written-secret =
      header_get-header_set_other "X-Forwarded-Proto" proxy_header _ _ refl
      ∙ header_get-header_set_other "X-Forwarded-Host" proxy_header _ _ refl
      ∙ header_get-header_set_other "Origin" proxy_header _ _ refl
      ∙ header_get-header_set proxy_header secret hs

  written-origin : header_get "Origin" written ≡ some origin
  unfolding written
  written-origin =
      header_get-header_set_other "X-Forwarded-Proto" "Origin" _ _ refl
      ∙ header_get-header_set_other "X-Forwarded-Host" "Origin" _ _ refl
      ∙ header_get-header_set "Origin" origin _

  written-host : header_get "X-Forwarded-Host" written ≡ some host
  unfolding written
  written-host =
      header_get-header_set_other "X-Forwarded-Proto" "X-Forwarded-Host" _ _ refl
      ∙ header_get-header_set "X-Forwarded-Host" host _

  written-others :
      (name : String) → is_own name ≡ false → header_get name written ≡ header_get name hs
  unfolding written
  written-others name h =
      let (a, b, c, d) = not_own name h in
      header_get-header_set_other "X-Forwarded-Proto" name _ _ d
      ∙ header_get-header_set_other "X-Forwarded-Host" name _ _ c
      ∙ header_get-header_set_other "Origin" name _ _ b
      ∙ header_get-header_set_other proxy_header name _ _ a

pub configuration-parts :
    (p : Platform) (env : Environment) (origin : Url) (secret : String)
    → configuration p env ≡ some (origin, secret)
    → (env.proxy_secret ≡ some secret) × (configured_origin p env.origin ≡ some origin)
unfolding configuration
configuration-parts p env origin secret h = ground arith

pub upstream_request-IsTrusted :
    (p : Platform) (env : Environment) (origin : Url) (secret : String) (r : Request)
    → configuration p env ≡ some (origin, secret)
    → IsTrusted p env r (upstream_request p origin secret r)
unfolding upstream_request written
upstream_request-IsTrusted p env origin secret r h = record {
  target =
      let (value, given, parsed, safe) =
        configured_origin-IsSafeOrigin p env.origin origin
          (configuration-parts p env origin secret h).1 in
      (origin, value, given, parsed, safe, refl);
  secret =
      written-secret secret r.url.host r.url.origin r.headers
      ∙ sym (configuration-parts p env origin secret h).0;
  origin = written-origin secret r.url.host r.url.origin r.headers;
  host = written-host secret r.url.host r.url.origin r.headers;
  proto = header_get-header_set "X-Forwarded-Proto" "https" _;
  others = written-others secret r.url.host r.url.origin r.headers;
  method = refl;
  body = λ g h. ground (arith, eq_iff r.method "GET", eq_iff r.method "HEAD");
  bodiless = λ h. ground (arith, eq_iff r.method "GET", eq_iff r.method "HEAD");
  redirect = refl;
}

pub sent_requests-settle :
    (p : Platform) (id : String) (f : Fetched) → sent_requests (settle p id f).1 ≡ []
unfolding settle
sent_requests-settle p id f = ground arith

-- With a configuration, just the upstream request is sent.
pub sent_requests-configured :
    (p : Platform) (env : Environment) (r : Request) (origin : Url) (secret : String)
    → configuration p env ≡ some (origin, secret)
    → sent_requests (on_request p env r).1 ≡ upstream_request p origin secret r ∷ []
unfolding on_request
sent_requests-configured p env r origin secret e =
    rw (e, sent_requests)
      (ap (λ rs. upstream_request p origin secret r ∷ rs)
        (sent_requests-settle p (request_id p r) (p.fetch (upstream_request p origin secret r))))

-- Nothing is sent without a configuration, and with one the one request is the upstream request.
sent_requests-on_request :
    (p : Platform) (env : Environment) (r : Request)
    → ((configuration p env ≡ none) × (sent_requests (on_request p env r).1 ≡ []))
      ⊎ ((origin : Url) × (secret : String) × (configuration p env ≡ some (origin, secret))
          × (sent_requests (on_request p env r).1 ≡ upstream_request p origin secret r ∷ []))
unfolding on_request
sent_requests-on_request p env r = elim (Option-cases (configuration p env)) [
  | inl e ↦ inl (e, rw (e, sent_requests) refl)
  | inr ((origin, secret), e) ↦
      inr (origin, secret, e, sent_requests-configured p env r origin secret e)
]

-- For every request of the browser, the proxy sends at most one request. That one is sent to the
-- request's path and query, as the platform joins them to the configured address, which is https
-- and has no user name, password, query or fragment. It carries the configured secret, and the Origin, host and protocol of the site itself, whatever the browser
-- sent under these names in any case of letters; it carries the browser's other headers and its
-- method unchanged, its body unless the method is GET or HEAD, and it does not follow redirects.
pub on_request-IsTrusted :
    (p : Platform) (env : Environment) (r : Request)
    → (length (sent_requests (on_request p env r).1) ≤ 1)
      × All (IsTrusted p env r) (sent_requests (on_request p env r).1)
on_request-IsTrusted p env r = elim (sent_requests-on_request p env r) [
  | inl (_, e) ↦ rw e (omega arith, tt)
  | inr (origin, secret, c, e) ↦
      rw e (omega arith, (upstream_request-IsTrusted p env origin secret r c, tt))
]
