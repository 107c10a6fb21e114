-- ===== src/Delivery.antt =====
-- From the client through the proxy to the API: what frontend/src/lib/api.js sends on the site's own
-- address, as functions/api/[[path]].js sends it on.
use cassist.Prelude.{
  ℕ, ap, ◌≡◌, ◌≢◌, ◌⊎◌, inl, inr, refl, ◌∙◌, String, true, some, List, [], ◌∷◌, ◌++◌, All, has,
}
use cassist.Api.World.{Method, get, post, patch, delete, Call, Log, World, called, uuid_drawn}
use cassist.Api.Request.Token.{GotToken}
use cassist.Api.Request.Laws.{token_call}
use cassist.Api.Mutations.{Mutation, mutate}
use cassist.Api.Mutations.Laws.{IsLocal, Carries, HasHeaders, mutate-IsAuthorised}
use cassist.Proxy.{
  Url, Request, Platform, Environment, configuration, on_request, proxy_header, upstream_request,
}
use cassist.Proxy.HeaderMap.{header_get}
use cassist.Proxy.Forward.{
  sent_requests, sent_requests-configured, upstream_request-IsTrusted, IsSafeOrigin,
}

-- The method of a call, as it is sent.
abbrev pub method_text : Method → String
method_text get = "GET"
method_text post = "POST"
method_text patch = "PATCH"
method_text delete = "DELETE"

-- The names of the headers that the client sets.
abbrev pub client_names : List String
client_names = "Accept" ∷ "Content-Type" ∷ "Idempotency-Key" ∷ "X-CSRF-Token" ∷ []

-- How the browser makes a request of a call of `fetch`: without a query it asks for the `address` of
-- the path, below that of the API on the site, and it keeps the method, and the values of the
-- headers that the client sets, none of which `fetch` forbids or writes itself.
pub record IsBrowser (address : String → List ℕ) (request_of : Call → Request) : Type 0 where
  pub url :
      (c : Call)
      → c.query ≡ []
      → (request_of c).url.pathname ++ (request_of c).url.search ≡ address c.path
  pub method : (c : Call) → (request_of c).method ≡ method_text c.method
  pub headers :
      (c : Call) (name value : String)
      → has name client_names ≡ true
      → header_get name c.headers ≡ some value
      → header_get name (request_of c).headers ≡ some value

-- Where it goes: the configured address, to which the path is joined.
abbrev pub IsSentTo : Platform → Environment → List ℕ → Url → Type 0
IsSentTo p env path url =
    (u : Url) × (value : String) × (env.origin ≡ some value)
    × (p.parse_url value ≡ some u)
    × IsSafeOrigin u
    × (url ≡ p.resolve path u)

-- What the API gets: the address, the token and the key of the client, the method, and what the proxy writes.
pub record Arrives (address : String → List ℕ) (p : Platform) (env : Environment)
    (request : Request) (token key : String) (c : Call) (sent : Request) : Type 0 where
  pub target : IsSentTo p env (address c.path) sent.url
  pub csrf_token : header_get "X-CSRF-Token" sent.headers ≡ some token
  pub idempotency_key : header_get "Idempotency-Key" sent.headers ≡ some key
  pub secret : header_get proxy_header sent.headers ≡ env.proxy_secret
  pub origin : header_get "Origin" sent.headers ≡ some request.url.origin
  pub method : sent.method ≡ method_text c.method
  pub no_get : c.method ≢ get

header_get-token :
    (token key : String) (c : Call)
    → HasHeaders token key c
    → (header_get "X-CSRF-Token" c.headers ≡ some token)
      × (header_get "Idempotency-Key" c.headers ≡ some key)
unfolding header_get
header_get-token token key c (inl e) = rw e (refl, refl)
header_get-token token key c (inr e) = rw e (refl, refl)

module _ (address : String → List ℕ) (request_of : Call → Request)
    (browser : IsBrowser address request_of) (p : Platform) (env : Environment) (origin : Url)
    (secret : String) (configured : configuration p env ≡ some (origin, secret)) where
  Carries-Arrives :
      (token key : String) (c : Call)
      → Carries token key c
      → Arrives address p env
          (request_of c)
          token
          key
          c
          (upstream_request p origin secret (request_of c))
  Carries-Arrives token key c (_, _, no_get, plain, exactly) =
      let trusted = upstream_request-IsTrusted p env origin secret (request_of c) configured in
      let (u, value, given, parsed, safe, same) = trusted.target in
      let (has_token, has_key) = header_get-token token key c exactly in
      record {
        target = (
          u,
          value,
          given,
          parsed,
          safe,
          same ∙ ap (λ path. p.resolve path u) (browser.url c plain),
        );
        csrf_token =
            trusted.others "X-CSRF-Token" refl
            ∙ browser.headers c "X-CSRF-Token" token refl has_token;
        idempotency_key =
            trusted.others "Idempotency-Key" refl
            ∙ browser.headers c "Idempotency-Key" key refl has_key;
        secret = trusted.secret;
        origin = trusted.origin;
        method = trusted.method ∙ browser.method c;
        no_get = no_get;
      }

-- The one request of a mutation after the token's, as it leaves the client and as it comes to the
-- API.
abbrev pub IsDelivered :
    (String → List ℕ) → (Call → Request) → Platform → Environment → World → Log → Log → Type 0
IsDelivered address request_of p env w before after =
    (((token : String) → GotToken w before token → ⊥) × (after ≡ called token_call ∷ before))
    ⊎ ((token : String) × (c : Call) × (rest : Log) × (sent : Request) × GotToken w before token
        × (after ≡ rest ++ called c ∷ uuid_drawn ∷ called token_call ∷ before)
        × All IsLocal rest
        × (sent_requests (on_request p env (request_of c)).1 ≡ sent ∷ [])
        × Arrives address p env (request_of c) token (w.random_uuid (called token_call ∷ before)) c
            sent)

-- The browser makes its requests as `fetch` documents it, and the proxy has an address and a
-- secret. Then each mutation whose request for a CSRF token is answered with one makes the proxy send
-- one request: to the path of the client's request as the platform joins it to the configured
-- address, which is https and has no credentials; with the token of that answer, with an idempotency
-- key drawn for it, with the proxy's secret and the site's own origin, and with the client's method,
-- which is no GET. Without a token in an answer no request follows that for the token.
pub mutate-IsDelivered :
    (address : String → List ℕ) (request_of : Call → Request) (p : Platform) (env : Environment)
    (origin : Url) (secret : String)
    → IsBrowser address request_of
    → configuration p env ≡ some (origin, secret)
    → (m : Mutation) (w : World) (l : Log)
    → IsDelivered address request_of p env w l (mutate m w l).1
mutate-IsDelivered address request_of p env origin secret browser configured m w l =
    elim (mutate-IsAuthorised m w l) [
      | inl missing ↦ inl missing
      | inr (token, c, rest, given, carries, only_local, same) ↦ inr (
        token,
        c,
        rest,
        upstream_request p origin secret (request_of c),
        given,
        same,
        only_local,
        sent_requests-configured p env (request_of c) origin secret configured,
        Carries-Arrives address request_of browser p env origin secret configured token
            (w.random_uuid (called token_call ∷ l)) c carries,
      )
    ]
