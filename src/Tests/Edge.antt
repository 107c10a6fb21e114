-- ===== src/Tests/Edge.antt =====
-- The proxy for one site, one API and one request.
use Prim.Native.String.{◌++◌ as append}
use cassist.Prelude.{
  List, ℕ, append-nil, true, false, has, ◌⊎◌, true-ne-false, sym, ap, ◌∙◌, Bool-cases, inl, inr,
  eq_iff, ◌≤◌, ◌≡◌, refl, String, none, some, [], ◌∷◌, length, All, codes, arith,
}
use cassist.Proxy.{
  configuration, configured_origin, Url, Request, answered, Platform, Environment, on_request,
}
use cassist.Proxy.Forward.{IsTrusted, sent_requests, on_request-IsTrusted}
use cassist.Proxy.HeaderMap.{same_name, header_get}
use cassist.Api.World.{Call}
use cassist.Api.Mutations.{mutate, retrying}
use cassist.Delivery.{method_text, client_names, IsBrowser, IsDelivered, mutate-IsDelivered}
use cassist.Tests.Client.{world}
use cassist.Proxy.Answer.{IsPresentable, on_request-IsPresentable}

abbrev url : String → String → String → Url
url host path origin = record {
  protocol = "https:";
  username = "";
  password = "";
  host = host;
  pathname = codes path;
  search = [];
  hash = "";
  origin = origin;
}

abbrev api : Url
api = url "api.example" "/" "https://api.example"

-- An API that fails with a page of its own.
abbrev platform : Platform
platform = record {
  parse_url = λ s. some api;
  resolve = λ path base. record base { pathname = path };
  random_uuid = "u";
  fetch =
      λ r. answered (record { status = 502; status_text = ""; headers = []; body = some "<html>" });
  cancel_fails = λ r. none;
}

abbrev environment : Environment
environment = record {
  origin = some "https://api.example";
  proxy_secret = some "0123456789abcdef0123456789abcdef";
}

abbrev browser_request : Request
browser_request = record {
  method = "GET";
  url = url "app.example" "/api/v1/auth/me" "https://app.example";
  headers = ("origin", "https://evil.example") ∷ ("x-cassist-proxy-secret", "guess") ∷ [];
  body = none;
  redirect = "follow";
}

on_request-IsTrusted_example :
    (length (sent_requests (on_request platform environment browser_request).1) ≤ 1)
    × All
        (IsTrusted platform environment browser_request)
        (sent_requests (on_request platform environment browser_request).1)
on_request-IsTrusted_example = on_request-IsTrusted platform environment browser_request

on_request-IsPresentable_example : IsPresentable (on_request platform environment browser_request).0
on_request-IsPresentable_example = on_request-IsPresentable platform environment browser_request

-- A browser with a cookie of its own, on a site that serves the API under its own address.
abbrev site_address : String → List ℕ
site_address path = codes (append "/api/v1" path)

abbrev sent_by_browser : Call → Request
sent_by_browser c = record {
  method = method_text c.method;
  url = url "app.example" (append "/api/v1" c.path) "https://app.example";
  headers = ("cookie", "session=1") ∷ c.headers;
  body = none;
  redirect = "follow";
}

one_of :
    (name : String)
    → has name client_names ≡ true
    → (name ≡ "Accept")
      ⊎ ((name ≡ "Content-Type") ⊎ ((name ≡ "Idempotency-Key") ⊎ (name ≡ "X-CSRF-Token")))
one_of name h = ground (
  arith,
  eq_iff "Accept" name,
  eq_iff "Content-Type" name,
  eq_iff "Idempotency-Key" name,
  eq_iff "X-CSRF-Token" name,
  eq_iff name "Accept",
  eq_iff name "Content-Type",
  eq_iff name "Idempotency-Key",
  eq_iff name "X-CSRF-Token",
)

no_cookie : (name : String) → has name client_names ≡ true → same_name "cookie" name ≡ true → ⊥
no_cookie name known same = elim (one_of name known) [
  | inl e ↦ other "Accept" e refl
  | inr (inl e) ↦ other "Content-Type" e refl
  | inr (inr (inl e)) ↦ other "Idempotency-Key" e refl
  | inr (inr (inr e)) ↦ other "X-CSRF-Token" e refl
]
  where
    other : (known : String) → name ≡ known → same_name "cookie" known ≡ false → ⊥
    other known e apart = true-ne-false (sym same ∙ ap (same_name "cookie") e ∙ apart)

sent_by_browser-IsBrowser : IsBrowser site_address sent_by_browser
unfolding header_get
sent_by_browser-IsBrowser = record {
  url = λ c h. append-nil _;
  method = λ c. refl;
  headers = λ c name value known h. elim (Bool-cases (same_name "cookie" name)) [
    | inr e ↦ rw e h
    | inl e ↦ absurd (no_cookie name known e)
  ];
}

configured : configuration platform environment ≡ some (api, "0123456789abcdef0123456789abcdef")
unfolding configuration configured_origin
configured = refl

mutate-IsDelivered_example :
    IsDelivered site_address sent_by_browser platform environment
      (world false)
      []
      (mutate (retrying "d1") (world false) []).1
mutate-IsDelivered_example =
    mutate-IsDelivered site_address sent_by_browser platform environment api
      "0123456789abcdef0123456789abcdef" sent_by_browser-IsBrowser configured (retrying "d1")
      (world false) []
