-- ===== src/Proxy/Answer.antt =====
-- What functions/api/[[path]].js answers to the browser.
use cassist.Prelude.{
  ℕ, ◌≡◌, ◌⊎◌, refl, ◌∙◌, sym, ap, String, true, false, not, ◌&&◌, none, some, List, [], ◌∷◌, leb,
  codes, Option-cases, Bool-cases, inl, inr, arith, true-ne-false,
}
use cassist.Proxy.{
  Request, Response, Fetched, answered, failed, Platform, Environment, configuration,
  upstream_request, unavailable, is_sanitised, secured, settle, request_id, on_request,
  content_type,
}
use cassist.Proxy.HeaderMap.{
  header_get, header_get-header_set, header_get-header_set_other, includes,
}
use cassist.Proxy.Forward.{sent_requests, sent_requests-settle}

-- What the browser gets, by what the origin did.
abbrev pub IsAnswer : Platform → Request → Fetched → Response → Type 0
IsAnswer p r (failed _) a = a ≡ unavailable (request_id p r)
IsAnswer p r (answered o) a =
    ((is_sanitised o ≡ true) × (a ≡ unavailable (request_id p r)))
    ⊎ ((is_sanitised o ≡ false) × (a ≡ secured o))

settle-IsAnswer :
    (p : Platform) (r : Request) (f : Fetched) → IsAnswer p r f (settle p (request_id p r) f).0
unfolding settle
settle-IsAnswer p r (failed e) = refl
settle-IsAnswer p r (answered o) = elim (Bool-cases (is_sanitised o)) [
  | inl s ↦ inl (s, ground arith)
  | inr s ↦ inr (s, ground arith)
]

-- An answer that may reach a browser: of a kind that is not guessed, and, where it is an error of a
-- server, in JSON.
pub record IsPresentable (a : Response) : Type 0 where
  pub nosniff : header_get "X-Content-Type-Options" a.headers ≡ some "nosniff"
  pub json_errors :
      leb 500 a.status ≡ true → includes (codes "application/json") (content_type a) ≡ true

unavailable-IsPresentable : (id : String) → IsPresentable (unavailable id)
unfolding unavailable header_get includes
unavailable-IsPresentable id = record { nosniff = refl; json_errors = λ h. refl }

content_type-secured : (o : Response) → content_type (secured o) ≡ content_type o
unfolding secured
content_type-secured o =
    ap (λ t. elim t as (λ _. List ℕ) [ none ↦ [] | some t ↦ codes t ])
      (header_get-header_set_other "X-Frame-Options" "content-type" _ _ refl
        ∙ header_get-header_set_other "Referrer-Policy" "content-type" _ _ refl
        ∙ header_get-header_set_other "X-Content-Type-Options" "content-type" _ _ refl)

json_of_passed :
    (status : ℕ) (t : List ℕ)
    → (leb 500 status && not (includes (codes "application/json") t)) ≡ false
    → leb 500 status ≡ true
    → includes (codes "application/json") t ≡ true
json_of_passed status t h s = elim (Bool-cases (includes (codes "application/json") t)) [
  | inl e ↦ e
  | inr e ↦ absurd (true-ne-false (sym (rw (s, e) refl) ∙ h))
]

secured-IsPresentable : (o : Response) → is_sanitised o ≡ false → IsPresentable (secured o)
unfolding secured is_sanitised
secured-IsPresentable o h = record {
  nosniff =
      header_get-header_set_other "X-Frame-Options" "X-Content-Type-Options" _ _ refl
      ∙ header_get-header_set_other "Referrer-Policy" "X-Content-Type-Options" _ _ refl
      ∙ header_get-header_set "X-Content-Type-Options" "nosniff" _;
  json_errors = λ s. rw (content_type-secured o) (json_of_passed o.status (content_type o) h s);
}

-- For every request of the browser: without a usable address and secret nothing is sent and the
-- answer is the proxy's own 503 under the request's id. With them one request is sent. If `fetch`
-- rejects, or gives an error of a server that is not JSON, the answer is that 503 as well; else it
-- is the origin's response with its status and body, and with the proxy's headers set.
pub on_request-IsAnswer :
    (p : Platform) (env : Environment) (r : Request)
    → ((configuration p env ≡ none)
        × (sent_requests (on_request p env r).1 ≡ [])
        × ((on_request p env r).0 ≡ unavailable (request_id p r)))
      ⊎ ((sent : Request) × (sent_requests (on_request p env r).1 ≡ sent ∷ [])
          × IsAnswer p r (p.fetch sent) (on_request p env r).0)
unfolding on_request
on_request-IsAnswer p env r = elim (Option-cases (configuration p env)) [
  | inl e ↦ inl (e, rw (e, sent_requests) refl, rw (e, on_request) refl)
  | inr ((origin, secret), e) ↦
      let sent = upstream_request p origin secret r in
      inr (
        sent,
        rw (e, sent_requests)
            (ap (λ rs. sent ∷ rs) (sent_requests-settle p (request_id p r) (p.fetch sent))),
        rw (e, on_request) (settle-IsAnswer p r (p.fetch sent)),
      )
]

answer-IsPresentable :
    (p : Platform) (r : Request) (f : Fetched) (a : Response) → IsAnswer p r f a → IsPresentable a
answer-IsPresentable p r (failed e) a h = rw h (unavailable-IsPresentable (request_id p r))
answer-IsPresentable p r (answered o) a (inl (_, h)) =
    rw h (unavailable-IsPresentable (request_id p r))
answer-IsPresentable p r (answered o) a (inr (s, h)) = rw h (secured-IsPresentable o s)

-- Every answer of the proxy, whatever the origin did, forbids the browser to guess its type, and an
-- answer with a status of 500 or more has a content type of JSON: no other error page gets through.
pub on_request-IsPresentable :
    (p : Platform) (env : Environment) (r : Request) → IsPresentable (on_request p env r).0
on_request-IsPresentable p env r = elim (on_request-IsAnswer p env r) [
  | inl (_, _, h) ↦ rw h (unavailable-IsPresentable (request_id p r))
  | inr (sent, _, h) ↦ answer-IsPresentable p r (p.fetch sent) _ h
]
