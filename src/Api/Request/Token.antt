-- ===== src/Api/Request/Token.antt =====
-- When `getCsrfToken` of frontend/src/lib/api.js has a token, and which.
use cassist.Prelude.{
  ◌≤◌, ◌<◌, ◌≡◌, ◌≢◌, inl, inr, refl, ap, sym, ◌∙◌, arith, String, true, false, none, ◌∷◌,
  Bool-cases,
}
use cassist.Api.Json.{Json, null, bool, num, str, arr, obj, property}
use cassist.Api.World.{
  Call, Response, Reply, response, rejected, Result, ok, err, Error, World, Log, Client, called,
  uuid_drawn, lift, ◌>>=◌, ◌>>◌,
}
use cassist.Api.Request.{
  Options, defaults, csrf_fallback, settle, api_request, is_ok, ensure_ok, text_property,
  get_csrf_token, csrf_request, call_of, with_mutation_headers,
}
use cassist.Api.Request.Laws.{
  token_call, log-get_csrf_token, csrf_request_no_token, log-csrf_request_token,
}
use cassist.Api.Inversion.{>>=-eq-ok, Result-cases, ok-ne-err}

-- The server answers the request for a token with a success, and `token` is the text of
-- `csrf_token` in the answer, which is not null.
abbrev pub GotToken : World → Log → String → Type 0
GotToken w before token =
    (r : Response) × (j : Json) × (w.reply before token_call ≡ response r)
    × (200 ≤ r.status)
    × (r.status < 300)
    × (r.json ≡ ok j)
    × (j ≢ null)
    × (token ≡ w.string_of (property "csrf_token" j))

pub ok_injective : {A : Type 0} {x y : A} → ◌≡◌ {A = Result A} (ok x) (ok y) → x ≡ y
ok_injective h = cc

pub reply_of_settle : (rep : Reply) (r : Response) → settle rep ≡ ok r → rep ≡ response r
unfolding settle
reply_of_settle (response s) r h = ap response (ok_injective h)
reply_of_settle (rejected e true online) r h = absurd (ok-ne-err (sym h))
reply_of_settle (rejected e false false) r h = absurd (ok-ne-err (sym h))
reply_of_settle (rejected e false true) r h = absurd (ok-ne-err (sym h))

pub status_of_ensure_ok :
    (r : Response) (fallback : String) (w : World) (l k : Log)
    → ensure_ok r fallback w l ≡ (ok tt, k)
    → (200 ≤ r.status) × (r.status < 300)
unfolding ensure_ok
status_of_ensure_ok r fallback w l k h = elim (Bool-cases (is_ok r)) [
  | inl e ↦ (ground arith, ground arith)
  | inr e ↦ absurd (ground arith)
]

pub text_property-parts :
    (key : String) (j : Json) (w : World) (l k : Log) (t : String)
    → text_property key j w l ≡ (ok t, k)
    → (j ≢ null) × (t ≡ w.string_of (property key j))
unfolding text_property
text_property-parts key null w l k t h = absurd (ok-ne-err (sym (ap (λ p. p.0) h)))
text_property-parts key (str s) w l k t h = ((λ e. cc), sym (ok_injective (ap (λ p. p.0) h)))
text_property-parts key (bool b) w l k t h = ((λ e. cc), sym (ok_injective (ap (λ p. p.0) h)))
text_property-parts key (num n) w l k t h = ((λ e. cc), sym (ok_injective (ap (λ p. p.0) h)))
text_property-parts key (arr s) w l k t h = ((λ e. cc), sym (ok_injective (ap (λ p. p.0) h)))
text_property-parts key (obj s) w l k t h = ((λ e. cc), sym (ok_injective (ap (λ p. p.0) h)))

abbrev after_reply : Response → Client String
after_reply r = ensure_ok r csrf_fallback >> (lift r.json >>= text_property "csrf_token")

unfold_token :
    (w : World) (l : Log)
    → get_csrf_token false w l ≡ (api_request "/auth/csrf" defaults >>= after_reply) w l
unfolding get_csrf_token
unfold_token w l = refl

asked :
    (w : World) (l : Log)
    → api_request "/auth/csrf" defaults w l ≡ (settle (w.reply l token_call), called token_call ∷ l)
unfolding api_request
asked w l = refl

-- A token that the client got is that of a successful answer.
pub get_csrf_token-GotToken :
    (w : World) (l : Log) (t : String) → (get_csrf_token false w l).0 ≡ ok t → GotToken w l t
get_csrf_token-GotToken w l t h =
    let whole = sym (unfold_token w l) ∙ ap (λ r. (r, (get_csrf_token false w l).1)) h in
    let (r, k, got, later) = >>=-eq-ok after_reply w (api_request "/auth/csrf" defaults) l whole in
    let (u, k, fine, read) =
      >>=-eq-ok (λ _. lift r.json >>= text_property "csrf_token") w (ensure_ok r csrf_fallback) k
        later in
    let (j, k, is_json, named) = >>=-eq-ok (text_property "csrf_token") w (lift r.json) k read in
    let (least, most) = status_of_ensure_ok r csrf_fallback w _ _ fine in
    let (something, same) = text_property-parts "csrf_token" j w _ _ t named in
    (
      r,
      j,
      reply_of_settle (w.reply l token_call) r (ap (λ p. p.0) (sym (asked w l) ∙ got)),
      least,
      most,
      ap (λ p. p.0) is_json,
      something,
      same,
    )

module _ {A B : Type 0} (f : A → Client B) (w : World) where
  after_ok : (m : Client A) (l k : Log) (a : A) → m w l ≡ (ok a, k) → (m >>= f) w l ≡ f a w k
  after_ok m l k a h =
      ap
        (λ (p : Result A × Log). elim p.0 as (λ _. Result B × Log) [
          | ok a ↦ f a w p.1
          | err e ↦ (err e, p.1)
        ])
        h

ensure_ok_fine :
    (r : Response) (fallback : String) (w : World) (l : Log)
    → 200 ≤ r.status
    → r.status < 300
    → ensure_ok r fallback w l ≡ (ok tt, l)
unfolding ensure_ok
ensure_ok_fine r fallback w l least most = ground arith

text_property_known :
    (key : String) (j : Json) (w : World) (l : Log)
    → j ≢ null
    → text_property key j w l ≡ (ok (w.string_of (property key j)), l)
unfolding text_property
text_property_known key null w l h = absurd (h refl)
text_property_known key (str s) w l h = refl
text_property_known key (bool b) w l h = refl
text_property_known key (num n) w l h = refl
text_property_known key (arr s) w l h = refl
text_property_known key (obj s) w l h = refl

-- With such an answer the client has its token.
pub GotToken-get_csrf_token :
    (w : World) (l : Log) (t : String) → GotToken w l t → (get_csrf_token false w l).0 ≡ ok t
unfolding settle
GotToken-get_csrf_token w l t (r, j, replied, least, most, is_json, something, same) =
    let k : Log = called token_call ∷ l in
    let got = asked w l ∙ ap (λ rep. (settle rep, k)) replied in
    ap (λ p. p.0)
      (unfold_token w l
        ∙ after_ok after_reply w (api_request "/auth/csrf" defaults) l k r got
        ∙ after_ok (λ _. lift r.json >>= text_property "csrf_token") w (ensure_ok r csrf_fallback) k
            k tt (ensure_ok_fine r csrf_fallback w k least most)
        ∙ after_ok (text_property "csrf_token") w (lift r.json) k k j (ap (λ x. (x, k)) is_json)
        ∙ text_property_known "csrf_token" j w k something)
    ∙ ap ok (sym same)

-- Without one it has none.
pub no_token-GotToken :
    (w : World) (l : Log) (e : Error)
    → (get_csrf_token false w l).0 ≡ err e
    → (token : String) → GotToken w l token
    → ⊥
no_token-GotToken w l e missing token got =
    ok-ne-err (sym (GotToken-get_csrf_token w l token got) ∙ missing)

module _ (path : String) (o : Options) (w : World) (l : Log) (t : String) (s : o.signalled ≡ false)
    (n : o.idempotency_key ≡ none) (given : (get_csrf_token false w l).0 ≡ ok t) where
  guarded : Call
  guarded = call_of path (with_mutation_headers (w.random_uuid (called token_call ∷ l)) t o)

  reply-csrf_request :
      (csrf_request path o w l).0 ≡ settle (w.reply (uuid_drawn ∷ called token_call ∷ l) guarded)
  unfolding csrf_request api_request guarded
  reply-csrf_request = ground (arith, log-get_csrf_token w l)

-- A guarded request that succeeds had a token, and its own answer is the one that it gives.
pub csrf_request-GotToken :
    (path : String) (o : Options) (w : World) (l l' : Log) (r : Response)
    → o.signalled ≡ false
    → o.idempotency_key ≡ none
    → csrf_request path o w l ≡ (ok r, l')
    → (token : String) × GotToken w l token
      × (let k : Log = uuid_drawn ∷ called token_call ∷ l in
          let c =
            call_of path (with_mutation_headers (w.random_uuid (called token_call ∷ l)) token o) in
          (l' ≡ called c ∷ k) × (w.reply k c ≡ response r))
unfolding guarded
csrf_request-GotToken path o w l l' r s n h = elim (Result-cases (get_csrf_token false w l).0) [
  | inl (t, given) ↦ (
    t,
    get_csrf_token-GotToken w l t given,
    (
      ap (λ p. p.1) (sym h) ∙ log-csrf_request_token path o w l t s n given,
      reply_of_settle
          (w.reply (uuid_drawn ∷ called token_call ∷ l) (guarded path o w l t s n given)) r
          (sym (reply-csrf_request path o w l t s n given) ∙ ap (λ p. p.0) h),
    ),
  )
  | inr (e, missing) ↦ absurd (
      ok-ne-err
        (sym (ap (λ p. p.0) h) ∙ ap (λ p. p.0) (csrf_request_no_token path o w l e s missing)))
]
