-- ===== src/Api/Mutations/Laws.antt =====
-- What the mutations send.
use Prim.Native.String.{◌++◌ as append}
use cassist.Prelude.{
  ◌≡◌, ◌≢◌, refl, ◌∙◌, ap, ◌⊎◌, inl, inr, false, none, some, [], ◌∷◌, ◌++◌, arith, String, lookup,
  insert, All, Bool-cases,
}
use cassist.Api.Json.{Json, arr, str, texts}
use cassist.Api.World.{
  Method, get, post, patch, delete, Call, Response, World, Log, Event, called, uuid_drawn, pure,
  lift, Client, Result, ok, err, ◌>>=◌, ◌>>◌, object_url_created, link_clicked, object_url_revoked,
}
use cassist.Api.Silent.{IsSilent, log-bind_silent}
use cassist.Api.Request.{
  Options, call_of, csrf_request, get_csrf_token, is_ok, ensure_ok, with_mutation_headers,
}
use cassist.Api.Request.Laws.{token_call, log-csrf_request_token, csrf_request_no_token}
use cassist.Api.Request.Token.{GotToken, get_csrf_token-GotToken, no_token-GotToken}
use cassist.Api.Mutations
use cassist.Api.Inversion.{Result-cases}
use cassist.Api.Mutations.{
  Mutation, signing_out, revoking, viewing, retrying, confirming, cancelling, comparing, correcting,
  reviewing, selecting, running, deleting_original, deleting, exporting, mutate,
}

-- An event that reaches no server.
abbrev pub IsLocal : Event → Type 0
IsLocal object_url_created = Unit
IsLocal (link_clicked _) = Unit
IsLocal object_url_revoked = Unit
IsLocal _ = ⊥

-- These headers and no others: two of the call's own, and the type of a body.
abbrev pub HasHeaders : String → String → Call → Type 0
HasHeaders token key c =
    (c.headers
      ≡ ("Accept", "application/json") ∷ ("Idempotency-Key", key) ∷ ("X-CSRF-Token", token) ∷ [])
    ⊎ (c.headers
        ≡ ("Accept", "application/json")
          ∷ ("Content-Type", "application/json")
          ∷ ("Idempotency-Key", key)
          ∷ ("X-CSRF-Token", token)
          ∷ [])

-- A request with the token and the key in its headers, which is no GET and has no query.
abbrev pub Carries : String → String → Call → Type 0
Carries token key c =
    (lookup "X-CSRF-Token" c.headers ≡ some token)
    × (lookup "Idempotency-Key" c.headers ≡ some key)
    × (c.method ≢ get)
    × (c.query ≡ [])
    × HasHeaders token key c

-- Without a token in an answer only the request for it is sent. With one, a single request follows,
-- which carries it and a key drawn for it; what comes later reaches no server.
abbrev pub IsAuthorised : World → Log → Log → Type 0
IsAuthorised w before after =
    (((token : String) → GotToken w before token → ⊥) × (after ≡ called token_call ∷ before))
    ⊎ ((token : String) × (c : Call) × (rest : Log) × GotToken w before token
        × Carries token (w.random_uuid (called token_call ∷ before)) c
        × All IsLocal rest
        × (after ≡ rest ++ called c ∷ uuid_drawn ∷ called token_call ∷ before))

-- The options that the mutations use: a method that is no GET, and at most one header of their own.
data IsPlain : Options → Type 0 where
  bare : (m : Method) → m ≢ get → IsPlain (Mutations.bare m)
  with_json : (m : Method) (j : Json) → m ≢ get → IsPlain (Mutations.with_json m j)

Carries-call_of :
    (path token key : String) {o : Options}
    → IsPlain o
    → Carries token key (call_of path (with_mutation_headers key token o))
unfolding insert
Carries-call_of path token key (bare m h) = (refl, refl, h, refl, inl refl)
Carries-call_of path token key (with_json m j h) = (refl, refl, h, refl, inr refl)

IsPlain-unsigned : {o : Options} → IsPlain o → (o.signalled ≡ false) × (o.idempotency_key ≡ none)
IsPlain-unsigned (bare m h) = (refl, refl)
IsPlain-unsigned (with_json m j h) = (refl, refl)

-- `k` reaches no server.
abbrev IsLocalOnly : {A B : Type 0} → (A → Client B) → Type 0
IsLocalOnly {A} k =
    (a : A) (w : World) (l : Log) → (rest : Log) × All IsLocal rest × ((k a w l).1 ≡ rest ++ l)

IsLocalOnly-of_IsSilent : {A B : Type 0} (k : A → Client B) → IsSilent k → IsLocalOnly k
IsLocalOnly-of_IsSilent k silent a w l = ([], tt, silent a w l)

module _ {B : Type 0} (k : Response → Client B) (local : IsLocalOnly k) (w : World) where
  then_local :
      (p : Result Response × Log)
      → (rest : Log) × All IsLocal rest
        × ((elim p.0 as (λ _. Result B × Log) [ ok a ↦ k a w p.1 | err e ↦ (err e, p.1) ]).1
            ≡ rest ++ p.1)
  then_local (ok r, l) = local r w l
  then_local (err e, l) = ([], tt, refl)

  IsAuthorised-request :
      (path : String) {o : Options} (l : Log)
      → IsPlain o
      → IsAuthorised w l ((csrf_request path o >>= k) w l).1
  IsAuthorised-request path {o} l plain =
      let (s, n) = IsPlain-unsigned plain in
      elim (Result-cases (get_csrf_token false w l).0) [
        | inr (e, missing) ↦ inl (
          no_token-GotToken w l e missing,
          ground (arith, csrf_request_no_token path o w l e s missing),
        )
        | inl (t, given) ↦
            let (rest, only_local, same) = then_local (csrf_request path o w l) in
            inr (
              t,
              call_of path (with_mutation_headers (w.random_uuid (called token_call ∷ l)) t o),
              rest,
              get_csrf_token-GotToken w l t given,
              Carries-call_of path t (w.random_uuid (called token_call ∷ l)) plain,
              only_local,
              same ∙ ap (λ m. rest ++ m) (log-csrf_request_token path o w l t s n given),
            )
      ]

IsSilent-ensure_ok : (fallback : String) → IsSilent (λ r. ensure_ok r fallback)
unfolding ensure_ok
IsSilent-ensure_ok fallback r w l = ground arith

IsSilent-ensure_ok_json : (fallback : String) → IsSilent (λ r. do ensure_ok r fallback; lift r.json)
unfolding ensure_ok
IsSilent-ensure_ok_json fallback r w l = ground arith

module _ (path : String) {o : Options} (fallback : String) (w : World) (l : Log) where
  IsAuthorised-send : IsPlain o → IsAuthorised w l (Mutations.send path o fallback w l).1
  IsAuthorised-send plain =
      IsAuthorised-request (λ r. ensure_ok r fallback)
        (IsLocalOnly-of_IsSilent (λ r. ensure_ok r fallback) (IsSilent-ensure_ok fallback)) w path l
        plain

  IsAuthorised-send_json :
      IsPlain o → IsAuthorised w l (Mutations.forget (Mutations.send_json path o fallback) w l).1
  IsAuthorised-send_json plain =
      rw (log-bind_silent (λ _. pure tt) w (λ _ w l. refl) (Mutations.send_json path o fallback) l)
        (IsAuthorised-request (λ r. do ensure_ok r fallback; lift r.json)
          (IsLocalOnly-of_IsSilent (λ r. do ensure_ok r fallback; lift r.json)
            (IsSilent-ensure_ok_json fallback))
          w path l plain)

after_check :
    {B : Type 0} (r : Response) (fallback : String) (m : Client B)
    → ((w : World) (l : Log) → (rest : Log) × All IsLocal rest × ((m w l).1 ≡ rest ++ l))
    → (w : World) (l : Log)
    → (rest : Log) × All IsLocal rest × (((ensure_ok r fallback >> m) w l).1 ≡ rest ++ l)
unfolding ensure_ok
after_check r fallback m local w l = elim (Bool-cases (is_ok r)) [
  | inl fine ↦ let (rest, all, same) = local w l in (rest, all, ground arith)
  | inr bad ↦ ([], tt, ground arith)
]

after_lift :
    {A B : Type 0} (r : Result A) (m : Client B)
    → ((w : World) (l : Log) → (rest : Log) × All IsLocal rest × ((m w l).1 ≡ rest ++ l))
    → (w : World) (l : Log) → (rest : Log) × All IsLocal rest × (((lift r >> m) w l).1 ≡ rest ++ l)
after_lift (ok a) m local w l = local w l
after_lift (err e) m local w l = ([], tt, refl)

IsLocalOnly-receive : (name : String) → IsLocalOnly (Mutations.receive name)
unfolding Mutations.receive Mutations.hand_over Mutations.click
IsLocalOnly-receive name r =
    after_check r "Unable to create the Tally JSON export."
      (lift r.blob >> Mutations.hand_over name)
      (after_lift r.blob (Mutations.hand_over name) λ w l. (
        object_url_revoked ∷ link_clicked name ∷ object_url_created ∷ [],
        (tt, (tt, (tt, tt))),
        refl,
      ))

post-ne-get : post ≢ get
post-ne-get = λ h. cc

patch-ne-get : patch ≢ get
patch-ne-get = λ h. cc

delete-ne-get : delete ≢ get
delete-ne-get = λ h. cc

-- Every mutation, in every world, first asks for a CSRF token. Unless this is answered with a success
-- whose JSON is not null, the mutation sends nothing else. If it is, the mutation sends exactly one
-- request more, which is no GET, has no query, and carries the text of the answer's csrf_token and a
-- key that was drawn for it; what the mutation adds to the log after that reaches no server.
pub mutate-IsAuthorised : (m : Mutation) (w : World) (l : Log) → IsAuthorised w l (mutate m w l).1
unfolding mutate
mutate-IsAuthorised signing_out w l =
    IsAuthorised-send_json "/auth/logout" "Unable to sign out." w l (bare post post-ne-get)
mutate-IsAuthorised (revoking id) w l =
    IsAuthorised-send (append "/auth/sessions/" id) "Unable to sign out that device." w l
      (bare delete delete-ne-get)
mutate-IsAuthorised (viewing id) w l =
    IsAuthorised-send_json (append "/documents/" (append id "/view-url"))
      "Unable to open the original document." w l (bare post post-ne-get)
mutate-IsAuthorised (retrying id) w l =
    IsAuthorised-send_json (append "/documents/" (append id "/retry"))
      "Unable to retry document extraction." w l (bare post post-ne-get)
mutate-IsAuthorised (confirming id) w l =
    IsAuthorised-send_json (append "/documents/" (append id "/confirm-processing"))
      "Unable to confirm document processing." w l (bare post post-ne-get)
mutate-IsAuthorised (cancelling id) w l =
    IsAuthorised-send_json (append "/runs/" (append id "/cancel"))
      "Unable to cancel document extraction." w l (bare post post-ne-get)
mutate-IsAuthorised (comparing id) w l =
    IsAuthorised-send_json (append "/documents/" (append id "/comparisons"))
      "Unable to compare extraction models." w l (bare post post-ne-get)
mutate-IsAuthorised (correcting id version changes) w l =
    IsAuthorised-send_json (append "/results/" (append id "/fields"))
      "Unable to save the correction." w l
      (with_json patch
        (Mutations.versioned version "changes" (arr (Mutations.change_items changes))) patch-ne-get)
mutate-IsAuthorised (reviewing id version status) w l =
    IsAuthorised-send_json (append "/results/" (append id "/review"))
      "Unable to update the review status." w l
      (with_json post (Mutations.versioned version "status" (str status)) post-ne-get)
mutate-IsAuthorised (selecting id version excluded) w l =
    IsAuthorised-send_json (append "/results/" (append id "/selection"))
      "Unable to save the Tally selection." w l
      (with_json patch (Mutations.versioned version "excluded_target_ids" (arr (texts excluded)))
        patch-ne-get)
mutate-IsAuthorised (running id options) w l =
    IsAuthorised-send_json (append "/documents/" (append id "/runs"))
      "Unable to queue document extraction." w l (with_json post options post-ne-get)
mutate-IsAuthorised (deleting_original id) w l =
    IsAuthorised-send (append "/documents/" (append id "/original"))
      "Unable to delete the original document." w l (bare delete delete-ne-get)
mutate-IsAuthorised (deleting id) w l =
    IsAuthorised-send (append "/documents/" id) "Unable to permanently delete the document." w l
      (bare delete delete-ne-get)
mutate-IsAuthorised (exporting id version) w l =
    let name = append "cassist-tally-" (append id ".json") in
    IsAuthorised-request (Mutations.receive name) (IsLocalOnly-receive name) w
      (append "/results/" (append id "/exports")) l
      (with_json post (Mutations.export_body version) post-ne-get)
