-- ===== src/Api/Reads/Laws.antt =====
-- What the reads send.
use Prim.Native.String.{◌++◌}
use cassist.Prelude.{
  ◌≡◌, refl, ◌⊎◌, inl, inr, true, false, none, some, [], ◌∷◌, arith, String, if◌then◌else◌,
  Bool-cases,
}
use cassist.Api.World.{
  number, get, Call, Response, World, Log, called, checked_signal, pure, lift, Client, ◌>>=◌, ◌>>◌,
}
use cassist.Api.Silent.{IsSilent, log-bind_silent}
use cassist.Api.Request.{Options, auth_request_timeout_ms, call_of, api_request, ensure_ok}
use cassist.Api.Reads.{
  Read, current_auth, auth_sessions, storage_quota, upload_capabilities, document, documents, run,
  result, read_json, as_optional, reading, list_query, auth_options, auth_answer, perform,
}

-- A request that carries no body and no CSRF token.
abbrev pub IsPlainGet : Call → Type 0
IsPlainGet c =
    (c.method ≡ get)
    × (c.body ≡ none)
    × (c.headers ≡ ("Accept", "application/json") ∷ [])
    × (c.credentials ≡ "include")

-- The log grows by the look at the signal, and then by one plain GET or, if the signal was aborted,
-- by nothing.
abbrev pub SendsOneGet : World → Log → Log → Type 0
SendsOneGet w before after =
    ((w.signal_aborted before ≡ true) × (after ≡ checked_signal ∷ before))
    ⊎ ((c : Call) × (w.signal_aborted before ≡ false)
        × IsPlainGet c
        × (after ≡ called c ∷ checked_signal ∷ before))

log-api_request :
    (path : String) (o : Options) (w : World) (l : Log)
    → o.signalled ≡ true
    → (api_request path o w l).1 ≡ (
        if w.signal_aborted l
        then checked_signal ∷ l
        else called (call_of path o) ∷ checked_signal ∷ l)
unfolding api_request
log-api_request path o w l s = ground arith

SendsOneGet-request :
    {B : Type 0} (path : String) (o : Options) (k : Response → Client B) (w : World) (l : Log)
    → IsSilent k
    → o.signalled ≡ true
    → IsPlainGet (call_of path o)
    → SendsOneGet w l ((api_request path o >>= k) w l).1
SendsOneGet-request path o k w l silent s g =
    rw (log-bind_silent k w silent (api_request path o) l, log-api_request path o w l s)
      (elim (Bool-cases (w.signal_aborted l)) [
        | inl a ↦ inl (a, rw a)
        | inr a ↦ inr (call_of path o, a, g, rw a)
      ])

SendsOneGet-read :
    (path : String) (o : Options) (fallback : String) (w : World) (l : Log)
    → o.signalled ≡ true
    → IsPlainGet (call_of path o)
    → SendsOneGet w l (as_optional (read_json path o fallback) w l).1
unfolding ensure_ok
SendsOneGet-read path o fallback w l s g =
    rw (log-bind_silent (λ j. pure (some j)) w (λ j w l. refl) (read_json path o fallback) l) (
      SendsOneGet-request path o (λ r. do ensure_ok r fallback; lift r.json) w l
        (λ r w l. ground arith) s g)

-- Every read, in every world, looks at its signal once and then sends one GET that carries the
-- session cookie and no body, CSRF token or idempotency key; if the signal was aborted it sends
-- nothing. It adds nothing else to the log, whatever the answer.
pub perform-SendsOneGet : (r : Read) (w : World) (l : Log) → SendsOneGet w l (perform r w l).1
unfolding perform
perform-SendsOneGet current_auth w l =
    SendsOneGet-request "/auth/me" auth_options auth_answer w l (λ r w l. ground arith) refl
      (refl, refl, refl, refl)
perform-SendsOneGet (auth_sessions page size) w l =
    SendsOneGet-read "/auth/sessions"
      (record (reading (("page", number page) ∷ ("page_size", number size) ∷ [])) {
        timeout_ms = some auth_request_timeout_ms;
      })
      "Unable to load active sessions." w l refl (refl, refl, refl, refl)
perform-SendsOneGet storage_quota w l =
    SendsOneGet-read "/uploads/quota" (reading []) "Unable to load shared storage usage." w l refl
      (refl, refl, refl, refl)
perform-SendsOneGet upload_capabilities w l =
    SendsOneGet-read "/uploads/capabilities" (reading []) "Unable to load upload limits." w l refl
      (refl, refl, refl, refl)
perform-SendsOneGet (document id) w l =
    SendsOneGet-read ("/documents/" ++ id) (reading []) "Unable to load the document." w l refl
      (refl, refl, refl, refl)
perform-SendsOneGet (documents o) w l =
    SendsOneGet-read "/documents" (reading (list_query o)) "Unable to load recent documents." w l
      refl (refl, refl, refl, refl)
perform-SendsOneGet (run id) w l =
    SendsOneGet-read ("/runs/" ++ id) (reading []) "Unable to load processing status." w l refl
      (refl, refl, refl, refl)
perform-SendsOneGet (result id) w l =
    SendsOneGet-read ("/results/" ++ id) (reading []) "Unable to load the extraction result." w l
      refl (refl, refl, refl, refl)
