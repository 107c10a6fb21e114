-- ===== src/Api/Upload/Removed.antt =====
-- What a successful creation and a successful cancellation of an upload in frontend/src/lib/api.js
-- sent, and how they were answered.
use Prim.Native.String.{◌++◌ as append}
use mathlib.Core.Path.{subst}
use cassist.Prelude.{
  ◌≤◌, ◌<◌, arith, ◌≡◌, refl, sym, ap, ◌∙◌, inl, inr, ◌∷◌, String, Bool, Bool-cases,
}
use cassist.Api.Json.{Json, property}
use cassist.Api.World.{
  post, delete, ok, Response, response, Client, World, Log, Call, ◌>>◌, emit, lift, staged,
  creating, called, uuid_drawn,
}
use cassist.Api.Request.{csrf_request, ensure_ok, is_ok, text_property}
use cassist.Api.Request.Laws.{token_call}
use cassist.Api.Request.Token.{
  GotToken, csrf_request-GotToken, status_of_ensure_ok, text_property-parts,
}
use cassist.Api.Mutations.{bare, with_json, send, send_json}
use cassist.Api.Inversion.{>>=-eq-ok}
use cassist.Api.Upload.{File, create_body, stop_if_aborted, create_upload, cancel_upload}

abbrev after_check : File → Client Json
after_check f = do
  emit (staged creating)
  send_json "/uploads" (with_json post (create_body f)) "Unable to create the upload."

-- `before` is followed by a guarded DELETE of `path`, which is answered with a success.
abbrev pub IsConfirmed : World → String → Log → Log → Type 0
IsConfirmed w path before after =
    (token : String) × (c : Call) × (r : Response) × (c.method ≡ delete)
    × (c.path ≡ path)
    × GotToken w before token
    × (after ≡ called c ∷ uuid_drawn ∷ called token_call ∷ before)
    × (w.reply (uuid_drawn ∷ called token_call ∷ before) c ≡ response r)
    × (200 ≤ r.status)
    × (r.status < 300)

-- `created` is the JSON of a successful answer to a POST to /uploads.
abbrev pub IsCreated : World → Json → Log → Type 0
IsCreated w created after =
    (before : Log) × (c : Call) × (r : Response) × (c.method ≡ post)
    × (c.path ≡ "/uploads")
    × (after ≡ called c ∷ before)
    × (w.reply before c ≡ response r)
    × (200 ≤ r.status)
    × (r.status < 300)
    × (r.json ≡ ok created)

-- At the end of the log the upload with the id of `created` is removed, and this is confirmed.
abbrev pub IsRemoved : World → Json → Log → Type 0
IsRemoved w created after =
    (before : Log) × IsConfirmed w
      (append "/uploads/" (w.string_of (property "document_id" created))) before after

log_of_ensure_ok :
    (r : Response) (fallback : String) (w : World) (l k : Log)
    → ensure_ok r fallback w l ≡ (ok tt, k)
    → l ≡ k
unfolding ensure_ok
log_of_ensure_ok r fallback w l k h = elim (Bool-cases (is_ok r)) [
  | inl e ↦ ground arith
  | inr e ↦ ground arith
]

pub create_upload-IsCreated :
    (w : World) (f : File) (s : Bool) (l l' : Log) (created : Json)
    → create_upload f s w l ≡ (ok created, l')
    → IsCreated w created l'
unfolding create_upload
create_upload-IsCreated w f s l l' created h =
    let fallback : String = "Unable to create the upload." in
    let o = with_json post (create_body f) in
    let (u, k, _, later) = >>=-eq-ok (λ _. after_check f) w (stop_if_aborted s) l h in
    let (u, k, _, later) =
      >>=-eq-ok (λ _. send_json "/uploads" o fallback) w (emit (staged creating)) k later in
    let (r, n, sent, rest) =
      >>=-eq-ok (λ r. ensure_ok r fallback >> lift r.json) w (csrf_request "/uploads" o) k later in
    let (u, m, checked, read) = >>=-eq-ok (λ _. lift r.json) w (ensure_ok r fallback) n rest in
    let (token, given, (same, replied)) =
      csrf_request-GotToken "/uploads" o w k n r refl refl sent in
    let (least, most) = status_of_ensure_ok r fallback w n m checked in
    (
      _,
      _,
      r,
      refl,
      refl,
      ap (λ p. p.1) (sym read) ∙ sym (log_of_ensure_ok r fallback w n m checked) ∙ same,
      replied,
      least,
      most,
      ap (λ p. p.0) read,
    )

module _ (w : World) where
  send-IsConfirmed :
      (path fallback : String) (k l' : Log)
      → send path (bare delete) fallback w k ≡ (ok tt, l')
      → IsConfirmed w path k l'
  send-IsConfirmed path fallback k l' h =
      let (r, n, sent, checked) =
        >>=-eq-ok (λ r. ensure_ok r fallback) w (csrf_request path (bare delete)) k h in
      let (token, given, (same, replied)) =
        csrf_request-GotToken path (bare delete) w k n r refl refl sent in
      let (least, most) = status_of_ensure_ok r fallback w n l' checked in
      (
        token,
        _,
        r,
        refl,
        refl,
        given,
        sym (log_of_ensure_ok r fallback w n l' checked) ∙ same,
        replied,
        least,
        most,
      )

  pub cancel_upload-IsRemoved :
      (created : Json) (l l' : Log)
      → cancel_upload created w l ≡ (ok tt, l')
      → IsRemoved w created l'
  unfolding cancel_upload
  cancel_upload-IsRemoved created l l' h =
      let (id, k, named, sent) =
        >>=-eq-ok
          (λ id.
            send (append "/uploads/" id) (bare delete)
              "Upload cancellation could not be confirmed.")
          w (text_property "document_id" created) l h in
      let (_, same) = text_property-parts "document_id" created w l k id named in
      (
        k,
        subst (λ id. IsConfirmed w (append "/uploads/" id) k l') same
            (send-IsConfirmed _ _ k l' sent),
      )
