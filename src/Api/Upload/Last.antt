-- ===== src/Api/Upload/Last.antt =====
-- The last look at the signal of an upload.
use Prim.Native.String.{◌++◌ as append}
use cassist.Prelude.{String, arith, ◌≡◌, true, false, ◌∷◌, Bool-cases, inl, inr}
use cassist.Api.Json.{Json}
use cassist.Api.World.{
  ok, Client, World, Log, checked_signal, ◌>>=◌, ◌>>◌, catch, pure, emit, staged, verifying, post,
}
use cassist.Api.Request.{text_property}
use cassist.Api.Mutations.{bare, send_json}
use cassist.Api.Inversion.{>>=-eq-ok, catch-eq-ok}
use cassist.Api.Upload.{
  File, stop_if_aborted, create_upload, transfer_file, complete_upload, recover, finish_upload,
  upload_document,
}
use cassist.Api.Upload.Order.{recover-ne-ok}

-- If `m` succeeds, the last thing it did was to look at the signal, which was not aborted.
record EndsUnaborted {A : Type 0} (m : Client A) : Type 0 where
  at :
      (w : World) (l l' : Log) (a : A)
      → m w l ≡ (ok a, l')
      → (k : Log) × (l' ≡ checked_signal ∷ k) × (w.signal_aborted k ≡ false)

module _ {A B : Type 0} where
  last_bind :
      (m : Client A) {f : A → Client B} → ((a : A) → EndsUnaborted (f a)) → EndsUnaborted (m >>= f)
  last_bind m {f} last = record {
    at = λ w l l' b h. let (a, k, h1, h2) = >>=-eq-ok f w m l h in (last a).at w k l' b h2;
  }

  last_then : (m : Client A) {k : Client B} → EndsUnaborted k → EndsUnaborted (m >> k)
  last_then m {k} last = last_bind m {f = λ _. k} (λ _. last)

EndsUnaborted-return : {A : Type 0} (a : A) → EndsUnaborted (stop_if_aborted true >> pure a)
EndsUnaborted-return a = record {
  at = λ w l l' b h. elim (Bool-cases (w.signal_aborted l)) [
    | inl e ↦ absurd (ground arith)
    | inr e ↦ (l, ground arith, e)
  ];
}

abbrev complete : String → Client Json
complete id =
    send_json (append "/uploads/" (append id "/complete")) (bare post)
      "The uploaded file could not be verified."

EndsUnaborted-complete_upload : (created : Json) → EndsUnaborted (complete_upload true created)
unfolding complete_upload
EndsUnaborted-complete_upload created = last_then (stop_if_aborted true) (
    last_then (emit (staged verifying)) (
      last_bind (text_property "document_id" created)
        λ id. last_bind (complete id) λ j. EndsUnaborted-return j))

-- An upload with a signal that succeeds looked at the signal last of all, and it was not aborted
-- then: no cancellation is lost that came before, not even one during the completion request.
pub upload_document_unaborted :
    (f : File) (w : World) (l l' : Log) (result : Json)
    → upload_document f true w l ≡ (ok result, l')
    → (k : Log) × (l' ≡ checked_signal ∷ k) × (w.signal_aborted k ≡ false)
unfolding upload_document finish_upload
upload_document_unaborted f w l l' result h =
    let (created, l1, h1, k1) =
      >>=-eq-ok (λ c. catch (finish_upload f true c) (recover c)) w (create_upload f true) l h in
    let done =
      catch-eq-ok (recover created) w (finish_upload f true created) l1
        (λ e k. recover-ne-ok created e w k) k1 in
    let (u, k, h2, h3) =
      >>=-eq-ok (λ _. complete_upload true created) w (transfer_file f true created) l1 done in
    (EndsUnaborted-complete_upload created).at w k l' result h3
