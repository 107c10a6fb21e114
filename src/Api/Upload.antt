-- ===== src/Api/Upload.antt =====
-- The upload of one file in api.js: `uploadMimeType`, `uploadToPrivateStorage`, `uploadDocument`.
pub mod Order
pub mod Tame
pub mod Removed
pub mod Cancel
pub mod Last
use Prim.Native.String.{◌++◌}
use cassist.Prelude.{
  ℕ, ◌+◌, ◌*◌, ◌/◌, String, Bool, true, false, not, Option, none, some, List, [], ◌∷◌, ◌&&◌, ◌==◌,
  eqb, leb, ltb, if◌then◌else◌, truthy, codes, eq_codes, lower,
}
use cassist.Api.Json.{Json, null, num, str, obj, end, field, Fields, property}
use cassist.Api.World.{
  post, delete, Error, Result, ok, err, Pairs, Transfer, Progress, TransferEnd, loaded, failed,
  aborted, Event, creating, uploading, verifying, transferred, staged, progressed, Log, World,
  Client, pure, throw, lift, ◌>>=◌, ◌>>◌, catch, emit, is_aborted, plain_error, abort_error,
  Response,
}
use cassist.Api.Request.{text_property}
use cassist.Api.Mutations.{bare, with_json, send_json, send}

-- A file that the user chose; `mime_type` is what the browser says of it.
pub record File : Type 0 where
  pub name : String
  pub size : ℕ
  pub mime_type : String
  pub last_modified : ℕ

-- `name.slice(name.lastIndexOf("."))`: with no dot the last character. `best` is the rest from the
-- last dot so far.
slice_from_dot : Option (List ℕ) → List ℕ → List ℕ → List ℕ
slice_from_dot none last [] = last
slice_from_dot (some best) last [] = best
slice_from_dot best last (c ∷ cs) =
    slice_from_dot (if eqb c b'.' then some (c ∷ cs) else best) (c ∷ []) cs

unfoldable pub extension : List ℕ → List ℕ
unfolding slice_from_dot
extension name = lower (slice_from_dot none [] name)

-- `UPLOAD_MIME_TYPE_BY_EXTENSION`
abbrev pub mime_type_by_extension : List ℕ → Option String
mime_type_by_extension e =
    if eq_codes e (codes ".pdf")
    then some "application/pdf"
    else if eq_codes e (codes ".jpg")
    then some "image/jpeg"
    else if eq_codes e (codes ".jpeg")
    then some "image/jpeg"
    else if eq_codes e (codes ".png")
    then some "image/png"
    else none

unfoldable pub upload_mime_type : File → String
unfolding extension
upload_mime_type file = elim (mime_type_by_extension (extension (codes file.name))) [
  | some mime ↦ mime
  | none ↦ file.mime_type
]

abbrev pub cancelled : Error
cancelled = abort_error "Upload cancelled"

-- `if (signal?.aborted) throw new DOMException("Upload cancelled", "AbortError")`
abbrev pub stop_if_aborted : Bool → Client (Unit {0})
stop_if_aborted signalled = do a ← is_aborted signalled; if a then throw cancelled else pure tt

-- `Math.round((event.loaded / event.total) * 100)`
abbrev pub percent : Progress → ℕ
percent p = (200 * p.loaded + p.total) / (2 * p.total)

-- The progress events of an upload, told to `onProgress`.
unfoldable pub report : List Progress → Log → Log
report [] l = l
report (p ∷ ps) l = report ps (if p.computable then progressed (percent p) ∷ l else l)

storage_error : Error
storage_error = plain_error "The file could not be uploaded to private storage."

-- the handlers of `load`, `error` and `abort`
transfer_result : TransferEnd → Result (Unit {0})
unfolding storage_error
transfer_result (loaded status) =
    if leb 200 status && ltb status 300 then ok tt else err storage_error
transfer_result failed = err storage_error
transfer_result aborted = err cancelled

-- `request.send(file)` and what follows
unfoldable pub send_file : Transfer → Client (Unit {0})
unfolding transfer_result
send_file t w l =
    (transfer_result (w.transfer_end l t), report (w.transfer_progress l t) (transferred t ∷ l))

-- `created.upload`
pub record Upload : Type 0 where
  pub method : String
  pub url : String
  pub headers : Pairs String

-- The headers that are set: all but Content-Length, which the browser sets.
abbrev pub settable : Pairs String → Pairs String
settable [] = []
settable ((name, value) ∷ more) =
    let rest = settable more in
    if eq_codes (lower (codes name)) (codes "content-length") then rest else (name, value) ∷ rest

unfoldable pub upload_to_private_storage : File → Upload → Bool → Client (Unit {0})
unfolding send_file
upload_to_private_storage file u signalled = do
  stop_if_aborted signalled
  send_file
      (record { method = u.method; url = u.url; headers = settable u.headers; size = file.size })

abbrev pub entries : World → Fields → Pairs String
entries w end = []
entries w (field k v fs) = (k, w.string_of (some v)) ∷ entries w fs

-- `Object.entries(upload.headers)`, where `headers` is an object
abbrev pub headers_of : World → Option Json → Result (Pairs String)
headers_of w (some (obj fs)) = ok (entries w fs)
headers_of w _ = err (record { name = "TypeError"; message = "no headers"; status = none })

unfoldable pub upload_of : Json → Client Upload
unfolding text_property
upload_of created = do
  u ← lift (or_type_error (property "upload" created))
  method ← text_property "method" u
  url ← text_property "url" u
  headers ← λ w l. (headers_of w (property "headers" u), l)
  pure (record { method = method; url = url; headers = headers })
  where
    or_type_error : Option Json → Result Json
    or_type_error none = err (record { name = "TypeError"; message = "no upload"; status = none })
    or_type_error (some u) = ok u

abbrev pub create_body : File → Json
create_body file = obj (
    field "filename" (str file.name)
      (field "mime_type" (str (upload_mime_type file)) (field "byte_size" (num file.size) end)))

-- Everything up to `const created = await createResponse.json()`.
unfoldable pub create_upload : File → Bool → Client Json
create_upload file signalled = do
  stop_if_aborted signalled
  emit (staged creating)
  send_json "/uploads" (with_json post (create_body file)) "Unable to create the upload."

-- Up to the end of the transfer.
unfoldable pub transfer_file : File → Bool → Json → Client (Unit {0})
transfer_file file signalled created = do
  stop_if_aborted signalled
  emit (staged uploading)
  emit (progressed 0)
  u ← upload_of created
  upload_to_private_storage file u signalled
  emit (progressed 100)

-- The completion request is not aborted; the signal is looked at before it and after it.
unfoldable pub complete_upload : Bool → Json → Client Json
complete_upload signalled created = do
  stop_if_aborted signalled
  emit (staged verifying)
  id ← text_property "document_id" created
  result ←
      send_json ("/uploads/" ++ id ++ "/complete") (bare post)
        "The uploaded file could not be verified."
  stop_if_aborted signalled
  pure result

-- `DELETE /uploads/…`, which has to be confirmed
unfoldable pub cancel_upload : Json → Client (Unit {0})
cancel_upload created = do
  id ← text_property "document_id" created
  send ("/uploads/" ++ id) (bare delete) "Upload cancellation could not be confirmed."

-- the `catch` of `uploadDocument`
unfoldable pub recover : Json → Error → Client Json
recover created e = if e.name == "AbortError" then (do cancel_upload created; throw e) else throw e

unfoldable pub finish_upload : File → Bool → Json → Client Json
finish_upload file signalled created = do
  transfer_file file signalled created
  complete_upload signalled created

unfoldable pub upload_document : File → Bool → Client Json
unfolding recover finish_upload
upload_document file signalled = do
  created ← create_upload file signalled
  catch (finish_upload file signalled created) (recover created)
