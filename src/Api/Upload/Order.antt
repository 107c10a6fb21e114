-- ===== src/Api/Upload/Order.antt =====
-- What a successful upload has sent, in order.
use Prim.Native.String.{◌++◌ as append}
use cassist.Prelude.{
  ◌≡◌, refl, ap, sym, ◌∙◌, List, [], ◌∷◌, ◌++◌, String, Bool, true, false, none, arith, Bool-cases,
  inl, inr,
}
use cassist.Api.Json.{Json}
use cassist.Api.World.{
  get, post, Error, Result, ok, Response, Client, World, Log, Progress, Transfer, ◌>>=◌, catch,
  emit, creating, uploading, verifying, staged, progressed, lift, Event, pure, ◌>>◌,
}
use cassist.Api.Request.{Options, csrf_request, ensure_ok, text_property}
use cassist.Api.Mutations.{bare}
use cassist.Api.Inversion.{
  >>=-eq-ok, catch-eq-ok, requests, Wire, call, file, requests-csrf_request,
}
use cassist.Api.Upload.{
  File, Upload, stop_if_aborted, report, send_file, upload_to_private_storage, upload_of,
  create_upload, transfer_file, complete_upload, recover, finish_upload, upload_document,
}

-- Nothing reaches a server.
pub record IsQuiet {A : Type 0} (m : Client A) : Type 0 where
  pub at : (w : World) (l : Log) → requests (m w l).1 ≡ requests l

pub quiet_step :
    {A : Type 0} (m : Client A) (w : World) (l : Log) {r : Result A} {k : Log}
    → IsQuiet m
    → m w l ≡ (r, k)
    → requests k ≡ requests l
quiet_step m w l quiet h = ap requests (sym (ap (λ p. p.1) h)) ∙ quiet.at w l

pub IsQuiet-stop_if_aborted : (s : Bool) → IsQuiet (stop_if_aborted s)
IsQuiet-stop_if_aborted false = record { at = λ w l. refl }
IsQuiet-stop_if_aborted true = record { at = λ w l. ground arith }

IsQuiet-emit : (e : Event) → ((l : Log) → requests (e ∷ l) ≡ requests l) → IsQuiet (emit e)
IsQuiet-emit e h = record { at = λ w l. h l }

IsQuiet-pure : {A : Type 0} (a : A) → IsQuiet (pure a)
IsQuiet-pure a = record { at = λ w l. refl }

IsQuiet-after_check : (r : Response) (f : String) → IsQuiet (do ensure_ok r f; lift r.json)
unfolding ensure_ok
IsQuiet-after_check r f = record { at = λ w l. ground arith }

pub IsQuiet-ensure_ok : (r : Response) (f : String) → IsQuiet (ensure_ok r f)
unfolding ensure_ok
IsQuiet-ensure_ok r f = record { at = λ w l. ground arith }

pub IsQuiet-text_property : (k : String) (j : Json) → IsQuiet (text_property k j)
unfolding text_property
IsQuiet-text_property k j = record { at = λ w l. ground arith }

IsQuiet-upload_of : (created : Json) → IsQuiet (upload_of created)
unfolding upload_of
IsQuiet-upload_of created = record { at = λ w l. ground arith }

requests-report : (ps : List Progress) (l : Log) → requests (report ps l) ≡ requests l
unfolding report
requests-report [] l = refl
requests-report (p ∷ ps) l = elim (Bool-cases p.computable) [
  | inl e ↦ rw e (requests-report ps _)
  | inr e ↦ rw e (requests-report ps l)
]

requests-send_file :
    (t : Transfer) (w : World) (l : Log) → requests (send_file t w l).1 ≡ file t.url ∷ requests l
unfolding send_file
requests-send_file t w l = requests-report (w.transfer_progress l t) _

-- If `m` succeeds, what it has sent, newest first, satisfies `Q`.
pub record Sends {A : Type 0} (m : Client A) (Q : List Wire → Type 0) : Type 0 where
  pub at :
      (w : World) (l l' : Log) (a : A)
      → m w l ≡ (ok a, l')
      → (ws : List Wire) × Q ws × (requests l' ≡ ws ++ requests l)

module _ {A B : Type 0} {Q : List Wire → Type 0} where
  pub quiet_bind :
      {m : Client A} {f : A → Client B} → IsQuiet m → ((a : A) → Sends (f a) Q) → Sends (m >>= f) Q
  quiet_bind {m} {f} quiet later = record {
    at = λ w l l' b h.
        let (a, k, h1, h2) = >>=-eq-ok f w m l h in
        let (ws, q, e) = (later a).at w k l' b h2 in
        (ws, q, e ∙ ap (λ r. ws ++ r) (quiet_step m w l quiet h1));
  }

  quiet_then : {m : Client A} {k : Client B} → IsQuiet m → Sends k Q → Sends (m >> k) Q
  quiet_then {m} {k} quiet later = quiet_bind {m = m} {f = λ _. k} quiet (λ _. later)

  pub bind_quiet :
      {m : Client A} {f : A → Client B} → Sends m Q → ((a : A) → IsQuiet (f a)) → Sends (m >>= f) Q
  bind_quiet {m} {f} first quiet = record {
    at = λ w l l' b h.
        let (a, k, h1, h2) = >>=-eq-ok f w m l h in
        let (ws, q, e) = first.at w l k a h1 in (ws, q, quiet_step (f a) w k (quiet a) h2 ∙ e);
  }

  then_quiet : {m : Client A} {k : Client B} → Sends m Q → IsQuiet k → Sends (m >> k) Q
  then_quiet {m} {k} first quiet = bind_quiet {m = m} {f = λ _. k} first (λ _. quiet)

abbrev pub Is : List Wire → List Wire → Type 0
Is expected ws = ws ≡ expected

pub Sends-csrf_request :
    (path : String) (o : Options)
    → o.signalled ≡ false
    → o.idempotency_key ≡ none
    → Sends (csrf_request path o) (Is (call o.method path ∷ call get "/auth/csrf" ∷ []))
Sends-csrf_request path o s n = record {
  at = λ w l l' r h. (_, refl, requests-csrf_request path o w l l' r s n h);
}

Sends-create_upload :
    (f : File) (s : Bool)
    → Sends (create_upload f s) (Is (call post "/uploads" ∷ call get "/auth/csrf" ∷ []))
unfolding create_upload
Sends-create_upload f s = quiet_then (IsQuiet-stop_if_aborted s) (
    quiet_then (IsQuiet-emit (staged creating) (λ l. refl))
      (bind_quiet (Sends-csrf_request "/uploads" _ refl refl) (λ r. IsQuiet-after_check r _)))

-- One file has gone to an address.
abbrev IsFile : List Wire → Type 0
IsFile ws = (url : String) × (ws ≡ file url ∷ [])

Sends-send_file : (t : Transfer) → Sends (send_file t) IsFile
Sends-send_file t = record {
  at = λ w l l' a h.
      (_, (t.url, refl), ap requests (sym (ap (λ p. p.1) h)) ∙ requests-send_file t w l);
}

Sends-upload_to_private_storage :
    (f : File) (u : Upload) (s : Bool) → Sends (upload_to_private_storage f u s) IsFile
unfolding upload_to_private_storage
Sends-upload_to_private_storage f u s = quiet_then (IsQuiet-stop_if_aborted s) (Sends-send_file _)

Sends-transfer_file :
    (f : File) (s : Bool) (created : Json) → Sends (transfer_file f s created) IsFile
unfolding transfer_file
Sends-transfer_file f s created = quiet_then (IsQuiet-stop_if_aborted s) (
    quiet_then (IsQuiet-emit (staged uploading) (λ l. refl)) (
      quiet_then (IsQuiet-emit (progressed 0) (λ l. refl)) (
        quiet_bind (IsQuiet-upload_of created) λ u.
          then_quiet (Sends-upload_to_private_storage f u s)
            (IsQuiet-emit (progressed 100) (λ l. refl)))))

module _ {A : Type 0} {P Q : List Wire → Type 0} where
  pub weaken : {m : Client A} → ((ws : List Wire) → P ws → Q ws) → Sends m P → Sends m Q
  weaken imp sends = record {
    at = λ w l l' a h. let (ws, p, e) = sends.at w l l' a h in (ws, imp ws p, e);
  }

IsQuiet-return : {A : Type 0} (s : Bool) (a : A) → IsQuiet (stop_if_aborted s >> pure a)
IsQuiet-return false a = record { at = λ w l. refl }
IsQuiet-return true a = record { at = λ w l. ground arith }

-- The completion of some upload has been asked for.
abbrev IsCompletion : List Wire → Type 0
IsCompletion ws =
    (id : String) × (ws
      ≡ call post (append "/uploads/" (append id "/complete")) ∷ call get "/auth/csrf" ∷ [])

Sends-complete_upload : (s : Bool) (created : Json) → Sends (complete_upload s created) IsCompletion
unfolding complete_upload
Sends-complete_upload s created = quiet_then (IsQuiet-stop_if_aborted s) (
    quiet_then (IsQuiet-emit (staged verifying) (λ l. refl)) (
      quiet_bind (IsQuiet-text_property "document_id" created) λ id.
        bind_quiet
          (weaken (λ ws e. (id, e))
            (bind_quiet
              (Sends-csrf_request (append "/uploads/" (append id "/complete")) (bare post) refl
                refl)
              (λ r. IsQuiet-after_check r _)))
          (λ j. IsQuiet-return s j)))

-- The requests of a whole upload, newest first: for the token, to create, the file, for the token,
-- to complete.
abbrev pub IsWholeUpload : List Wire → Type 0
IsWholeUpload ws =
    (id : String) × (url : String) × (ws
      ≡ call post (append "/uploads/" (append id "/complete"))
        ∷ call get "/auth/csrf"
        ∷ file url
        ∷ call post "/uploads"
        ∷ call get "/auth/csrf"
        ∷ [])

pub recover-ne-ok :
    (created : Json) (e : Error) (w : World) (l : Log) {l' : Log} {j : Json}
    → recover created e w l ≡ (ok j, l')
    → ⊥
unfolding recover
recover-ne-ok created e w l h = ground arith

Sends-finish_upload :
    (f : File) (s : Bool) (created : Json) (w : World) (l l' : Log) (j : Json)
    → finish_upload f s created w l ≡ (ok j, l')
    → (a b : List Wire) × IsFile a × IsCompletion b × (requests l' ≡ b ++ (a ++ requests l))
unfolding finish_upload
Sends-finish_upload f s created w l l' j h =
    let (u, k, h1, h2) =
      >>=-eq-ok (λ _. complete_upload s created) w (transfer_file f s created) l h in
    let (a, p, e) = (Sends-transfer_file f s created).at w l k u h1 in
    let (b, q, e') = (Sends-complete_upload s created).at w k l' j h2 in
    (a, b, p, q, e' ∙ ap (λ r. b ++ r) e)

rejoin : {a b x y r r' : List Wire} → b ≡ y → a ≡ x → r ≡ r' → b ++ (a ++ r) ≡ y ++ (x ++ r')
rejoin p q e = cc

-- An upload that succeeds has sent exactly these requests, in this order: for a CSRF token and to
-- create the upload, the file to an address, for a token and to complete the upload. It has sent
-- no cancellation.
pub upload_document_order :
    (f : File) (s : Bool) (w : World) (l l' : Log) (result : Json)
    → upload_document f s w l ≡ (ok result, l')
    → (ws : List Wire) × IsWholeUpload ws × (requests l' ≡ ws ++ requests l)
unfolding upload_document
upload_document_order f s w l l' result h =
    let (created, l1, h1, k1) =
      >>=-eq-ok (λ c. catch (finish_upload f s c) (recover c)) w (create_upload f s) l h in
    let (ws, p, e) = (Sends-create_upload f s).at w l l1 created h1 in
    let done =
      catch-eq-ok (recover created) w (finish_upload f s created) l1
        (λ e k. recover-ne-ok created e w k) k1 in
    let (a, b, (url, pa), (id, pb), e') = Sends-finish_upload f s created w l1 l' result done in
    (_, (id, url, refl), e' ∙ rejoin pb pa (e ∙ ap (λ v. v ++ requests l) p))
