-- ===== src/Api/Inversion.antt =====
-- What a successful step tells of its parts, and the requests that a log holds.
use mathlib.Core.Path.{ap₂}
use cassist.Prelude.{◌≡◌, refl, ap, sym, ◌∙◌, ◌⊎◌, inl, inr, List, [], ◌∷◌, String, false, none}
use cassist.Api.World.{
  Method, get, Error, Result, ok, err, Response, Client, World, Log, called, transferred, ◌>>=◌,
  catch,
}
use cassist.Api.Request.{Options, csrf_request, get_csrf_token}
use cassist.Api.Request.Laws.{csrf_request_no_token, log-csrf_request_token}

pub Result-cases :
    {A : Type 0} (r : Result A) → ((a : A) × (r ≡ ok a)) ⊎ ((e : Error) × (r ≡ err e))
Result-cases (ok a) = inl (a, refl)
Result-cases (err e) = inr (e, refl)

pub ok-ne-err : {A : Type 0} {a : A} {e : Error} → ok a ≡ err e → ⊥
ok-ne-err h = cc

pub err_injective : {A : Type 0} {x y : Error} → ◌≡◌ {A = Result A} (err x) (err y) → x ≡ y
err_injective h = cc

module _ {A B : Type 0} (f : A → Client B) (w : World) {b : B} {l' : Log} where
  split_ok :
      (p : Result A × Log)
      → ◌≡◌ {A = Result B × Log}
          (elim p.0 as (λ _. Result B × Log) [ ok a ↦ f a w p.1 | err e ↦ (err e, p.1) ])
          (ok b, l')
      → (a : A) × (m : Log) × (p ≡ (ok a, m)) × (f a w m ≡ (ok b, l'))
  split_ok (ok a, m) h = (a, m, refl, h)
  split_ok (err e, m) h = absurd (ok-ne-err (sym (ap (λ p. p.0) h)))

  pub >>=-eq-ok :
      (m : Client A) (l : Log)
      → (m >>= f) w l ≡ (ok b, l')
      → (a : A) × (k : Log) × (m w l ≡ (ok a, k)) × (f a w k ≡ (ok b, l'))
  >>=-eq-ok m l h = split_ok (m w l) h

module _ {A : Type 0} (h : Error → Client A) (w : World) {b : A} {l' : Log} where
  uncaught :
      (p : Result A × Log)
      → ((e : Error) (l : Log) → h e w l ≡ (ok b, l') → ⊥)
      → ◌≡◌ {A = Result A × Log}
          (elim p.0 as (λ _. Result A × Log) [ ok a ↦ (ok a, p.1) | err e ↦ h e w p.1 ])
          (ok b, l')
      → p ≡ (ok b, l')
  uncaught (ok a, m) never e = e
  uncaught (err e, m) never same = absurd (never e m same)

  -- A handler that never succeeds was not run if the whole succeeded.
  pub catch-eq-ok :
      (m : Client A) (l : Log)
      → ((e : Error) (k : Log) → h e w k ≡ (ok b, l') → ⊥)
      → catch m h w l ≡ (ok b, l')
      → m w l ≡ (ok b, l')
  catch-eq-ok m l never e = uncaught (m w l) never e

module _ {A B : Type 0} (f : A → Client B) (w : World) {e : Error} {l' : Log} where
  split_err :
      (p : Result A × Log)
      → ◌≡◌ {A = Result B × Log}
          (elim p.0 as (λ _. Result B × Log) [ ok a ↦ f a w p.1 | err x ↦ (err x, p.1) ])
          (err e, l')
      → (p ≡ (err e, l')) ⊎ ((a : A) × (m : Log) × (p ≡ (ok a, m)) × (f a w m ≡ (err e, l')))
  split_err (ok a, m) h = inr (a, m, refl, h)
  split_err (err x, m) h = inl (
      ap₂ (λ (r : Error) (n : Log). (err r, n)) (err_injective (ap (λ p. p.0) h)) (ap (λ p. p.1) h))

  -- A failed sequence failed in its first part, or in its second after the first succeeded.
  pub >>=-eq-err :
      (m : Client A) (l : Log)
      → (m >>= f) w l ≡ (err e, l')
      → (m w l ≡ (err e, l'))
        ⊎ ((a : A) × (k : Log) × (m w l ≡ (ok a, k)) × (f a w k ≡ (err e, l')))
  >>=-eq-err m l h = split_err (m w l) h

module _ {A : Type 0} (h : Error → Client A) (w : World) {e : Error} {l' : Log} where
  split_catch :
      (p : Result A × Log)
      → ◌≡◌ {A = Result A × Log}
          (elim p.0 as (λ _. Result A × Log) [ ok a ↦ (ok a, p.1) | err x ↦ h x w p.1 ])
          (err e, l')
      → (x : Error) × (k : Log) × (p ≡ (err x, k)) × (h x w k ≡ (err e, l'))
  split_catch (ok a, m) same = absurd (ok-ne-err (ap (λ p. p.0) same))
  split_catch (err x, m) same = (x, m, refl, same)

  -- What fails although it is caught failed in the handler.
  pub catch-eq-err :
      (m : Client A) (l : Log)
      → catch m h w l ≡ (err e, l')
      → (x : Error) × (k : Log) × (m w l ≡ (err x, k)) × (h x w k ≡ (err e, l'))
  catch-eq-err m l same = split_catch (m w l) same

-- What reached a server: a call with its method and path, or a file with its address.
pub data Wire : Type 0 where
  call : Method → String → Wire
  file : String → Wire

abbrev pub requests : Log → List Wire
requests [] = []
requests (called c ∷ l) = call c.method c.path ∷ requests l
requests (transferred t ∷ l) = file t.url ∷ requests l
requests (_ ∷ l) = requests l

pub requests-csrf_request :
    (path : String) (o : Options) (w : World) (l l' : Log) (r : Response)
    → o.signalled ≡ false
    → o.idempotency_key ≡ none
    → csrf_request path o w l ≡ (ok r, l')
    → requests l' ≡ call o.method path ∷ call get "/auth/csrf" ∷ requests l
requests-csrf_request path o w l l' r s k h = elim (Result-cases (get_csrf_token false w l).0) [
  | inl (t, given) ↦
      ap requests (sym (ap (λ p. p.1) h) ∙ log-csrf_request_token path o w l t s k given)
  | inr (e, missing) ↦ absurd (
      ok-ne-err
        (sym (ap (λ p. p.0) h) ∙ ap (λ p. p.0) (csrf_request_no_token path o w l e s missing)))
]
