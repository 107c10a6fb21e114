-- ===== src/Api/Upload/Tame.antt =====
-- Actions that fail with no AbortError of their own: what the browser promises, and how it is kept
-- from one step to the next.
use cassist.Prelude.{◌≡◌, ◌≢◌, inl, inr, String, Bool, false, arith, Bool-cases, eq_iff}
use cassist.Api.Json.{Json, null}
use cassist.Api.World.{
  Error, Result, ok, err, Response, response, rejected, Client, World, Log, Call, ◌>>=◌, ◌>>◌, emit,
  Event,
}
use cassist.Api.Request.{Options, is_ok, settle, call_of, api_request, ensure_ok, text_property}

abbrev pub NotAbort : Error → Type 0
NotAbort e = e.name ≢ "AbortError"

-- What the browser promises of a `fetch` that is given no signal of a caller: unless the timer has
-- fired, neither it nor the reading of its body fails with an AbortError.
pub record NoStrayAborts (w : World) : Type 0 where
  pub reply :
      (l : Log) (c : Call) (e : Error) (online : Bool)
      → c.signalled ≡ false
      → w.reply l c ≡ rejected e false online
      → NotAbort e
  pub body :
      (l : Log) (c : Call) (r : Response) (e : Error)
      → c.signalled ≡ false
      → w.reply l c ≡ response r
      → r.json ≡ err e
      → NotAbort e

pub Error-ne-AbortError : ◌≢◌ {A = String} "Error" "AbortError"
Error-ne-AbortError = ground (arith, eq_iff "Error" "AbortError")

pub TypeError-ne-AbortError : ◌≢◌ {A = String} "TypeError" "AbortError"
TypeError-ne-AbortError = ground (arith, eq_iff "TypeError" "AbortError")

abbrev pub IsTame : {A : Type 0} → (A → Type 0) → Result A → Type 0
IsTame P (ok a) = P a
IsTame P (err e) = NotAbort e

-- `m` fails with no AbortError, and what it gives satisfies `P`.
pub record Gives {A : Type 0} (w : World) (m : Client A) (P : A → Type 0) : Type 0 where
  pub at : (l : Log) → IsTame P (m w l).0

abbrev pub Any : {A : Type 0} → A → Type 0
Any _ = Unit

abbrev pub HasTameBody : Response → Type 0
HasTameBody r = IsTame Any r.json

module _ {A B : Type 0} {w : World} {P : A → Type 0} {Q : B → Type 0} where
  pub Gives-bind :
      {m : Client A} {f : A → Client B}
      → Gives w m P
      → ((a : A) → P a → Gives w (f a) Q)
      → Gives w (m >>= f) Q
  Gives-bind {m} {f} first later = record { at = λ l. go (m w l) (first.at l) }
    where
      go :
          (p : Result A × Log)
          → IsTame P p.0
          → IsTame Q
              (elim p.0 as (λ _. Result B × Log) [ ok a ↦ f a w p.1 | err e ↦ (err e, p.1) ]).0
      go (ok a, l) h = (later a h).at l
      go (err e, l) h = h

pub api_request_unsignalled :
    (path : String) (o : Options) (w : World) (l : Log)
    → o.signalled ≡ false
    → (api_request path o w l).0 ≡ settle (w.reply l (call_of path o))
unfolding api_request
api_request_unsignalled path o w l s = ground arith

pub Gives-ensure_ok : (w : World) (r : Response) (f : String) → Gives w (ensure_ok r f) Any
unfolding ensure_ok
Gives-ensure_ok w r f = record {
  at = λ l. elim (Bool-cases (is_ok r)) [ inl e ↦ rw e tt | inr e ↦ rw e Error-ne-AbortError ];
}

pub Gives-text_property : (w : World) (k : String) (j : Json) → Gives w (text_property k j) Any
unfolding text_property
Gives-text_property w k null = record { at = λ l. TypeError-ne-AbortError }
Gives-text_property w k _ = record { at = λ l. tt }

module _ {A B : Type 0} {w : World} {P : A → Type 0} {Q : B → Type 0} where
  pub Gives-then : {m : Client A} {k : Client B} → Gives w m P → Gives w k Q → Gives w (m >> k) Q
  Gives-then {m} {k} first later = Gives-bind {m = m} {f = λ _. k} first (λ _ _. later)

pub Gives-emit : (w : World) (e : Event) → Gives w (emit e) Any
Gives-emit w e = record { at = λ l. tt }
