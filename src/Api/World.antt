-- ===== src/Api/World.antt =====
-- What the client sees and does: requests, uploads and callbacks are events of a log, and the
-- server, the network, the timers and the user answer by functions of that log. So an answer may
-- depend on all that went before, and a signal may be aborted between any two events.
use cassist.Prelude.{ℕ, String, Bool, true, false, Option, none, List, ◌∷◌}
use cassist.Api.Json.{Json}

pub data Method : Type 0 where
  get post patch delete : Method

-- An `Error`: its name, its message, and the `status` that `responseError` adds.
pub record Error : Type 0 where
  pub name : String
  pub message : String
  pub status : Option ℕ

pub data Result {ℓ} (A : Type ℓ) : Type ℓ where
  ok : A → Result A
  err : Error → Result A

-- A value in a query string: a text, or a number as `String` writes it.
pub data Param : Type 0 where
  text : String → Param
  number : ℕ → Param

abbrev pub Pairs : Type 0 → Type 0
Pairs V = List (String × V)

-- One call of `fetch`, `API_BASE_URL` left off. `signalled` says that a caller's signal is linked.
pub record Call : Type 0 where
  pub method : Method
  pub path : String
  pub query : Pairs Param
  pub headers : Pairs String
  pub body : Option Json
  pub credentials : String
  pub timeout_ms : ℕ
  pub signalled : Bool

-- A response: `json` and `blob` are what reading the body gives.
pub record Response : Type 0 where
  pub status : ℕ
  pub json : Result Json
  pub blob : Result (Unit {0})

-- How `fetch` settles: a rejection comes with `timedOut` and `navigator.onLine` at that moment.
pub data Reply : Type 0 where
  response : Response → Reply
  rejected : Error → (timed_out : Bool) → (online : Bool) → Reply

-- The request of `uploadToPrivateStorage`; `size` is the size of the file that is sent.
pub record Transfer : Type 0 where
  pub method : String
  pub url : String
  pub headers : Pairs String
  pub size : ℕ

-- A progress event of an upload.
pub record Progress : Type 0 where
  pub computable : Bool
  pub loaded : ℕ
  pub total : ℕ

-- How an XMLHttpRequest ends: by `load` with a status, by `error`, or by `abort`.
pub data TransferEnd : Type 0 where
  loaded : ℕ → TransferEnd
  failed : TransferEnd
  aborted : TransferEnd

pub data Stage : Type 0 where
  creating uploading verifying : Stage

pub data Event : Type 0 where
  called : Call → Event
  transferred : Transfer → Event
  checked_signal : Event
  staged : Stage → Event
  progressed : ℕ → Event
  uuid_drawn : Event
  object_url_created : Event
  link_clicked : String → Event
  object_url_revoked : Event

-- The newest event stands first.
abbrev pub Log : Type 0
Log = List Event

-- What is not the client's: the server, the network, the timers, the user, the random numbers.
pub record World : Type 0 where
  pub reply : Log → Call → Reply
  pub signal_aborted : Log → Bool
  pub transfer_progress : Log → Transfer → List Progress
  pub transfer_end : Log → Transfer → TransferEnd
  pub random_uuid : Log → String
  pub online : Log → Bool
  pub click_fails : Log → Option Error
  pub string_of : Option Json → String

-- An async function: what it resolves to or rejects with, and the log when it settles.
abbrev pub Client : Type 0 → Type 0
Client A = World → Log → Result A × Log

module _ {A : Type 0} where
  abbrev pub pure : A → Client A
  pure a w l = (ok a, l)

  abbrev pub throw : Error → Client A
  throw e w l = (err e, l)

  abbrev pub lift : Result A → Client A
  lift r w l = (r, l)

infixl 5 ◌>>=◌ ◌>>◌
abbrev pub ◌>>=◌ : {A B : Type 0} → Client A → (A → Client B) → Client B
◌>>=◌ m f w l = let (r, l') = m w l in elim r [ ok a ↦ f a w l' | err e ↦ (err e, l') ]

abbrev pub ◌>>◌ : {A B : Type 0} → Client A → Client B → Client B
m >> k = m >>= λ _. k

-- `try { m } catch (error) { h }`
abbrev pub catch : {A : Type 0} → Client A → (Error → Client A) → Client A
catch m h w l = let (r, l') = m w l in elim r [ ok a ↦ (ok a, l') | err e ↦ h e w l' ]

abbrev pub emit : Event → Client (Unit {0})
emit e w l = (ok tt, e ∷ l)

-- `signal?.aborted`; a caller without a signal is never aborted
abbrev pub is_aborted : Bool → Client Bool
is_aborted false w l = (ok false, l)
is_aborted true w l = (ok (w.signal_aborted l), checked_signal ∷ l)

abbrev pub random_uuid : Client String
random_uuid w l = (ok (w.random_uuid l), uuid_drawn ∷ l)

abbrev pub plain_error : String → Error
plain_error m = record { name = "Error"; message = m; status = none }

-- `new DOMException(message, "AbortError")`
abbrev pub abort_error : String → Error
abort_error m = record { name = "AbortError"; message = m; status = none }
