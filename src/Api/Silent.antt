-- ===== src/Api/Silent.antt =====
-- Continuations that add nothing to the log: reading a body, checking a status.
use cassist.Prelude.{◌≡◌, refl}
use cassist.Api.World.{Client, World, Log, Result, ok, err, ◌>>=◌}

abbrev pub IsSilent : {A B : Type 0} → (A → Client B) → Type 0
IsSilent {A} k = (a : A) (w : World) (l : Log) → (k a w l).1 ≡ l

module _ {A B : Type 0} (k : A → Client B) (w : World) (silent : IsSilent k) where
  after :
      (p : Result A × Log)
      → (elim p.0 as (λ _. Result B × Log) [ ok a ↦ k a w p.1 | err e ↦ (err e, p.1) ]).1 ≡ p.1
  after (ok a, l) = silent a w l
  after (err e, l) = refl

  pub log-bind_silent : (m : Client A) (l : Log) → ((m >>= k) w l).1 ≡ (m w l).1
  log-bind_silent m l = after (m w l)
