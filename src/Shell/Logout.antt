-- ===== src/Shell/Logout.antt =====
-- Signing out: one request at a time, and the window is sent away at most once.
use cassist.Prelude.{
  ℕ, suc, ◌≡◌, refl, String, Bool, true, false, none, [], ◌∷◌, arith, if◌then◌else◌,
}
use cassist.Shell.{Account, Answer, signed_out, refused, start_logout, settle_logout}

-- The menu's item is chosen, or a request is answered, which is under way then.
pub data Step : Account → Account → Type 0 where
  chooses : {a : Account} → Step a (start_logout a)
  answers : {a : Account} (r : Answer) (n : ℕ) → a.awaiting ≡ suc n → Step a (settle_logout r a)

pub data Reachable : Account → Type 0 where
  starts :
      Reachable
        (record { logout_error = none; is_logging_out = false; awaiting = 0; assigned = [] })
  steps : {a b : Account} → Reachable a → Step a b → Reachable b

-- Signing out is not asked for, is asked for once, or has succeeded.
pub data IsSingle (a : Account) : Type 0 where
  idle : a.is_logging_out ≡ false → a.awaiting ≡ 0 → a.assigned ≡ [] → IsSingle a
  asked :
      a.is_logging_out ≡ true
      → a.logout_error ≡ none
      → a.awaiting ≡ 1
      → a.assigned ≡ []
      → IsSingle a
  left_for :
      (url : String)
      → a.is_logging_out ≡ true
      → a.logout_error ≡ none
      → a.awaiting ≡ 0
      → a.assigned ≡ url ∷ []
      → IsSingle a

kept-IsSingle : (b : Bool) (a c : Account) → b ≡ true → IsSingle a → IsSingle (if b then a else c)
kept-IsSingle true a c on h = h
kept-IsSingle false a c on h = ground arith

start_logout-IsSingle : (a : Account) → IsSingle a → IsSingle (start_logout a)
unfolding start_logout
start_logout-IsSingle a (idle off none_awaited here) =
    rw off (asked refl refl (omega (arith, none_awaited)) here)
start_logout-IsSingle a (asked on e one here) =
    kept-IsSingle a.is_logging_out a _ on (asked on e one here)
start_logout-IsSingle a (left_for url on e none_awaited there) =
    kept-IsSingle a.is_logging_out a _ on (left_for url on e none_awaited there)

settle_logout-IsSingle :
    (r : Answer) (a : Account) (n : ℕ)
    → a.awaiting ≡ suc n
    → IsSingle a
    → IsSingle (settle_logout r a)
unfolding settle_logout
settle_logout-IsSingle r a n some_awaited (idle off none_awaited here) = absurd (omega arith)
settle_logout-IsSingle (signed_out url) a n some_awaited (asked on e one here) =
    left_for url on e (omega arith) (rw here refl)
settle_logout-IsSingle (refused message) a n some_awaited (asked on e one here) =
    idle refl (omega arith) here
settle_logout-IsSingle r a n some_awaited (left_for url on e none_awaited there) =
    absurd (omega arith)

-- After any choices of the menu's item and answers of the requests under way, at most one request is
-- under way and the window was sent to at most one address, and not while one is; the item can be
-- chosen again just if neither holds.
pub Reachable-IsSingle : (a : Account) → Reachable a → IsSingle a
Reachable-IsSingle a starts = idle refl refl refl
Reachable-IsSingle a (steps {a = before} reached chooses) =
    start_logout-IsSingle before (Reachable-IsSingle before reached)
Reachable-IsSingle a (steps {a = before} reached (answers r n some_awaited)) =
    settle_logout-IsSingle r before n some_awaited (Reachable-IsSingle before reached)
