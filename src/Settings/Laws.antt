-- ===== src/Settings/Laws.antt =====
-- The pages of the sessions, and the sessions that the page signs out.
use cassist.Prelude.{
  ℕ, suc, ◌+◌, ◌-◌, ◌≤◌, ◌≡◌, refl, Bool, true, false, not, ◌&&◌, Option, some, List, [], ◌∷◌, All,
  ltb, length, if◌then◌else◌, arith,
}
use cassist.Settings.{
  Session, Sessions, Settings, is_last_item, is_pending, can_revoke, revoke, revoked, revoke_failed,
  shows_previous, shows_next, Event, pressed_previous, pressed_next, pressed_sign_out, succeeded,
  failed, handle, handle_all, opened,
}

-- The page is at least the first, no request was for the current session, and each request but the
-- one under way was answered.
pub record IsSafe (s : Settings) : Type 0 where
  pub first : 1 ≤ s.page
  pub others : All (λ session. session.is_current ≡ false) s.sent
  pub answered : length s.sent ≡ length s.toasts + (if is_pending s.revoking then 1 else 0)

sent-IsSafe :
    (session : Session) (s : Settings)
    → session.is_current ≡ false
    → is_pending s.revoking ≡ false
    → IsSafe s
    → IsSafe (record s { revoking = some session; sent = session ∷ s.sent })
unfolding is_pending
sent-IsSafe session s c p h = record {
  first = h.first;
  others = (c, h.others);
  answered = ground (arith, h.answered);
}

revoke-IsSafe : (session : Session) (s : Settings) → IsSafe s → IsSafe (revoke session s)
unfolding revoke can_revoke
revoke-IsSafe session s h = go session.is_current (is_pending s.revoking) refl refl
  where
    go :
        (current pending : Bool)
        → session.is_current ≡ current
        → is_pending s.revoking ≡ pending
        → IsSafe (
            if not current && not pending
            then record s { revoking = some session; sent = session ∷ s.sent }
            else s)
    go true pending c p = h
    go false true c p = h
    go false false c p = sent-IsSafe session s c p h

-- An answer to the request under way, which is told by a toast.
answered_lem :
    (s : Settings) → IsSafe s → is_pending s.revoking ≡ true → length s.sent ≡ suc (length s.toasts)
answered_lem s h p = ground (arith, h.answered)

turned_lem :
    (back : Bool) (page : ℕ) → 1 ≤ page → 1 ≤ (if ltb 1 page && back then page - 1 else page)
turned_lem back page h = ground arith

either-IsSafe :
    (b : Bool) (s t : Settings) → (b ≡ true → IsSafe s) → IsSafe t → IsSafe (if b then s else t)
either-IsSafe true s t hs ht = hs refl
either-IsSafe false s t hs ht = ht

handle-IsSafe :
    (sessions : Option Sessions) (e : Event) (s : Settings)
    → IsSafe s
    → IsSafe (handle sessions e s)
unfolding handle revoked revoke_failed is_pending shows_previous
handle-IsSafe sessions pressed_previous s h =
    either-IsSafe (shows_previous sessions s) (record s { page = s.page - 1 }) s
      (λ shown. record {
        first = ground (arith, h.first);
        others = h.others;
        answered = h.answered;
      })
      h
handle-IsSafe sessions pressed_next s h =
    either-IsSafe (shows_next sessions s) (record s { page = s.page + 1 }) s
      (λ shown. record { first = omega arith; others = h.others; answered = h.answered }) h
handle-IsSafe sessions (pressed_sign_out session) s h = revoke-IsSafe session s h
handle-IsSafe sessions succeeded s h =
    either-IsSafe (is_pending s.revoking) (revoked sessions s) s
      (λ p. record {
        first = turned_lem (is_last_item sessions) s.page h.first;
        others = h.others;
        answered = omega (arith, answered_lem s h p);
      })
      h
handle-IsSafe sessions (failed message) s h =
    either-IsSafe (is_pending s.revoking) (revoke_failed message s) s
      (λ p. record {
        first = h.first;
        others = h.others;
        answered = omega (arith, answered_lem s h p);
      })
      h

handle_each-IsSafe :
    (es : List (Option Sessions × Event)) (s : Settings) → IsSafe s → IsSafe (handle_all es s)
unfolding handle_all
handle_each-IsSafe [] s h = h
handle_each-IsSafe ((sessions, e) ∷ es) s h =
    handle_each-IsSafe es (handle sessions e s) (handle-IsSafe sessions e s h)

-- After any clicks and answers, whatever sessions were shown, the page is at least the first, the page
-- has asked to sign out no current session, and it has told of each of its requests but the one
-- under way.
pub handle_all-IsSafe : (es : List (Option Sessions × Event)) → IsSafe (handle_all es opened)
unfolding is_pending
handle_all-IsSafe es =
    handle_each-IsSafe es opened (record { first = omega arith; others = tt; answered = refl })
