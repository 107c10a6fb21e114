-- ===== src/Settings.antt =====
-- The settings page: frontend/src/pages/settings-page.jsx.
use cassist.Prelude.{
  ℕ, suc, ◌+◌, ◌-◌, ◌≤◌, ◌≡◌, String, Bool, true, false, not, ◌&&◌, Option, none, some, List, [],
  ◌∷◌, ltb, eqb, length, if◌then◌else◌, Message, words, count,
}
pub mod Laws

pub record Session : Type 0 where
  pub id : String
  pub device_label : String
  pub is_current : Bool

-- A page of the sessions, as the server lists them.
pub record Sessions : Type 0 where
  pub items : List Session
  pub total : ℕ
  pub total_pages : ℕ

-- `revoking` is the session of the request under way; `sent`, `toasts` and the number of times the
-- sessions were invalidated are what the page did, the latest first.
pub record Settings : Type 0 where
  pub page : ℕ
  pub revoking : Option Session
  pub sent : List Session
  pub toasts : List String
  pub invalidations : ℕ

-- `sessionsQuery.data?.items.length === 1`
unfoldable pub is_last_item : Option Sessions → Bool
is_last_item none = false
is_last_item (some sessions) = eqb (length sessions.items) 1

unfoldable pub is_pending : Option Session → Bool
is_pending none = false
is_pending (some session) = true

-- The button of a session: none at the current one, and disabled while a request is under way.
unfoldable pub can_revoke : Settings → Session → Bool
unfolding is_pending
can_revoke s session = not session.is_current && not (is_pending s.revoking)

unfoldable pub revoke : Session → Settings → Settings
unfolding can_revoke
revoke session s =
    if can_revoke s session
    then record s { revoking = some session; sent = session ∷ s.sent }
    else s

-- `onSuccess`, with the sessions shown then
unfoldable pub revoked : Option Sessions → Settings → Settings
unfolding is_last_item
revoked sessions s = record s {
  page = if ltb 1 s.page && is_last_item sessions then s.page - 1 else s.page;
  revoking = none;
  toasts = "Device signed out." ∷ s.toasts;
  invalidations = suc s.invalidations;
}

-- `onError`
unfoldable pub revoke_failed : String → Settings → Settings
revoke_failed message s = record s { revoking = none; toasts = message ∷ s.toasts }

-- Whether the links of the pages are shown, and those to the page before and after.
unfoldable pub is_paged : Option Sessions → Bool
is_paged none = false
is_paged (some sessions) = ltb 1 sessions.total_pages

unfoldable pub shows_previous : Option Sessions → Settings → Bool
unfolding is_paged
shows_previous sessions s = is_paged sessions && ltb 1 s.page

unfoldable pub is_before_last : Option Sessions → ℕ → Bool
is_before_last none page = false
is_before_last (some sessions) page = ltb page sessions.total_pages

unfoldable pub shows_next : Option Sessions → Settings → Bool
unfolding is_paged is_before_last
shows_next sessions s = is_paged sessions && is_before_last sessions s.page

pub data Event : Type 0 where
  pressed_previous pressed_next : Event
  pressed_sign_out : Session → Event
  succeeded : Event
  failed : (message : String) → Event

-- What happens while `sessions` is shown. A link that is not shown does nothing, and an answer
-- comes only to a request under way.
unfoldable pub handle : Option Sessions → Event → Settings → Settings
unfolding shows_previous shows_next revoke revoked revoke_failed is_pending
handle sessions pressed_previous s =
    if shows_previous sessions s then record s { page = s.page - 1 } else s
handle sessions pressed_next s = if shows_next sessions s then record s { page = s.page + 1 } else s
handle sessions (pressed_sign_out session) s = revoke session s
handle sessions succeeded s = if is_pending s.revoking then revoked sessions s else s
handle sessions (failed message) s = if is_pending s.revoking then revoke_failed message s else s

unfoldable pub handle_all : List (Option Sessions × Event) → Settings → Settings
unfolding handle
handle_all [] s = s
handle_all ((sessions, e) ∷ es) s = handle_all es (handle sessions e s)

abbrev pub opened : Settings
opened = record { page = 1; revoking = none; sent = []; toasts = []; invalidations = 0 }

pub data SessionsView : Type 0 where
  loading_sessions : SessionsView
  sessions_error : (message : String) → SessionsView
  sessions_list : List Session → SessionsView

-- The branches below "Active sessions".
unfoldable pub show_sessions : Bool → Option String → Sessions → SessionsView
show_sessions true error sessions = loading_sessions
show_sessions false (some message) sessions = sessions_error message
show_sessions false none sessions = sessions_list sessions.items

-- The number of sessions beside the heading.
unfoldable pub sessions_badge : Option Sessions → Option Message
sessions_badge none = none
sessions_badge (some sessions) = some (count sessions.total ∷ words " active" ∷ [])
