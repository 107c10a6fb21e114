-- ===== src/Shell.antt =====
-- The frame of the program: frontend/src/App.jsx and frontend/src/components/connection-status.jsx.
use cassist.Prelude.{
  ℕ, zero, suc, ◌-◌, ◌≡◌, String, Bool, true, false, not, ◌&&◌, Option, none, some, List, [], ◌∷◌,
  ◌==◌, has, if◌then◌else◌, truthy, eqb, take, codes,
}
use Prim.Native.String.{◌++◌ as append}
use cassist.Api.World.{Param, Pairs}
use cassist.Api.Reads.{login_url}
use cassist.Theme.{Provider, Event, set_theme, handle, resolved_theme}
pub mod Logout
pub mod Toggle

-- `logout()` and what it gave: the provider's address, or an error's message.
pub data Answer : Type 0 where
  signed_out : (logout_url : String) → Answer
  refused : (message : String) → Answer

-- `awaiting` counts the requests under way, and `assigned` has the addresses that the window was sent
-- to, the latest first.
pub record Account : Type 0 where
  pub logout_error : Option String
  pub is_logging_out : Bool
  pub awaiting : ℕ
  pub assigned : List String

-- `handleLogout` up to its `await`, by the menu's item, which is disabled meanwhile.
unfoldable pub start_logout : Account → Account
start_logout a =
    if a.is_logging_out
    then a
    else record a { logout_error = none; is_logging_out = true; awaiting = suc a.awaiting }

-- `handleLogout` after its `await`, and its `catch`.
unfoldable pub settle_logout : Answer → Account → Account
settle_logout (signed_out logout_url) a = record a {
  awaiting = a.awaiting - 1;
  assigned = logout_url ∷ a.assigned;
}
settle_logout (refused message) a = record a {
  awaiting = a.awaiting - 1;
  logout_error = some message;
  is_logging_out = false;
}

unfoldable pub logout_label : Account → String
logout_label a = if a.is_logging_out then "Signing out…" else "Sign out"

pub record User : Type 0 where
  pub display_name : Option String
  pub email : String

-- `auth.user.display_name || auth.user.email`
unfoldable pub display_name : User → String
display_name user = elim user.display_name [
  | none ↦ user.email
  | some name ↦ if name == "" then user.email else name
]

unfoldable pub push_unit : ℕ → List (List ℕ) → List (List ℕ)
push_unit c [] = (c ∷ []) ∷ []
push_unit c (w ∷ ws) = (c ∷ w) ∷ ws

-- `split(/\s+/)`, on UTF-16 units and by the test of a space
unfoldable pub split_spaces : (ℕ → Bool) → List ℕ → List (List ℕ)
unfolding push_unit
split_spaces space [] = [] ∷ []
split_spaces space (c ∷ s) =
    let rest = split_spaces space s in
    if space c
    then elim s [ [] ↦ [] ∷ rest | d ∷ t ↦ if space d then rest else [] ∷ rest ]
    else push_unit c rest

-- `map((part) => part[0]).join("")`, where an empty part has nothing
unfoldable pub first_units : List (List ℕ) → List ℕ
first_units [] = []
first_units ([] ∷ parts) = first_units parts
first_units ((c ∷ s) ∷ parts) = c ∷ first_units parts

-- `initials`, with JavaScript's spaces and its `toUpperCase`
unfoldable pub initials : (ℕ → Bool) → (List ℕ → List ℕ) → List ℕ → List ℕ
unfolding split_spaces first_units
initials space to_upper_case name = to_upper_case (take 2 (first_units (split_spaces space name)))

-- `toggleTheme`, on the theme's provider
unfoldable pub toggle_theme : String → Provider → Provider
toggle_theme default_theme p =
    handle default_theme (set_theme (if has "dark" p.classes then "light" else "dark")) p

-- `aria-pressed` of the button
unfoldable pub theme_pressed : Provider → Bool
theme_pressed p = resolved_theme p == "dark"

unfoldable pub starts_with_codes : List ℕ → List ℕ → Bool
starts_with_codes [] s = true
starts_with_codes (c ∷ p) [] = false
starts_with_codes (c ∷ p) (d ∷ s) = let rest = starts_with_codes p s in eqb c d && rest

unfoldable pub starts_with : String → String → Bool
unfolding starts_with_codes
starts_with s prefix = starts_with_codes (codes prefix) (codes s)

-- The document's title by the path, where the review page sets its own.
unfoldable pub route_title : String → Option String
unfolding starts_with
route_title pathname =
    if starts_with pathname "/results/" then none else some (append title " — CAssist")
  where
    title : String
    title =
        if pathname == "/upload"
        then "Upload"
        else if pathname == "/settings"
        then "Settings"
        else if starts_with pathname "/dev/compare/"
        then "Compare models"
        else "Documents"

pub data Screen : Type 0 where
  dashboard upload review settings compare : Screen
  redirect : (to : String) → Screen

-- `Routes`, by whether this is a development build
unfoldable pub routes : Bool → List (String × Screen)
routes dev =
    ("/", dashboard)
    ∷ ("/upload", upload)
    ∷ ("/documents/:documentId", redirect "/")
    ∷ ("/results/:resultId/review", review)
    ∷ ("/settings", settings)
    ∷ (if dev then ("/dev/compare/:documentId", compare) ∷ fallback else fallback)
  where
    fallback : List (String × Screen)
    fallback = ("*", redirect "/") ∷ []

-- What the query of the session gave. A visitor who is not signed in has no data.
pub record AuthQuery (A : Type 0) : Type 0 where
  pub is_pending : Bool
  pub data_or_null : Option A
  pub error : Option String
  pub is_fetching : Bool

pub data AppView (A : Type 0) : Type 0 where
  checking sign_in : AppView A
  signed_in : A → AppView A
  check_failed : (message retry_label : String) → (retry_disabled : Bool) → AppView A

unfoldable pub signed_out_view : {A : Type 0} → Option String → Bool → AppView A
signed_out_view none is_fetching = sign_in
signed_out_view (some message) is_fetching =
    check_failed message (if is_fetching then "Checking…" else "Retry") is_fetching

-- The branches of `App`.
unfoldable pub show_app : {A : Type 0} → AuthQuery A → AppView A
unfolding signed_out_view
show_app q = if q.is_pending then checking else elim q.data_or_null [
  | some auth ↦ signed_in auth
  | none ↦ signed_out_view q.error q.is_fetching
]

-- `handleLogin`: the page to come back to is the one that is shown
unfoldable pub login_address : (pathname search : String) → String × Pairs Param
login_address pathname search = login_url (append pathname search)

pub data Connection : Type 0 where
  went_online went_offline : Connection

-- `ConnectionStatus`, whose notice is shown while offline
unfoldable pub connected : Connection → Bool
connected went_online = true
connected went_offline = false

unfoldable pub offline_notice : Bool → Option String
offline_notice online = if online then none else some "You’re offline. Reconnect to continue."
