-- ===== src/Tests/Accounts.antt =====
-- Signing out, the sessions and the colour theme.
use cassist.Prelude.{◌≡◌, refl, inl, Option, false, none, some, List, [], ◌∷◌}
use cassist.Theme.{is_theme, Provider, IsApplied}
use cassist.Shell.{Account, signed_out, refused, start_logout, settle_logout}
use cassist.Shell.Logout.{IsSingle, Reachable, starts, steps, chooses, answers, Reachable-IsSingle}
use cassist.Settings.{
  Session, Sessions, Event, pressed_next, pressed_sign_out, succeeded, handle_all, opened,
}
use cassist.Settings.Laws.{IsSafe, handle_all-IsSafe}

abbrev signed_in : Account
signed_in = record { logout_error = none; is_logging_out = false; awaiting = 0; assigned = [] }

-- A failed attempt, and a second one that succeeds.
abbrev left : Account
left =
    settle_logout (signed_out "https://provider/logout")
      (start_logout (settle_logout (refused "offline") (start_logout (start_logout signed_in))))

left-Reachable : Reachable left
unfolding start_logout settle_logout
left-Reachable =
    steps
      (steps (steps (steps (steps starts chooses) chooses) (answers (refused "offline") 0 refl))
        chooses)
      (answers (signed_out "https://provider/logout") 0 refl)

Reachable-IsSingle_example : IsSingle left
Reachable-IsSingle_example = Reachable-IsSingle left left-Reachable

abbrev lit : Provider
lit = record { theme = "light"; system = "dark"; stored = some "light"; classes = "light" ∷ [] }

lit-IsApplied : IsApplied lit
unfolding is_theme
lit-IsApplied = record { theme = refl; system = inl refl; dark = refl; light = refl }

abbrev phone : Session
phone = record { id = "s2"; device_label = "Phone"; is_current = false }

abbrev listed : Option Sessions
listed = some (record { items = phone ∷ []; total = 6; total_pages = 2 })

-- The only session of the second page is signed out there.
abbrev session_events : List (Option Sessions × Event)
session_events =
    (listed, pressed_next)
    ∷ (listed, pressed_sign_out phone)
    ∷ (listed, pressed_sign_out phone)
    ∷ (listed, succeeded)
    ∷ []

handle_all-IsSafe_example : IsSafe (handle_all session_events opened)
handle_all-IsSafe_example = handle_all-IsSafe session_events

back_on_first_page : (handle_all session_events opened).page ≡ 1
unfolding handle_all
back_on_first_page = refl
