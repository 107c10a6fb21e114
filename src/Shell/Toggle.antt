-- ===== src/Shell/Toggle.antt =====
-- The button of the colour theme.
use cassist.Prelude.{
  ◌≡◌, refl, String, Bool, true, false, not, some, has, if◌then◌else◌, true-ne-false, sym,
}
use cassist.Theme.{
  Provider, IsApplied, is_theme, handle, handle-IsApplied, set_theme, resolved_theme,
}
use cassist.Shell.{toggle_theme, theme_pressed}

press_lem :
    (default_theme : String) (p : Provider)
    → is_theme (some default_theme) ≡ true
    → IsApplied p
    → (dark pressed : Bool) → dark ≡ pressed
    → let q = handle default_theme (set_theme (if dark then "light" else "dark")) p in
      (resolved_theme q ≡ (if pressed then "light" else "dark"))
      × (theme_pressed q ≡ not pressed)
      × IsApplied q
unfolding theme_pressed handle
press_lem default_theme p known h true true e =
    (refl, refl, handle-IsApplied default_theme known (set_theme "light") p refl h)
press_lem default_theme p known h true false e = absurd (true-ne-false e)
press_lem default_theme p known h false true e = absurd (true-ne-false (sym e))
press_lem default_theme p known h false false e =
    (refl, refl, handle-IsApplied default_theme known (set_theme "dark") p refl h)

pressed_lem : (p : Provider) → IsApplied p → has "dark" p.classes ≡ theme_pressed p
unfolding theme_pressed
pressed_lem p h = h.dark

-- The default theme is one of the three, and the root has the class of the resolved theme and not the
-- other of "dark" and "light". Then a press of the button resolves the theme to the one that was not
-- shown, shows the button as pressed just for "dark", and leaves the root with that theme's class.
pub toggle_theme-pressed :
    (default_theme : String) (p : Provider)
    → is_theme (some default_theme) ≡ true
    → IsApplied p
    → let q = toggle_theme default_theme p in
      (resolved_theme q ≡ (if theme_pressed p then "light" else "dark"))
      × (theme_pressed q ≡ not (theme_pressed p))
      × IsApplied q
unfolding toggle_theme
toggle_theme-pressed default_theme p known h =
    press_lem default_theme p known h (has "dark" p.classes) (theme_pressed p) (pressed_lem p h)
