-- ===== src/Theme.antt =====
-- The colour theme: frontend/src/components/theme-provider.jsx.
use cassist.Prelude.{
  ◌≡◌, ◌⊎◌, inl, inr, refl, String, Bool, true, false, Option, none, some, List, [], ◌∷◌, All, ◌==◌,
  if◌then◌else◌, has, add, delete, has-add, has-delete, arith, Bool-cases,
}

-- `isTheme`, of what `localStorage` gives
unfoldable pub is_theme : Option String → Bool
is_theme none = false
is_theme (some value) = has value ("dark" ∷ "light" ∷ "system" ∷ [])

-- `getSystemTheme`, by whether the system prefers a dark scheme
abbrev pub system_theme : Bool → String
system_theme prefers_dark = if prefers_dark then "dark" else "light"

-- The provider's state, what is stored, and the classes of the root element.
pub record Provider : Type 0 where
  pub theme : String
  pub system : String
  pub stored : Option String
  pub classes : List String

unfoldable pub theme_or : String → Option String → String
unfolding is_theme
theme_or default_theme none = default_theme
theme_or default_theme (some value) = if is_theme (some value) then value else default_theme

-- `resolvedTheme`
abbrev pub resolved_theme : Provider → String
resolved_theme p = if p.theme == "system" then p.system else p.theme

-- `applyTheme`, on the classes of the root
unfoldable pub apply_theme : String → List String → List String
apply_theme next classes = add next (delete "dark" (delete "light" classes))

-- The effect that follows a change of the state.
abbrev pub applied : String → String → Option String → List String → Provider
applied theme system stored classes = record {
  theme = theme;
  system = system;
  stored = stored;
  classes = apply_theme (if theme == "system" then system else theme) classes;
}

-- The first render and its effect.
unfoldable pub mount : String → Bool → Option String → List String → Provider
unfolding theme_or apply_theme
mount default_theme prefers_dark stored classes =
    applied (theme_or default_theme stored) (system_theme prefers_dark) stored classes

-- `setTheme`, a change of the system's scheme, and a `storage` event of this key from another window.
pub data Event : Type 0 where
  set_theme : String → Event
  system_changed : (prefers_dark : Bool) → Event
  storage_changed : Option String → Event

-- The system's scheme is listened to only under the theme "system".
unfoldable pub handle : String → Event → Provider → Provider
unfolding theme_or apply_theme
handle default_theme (set_theme next) p = applied next p.system (some next) p.classes
handle default_theme (system_changed prefers_dark) p =
    if p.theme == "system"
    then applied p.theme (system_theme prefers_dark) p.stored p.classes
    else p
handle default_theme (storage_changed value) p =
    applied (theme_or default_theme value) p.system value p.classes

-- The theme is one of the three, the system's is dark or light, and the root has the class of the
-- resolved theme and not the other one.
pub record IsApplied (p : Provider) : Type 0 where
  pub theme : is_theme (some p.theme) ≡ true
  pub system : p.system ≡ "dark" ⊎ p.system ≡ "light"
  pub dark : has "dark" p.classes ≡ (resolved_theme p == "dark")
  pub light : has "light" p.classes ≡ (resolved_theme p == "light")

has-apply_theme_dark :
    (next : String) (classes : List String)
    → has "dark" (apply_theme next classes) ≡ (next == "dark")
unfolding apply_theme
has-apply_theme_dark next classes = ground (
  arith,
  has-add "dark" next (delete "dark" (delete "light" classes)),
  has-delete "dark" "dark" (delete "light" classes),
)

has-apply_theme_light :
    (next : String) (classes : List String)
    → has "light" (apply_theme next classes) ≡ (next == "light")
unfolding apply_theme
has-apply_theme_light next classes = ground (
  arith,
  has-add "light" next (delete "dark" (delete "light" classes)),
  has-delete "light" "dark" (delete "light" classes),
  has-delete "light" "light" classes,
)

either-IsApplied :
    (b : Bool) (p q : Provider) → IsApplied p → IsApplied q → IsApplied (if b then p else q)
either-IsApplied true p q x y = x
either-IsApplied false p q x y = y

applied-IsApplied :
    (theme system : String) (stored : Option String) (classes : List String)
    → is_theme (some theme) ≡ true
    → (system ≡ "dark" ⊎ system ≡ "light")
    → IsApplied (applied theme system stored classes)
applied-IsApplied theme system stored classes t s = record {
  theme = t;
  system = s;
  dark = has-apply_theme_dark (if theme == "system" then system else theme) classes;
  light = has-apply_theme_light (if theme == "system" then system else theme) classes;
}

is_theme-theme_or :
    (default_theme : String) (value : Option String)
    → is_theme (some default_theme) ≡ true
    → is_theme (some (theme_or default_theme value)) ≡ true
unfolding theme_or
is_theme-theme_or default_theme none h = h
is_theme-theme_or default_theme (some v) h = elim (Bool-cases (is_theme (some v))) [
  | inl e ↦ rw e e
  | inr e ↦ rw e h
]

system_theme-cases : (b : Bool) → system_theme b ≡ "dark" ⊎ system_theme b ≡ "light"
system_theme-cases true = inl refl
system_theme-cases false = inr refl

-- What an event may carry: `setTheme` is given one of the three themes.
abbrev pub IsGiven : Event → Type 0
IsGiven (set_theme next) = is_theme (some next) ≡ true
IsGiven _ = Unit

mount-IsApplied :
    (default_theme : String)
    → is_theme (some default_theme) ≡ true
    → (prefers_dark : Bool) (stored : Option String) (classes : List String)
    → IsApplied (mount default_theme prefers_dark stored classes)
unfolding mount
mount-IsApplied default_theme h prefers_dark stored classes =
    applied-IsApplied (theme_or default_theme stored) (system_theme prefers_dark) stored classes
      (is_theme-theme_or default_theme stored h) (system_theme-cases prefers_dark)

pub handle-IsApplied :
    (default_theme : String)
    → is_theme (some default_theme) ≡ true
    → (e : Event) (p : Provider) → IsGiven e
    → IsApplied p
    → IsApplied (handle default_theme e p)
unfolding handle
handle-IsApplied default_theme h (set_theme next) p given before =
    applied-IsApplied next p.system (some next) p.classes given before.system
handle-IsApplied default_theme h (system_changed b) p given before =
    either-IsApplied (p.theme == "system") (applied p.theme (system_theme b) p.stored p.classes) p
      (applied-IsApplied p.theme (system_theme b) p.stored p.classes before.theme
        (system_theme-cases b))
      before
handle-IsApplied default_theme h (storage_changed v) p given before =
    applied-IsApplied (theme_or default_theme v) p.system v p.classes
      (is_theme-theme_or default_theme v h) before.system

unfoldable pub handle_all : String → List Event → Provider → Provider
handle_all default_theme [] p = p
handle_all default_theme (e ∷ es) p = handle_all default_theme es (handle default_theme e p)

handle_each-IsApplied :
    (default_theme : String) (es : List Event) (p : Provider)
    → is_theme (some default_theme) ≡ true
    → All IsGiven es
    → IsApplied p
    → IsApplied (handle_all default_theme es p)
unfolding handle_all
handle_each-IsApplied default_theme [] p h given before = before
handle_each-IsApplied default_theme (e ∷ es) p h given before =
    handle_each-IsApplied default_theme es (handle default_theme e p) h given.1
      (handle-IsApplied default_theme h e p given.0 before)

-- The default theme and every theme given to `setTheme` are among "dark", "light" and "system". Then,
-- from any storage and any classes of the root, after the first render and any changes of the theme, of
-- the system and of the storage, even to texts that are no themes, the root has the class of the
-- resolved theme and not the other of "dark" and "light".
pub handle_all-IsApplied :
    (default_theme : String) (prefers_dark : Bool) (stored : Option String) (classes : List String)
    (es : List Event)
    → is_theme (some default_theme) ≡ true
    → All IsGiven es
    → IsApplied (handle_all default_theme es (mount default_theme prefers_dark stored classes))
handle_all-IsApplied default_theme prefers_dark stored classes es h given =
    handle_each-IsApplied default_theme es (mount default_theme prefers_dark stored classes) h given
      (mount-IsApplied default_theme h prefers_dark stored classes)
