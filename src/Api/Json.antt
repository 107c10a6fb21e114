-- ===== src/Api/Json.antt =====
-- Parsed JSON, as `response.json()` yields it and `JSON.stringify` takes it. Keys of an object are
-- distinct after parsing, and a missing property is `none`.
use cassist.Prelude.{ℕ, String, Bool, Option, none, some, List, [], ◌∷◌, ◌==◌, if◌then◌else◌}

mutual
  pub data Json : Type 0 where
    null : Json
    bool : Bool → Json
    num : ℕ → Json
    str : String → Json
    arr : Items → Json
    obj : Fields → Json

  pub data Items : Type 0 where
    nil : Items
    cons : Json → Items → Items

  pub data Fields : Type 0 where
    end : Fields
    field : String → Json → Fields → Fields

abbrev pub get_field : String → Fields → Option Json
get_field k end = none
get_field k (field j v fs) = if j == k then some v else get_field k fs

-- `value.key`, of a value that is not null
abbrev pub property : String → Json → Option Json
property k (obj fs) = get_field k fs
property k _ = none

-- `typeof value === "string"`
abbrev pub text? : Option Json → Option String
text? (some (str s)) = some s
text? _ = none

abbrev pub texts : List String → Items
texts [] = nil
texts (s ∷ ss) = cons (str s) (texts ss)
