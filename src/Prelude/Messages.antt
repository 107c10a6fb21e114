-- ===== src/Prelude/Messages.antt =====
-- Texts with numbers in them, as the template strings of the pages make them.
use Prim.Native.Nat.{ℕ, ◌+◌, ◌*◌, ◌/◌}
use Prim.Native.String.{String}
use mathlib.Core.List.{List}

-- A piece of a message: a text, a number, or a number with that many decimals, `scaled` being it
-- without its point.
pub data Part : Type 0 where
  words : String → Part
  count : ℕ → Part
  fixed : (decimals scaled : ℕ) → Part

abbrev pub Message : Type 0
Message = List Part

-- `Math.round(a / b)`
unfoldable pub round_div : ℕ → ℕ → ℕ
round_div a b = (2 * a + b) / (2 * b)
