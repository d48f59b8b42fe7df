-- ===== src/Prelude/Unicode.antt =====
-- The parts of Python's `str` that rest on the tables of the Unicode standard.
use mathlib.Core.Bool.{Bool}
use enterprise_data_copilot.Prelude.Strings.{Text}
use Prim.Native.Nat.{ℕ}

-- `str.lower`, `str.upper`, `str.casefold`, and `str.isalnum` of one character.
pub record Unicode : Type 0 where
  pub lower : Text → Text
  pub upper : Text → Text
  pub casefold : Text → Text
  pub is_alnum : ℕ → Bool
