-- ===== src/Prelude/Codes.antt =====
-- The `int` that the library's functions return: `TN_SUCCESS` or `TN_ERROR`; and error codes.
use Prim.Native.Nat.{ℕ}
use mathlib.Core.Option.{Option, none, some}
use mathlib.Core.Bool.{Bool, true, false}

pub data Status : Type 0 where
  success failure : Status

-- `TN_GUARD` and `if (f(...))` test a status for being nonzero.
abbrev pub is_failure : Status → Bool
is_failure success = false
is_failure failure = true

-- A C `int` that is kept as a value; `negsuc n` is -(n + 1).
pub data ℤ : Type 0 where
  pos : ℕ → ℤ
  negsuc : ℕ → ℤ

-- A pointer that may be NULL, as a number.
abbrev pub ptr : Option ℕ → ℕ
ptr none = 0
ptr (some p) = p
