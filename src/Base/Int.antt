-- ===== src/Base/Int.antt =====
-- Signed integers over the native numbers, and the C `int` as a remainder modulo 2 ^ 32.
use Prim.Native.Nat.{ℕ, zero, ◌-◌, ◌^◌, ◌%◌}
use mathlib.Core.Bool.{Bool, true, false}
use mmtao_old.Base.Tests.{ltb, ◌==◌, if◌then◌else◌}

-- `negsuc n` is -(n + 1).
pub data ℤ : Type 0 where
  pos : ℕ → ℤ
  negsuc : ℕ → ℤ

-- A C condition on an `int`: everything but 0 holds.
abbrev pub is_set : ℤ → Bool
is_set (pos zero) = false
is_set _ = true

abbrev pub is_negative : ℤ → Bool
is_negative (pos n) = false
is_negative (negsuc n) = true

abbrev pub eq_ℤ : ℤ → ℤ → Bool
eq_ℤ (pos a) (pos b) = a == b
eq_ℤ (negsuc a) (negsuc b) = a == b
eq_ℤ _ _ = false

-- The `int` with the bit pattern `w % 2 ^ 32`.
abbrev pub int32 : ℕ → ℤ
int32 w = let r = w % 2 ^ 32 in if ltb r (2 ^ 31) then pos r else negsuc (2 ^ 32 - r - 1)
