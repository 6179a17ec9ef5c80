-- ===== src/Base/Printed.antt =====
-- How long an `int` is in print.
use Prim.Native.Nat.{ℕ, zero, suc, ◌+◌, ◌/◌, ◌^◌, ◌≤◌, ◌<◌}
use native.Mathlib.Omega.{arith}
use mmtao_old.Base.Tests.{if◌then◌else◌}
use mmtao_old.Base.Lists.{length}
use mmtao_old.Base.{◌%◌, inl, inr, [], ◌∷◌, Bool-cases, Bool, true, false, ◌==◌}
use mmtao_old.Base.Text.{Bytes, decimal_onto, decimal, print_int, is_space, dec_signed, parse_int}
use mmtao_old.Base.Int.{int32, ℤ, pos, negsuc}

length-decimal_onto :
    (k fuel n : ℕ) (out : Bytes)
    → n < 10 ^ suc k
    → length (decimal_onto fuel n out) ≤ suc k + length out
unfolding decimal_onto
length-decimal_onto k zero n out h = omega arith
length-decimal_onto zero (suc fuel) n out h = ground (arith, h)
length-decimal_onto (suc k) (suc fuel) n out h =
    ground (arith, length-decimal_onto k fuel (n / 10) ((b'0' + n % 10) ∷ out) (omega (arith, h)))

-- The range of an `int`.
abbrev pub IsInt : ℤ → Type 0
IsInt (pos n) = n < 2 ^ 31
IsInt (negsuc n) = n < 2 ^ 31

int32-IsInt : (n : ℕ) → IsInt (int32 n)
int32-IsInt n = ground arith

pub length-print_int : (z : ℤ) → IsInt z → length (print_int z) ≤ 11
unfolding print_int decimal
length-print_int (pos n) h = omega (arith, length-decimal_onto 9 (suc n) n [] (omega arith))
length-print_int (negsuc n) h =
    omega (arith, length-decimal_onto 9 (suc (suc n)) (suc n) [] (omega arith))

if-IsInt : (b : Bool) (x y : ℤ) → IsInt x → IsInt y → IsInt (if b then x else y)
if-IsInt true x y h k = h
if-IsInt false x y h k = k

dec_signed-IsInt : (s : Bytes) → IsInt (dec_signed s)
unfolding dec_signed
dec_signed-IsInt [] = omega arith
dec_signed-IsInt (c ∷ cs) =
    if-IsInt (c == b'-') _ _ (int32-IsInt _)
      (if-IsInt (c == b'+') _ _ (int32-IsInt _) (int32-IsInt _))

pub parse_int-IsInt : (s : Bytes) → IsInt (parse_int s)
unfolding parse_int
parse_int-IsInt [] = omega arith
parse_int-IsInt (c ∷ cs) = elim (Bool-cases (is_space c)) [
  | inl e ↦ rw e (parse_int-IsInt cs)
  | inr e ↦ rw e (dec_signed-IsInt (c ∷ cs))
]
