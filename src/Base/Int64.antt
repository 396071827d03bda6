-- ===== src/Base/Int64.antt =====
-- Go's int64: values are integers, and arithmetic wraps in two's complement.
use quickbite_analytics_serv.Base.Tests.{ltb, ◌==◌, if◌then◌else◌}
use quickbite_analytics_serv.Base.Int.{ℤ, pos, negsuc, ◌+ℤ◌, eqb_ℤ}
use mathlib.Core.Path.{◌≡◌}
use mathlib.Core.Bool.{false}
use Prim.Native.Nat.{ℕ, suc, ◌-◌, ◌/◌, ◌%◌, ◌^◌}

-- The bit pattern of an integer, as a number below 2 ^ 64.
abbrev pub bits64 : ℤ → ℕ
bits64 (pos n) = n % 2 ^ 64
bits64 (negsuc n) = 2 ^ 64 - 1 - n % 2 ^ 64

-- The int64 with the given bit pattern.
abbrev pub of_bits64 : ℕ → ℤ
of_bits64 n = if ltb n (2 ^ 63) then pos n else negsuc (2 ^ 64 - 1 - n)

unfoldable pub wrap64 : ℤ → ℤ
wrap64 a = of_bits64 (bits64 a)

unfoldable pub add64 : ℤ → ℤ → ℤ
unfolding wrap64 ◌+ℤ◌
add64 a b = wrap64 (a +ℤ b)

abbrev pub neg_of : ℕ → ℤ
neg_of n = if n == 0 then pos 0 else negsuc (n - 1)

-- `a / b` in Go truncates toward zero. A divisor of 0 panics: a call comes with its divisor's test.
unfoldable pub div64 : ℤ → (b : ℤ) → eqb_ℤ b (pos 0) ≡ false → ℤ
unfolding wrap64
div64 (pos a) (pos b) nonzero = pos (a / b)
div64 (pos a) (negsuc b) nonzero = neg_of (a / suc b)
div64 (negsuc a) (pos b) nonzero = neg_of (suc a / b)
div64 (negsuc a) (negsuc b) nonzero = wrap64 (pos (suc a / suc b))
