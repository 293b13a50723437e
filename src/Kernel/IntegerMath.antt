-- ===== src/Kernel/IntegerMath.antt =====
-- packages/shared-kernel/src/internal/integer-math.ts: division of integers under an explicit
-- rounding mode.
pub mod Modes
pub mod Rounds
use karar_flutter_version.Prelude.{
  ℕ, zero, suc, ◌*◌, ◌+◌, ◌-◌, ◌/◌, ◌%◌, ◌^◌, Bool, true, false, leb, ltb, ◌==◌, if◌then◌else◌,
  Result, ok, err,
}
use karar_flutter_version.Prelude.Int.{ℤ, pos, negsuc, pos_part, neg_part, ◌+ℤ◌, ◌-ℤ◌}

-- The classes of the errors that the kernel throws.
pub data KernelError : Type 0 where
  nonpositive_denominator currency_mismatch invalid_allocation : KernelError
  invalid_percentage invalid_rate : KernelError

pub data RoundingMode : Type 0 where
  half_up half_even floor ceil trunc : RoundingMode

unfoldable pub pow10 : ℕ → ℤ
pow10 exponent = pos (10 ^ exponent)

-- -n.
unfoldable pub neg : ℕ → ℤ
neg zero = pos zero
neg (suc n) = negsuc n

-- `a / d` and `a % d` of `bigint`, for a positive divisor: the quotient is cut towards zero, and the
-- remainder has the sign of `a`.
unfoldable pub trunc_div : ℤ → ℕ → ℤ
unfolding neg
trunc_div (pos n) d = pos (n / d)
trunc_div (negsuc n) d = neg (suc n / d)

unfoldable pub trunc_mod : ℤ → ℕ → ℤ
unfolding neg
trunc_mod (pos n) d = pos (n % d)
trunc_mod (negsuc n) d = neg (suc n % d)

unfoldable pub is_negative : ℤ → Bool
is_negative (pos n) = false
is_negative (negsuc n) = true

abbrev pub magnitude : ℤ → ℕ
magnitude a = pos_part a + neg_part a

pub away_from_zero : ℤ → Bool → ℤ
away_from_zero quotient negative = if negative then quotient -ℤ pos 1 else quotient +ℤ pos 1

pub half_even_quotient : (quotient away : ℤ) (twice_remainder denominator : ℕ) → ℤ
unfolding trunc_mod neg
half_even_quotient quotient away twice_remainder denominator =
    if ltb denominator twice_remainder
    then away
    else if ltb twice_remainder denominator
    then quotient
    else if magnitude (trunc_mod quotient 2) == 0
    then quotient
    else away

-- The switch over the mode, for a remainder that is not zero.
pub resolve_remainder :
    (rounding_mode : RoundingMode) (negative : Bool) (quotient remainder : ℤ) (denominator : ℕ) → ℤ
unfolding away_from_zero half_even_quotient
resolve_remainder RoundingMode.trunc negative quotient remainder denominator = quotient
resolve_remainder RoundingMode.floor negative quotient remainder denominator =
    if negative then quotient -ℤ pos 1 else quotient
resolve_remainder RoundingMode.ceil negative quotient remainder denominator =
    if negative then quotient else quotient +ℤ pos 1
resolve_remainder RoundingMode.half_up negative quotient remainder denominator =
    if leb denominator (2 * magnitude remainder) then away_from_zero quotient negative else quotient
resolve_remainder RoundingMode.half_even negative quotient remainder denominator =
    half_even_quotient quotient (away_from_zero quotient negative) (2 * magnitude remainder)
      denominator

-- The division once the denominator is known to be positive.
divide_by : ℤ → ℕ → RoundingMode → ℤ
unfolding trunc_div trunc_mod is_negative resolve_remainder
divide_by numerator denominator rounding_mode =
    let quotient = trunc_div numerator denominator in
    let remainder = trunc_mod numerator denominator in
    if magnitude remainder == 0
    then quotient
    else resolve_remainder rounding_mode (is_negative numerator) quotient remainder denominator

unfoldable pub divide_rounded : ℤ → ℤ → RoundingMode → Result ℤ KernelError
unfolding divide_by
divide_rounded numerator (pos (suc d)) rounding_mode =
    ok (divide_by numerator (suc d) rounding_mode)
divide_rounded numerator (pos zero) rounding_mode = err KernelError.nonpositive_denominator
divide_rounded numerator (negsuc d) rounding_mode = err KernelError.nonpositive_denominator
