-- ===== src/Kernel/Rates.antt =====
-- packages/shared-kernel/src/percentage.ts and exchange-rate.ts: ratios as scaled integers.
pub mod Once
use Prim.Native.String
use karar_flutter_version.Prelude.{
  ℕ, zero, suc, ◌+◌, String, Bool, true, false, not, leb, same_text, is_blank, if◌then◌else◌,
  Result, ok, err,
}
use karar_flutter_version.Prelude.Int.{ℤ, pos, negsuc, ◌*ℤ◌, ltb_ℤ}
use karar_flutter_version.Kernel.IntegerMath.{KernelError, RoundingMode, pow10, divide_rounded}
use karar_flutter_version.Kernel.Money.{Currency, Money, multiply_by_percentage}

-- The ratio `value / 10^scale`.
pub record Percentage : Type 0 where
  pub value : ℤ
  pub scale : ℕ

abbrev max_scale : ℕ
max_scale = 30

pub percentage_of : ℤ → ℕ → Result Percentage KernelError
percentage_of value scale =
    if leb scale max_scale
    then ok (record { value = value; scale = scale })
    else err KernelError.invalid_percentage

pub from_basis_points : ℤ → Percentage
from_basis_points basis_points = record { value = basis_points; scale = 4 }

pub apply_to_units : Percentage → ℤ → RoundingMode → Result ℤ KernelError
apply_to_units p target rounding_mode =
    divide_rounded (target *ℤ p.value) (pow10 p.scale) rounding_mode

pub apply : Percentage → Money → RoundingMode → Result Money KernelError
apply p target rounding_mode = multiply_by_percentage target p.value p.scale rounding_mode

-- `mantissa / 10^scale` units of `quote` for one of `base`.
pub record ExchangeRate : Type 0 where
  pub base : Currency
  pub quote : Currency
  pub mantissa : ℤ
  pub scale : ℕ
  pub source : String
  pub as_of : ℕ

-- The guards of `ExchangeRate.of`; a scale and an instant are natural numbers here.
unfoldable pub exchange_rate_of : ExchangeRate → Result ExchangeRate KernelError
exchange_rate_of r =
    if same_text r.base.code r.quote.code
    then err KernelError.invalid_rate
    else if not (ltb_ℤ (pos 0) r.mantissa)
    then err KernelError.invalid_rate
    else if not (leb r.scale max_scale)
    then err KernelError.invalid_rate
    else if is_blank r.source
    then err KernelError.invalid_rate
    else ok r

in_quote : Currency → Result ℤ KernelError → Result Money KernelError
in_quote quote (ok units) = ok (record { minor_units = units; currency = quote })
in_quote quote (err e) = err e

pub convert : ExchangeRate → Money → RoundingMode → Result Money KernelError
unfolding in_quote
convert r amount rounding_mode =
    if not (same_text amount.currency.code r.base.code)
    then err KernelError.currency_mismatch
    else in_quote r.quote (
        divide_rounded (amount.minor_units *ℤ r.mantissa *ℤ pow10 r.quote.exponent)
          (pow10 (r.scale + r.base.exponent)) rounding_mode)

inverted : ExchangeRate → ℕ → ℤ → ExchangeRate
inverted r scale mantissa = record {
  base = r.quote;
  quote = r.base;
  mantissa = mantissa;
  scale = scale;
  source = String.◌++◌ "inverse(" (String.◌++◌ r.source ")");
  as_of = r.as_of;
}

inverse_with : ExchangeRate → ℕ → Result ℤ KernelError → Result ExchangeRate KernelError
inverse_with r scale (err e) = err e
inverse_with r scale (ok mantissa) =
    if not (ltb_ℤ (pos 0) mantissa)
    then err KernelError.invalid_rate
    else exchange_rate_of (inverted r scale mantissa)

unfoldable pub inverse : ExchangeRate → ℕ → RoundingMode → Result ExchangeRate KernelError
unfolding inverse_with inverted
inverse r scale rounding_mode =
    if not (leb scale max_scale)
    then err KernelError.invalid_rate
    else inverse_with r scale (divide_rounded (pow10 (scale + r.scale)) r.mantissa rounding_mode)
