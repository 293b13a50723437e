-- ===== src/Kernel/Tests.antt =====
-- The theorems on money at concrete amounts.
use karar_flutter_version.Prelude.{
  err, any, true, ◌↔◌, ◌⊎◌, is_blank, ◌+◌, ◌^◌, ◌≡◌, refl, List, [], ◌∷◌, All, map, length, arith,
  ok,
}
use karar_flutter_version.Prelude.Int.{ℤ, pos, negsuc, ◌*ℤ◌, ◌+ℤ◌, ◌-ℤ◌}
use karar_flutter_version.Kernel.IntegerMath.{
  KernelError, RoundingMode, is_negative, pow10, divide_rounded, trunc_div, trunc_mod, neg,
}
use karar_flutter_version.Kernel.IntegerMath.Modes.{Rounds}
use karar_flutter_version.Kernel.IntegerMath.Rounds.{divide_rounded-Rounds}
use karar_flutter_version.Kernel.Money.{Currency, Money, add, subtract, sum_ℤ, allocate}
use karar_flutter_version.Kernel.Money.Laws.{units_of, allocate-sum, allocate-err, subtract-add}
use karar_flutter_version.Kernel.Rates.{
  from_basis_points, apply, ExchangeRate, exchange_rate_of, convert, inverse,
}
use karar_flutter_version.Kernel.Rates.Once.{IsRate, apply-Rounds, convert-Rounds, inverse_ok}

abbrev qar : Currency
qar = record { code = "QAR"; exponent = 2 }

abbrev kwd : Currency
kwd = record { code = "KWD"; exponent = 3 }

-- -10.01 QAR.
abbrev debt : Money
debt = record { minor_units = negsuc 1000; currency = qar }

abbrev thirds : List ℤ
thirds = pos 1 ∷ pos 1 ∷ pos 1 ∷ []

abbrev rate : ExchangeRate
rate = record {
  base = qar;
  quote = kwd;
  mantissa = pos 843;
  scale = 4;
  source = "treasury-feed";
  as_of = 1000;
}

divide_rounded-Rounds_example :
    (x : ℤ) × (divide_rounded (negsuc 24) (pos 10) RoundingMode.half_even ≡ ok x)
    × Rounds RoundingMode.half_even (negsuc 24) 10 x
divide_rounded-Rounds_example =
    divide_rounded-Rounds (negsuc 24) 10 RoundingMode.half_even (omega arith)

allocate-sum_example :
    (parts : List Money) × (allocate debt thirds ≡ ok parts)
    × (sum_ℤ (map units_of parts) ≡ negsuc 1000)
    × (length parts ≡ 3)
    × All {A = Money} (λ p. p.currency ≡ qar) parts
unfolding is_negative sum_ℤ ◌+ℤ◌
allocate-sum_example = allocate-sum debt thirds 2 refl refl

subtract-add_example : (c : Money) × (add debt debt ≡ ok c) × (subtract c debt ≡ ok debt)
subtract-add_example = subtract-add debt debt refl

apply-Rounds_example :
    (m : Money) × (apply (from_basis_points (pos 250)) debt RoundingMode.floor ≡ ok m)
    × (m.currency ≡ qar)
    × Rounds RoundingMode.floor
        (negsuc 1000 *ℤ (from_basis_points (pos 250)).value)
        (10 ^ (from_basis_points (pos 250)).scale)
        m.minor_units
apply-Rounds_example = apply-Rounds (from_basis_points (pos 250)) debt RoundingMode.floor

convert-Rounds_example :
    (m : Money) × (convert rate debt RoundingMode.half_up ≡ ok m)
    × (m.currency ≡ kwd)
    × Rounds RoundingMode.half_up (negsuc 1000 *ℤ pos 843 *ℤ pow10 3) (10 ^ (4 + 2)) m.minor_units
convert-Rounds_example = convert-Rounds rate debt RoundingMode.half_up refl

abbrev inverse_rate : ExchangeRate
inverse_rate = record {
  base = kwd;
  quote = qar;
  mantissa = pos 118624;
  scale = 4;
  source = "inverse(treasury-feed)";
  as_of = 1000;
}

inverse_of_rate : inverse rate 4 RoundingMode.half_up ≡ ok inverse_rate
unfolding inverse exchange_rate_of divide_rounded trunc_div trunc_mod pow10 is_blank ◌+ℤ◌ ◌-ℤ◌ neg
    is_negative
inverse_of_rate = refl

inverse_ok_example :
    IsRate inverse_rate
    × (inverse_rate.base ≡ kwd)
    × (inverse_rate.quote ≡ qar)
    × (inverse_rate.scale ≡ 4)
    × (inverse_rate.as_of ≡ 1000)
    × Rounds RoundingMode.half_up (pow10 (4 + 4)) 843 (pos 118624)
inverse_ok_example =
    inverse_ok rate inverse_rate 4 843 RoundingMode.half_up refl (omega arith) inverse_of_rate

allocate-err_example :
    (allocate debt (pos 0 ∷ []) ≡ err KernelError.invalid_allocation)
    ↔ ((any is_negative (pos 0 ∷ []) ≡ true) ⊎ (sum_ℤ (pos 0 ∷ []) ≡ pos 0))
allocate-err_example = allocate-err debt (pos 0 ∷ [])
