-- ===== src/Kernel/Rates/Once.antt =====
-- A percentage and a rate round once, at the end, as their mode says.
use mathlib.Core.Path.{subst}
use native.Mathlib.Nat.{zero-lt-suc, one-le-pow}
use karar_flutter_version.Prelude.{
  ℕ, ◌+◌, ◌^◌, ◌≤◌, ◌<◌, ◌≡◌, refl, sym, ap, true, false, inl, inr, arith, Bool-cases, same_text,
  eq_iff, is_blank, Result, ok, err,
}
use karar_flutter_version.Prelude.Int.{ℤ, pos, pos_part, ◌*ℤ◌, ltb_ℤ}
use karar_flutter_version.Kernel.IntegerMath.{KernelError, RoundingMode, pow10, divide_rounded}
use karar_flutter_version.Kernel.IntegerMath.Modes.{Rounds}
use karar_flutter_version.Kernel.IntegerMath.Rounds.{divide_rounded-Rounds}
use karar_flutter_version.Kernel.Money.{Money, multiply_by_percentage, with_units}
use karar_flutter_version.Kernel.Rates.{
  Percentage, apply, ExchangeRate, exchange_rate_of, in_quote, convert, inverted, inverse_with,
  inverse,
}

pow_pos : (e : ℕ) → 0 < 10 ^ e
pow_pos e = one-le-pow e 10 (zero-lt-suc 9)

-- A percentage of an amount always exists, in the amount's currency, and is the exact product over
-- the scale, rounded once as the mode says.
pub apply-Rounds :
    (p : Percentage) (target : Money) (mode : RoundingMode)
    → (m : Money) × (apply p target mode ≡ ok m)
      × (m.currency ≡ target.currency)
      × Rounds mode (target.minor_units *ℤ p.value) (10 ^ p.scale) m.minor_units
unfolding apply multiply_by_percentage with_units pow10
apply-Rounds p target mode =
    let (x, e, r) =
      divide_rounded-Rounds (target.minor_units *ℤ p.value) (10 ^ p.scale) mode (pow_pos p.scale) in
    (record { minor_units = x; currency = target.currency }, rw e refl, refl, r)

-- An amount in the base currency always converts, to one in the quote currency: the exact fraction
-- of both exponents, the rate and the amount, rounded once as the mode says.
pub convert-Rounds :
    (r : ExchangeRate) (amount : Money) (mode : RoundingMode)
    → amount.currency ≡ r.base
    → (m : Money) × (convert r amount mode ≡ ok m)
      × (m.currency ≡ r.quote)
      × Rounds mode
          (amount.minor_units *ℤ r.mantissa *ℤ pow10 r.quote.exponent)
          (10 ^ (r.scale + r.base.exponent))
          m.minor_units
unfolding convert in_quote pow10
convert-Rounds r amount mode h =
    let same : same_text amount.currency.code r.base.code ≡ true =
      (eq_iff amount.currency.code r.base.code).1 (ap (λ c. c.code) h) in
    let (x, e, k) =
      divide_rounded-Rounds (amount.minor_units *ℤ r.mantissa *ℤ pow10 r.quote.exponent)
        (10 ^ (r.scale + r.base.exponent)) mode (pow_pos (r.scale + r.base.exponent)) in
    (record { minor_units = x; currency = r.quote }, rw (same, e) refl, refl, k)

-- The guards that a rate has passed.
abbrev pub IsRate : ExchangeRate → Type 0
IsRate r =
    (same_text r.base.code r.quote.code ≡ false)
    × (0 < pos_part r.mantissa)
    × (r.scale ≤ 30)
    × (is_blank r.source ≡ false)

exchange_rate_of_ok : (r s : ExchangeRate) → exchange_rate_of r ≡ ok s → (s ≡ r) × IsRate r
unfolding exchange_rate_of
exchange_rate_of_ok r s h = ground (arith, h)

inverse_with_ok :
    (r s : ExchangeRate) (scale : ℕ) (m : Result ℤ KernelError)
    → inverse_with r scale m ≡ ok s
    → (m ≡ ok s.mantissa)
      × IsRate s
      × (s.base ≡ r.quote)
      × (s.quote ≡ r.base)
      × (s.scale ≡ scale)
      × (s.as_of ≡ r.as_of)
unfolding inverse_with inverted
inverse_with_ok r s scale (err e) h = ground (arith, h)
inverse_with_ok r s scale (ok m) h = elim (Bool-cases (ltb_ℤ (pos 0) m)) [
  | inl positive ↦
      let (same, rate) = exchange_rate_of_ok (inverted r scale m) s (ground (arith, positive, h)) in
      (
        ap ok (sym (ap (λ x. x.mantissa) same)),
        rw same rate,
        ap (λ x. x.base) same,
        ap (λ x. x.quote) same,
        ap (λ x. x.scale) same,
        ap (λ x. x.as_of) same,
      )
  | inr not_positive ↦ ground (arith, not_positive, h)
]

-- An inverse that is given swaps the currencies, has the scale asked for and the observation's
-- instant, has passed the guards of a rate, and its mantissa is the reciprocal at that scale, rounded
-- as the mode says.
pub inverse_ok :
    (r s : ExchangeRate) (scale m : ℕ) (mode : RoundingMode)
    → r.mantissa ≡ pos m
    → 0 < m
    → inverse r scale mode ≡ ok s
    → IsRate s
      × (s.base ≡ r.quote)
      × (s.quote ≡ r.base)
      × (s.scale ≡ scale)
      × (s.as_of ≡ r.as_of)
      × Rounds mode (pow10 (scale + r.scale)) m s.mantissa
unfolding inverse
inverse_ok r s scale m mode e l h =
    let (x, q, k) = divide_rounded-Rounds (pow10 (scale + r.scale)) m mode l in
    let exact : divide_rounded (pow10 (scale + r.scale)) r.mantissa mode ≡ ok x = rw e q in
    let tried : inverse_with r scale (ok x) ≡ ok s = ground (arith, exact, h) in
    let (same, rate, b, c, d, t) = inverse_with_ok r s scale (ok x) tried in
    (rate, b, c, d, t, subst (Rounds mode (pow10 (scale + r.scale)) m) (ground (arith, same)) k)
