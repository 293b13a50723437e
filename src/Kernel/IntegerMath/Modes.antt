-- ===== src/Kernel/IntegerMath/Modes.antt =====
-- What each rounding mode promises about the quotient, and how half of the divisor decides.
use karar_flutter_version.Prelude.{
  ℕ, zero, suc, ◌*◌, ◌+◌, ◌%◌, ◌≤◌, ◌<◌, ◌≡◌, ◌≢◌, ◌%◌, refl, ◌⊎◌, inl, inr, Bool, true, false,
  Bool-cases, arith, leb, ltb, ◌==◌,
}
use karar_flutter_version.Prelude.Int.{ℤ, pos, negsuc, pos_part, neg_part, ◌+ℤ◌, ◌-ℤ◌}
use karar_flutter_version.Kernel.IntegerMath.{
  RoundingMode, neg, trunc_mod, magnitude, away_from_zero, half_even_quotient, resolve_remainder,
}

-- x · d ≤ n + e, and x · d < n + e.
abbrev pub AtMost : ℤ → ℕ → ℤ → ℕ → Type 0
AtMost x d n e = pos_part x * d + neg_part n ≤ pos_part n + neg_part x * d + e

abbrev pub LessThan : ℤ → ℕ → ℤ → ℕ → Type 0
LessThan x d n e = pos_part x * d + neg_part n < pos_part n + neg_part x * d + e

-- n ≤ x · d + e, and n < x · d + e.
abbrev pub AtLeast : ℤ → ℕ → ℤ → ℕ → Type 0
AtLeast x d n e = pos_part n + neg_part x * d ≤ pos_part x * d + neg_part n + e

abbrev pub MoreThan : ℤ → ℕ → ℤ → ℕ → Type 0
MoreThan x d n e = pos_part n + neg_part x * d < pos_part x * d + neg_part n + e

-- The distance from x · d to n is at most half of d.
abbrev pub IsNearest : ℤ → ℕ → ℤ → Type 0
IsNearest x d n =
    (2 * (pos_part x * d + neg_part n) ≤ 2 * (pos_part n + neg_part x * d) + d)
    × (2 * (pos_part n + neg_part x * d) ≤ 2 * (pos_part x * d + neg_part n) + d)

-- n does not lie half way between x · d and a neighbour.
abbrev pub IsNoTie : ℤ → ℕ → ℤ → Type 0
IsNoTie x d n =
    (2 * (magnitude x * d) + d ≢ 2 * magnitude n) × (2 * magnitude n + d ≢ 2 * (magnitude x * d))

-- x is n / d under the mode.
abbrev pub Rounds : RoundingMode → ℤ → ℕ → ℤ → Type 0
Rounds RoundingMode.floor n d x = AtMost x d n 0 × MoreThan x d n d
Rounds RoundingMode.ceil n d x = AtLeast x d n 0 × LessThan x d n d
Rounds RoundingMode.trunc n d x =
    (magnitude x * d ≤ magnitude n)
    × (magnitude n < magnitude x * d + d)
    × LessThan x d n d
    × MoreThan x d n d
Rounds RoundingMode.half_up n d x = IsNearest x d n × (2 * (magnitude x * d) + d ≢ 2 * magnitude n)
Rounds RoundingMode.half_even n d x = IsNearest x d n × (IsNoTie x d n ⊎ (magnitude x % 2 ≡ 0))

pub pos_up : (q : ℕ) → pos q +ℤ pos 1 ≡ pos (suc q)
unfolding ◌+ℤ◌
pos_up q = ground arith

pub neg_down : (q : ℕ) → neg q -ℤ pos 1 ≡ negsuc q
unfolding ◌-ℤ◌ neg
neg_down zero = ground arith
neg_down (suc q) = ground arith

pub neg_parts : (q : ℕ) → (pos_part (neg q) ≡ 0) × (neg_part (neg q) ≡ q)
unfolding neg
neg_parts zero = (refl, refl)
neg_parts (suc q) = (refl, refl)

pub magnitude-neg : (q : ℕ) → magnitude (neg q) ≡ q
unfolding neg
magnitude-neg zero = omega arith
magnitude-neg (suc q) = omega arith

-- Half of the divisor decides: x is the quotient or its neighbour away from zero, and a tie goes away
-- from zero, or to the even one of the two.
abbrev pub UpHalves : (x quotient away : ℤ) (m d : ℕ) → Type 0
UpHalves x quotient away m d = ((x ≡ away) × (d ≤ 2 * m)) ⊎ ((x ≡ quotient) × (2 * m < d))

abbrev pub IsEven : ℤ → Type 0
IsEven q = magnitude (trunc_mod q 2) ≡ 0

abbrev pub EvenHalves : (x quotient away : ℤ) (m d : ℕ) → Type 0
EvenHalves x quotient away m d =
    ((x ≡ away) × ((d < 2 * m) ⊎ ((d ≡ 2 * m) × (magnitude (trunc_mod quotient 2) ≢ 0))))
    ⊎ ((x ≡ quotient) × ((2 * m < d) ⊎ ((2 * m ≡ d) × IsEven quotient)))

pub half_up_cases :
    (negative : Bool) (q r : ℤ) (d : ℕ)
    → UpHalves
        (resolve_remainder RoundingMode.half_up negative q r d)
        q
        (away_from_zero q negative)
        (magnitude r)
        d
unfolding resolve_remainder
half_up_cases negative q r d = cases (Bool-cases (leb d (2 * magnitude r)))
  where
    cases :
        ((leb d (2 * magnitude r) ≡ true) ⊎ (leb d (2 * magnitude r) ≡ false))
        → UpHalves
            (resolve_remainder RoundingMode.half_up negative q r d)
            q
            (away_from_zero q negative)
            (magnitude r)
            d
    cases (inl up) = inl (ground (arith, up), ground (arith, up))
    cases (inr down) = inr (ground (arith, down), ground (arith, down))

pub half_even_cases :
    (q away : ℤ) (m d : ℕ) → EvenHalves (half_even_quotient q away (2 * m) d) q away m d
unfolding half_even_quotient
half_even_cases q away m d =
    cases (Bool-cases (ltb d (2 * m))) (Bool-cases (ltb (2 * m) d))
      (Bool-cases (magnitude (trunc_mod q 2) == 0))
  where
    cases :
        ((ltb d (2 * m) ≡ true) ⊎ (ltb d (2 * m) ≡ false))
        → ((ltb (2 * m) d ≡ true) ⊎ (ltb (2 * m) d ≡ false))
        → (((magnitude (trunc_mod q 2) == 0) ≡ true) ⊎ ((magnitude (trunc_mod q 2) == 0) ≡ false))
        → EvenHalves (half_even_quotient q away (2 * m) d) q away m d
    cases (inl up) y z = inl (ground (arith, up), inl (ground (arith, up)))
    cases (inr x) (inl down) z = inr (ground (arith, x, down), inl (ground (arith, down)))
    cases (inr x) (inr y) (inl even) =
        inr (ground (arith, x, y, even), inr (ground (arith, x, y), ground (arith, even)))
    cases (inr x) (inr y) (inr odd) =
        inl (ground (arith, x, y, odd), inr (ground (arith, x, y), λ e. ground (arith, odd, e)))

parity-neg : (q : ℕ) → magnitude (trunc_mod (neg q) 2) ≡ q % 2
unfolding neg trunc_mod
parity-neg zero = omega arith
parity-neg (suc q) = magnitude-neg (suc q % 2)

pub up-pos :
    (x : ℤ) (a q r d : ℕ)
    → d * q + r ≡ a
    → r < d
    → UpHalves x (pos q) (pos q +ℤ pos 1) (magnitude (pos r)) d
    → Rounds RoundingMode.half_up (pos a) d x
up-pos x a q r d e h (inl (up, big)) = rw (up, pos_up q) (ground (arith, e, big))
up-pos x a q r d e h (inr (down, small)) = rw down (ground (arith, e, small))

pub up-neg :
    (x : ℤ) (a q r d : ℕ)
    → d * q + r ≡ suc a
    → r < d
    → UpHalves x (neg q) (neg q -ℤ pos 1) (magnitude (neg r)) d
    → Rounds RoundingMode.half_up (negsuc a) d x
up-neg x a q r d e h (inl (up, big)) = rw (up, neg_down q) (ground (arith, e, big, magnitude-neg r))
up-neg x a q r d e h (inr (down, small)) =
    rw (down, (neg_parts q).0, (neg_parts q).1) (ground (arith, e, small, magnitude-neg r))

pub even-pos :
    (x : ℤ) (a q r d : ℕ)
    → d * q + r ≡ a
    → r < d
    → EvenHalves x (pos q) (pos q +ℤ pos 1) (magnitude (pos r)) d
    → Rounds RoundingMode.half_even (pos a) d x
unfolding trunc_mod
even-pos x a q r d e h (inl (up, inl big)) =
    rw (up, pos_up q) (ground (arith, e, big), inl (ground (arith, e, big)))
even-pos x a q r d e h (inl (up, inr (tie, odd))) =
    rw (up, pos_up q) (ground (arith, e, tie), inr (ground (arith, odd)))
even-pos x a q r d e h (inr (down, inl small)) =
    rw down (ground (arith, e, small), inl (ground (arith, e, small)))
even-pos x a q r d e h (inr (down, inr (tie, even))) =
    rw down (ground (arith, e, tie), inr (ground (arith, even)))

pub even-neg :
    (x : ℤ) (a q r d : ℕ)
    → d * q + r ≡ suc a
    → r < d
    → EvenHalves x (neg q) (neg q -ℤ pos 1) (magnitude (neg r)) d
    → Rounds RoundingMode.half_even (negsuc a) d x
even-neg x a q r d e h (inl (up, inl big)) =
    let m = magnitude-neg r in
    rw (up, neg_down q) (ground (arith, e, big, m), inl (ground (arith, e, big, m)))
even-neg x a q r d e h (inl (up, inr (tie, odd))) =
    let m = magnitude-neg r in
    rw (up, neg_down q) (ground (arith, e, tie, m), inr (ground (arith, odd, parity-neg q)))
even-neg x a q r d e h (inr (down, inl small)) =
    let m = magnitude-neg r in
    rw (down, (neg_parts q).0, (neg_parts q).1)
      (ground (arith, e, small, m), inl (ground (arith, e, small, m)))
even-neg x a q r d e h (inr (down, inr (tie, even))) =
    let m = magnitude-neg r in
    rw (down, (neg_parts q).0, (neg_parts q).1)
      (ground (arith, e, tie, m), inr (ground (arith, even, parity-neg q)))
