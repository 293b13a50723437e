-- ===== src/Kernel/IntegerMath/Rounds.antt =====
-- The rounded quotient is what its mode promises.
use native.Mathlib.Nat.{div-add-mod, mod-lt}
use karar_flutter_version.Prelude.{
  ℕ, zero, suc, ◌*◌, ◌+◌, ◌/◌, ◌%◌, ◌<◌, ◌≡◌, ◌%◌, refl, inl, inr, true, false, Bool-cases, arith,
  ◌==◌, ok,
}
use karar_flutter_version.Prelude.Int.{ℤ, pos, negsuc, ◌+ℤ◌, ◌-ℤ◌}
use karar_flutter_version.Kernel.IntegerMath.{
  RoundingMode, neg, trunc_div, trunc_mod, is_negative, magnitude, away_from_zero,
  resolve_remainder, divide_by, divide_rounded,
}
use karar_flutter_version.Kernel.IntegerMath.Modes.{
  pos_up, neg_down, neg_parts, magnitude-neg, half_up_cases, half_even_cases, up-pos, up-neg,
  even-pos, even-neg, Rounds,
}

-- A numerator of at least zero, with a remainder.
resolve-pos :
    (mode : RoundingMode) (a q r d : ℕ)
    → d * q + r ≡ a
    → 0 < r
    → r < d
    → Rounds mode (pos a) d (resolve_remainder mode false (pos q) (pos r) d)
unfolding resolve_remainder away_from_zero
resolve-pos RoundingMode.trunc a q r d e l h = ground arith
resolve-pos RoundingMode.floor a q r d e l h = ground arith
resolve-pos RoundingMode.ceil a q r d e l h = rw (pos_up q) (ground arith)
resolve-pos RoundingMode.half_up a q r d e l h =
    up-pos _ a q r d e h (half_up_cases false (pos q) (pos r) d)
resolve-pos RoundingMode.half_even a q r d e l h =
    even-pos _ a q r d e h (half_even_cases (pos q) (pos q +ℤ pos 1) (magnitude (pos r)) d)

-- A numerator below zero.
resolve-neg :
    (mode : RoundingMode) (a q r d : ℕ)
    → d * q + r ≡ suc a
    → 0 < r
    → r < d
    → Rounds mode (negsuc a) d (resolve_remainder mode true (neg q) (neg r) d)
unfolding resolve_remainder away_from_zero
resolve-neg RoundingMode.trunc a q r d e l h = rw ((neg_parts q).0, (neg_parts q).1) (ground arith)
resolve-neg RoundingMode.floor a q r d e l h = rw (neg_down q) (ground arith)
resolve-neg RoundingMode.ceil a q r d e l h = rw ((neg_parts q).0, (neg_parts q).1) (ground arith)
resolve-neg RoundingMode.half_up a q r d e l h =
    up-neg _ a q r d e h (half_up_cases true (neg q) (neg r) d)
resolve-neg RoundingMode.half_even a q r d e l h =
    even-neg _ a q r d e h (half_even_cases (neg q) (neg q -ℤ pos 1) (magnitude (neg r)) d)

exact_pos : (mode : RoundingMode) (a q d : ℕ) → d * q ≡ a → 0 < d → Rounds mode (pos a) d (pos q)
exact_pos RoundingMode.trunc a q d e l = ground arith
exact_pos RoundingMode.floor a q d e l = ground arith
exact_pos RoundingMode.ceil a q d e l = ground arith
exact_pos RoundingMode.half_up a q d e l = ground arith
exact_pos RoundingMode.half_even a q d e l = ground arith

exact_neg :
    (mode : RoundingMode) (a q d : ℕ) → d * q ≡ suc a → 0 < d → Rounds mode (negsuc a) d (neg q)
exact_neg RoundingMode.trunc a q d e l = rw ((neg_parts q).0, (neg_parts q).1) (ground arith)
exact_neg RoundingMode.floor a q d e l = rw ((neg_parts q).0, (neg_parts q).1) (ground arith)
exact_neg RoundingMode.ceil a q d e l = rw ((neg_parts q).0, (neg_parts q).1) (ground arith)
exact_neg RoundingMode.half_up a q d e l = rw ((neg_parts q).0, (neg_parts q).1) (ground arith)
exact_neg RoundingMode.half_even a q d e l = rw ((neg_parts q).0, (neg_parts q).1) (ground arith)

divide_by-Rounds :
    (mode : RoundingMode) (n : ℤ) (d : ℕ) → 0 < d → Rounds mode n d (divide_by n d mode)
unfolding divide_by trunc_div trunc_mod is_negative
divide_by-Rounds mode (pos a) d l =
    let law = div-add-mod a d in
    let small = mod-lt a l in
    elim (Bool-cases (magnitude (pos (a % d)) == 0)) [
      | inl exact ↦ rw exact (exact_pos mode a (a / d) d (ground (arith, law, exact)) l)
      | inr rest ↦ rw rest (resolve-pos mode a (a / d) (a % d) d law (ground (arith, rest)) small)
    ]
divide_by-Rounds mode (negsuc a) d l =
    let law = div-add-mod (suc a) d in
    let small = mod-lt (suc a) l in
    let size = magnitude-neg (suc a % d) in
    elim (Bool-cases (magnitude (neg (suc a % d)) == 0)) [
      | inl exact ↦ rw exact (exact_neg mode a (suc a / d) d (ground (arith, law, exact, size)) l)
      | inr rest ↦
          rw rest
            (resolve-neg mode a (suc a / d) (suc a % d) d law (ground (arith, rest, size)) small)
    ]

-- Division by a positive denominator always gives an integer, and it is the numerator over the
-- denominator rounded as the mode says: FLOOR and CEIL to the neighbour below and above, TRUNC to the
-- one towards zero, HALF_UP and HALF_EVEN to one that is at most half away, where HALF_UP never takes
-- the one nearer zero of two that are half away, and HALF_EVEN takes the even one.
pub divide_rounded-Rounds :
    (numerator : ℤ) (d : ℕ) (mode : RoundingMode)
    → 0 < d
    → (x : ℤ) × (divide_rounded numerator (pos d) mode ≡ ok x) × Rounds mode numerator d x
unfolding divide_rounded
divide_rounded-Rounds n zero mode l = ground (arith, l)
divide_rounded-Rounds n (suc d) mode l =
    (divide_by n (suc d) mode, refl, divide_by-Rounds mode n (suc d) l)
