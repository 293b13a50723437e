-- ===== src/Kernel/Money/Allocation.antt =====
-- The parts of an allocation sum to the amount.
use native.Mathlib.Nat.{div-add-mod, mod-lt}
use karar_flutter_version.Prelude.{
  ℕ, zero, suc, ◌+◌, ◌*◌, ◌-◌, ◌/◌, ◌%◌, ◌≤◌, ◌<◌, ◌≡◌, refl, ap, List, [], ◌∷◌, map, length, arith,
}
use karar_flutter_version.Prelude.Int.{
  ℤ, pos, negsuc, pos_part, neg_part, ◌+ℤ◌, ◌-ℤ◌, ◌*ℤ◌, +ℤ_parts,
}
use karar_flutter_version.Kernel.IntegerMath.{neg, trunc_div, trunc_mod}
use karar_flutter_version.Kernel.Money.{Share, correct_share, share_of, sum_ℤ}

*ℤ_parts :
    (a : ℤ) (k : ℕ)
    → pos_part (a *ℤ pos k) + neg_part a * k ≡ neg_part (a *ℤ pos k) + pos_part a * k
unfolding ◌*ℤ◌
*ℤ_parts a k = ground arith

-- A share is the floor: q · T + r = p, with r between 0 and T.
IsFloor : Share → ℤ → ℕ → Type 0
IsFloor s p t =
    (pos_part s.quotient * t + pos_part s.remainder + neg_part p
      ≡ pos_part p + neg_part s.quotient * t)
    × (neg_part s.remainder ≡ 0)
    × (pos_part s.remainder < t)

neg_down : (q : ℕ) → neg q -ℤ pos 1 ≡ negsuc q
unfolding ◌-ℤ◌ neg
neg_down zero = ground arith
neg_down (suc q) = ground arith

wrap : (r t : ℕ) → suc r < t → negsuc r +ℤ pos t ≡ pos (t - suc r)
unfolding ◌+ℤ◌
wrap r t h = ground arith

neg_parts : (q : ℕ) → (pos_part (neg q) ≡ 0) × (neg_part (neg q) ≡ q)
unfolding neg
neg_parts zero = (refl, refl)
neg_parts (suc q) = (refl, refl)

trunc-IsFloor-neg :
    (a q r t : ℕ)
    → t * q + r ≡ suc a
    → r < t
    → IsFloor (correct_share (neg q) (neg r) t) (negsuc a) t
unfolding correct_share neg IsFloor
trunc-IsFloor-neg a q zero t e l = ground (arith, e, neg_parts q)
trunc-IsFloor-neg a q (suc r) t e l = rw (neg_down q, wrap r t l) (ground (arith, e))

correct_share-IsFloor :
    (p : ℤ) (t : ℕ) → 0 < t → IsFloor (correct_share (trunc_div p t) (trunc_mod p t) t) p t
unfolding trunc_div trunc_mod correct_share IsFloor
correct_share-IsFloor (pos a) t l =
    let law = div-add-mod a t in let small = mod-lt a l in ground (arith, law, small)
correct_share-IsFloor (negsuc a) t l =
    trunc-IsFloor-neg a (suc a / t) (suc a % t) t (div-add-mod (suc a) t) (mod-lt (suc a) l)

-- One share, in terms of the amount: q · T + r = m · w.
share_of-floor :
    (m : ℤ) (t w : ℕ)
    → 0 < t
    → (pos_part (share_of m t (pos w)).quotient * t
          + pos_part (share_of m t (pos w)).remainder
          + neg_part m * w
        ≡ pos_part m * w + neg_part (share_of m t (pos w)).quotient * t)
      × (neg_part (share_of m t (pos w)).remainder ≡ 0)
      × (pos_part (share_of m t (pos w)).remainder < t)
unfolding share_of IsFloor
share_of-floor m t w l =
    let (e, z, h) = correct_share-IsFloor (m *ℤ pos w) t l in
    let law = *ℤ_parts m w in (ground (arith, e, law), z, h)

abbrev pub quotients : List Share → List ℤ
quotients ss = map (λ s. s.quotient) ss

-- The sum of the remainders.
pub remainders : List Share → ℕ
remainders [] = 0
remainders (s ∷ ss) = pos_part s.remainder + remainders ss

unfoldable pub total : List ℕ → ℕ
total [] = 0
total (w ∷ ws) = w + total ws

abbrev pub shares : ℤ → ℕ → List ℕ → List Share
shares m t ws = map (share_of m t) (map pos ws)

sum_parts :
    (a b : ℤ) (t : ℕ)
    → pos_part (a +ℤ b) * t + neg_part a * t + neg_part b * t
      ≡ neg_part (a +ℤ b) * t + pos_part a * t + pos_part b * t
sum_parts a b t = let law = +ℤ_parts a b in ground (arith, ap (λ x. x * t) law)

pub shares-sum :
    (m : ℤ) (t : ℕ) (ws : List ℕ)
    → 0 < t
    → pos_part (sum_ℤ (quotients (shares m t ws))) * t
        + remainders (shares m t ws)
        + neg_part m * total ws
      ≡ pos_part m * total ws + neg_part (sum_ℤ (quotients (shares m t ws))) * t
unfolding sum_ℤ remainders total
shares-sum m t [] l = omega arith
shares-sum m t (w ∷ ws) l =
    let ih = shares-sum m t ws l in
    let (e, z, h) = share_of-floor m t w l in
    let law = sum_parts (share_of m t (pos w)).quotient (sum_ℤ (quotients (shares m t ws))) t in
    ground (arith, ih, e, law)

pub remainders-bound :
    (m : ℤ) (t : ℕ) (ws : List ℕ) → 0 < t → remainders (shares m t ws) ≤ length ws * t
unfolding remainders
remainders-bound m t [] l = omega arith
remainders-bound m t (w ∷ ws) l =
    let ih = remainders-bound m t ws l in
    let (e, z, h) = share_of-floor m t w l in ground (arith, ih, h)
