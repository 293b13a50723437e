-- ===== src/Kernel/Money/Laws.antt =====
-- An allocation gives every part a share and loses no minor unit; sums and differences undo each other.
use mathlib.Core.Path.{subst}
use native.Mathlib.Nat.{zero-lt-suc, le_of_mul-le-mul_right}
use karar_flutter_version.Prelude.{
  ℕ, suc, ◌+◌, ◌*◌, ◌≤◌, ◌<◌, ◌≡◌, refl, sym, ap, ◌∙◌, true, false, List, [], ◌∷◌, map, any, length,
  All, arith, same_text, eq_iff, ok, err, zero, ◌↔◌, ◌⊎◌, inl, inr, Bool-cases,
}
use karar_flutter_version.Prelude.Int.{
  ℤ, pos, negsuc, pos_part, neg_part, ◌+ℤ◌, ◌-ℤ◌, int_laws, -ℤ_parts, eq_of_parts, +ℤ_cancel,
}
use karar_flutter_version.Kernel.IntegerMath.{KernelError, is_negative}
use karar_flutter_version.Kernel.Money.{
  Currency, Money, Share, sum_ℤ, sort_ranked, index_from, allocate_units, allocate_by, allocate,
  if_same_currency, add, subtract,
}
use karar_flutter_version.Kernel.Money.Leftover.{
  hand_out-sum, hand_out-length, IsInRange, sort_ranked-length, sort_ranked-All,
  index_from-IsInRange, index_from-length,
}
use karar_flutter_version.Kernel.Money.Allocation.{
  quotients, remainders, total, shares, shares-sum, remainders-bound,
}

not_below : (q m : ℤ) → pos_part q + neg_part m ≤ pos_part m + neg_part q → neg_part (m -ℤ q) ≡ 0
unfolding ◌-ℤ◌
not_below q m h = ground (arith, h)

bounds :
    (q m : ℤ) (t r n : ℕ)
    → 0 < t
    → pos_part q * t + r + neg_part m * t ≡ pos_part m * t + neg_part q * t
    → r ≤ n * t
    → (q +ℤ pos (pos_part (m -ℤ q)) ≡ m) × (pos_part (m -ℤ q) ≤ n)
bounds q m t r n l e h =
    let low : pos_part q + neg_part m ≤ pos_part m + neg_part q =
      le_of_mul-le-mul_right {k = t} (ground (arith, e)) l in
    let high : pos_part m + neg_part q ≤ n + (pos_part q + neg_part m) =
      le_of_mul-le-mul_right {k = t} (ground (arith, e, h)) l in
    let small : pos_part (m -ℤ q) ≤ n = ground (arith, -ℤ_parts m q, high, not_below q m low) in
    (eq_of_parts _ _ (omega (int_laws, low, not_below q m low)), small)

quotients-length : (ss : List Share) → length (quotients ss) ≡ length ss
quotients-length [] = refl
quotients-length (s ∷ ss) = ap suc (quotients-length ss)

shares-length : (m : ℤ) (t : ℕ) (ws : List ℕ) → length (shares m t ws) ≡ length ws
shares-length m t [] = refl
shares-length m t (w ∷ ws) = ap suc (shares-length m t ws)

allocate_units-sum :
    (m : ℤ) (t : ℕ) (ws : List ℕ)
    → 0 < t
    → total ws ≡ t
    → (sum_ℤ (allocate_units m t (map pos ws)) ≡ m)
      × (length (allocate_units m t (map pos ws)) ≡ length ws)
unfolding allocate_units
allocate_units-sum m t ws l same =
    let ss = shares m t ws in
    let floors = quotients ss in
    let winners = sort_ranked (index_from 0 ss) in
    let (back, few) =
      bounds (sum_ℤ floors) m t (remainders ss) (length ws) l
        (subst
          (λ n.
            pos_part (sum_ℤ floors) * t + remainders ss + neg_part m * n
            ≡ pos_part m * n + neg_part (sum_ℤ floors) * t)
          same (shares-sum m t ws l))
        (remainders-bound m t ws l) in
    let many : length winners ≡ length ws =
      sort_ranked-length (index_from 0 ss) ∙ index_from-length 0 ss ∙ shares-length m t ws in
    let size : length floors ≡ length ws = quotients-length ss ∙ shares-length m t ws in
    let inside : All (IsInRange (length floors)) winners =
      sort_ranked-All (IsInRange (length floors)) (index_from 0 ss)
        (index_from-IsInRange 0 (length floors) ss (omega (arith, quotients-length ss))) in
    (
      hand_out-sum (pos_part (m -ℤ sum_ℤ floors)) winners floors (omega (arith, few, many)) ∙ back,
      hand_out-length (pos_part (m -ℤ sum_ℤ floors)) winners floors inside ∙ size,
    )

-- The magnitudes of weights that are not negative.
weigh : (ws : List ℤ) → any is_negative ws ≡ false → (ns : List ℕ) × (ws ≡ map pos ns)
unfolding is_negative
weigh [] h = ([], refl)
weigh (pos n ∷ ws) h = let (ns, e) = weigh ws h in (n ∷ ns, ap (λ xs. pos n ∷ xs) e)
weigh (negsuc n ∷ ws) h = ground (arith, h)

sum-total : (ns : List ℕ) → sum_ℤ (map pos ns) ≡ pos (total ns)
unfolding sum_ℤ total ◌+ℤ◌
sum-total [] = refl
sum-total (n ∷ ns) = rw (sum-total ns) (ground arith)

abbrev pub units_of : Money → ℤ
units_of a = a.minor_units

unwrap :
    (c : Currency) (us : List ℤ)
    → map units_of (map (λ u. record { minor_units = u; currency = c }) us) ≡ us
unwrap c [] = refl
unwrap c (u ∷ us) = ap (λ xs. u ∷ xs) (unwrap c us)

of_currency :
    (c : Currency) (us : List ℤ)
    → All {A = Money} (λ p. p.currency ≡ c) (map (λ u. record { minor_units = u; currency = c }) us)
of_currency c [] = tt
of_currency c (u ∷ us) = (refl, of_currency c us)

map-length {ℓ κ} :
    {A : Type ℓ} {B : Type κ} (f : A → B) (xs : List A) → length (map f xs) ≡ length xs
map-length f [] = refl
map-length f (x ∷ xs) = ap suc (map-length f xs)

-- Weights that are not negative and have a positive sum always give an allocation: as many parts as
-- weights, all in the amount's currency, whose units sum to exactly the amount's.
pub allocate-sum :
    (a : Money) (weights : List ℤ) (t : ℕ)
    → any is_negative weights ≡ false
    → sum_ℤ weights ≡ pos (suc t)
    → (parts : List Money) × (allocate a weights ≡ ok parts)
      × (sum_ℤ (map units_of parts) ≡ a.minor_units)
      × (length parts ≡ length weights)
      × All {A = Money} (λ p. p.currency ≡ a.currency) parts
unfolding allocate allocate_by sum_ℤ
allocate-sum a [] t h s = ground (arith, s)
allocate-sum a (w ∷ ws) t h s =
    let (ns, e) = weigh (w ∷ ws) h in
    let weight : total ns ≡ suc t = ap pos_part (sym (sum-total ns) ∙ ap sum_ℤ (sym e) ∙ s) in
    let units = allocate_units a.minor_units (suc t) (w ∷ ws) in
    let parts = map (λ u. record { minor_units = u; currency = a.currency }) units in
    let (all_units, count) = allocate_units-sum a.minor_units (suc t) ns (zero-lt-suc t) weight in
    let same : units ≡ allocate_units a.minor_units (suc t) (map pos ns) =
      ap (allocate_units a.minor_units (suc t)) e in
    (
      parts,
      rw (h, s) refl,
      ap sum_ℤ (unwrap a.currency units ∙ same) ∙ all_units,
      map-length _ units ∙ ap length same ∙ count ∙ sym (ap length e ∙ map-length pos ns),
      of_currency a.currency units,
    )

-- An amount added in its own currency is taken away again by `subtract`.
pub subtract-add :
    (a b : Money) → a.currency ≡ b.currency → (c : Money) × (add a b ≡ ok c) × (subtract c b ≡ ok a)
unfolding add subtract if_same_currency
subtract-add a b h =
    let same : same_text a.currency.code b.currency.code ≡ true =
      (eq_iff a.currency.code b.currency.code).1 (ap (λ c. c.code) h) in
    (
      record { minor_units = a.minor_units +ℤ b.minor_units; currency = a.currency },
      rw same refl,
      rw (same, +ℤ_cancel a.minor_units b.minor_units) refl,
    )

allocate_by-err :
    (a : Money) (ws : List ℤ) (t : ℕ)
    → (allocate_by a ws (pos t) ≡ err KernelError.invalid_allocation) ↔ (pos t ≡ pos 0)
unfolding allocate_by
allocate_by-err a ws zero = ground arith
allocate_by-err a ws (suc t) = ground arith

-- An allocation is refused exactly when a weight is negative or the weights sum to zero; an empty
-- list of weights sums to zero.
pub allocate-err :
    (a : Money) (weights : List ℤ)
    → (allocate a weights ≡ err KernelError.invalid_allocation)
      ↔ ((any is_negative weights ≡ true) ⊎ (sum_ℤ weights ≡ pos 0))
unfolding allocate
allocate-err a [] = (λ h. inr refl, λ h. refl)
allocate-err a (w ∷ ws) = elim (Bool-cases (any is_negative (w ∷ ws))) [
  | inl bad ↦ (λ h. inl bad, λ h. rw bad refl)
  | inr fine ↦
      let (ns, e) = weigh (w ∷ ws) fine in
      let weight : sum_ℤ (w ∷ ws) ≡ pos (total ns) = ap sum_ℤ e ∙ sum-total ns in
      let law = allocate_by-err a (w ∷ ws) (total ns) in
      (
        λ h.
            inr
              (weight ∙ law.0 (ap (allocate_by a (w ∷ ws)) (sym weight) ∙ ground (arith, fine, h))),
        λ h. elim h [
          | inl bad ↦ ground (arith, fine, bad)
          | inr none_left ↦
              rw fine (ap (allocate_by a (w ∷ ws)) weight ∙ law.1 (sym weight ∙ none_left))
        ],
      )
]
