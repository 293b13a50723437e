-- ===== src/Kernel/Money.antt =====
-- packages/shared-kernel/src/money.ts and currency.ts: an amount is a whole number of minor units in
-- a currency.
pub mod Allocation
pub mod Leftover
pub mod Laws
use Prim.Native.String
use karar_flutter_version.Prelude.{
  ℕ, zero, suc, ◌+◌, ◌*◌, ◌-◌, String, Bool, true, false, not, ◌&&◌, List, [], ◌∷◌, map, any,
  length, leb, ltb, ◌==◌, same_text, if◌then◌else◌, Result, ok, err,
}
use karar_flutter_version.Prelude.Int.{ℤ, pos, negsuc, pos_part, neg_part, ◌+ℤ◌, ◌-ℤ◌, ◌*ℤ◌, ltb_ℤ}
use karar_flutter_version.Kernel.IntegerMath.{
  KernelError, RoundingMode, neg, trunc_div, trunc_mod, is_negative, magnitude, pow10,
  divide_rounded,
}

pub record Currency : Type 0 where
  pub code : String
  pub exponent : ℕ

pub record Money : Type 0 where
  pub minor_units : ℤ
  pub currency : Currency

pub zero_money : Currency → Money
zero_money currency = record { minor_units = pos 0; currency = currency }

-- `assertSameCurrency` before the operation.
if_same_currency {ℓ} : {A : Type ℓ} → Money → Money → A → Result A KernelError
if_same_currency a b result =
    if same_text a.currency.code b.currency.code
    then ok result
    else err KernelError.currency_mismatch

pub add : Money → Money → Result Money KernelError
unfolding if_same_currency
add a b =
    if_same_currency a b
      (record { minor_units = a.minor_units +ℤ b.minor_units; currency = a.currency })

pub subtract : Money → Money → Result Money KernelError
unfolding if_same_currency
subtract a b =
    if_same_currency a b
      (record { minor_units = a.minor_units -ℤ b.minor_units; currency = a.currency })

pub compare_money : Money → Money → Result ℤ KernelError
unfolding if_same_currency
compare_money a b = if_same_currency a b (
    if ltb_ℤ a.minor_units b.minor_units
    then negsuc 0
    else if ltb_ℤ b.minor_units a.minor_units
    then pos 1
    else pos 0)

-- `===` on the units: neither is smaller.
pub equals : Money → Money → Result Bool KernelError
unfolding if_same_currency
equals a b =
    if_same_currency a b
      (not (ltb_ℤ a.minor_units b.minor_units) && not (ltb_ℤ b.minor_units a.minor_units))

pub negate : Money → Money
negate a = record { minor_units = pos 0 -ℤ a.minor_units; currency = a.currency }

pub abs_money : Money → Money
unfolding negate
abs_money a = if is_negative a.minor_units then negate a else a

unfoldable pub with_units : Currency → Result ℤ KernelError → Result Money KernelError
with_units currency (ok units) = ok (record { minor_units = units; currency = currency })
with_units currency (err e) = err e

-- The percentage is `value / 10^scale`.
unfoldable pub multiply_by_percentage :
    Money → (value : ℤ) (scale : ℕ) → RoundingMode → Result Money KernelError
unfolding with_units
multiply_by_percentage a value scale rounding_mode =
    with_units a.currency (divide_rounded (a.minor_units *ℤ value) (pow10 scale) rounding_mode)

-- The floor of a share, and what flooring leaves: the quotient is cut towards zero, and corrected
-- when the remainder is negative.
pub record Share : Type 0 where
  pub quotient : ℤ
  pub remainder : ℤ

correct_share : ℤ → ℤ → ℕ → Share
correct_share quotient (pos r) total_weight = record { quotient = quotient; remainder = pos r }
correct_share quotient (negsuc r) total_weight = record {
  quotient = quotient -ℤ pos 1;
  remainder = negsuc r +ℤ pos total_weight;
}

pub share_of : ℤ → ℕ → ℤ → Share
unfolding correct_share trunc_div trunc_mod
share_of minor_units total_weight weight =
    let product = minor_units *ℤ weight in
    correct_share (trunc_div product total_weight) (trunc_mod product total_weight) total_weight

unfoldable pub sum_ℤ : List ℤ → ℤ
sum_ℤ [] = pos 0
sum_ℤ (a ∷ rest) = a +ℤ sum_ℤ rest

-- `byLargestRemainder`: a remainder with its index, sorted by the larger remainder, then the earlier
-- index.
pub record Ranked : Type 0 where
  pub remainder : ℤ
  pub index : ℕ

ranks_before : Ranked → Ranked → Bool
ranks_before a b =
    if ltb_ℤ b.remainder a.remainder
    then true
    else if ltb_ℤ a.remainder b.remainder
    then false
    else leb a.index b.index

insert_ranked : Ranked → List Ranked → List Ranked
unfolding ranks_before
insert_ranked a [] = a ∷ []
insert_ranked a (b ∷ rest) =
    let later = insert_ranked a rest in if ranks_before a b then a ∷ b ∷ rest else b ∷ later

pub sort_ranked : List Ranked → List Ranked
unfolding insert_ranked
sort_ranked [] = []
sort_ranked (a ∷ rest) = insert_ranked a (sort_ranked rest)

pub index_from : ℕ → List Share → List Ranked
index_from i [] = []
index_from i (s ∷ rest) = record { remainder = s.remainder; index = i } ∷ index_from (suc i) rest

-- `floors[index] = (floors[index] ?? 0n) + 1n`; a hole before the index counts as 0.
bump : ℕ → List ℤ → List ℤ
bump zero [] = pos 1 ∷ []
bump zero (a ∷ rest) = (a +ℤ pos 1) ∷ rest
bump (suc i) [] = pos 0 ∷ bump i []
bump (suc i) (a ∷ rest) = a ∷ bump i rest

-- One unit to each of the first `leftover` winners.
pub hand_out : ℕ → List Ranked → List ℤ → List ℤ
unfolding bump
hand_out zero winners floors = floors
hand_out (suc leftover) [] floors = floors
hand_out (suc leftover) (w ∷ winners) floors = hand_out leftover winners (bump w.index floors)

allocate_units : ℤ → ℕ → List ℤ → List ℤ
unfolding share_of sum_ℤ sort_ranked index_from hand_out
allocate_units minor_units total_weight weights =
    let shares = map (share_of minor_units total_weight) weights in
    let floors = map (λ s. s.quotient) shares in
    let leftover = pos_part (minor_units -ℤ sum_ℤ floors) in
    hand_out leftover (sort_ranked (index_from 0 shares)) floors

-- The weights have been checked; `total_weight` is at least 0.
allocate_by : Money → List ℤ → ℤ → Result (List Money) KernelError
unfolding allocate_units
allocate_by a weights (pos (suc total)) = ok (
    map (λ units. record { minor_units = units; currency = a.currency })
      (allocate_units a.minor_units (suc total) weights))
allocate_by a weights total = err KernelError.invalid_allocation

pub allocate : Money → List ℤ → Result (List Money) KernelError
unfolding allocate_by sum_ℤ
allocate a [] = err KernelError.invalid_allocation
allocate a (w ∷ weights) =
    if any is_negative (w ∷ weights)
    then err KernelError.invalid_allocation
    else allocate_by a (w ∷ weights) (sum_ℤ (w ∷ weights))
