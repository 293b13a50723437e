-- ===== src/Kernel/Money/Leftover.antt =====
-- Handing out the units that flooring leaves: the sum grows by their number, and no part is added.
use mathlib.Core.Path.{subst}
use karar_flutter_version.Prelude.{
  ℕ, zero, suc, ◌+◌, ◌≤◌, ◌<◌, ◌≡◌, refl, sym, ap, ◌∙◌, List, [], ◌∷◌, length, All, arith,
  Bool-cases, inl, inr,
}
use karar_flutter_version.Prelude.Int.{ℤ, pos, pos_part, neg_part, ◌+ℤ◌, int_laws}
use karar_flutter_version.Kernel.Money.{
  Share, sum_ℤ, ranks_before, Ranked, sort_ranked, insert_ranked, index_from, bump, hand_out,
}

bump-sum : (i : ℕ) (fs : List ℤ) → sum_ℤ (bump i fs) ≡ sum_ℤ fs +ℤ pos 1
unfolding sum_ℤ bump
bump-sum zero [] = omega int_laws
bump-sum zero (f ∷ fs) = omega int_laws
bump-sum (suc i) [] = let ih = bump-sum i [] in omega (int_laws, ap pos_part ih, ap neg_part ih)
bump-sum (suc i) (f ∷ fs) =
    let ih = bump-sum i fs in omega (int_laws, ap pos_part ih, ap neg_part ih)

bump-length : (i : ℕ) (fs : List ℤ) → i < length fs → length (bump i fs) ≡ length fs
unfolding bump
bump-length zero [] h = omega (arith, h)
bump-length (suc i) [] h = omega (arith, h)
bump-length zero (f ∷ fs) h = refl
bump-length (suc i) (f ∷ fs) h = ap suc (bump-length i fs (omega (arith, h)))

pub hand_out-sum :
    (k : ℕ) (ws : List Ranked) (fs : List ℤ)
    → k ≤ length ws
    → sum_ℤ (hand_out k ws fs) ≡ sum_ℤ fs +ℤ pos k
unfolding hand_out
hand_out-sum zero ws fs h = omega int_laws
hand_out-sum (suc k) [] fs h = ground (arith, h)
hand_out-sum (suc k) (w ∷ ws) fs h =
    let ih = hand_out-sum k ws (bump w.index fs) (omega (arith, h)) in
    let one = bump-sum w.index fs in
    omega (int_laws, ap pos_part ih, ap neg_part ih, ap pos_part one, ap neg_part one)

pub IsInRange : ℕ → Ranked → Type 0
IsInRange n r = r.index < n

pub hand_out-length :
    (k : ℕ) (ws : List Ranked) (fs : List ℤ)
    → All (IsInRange (length fs)) ws
    → length (hand_out k ws fs) ≡ length fs
unfolding hand_out IsInRange
hand_out-length zero ws fs h = refl
hand_out-length (suc k) [] fs h = refl
hand_out-length (suc k) (w ∷ ws) fs h =
    let same = bump-length w.index fs h.0 in
    hand_out-length k ws (bump w.index fs) (subst (λ n. All (IsInRange n) ws) (sym same) h.1) ∙ same

insert_ranked-length :
    (a : Ranked) (bs : List Ranked) → length (insert_ranked a bs) ≡ suc (length bs)
unfolding insert_ranked
insert_ranked-length a [] = refl
insert_ranked-length a (b ∷ bs) = ground (arith, insert_ranked-length a bs)

pub sort_ranked-length : (rs : List Ranked) → length (sort_ranked rs) ≡ length rs
unfolding sort_ranked
sort_ranked-length [] = refl
sort_ranked-length (a ∷ rs) =
    insert_ranked-length a (sort_ranked rs) ∙ ap suc (sort_ranked-length rs)

insert_ranked-All :
    (P : Ranked → Type 0) (a : Ranked) (bs : List Ranked)
    → P a
    → All P bs
    → All P (insert_ranked a bs)
unfolding insert_ranked ranks_before
insert_ranked-All P a [] h k = (h, tt)
insert_ranked-All P a (b ∷ bs) h k = elim (Bool-cases (ranks_before a b)) [
  | inl yes_first ↦ rw yes_first (h, k)
  | inr later ↦ rw later (k.0, insert_ranked-All P a bs h k.1)
]

pub sort_ranked-All : (P : Ranked → Type 0) (rs : List Ranked) → All P rs → All P (sort_ranked rs)
unfolding sort_ranked
sort_ranked-All P [] h = tt
sort_ranked-All P (a ∷ rs) h = insert_ranked-All P a (sort_ranked rs) h.0 (sort_ranked-All P rs h.1)

pub index_from-IsInRange :
    (i n : ℕ) (ss : List Share) → i + length ss ≤ n → All (IsInRange n) (index_from i ss)
unfolding index_from IsInRange
index_from-IsInRange i n [] h = tt
index_from-IsInRange i n (s ∷ ss) h =
    (omega (arith, h), index_from-IsInRange (suc i) n ss (omega (arith, h)))

pub index_from-length : (i : ℕ) (ss : List Share) → length (index_from i ss) ≡ length ss
unfolding index_from
index_from-length i [] = refl
index_from-length i (s ∷ ss) = ap suc (index_from-length (suc i) ss)
