-- ===== src/Prelude/Sorting.antt =====
-- `ORDER BY ... LIMIT` by a strict order: the rows that are cut off do not come before those that are
-- kept.
use Prim.Native.Nat.{ℕ, zero, suc}
use mathlib.Core.Path.{◌≡◌, refl}
use mathlib.Core.Logic.{◌⊎◌, inl, inr}
use mathlib.Core.Bool.{Bool, true, false, not, ◌&&◌, ◌||◌}
use mathlib.Core.List.{List, [], ◌∷◌}
use native.Mathlib.Omega.{arith}
use karar_flutter_version.Prelude.Tests.{if◌then◌else◌, Bool-cases}
use karar_flutter_version.Prelude.Lists.{Any, All, All-mono, All-both, filter, length}
use karar_flutter_version.Prelude.Best.{IsRanking}
use karar_flutter_version.Prelude.Table.{take, insert_by, sort_by}

-- `ORDER BY f, g`: by the second where the first does not tell two rows apart.
abbrev pub then_by : {A : Type 0} → (A → A → Bool) → (A → A → Bool) → A → A → Bool
then_by f g a b = f a b || not (f b a) && g a b

pub then_by-IsRanking :
    {A : Type 0} (f g : A → A → Bool) → IsRanking f → IsRanking g → IsRanking (then_by f g)
then_by-IsRanking f g (same_f, up_f, down_f) (same_g, up_g, down_g) = (
  (λ a. ground (arith, same_f a, same_g a)),
  (λ a b c x y. ground (
    arith,
    x,
    y,
    up_f a b c,
    up_f b c a,
    up_f c a b,
    down_f a b c,
    down_f a c b,
    down_f b a c,
    down_f b c a,
    down_f c a b,
    down_f c b a,
    up_g a b c,
    down_g a b c,
  )),
  (λ a b c x y. ground (
    arith,
    x,
    y,
    up_f a b c,
    up_f b c a,
    up_f c a b,
    down_f a b c,
    down_f a c b,
    down_f b a c,
    down_f b c a,
    down_f c a b,
    down_f c b a,
    up_g a b c,
    down_g a b c,
  )),
)

module _ {A : Type 0} (before : A → A → Bool) where
  abbrev IsSorted : List A → Type 0
  IsSorted [] = Unit
  IsSorted (r ∷ rows) = All (λ s. before s r ≡ false) rows × IsSorted rows

  insert_by-All :
      (Q : A → Type 0) (r : A) (rows : List A) → Q r → All Q rows → All Q (insert_by before r rows)
  insert_by-All Q r [] h k = (h, tt)
  insert_by-All Q r (s ∷ rows) h k = elim (Bool-cases (before s r)) [
    | inl e ↦ rw e (k.0, insert_by-All Q r rows h k.1)
    | inr e ↦ rw e (h, k)
  ]

  insert_by-IsSorted :
      IsRanking before
      → (r : A) (rows : List A) → IsSorted rows
      → IsSorted (insert_by before r rows)
  insert_by-IsSorted rank r [] h = (tt, tt)
  insert_by-IsSorted rank r (s ∷ rows) h = elim (Bool-cases (before s r)) [
    | inl e ↦ rw e (
      insert_by-All (λ x. before x s ≡ false) r rows (rank.1 r s r e (rank.0 r)) h.0,
      insert_by-IsSorted rank r rows h.1,
    )
    | inr e ↦ rw e ((e, All-mono _ _ (λ x n. rank.2 r s x e n) rows h.0), h)
  ]

  sort_by-IsSorted : IsRanking before → (rows : List A) → IsSorted (sort_by before rows)
  sort_by-IsSorted rank [] = tt
  sort_by-IsSorted rank (r ∷ rows) =
      insert_by-IsSorted rank r (sort_by before rows) (sort_by-IsSorted rank rows)

  -- What every sorted row has, every row has.
  insert_by-back :
      (Q : A → Type 0) (r : A) (rows : List A) → All Q (insert_by before r rows) → Q r × All Q rows
  insert_by-back Q r [] h = h
  insert_by-back Q r (s ∷ rows) h = by_test (before s r) (insert_by-back Q r rows) h
    where
      by_test :
          (b : Bool)
          → (All Q (insert_by before r rows) → Q r × All Q rows)
          → All Q (if b then s ∷ insert_by before r rows else r ∷ s ∷ rows)
          → Q r × All Q (s ∷ rows)
      by_test true ih k = let (x, y) = ih k.1 in (x, (k.0, y))
      by_test false ih k = k

  sort_by-back : (Q : A → Type 0) (rows : List A) → All Q (sort_by before rows) → All Q rows
  sort_by-back Q [] h = tt
  sort_by-back Q (r ∷ rows) h =
      let (x, y) = insert_by-back Q r (sort_by before rows) h in (x, sort_by-back Q rows y)

  filter-back :
      (Q : A → Type 0) (p : A → Bool) (rows : List A)
      → All Q (filter p rows)
      → All (λ r. p r ≡ true → Q r) rows
  filter-back Q p [] h = tt
  filter-back Q p (r ∷ rows) h = by_test (p r) refl (filter-back Q p rows) h
    where
      by_test :
          (b : Bool)
          → p r ≡ b
          → (All Q (filter p rows) → All (λ s. p s ≡ true → Q s) rows)
          → All Q (if b then r ∷ filter p rows else filter p rows)
          → All (λ s. p s ≡ true → Q s) (r ∷ rows)
      by_test true e ih k = ((λ m. k.0), ih k.1)
      by_test false e ih k = ((λ m. ground (arith, e, m)), ih k)

  -- A row is kept, or as many as the limit are, and it does not come before any of them.
  abbrev pub IsBehind : ℕ → List A → A → Type 0
  IsBehind n kept u =
      Any (λ r. r ≡ u) kept ⊎ ((length kept ≡ n) × All (λ r. before u r ≡ false) kept)

  take-IsBehind : (n : ℕ) (rows : List A) → IsSorted rows → All (IsBehind n (take n rows)) rows
  take-IsBehind zero rows h = every rows
    where
      every : (xs : List A) → All (IsBehind 0 []) xs
      every [] = tt
      every (x ∷ xs) = (inr (refl, tt), every xs)
  take-IsBehind (suc n) [] h = tt
  take-IsBehind (suc n) (r ∷ rows) h = (
    inl (inl refl),
    All-both _ _ (IsBehind (suc n) (r ∷ take n rows))
        (λ u later k. elim k [
          | inl m ↦ inl (inr m)
          | inr (full, apart) ↦ inr (omega (arith, full), (later, apart))
        ])
        rows h.0 (take-IsBehind n rows h.1),
  )

  -- Of the rows that pass a test, the limit cuts one off only where it is reached, and none that comes
  -- before one that it keeps.
  pub limit-IsBehind :
      IsRanking before
      → (p : A → Bool) (n : ℕ) (rows : List A)
      → All (λ u. p u ≡ true → IsBehind n (take n (sort_by before (filter p rows))) u) rows
  limit-IsBehind rank p n rows =
      let kept = take n (sort_by before (filter p rows)) in
      filter-back (IsBehind n kept) p rows (
        sort_by-back (IsBehind n kept) (filter p rows) (
          take-IsBehind n (sort_by before (filter p rows)) (sort_by-IsSorted rank (filter p rows))))
