-- ===== src/Prelude/Table.antt =====
-- SQL over a table that is the list of its rows: `UPDATE ... WHERE` and its row count, and
-- `ORDER BY ... LIMIT`; with what an update keeps.
use Prim.Native.Nat.{ℕ, zero, suc, ◌+◌, ◌≤◌}
use mathlib.Core.Path.{◌≡◌, refl}
use mathlib.Core.Logic.{inl, inr}
use mathlib.Core.Bool.{Bool, true, false, ◌||◌}
use mathlib.Core.Option.{some}
use mathlib.Core.List.{List, [], ◌∷◌}
use native.Mathlib.Omega.{arith}
use karar_flutter_version.Prelude.Tests.{if◌then◌else◌, leb, Bool-cases}
use karar_flutter_version.Prelude.Lists.{any, find, All-mono, All, length}

abbrev pub lesser : ℕ → ℕ → ℕ
lesser a b = if leb a b then a else b

abbrev pub greater : ℕ → ℕ → ℕ
greater a b = if leb a b then b else a

module _ {A : Type 0} where
  unfoldable pub update_where : (A → Bool) → (A → A) → List A → List A
  update_where test change [] = []
  update_where test change (r ∷ rows) =
      (if test r then change r else r) ∷ update_where test change rows

  abbrev pub count : (A → Bool) → List A → ℕ
  count test [] = 0
  count test (r ∷ rows) = (if test r then 1 else 0) + count test rows

  abbrev pub take : ℕ → List A → List A
  take zero rows = []
  take (suc n) [] = []
  take (suc n) (r ∷ rows) = r ∷ take n rows

  abbrev pub insert_by : (A → A → Bool) → A → List A → List A
  insert_by before r [] = r ∷ []
  insert_by before r (s ∷ rows) =
      let later = insert_by before r rows in if before s r then s ∷ later else r ∷ s ∷ rows

  -- `ORDER BY`, with `before` the strict order.
  abbrev pub sort_by : (A → A → Bool) → List A → List A
  sort_by before [] = []
  sort_by before (r ∷ rows) = insert_by before r (sort_by before rows)

  -- What every row has, and the change keeps, every row of the table has after the update.
  pub update_where-All :
      (P Q : A → Type 0) (test : A → Bool) (change : A → A)
      → ((r : A) → test r ≡ true → P r → Q (change r))
      → ((r : A) → test r ≡ false → P r → Q r)
      → (rows : List A) → All P rows
      → All Q (update_where test change rows)
  unfolding update_where
  update_where-All P Q test change hit miss [] h = tt
  update_where-All P Q test change hit miss (r ∷ rows) h = elim (Bool-cases (test r)) [
    | inl e ↦ rw e (hit r e h.0, update_where-All P Q test change hit miss rows h.1)
    | inr e ↦ rw e (miss r e h.0, update_where-All P Q test change hit miss rows h.1)
  ]

  pub update_where_keeps :
      (P : A → Type 0) (test : A → Bool) (change : A → A)
      → ((r : A) → test r ≡ true → P r → P (change r))
      → (rows : List A) → All P rows
      → All P (update_where test change rows)
  update_where_keeps P test change hit = update_where-All P P test change hit (λ r miss k. k)

  -- Of what holds of each changed row and of each row that is not changed.
  pub update_where_gives :
      (Q : A → Type 0) (test : A → Bool) (change : A → A)
      → ((r : A) → test r ≡ true → Q (change r))
      → ((r : A) → test r ≡ false → Q r)
      → (rows : List A) → All Q (update_where test change rows)
  update_where_gives Q test change hit miss rows =
      update_where-All (λ r. Unit) Q test change (λ r e k. hit r e) (λ r e k. miss r e) rows
        (every rows)
    where
      every : (xs : List A) → All (λ x. Unit) xs
      every [] = tt
      every (x ∷ xs) = (tt, every xs)

  -- An update that keeps what a test reads keeps its answer.
  pub update_where-any :
      (p test : A → Bool) (change : A → A)
      → ((r : A) → p (change r) ≡ p r)
      → (rows : List A) → any p (update_where test change rows) ≡ any p rows
  unfolding update_where
  update_where-any p test change same [] = refl
  update_where-any p test change same (r ∷ rows) =
      let rest = update_where-any p test change same rows in
      let now = same r in
      elim (Bool-cases (test r)) [ inl e ↦ rw (e, now, rest) refl | inr e ↦ rw (e, rest) refl ]

  pub update_where-count :
      (p test : A → Bool) (change : A → A)
      → ((r : A) → p (change r) ≡ p r)
      → (rows : List A) → count p (update_where test change rows) ≡ count p rows
  unfolding update_where
  update_where-count p test change same [] = refl
  update_where-count p test change same (r ∷ rows) =
      let rest = update_where-count p test change same rows in
      let now = same r in
      elim (Bool-cases (test r)) [ inl e ↦ rw (e, now, rest) refl | inr e ↦ rw (e, rest) refl ]

  -- An update of rows that pass a test, which makes them fail it, takes them off its count.
  pub count-taken :
      (p test : A → Bool) (change : A → A)
      → ((r : A) → p (change r) ≡ false)
      → (rows : List A) → All (λ r. test r ≡ true → p r ≡ true) rows
      → count p (update_where test change rows) + count test rows ≡ count p rows
  unfolding update_where
  count-taken p test change gone [] h = refl
  count-taken p test change gone (r ∷ rows) h =
      let rest = count-taken p test change gone rows h.1 in
      let now = gone r in
      elim (Bool-cases (test r)) [
        | inl e ↦ let was = h.0 e in rw (e, now, was) (omega (arith, rest))
        | inr e ↦ rw e (omega (arith, rest))
      ]

  pub count-fewer :
      (p test : A → Bool) (change : A → A)
      → ((r : A) → p (change r) ≡ false)
      → (rows : List A) → count p (update_where test change rows) ≤ count p rows
  unfolding update_where
  count-fewer p test change gone [] = omega arith
  count-fewer p test change gone (r ∷ rows) =
      let rest = count-fewer p test change gone rows in
      let now = gone r in
      elim (Bool-cases (test r)) [
        | inl e ↦ rw (e, now) (omega (arith, rest))
        | inr e ↦ rw e (omega (arith, rest))
      ]

  pub count-absent : (p : A → Bool) (rows : List A) → any p rows ≡ false → count p rows ≡ 0
  count-absent p [] h = refl
  count-absent p (r ∷ rows) h = ground (arith, h, count-absent p rows)

  pub count-zero : (p : A → Bool) (rows : List A) → count p rows ≡ 0 → All (λ r. p r ≡ false) rows
  count-zero p [] h = tt
  count-zero p (r ∷ rows) h = elim (Bool-cases (p r)) [
    | inl e ↦ ground (arith, e, h)
    | inr e ↦ (e, count-zero p rows (ground (arith, e, h)))
  ]

  -- The row that is found is the only one, where there is one at most.
  pub find-only :
      (p : A → Bool) (rows : List A) (a : A)
      → find p rows ≡ some a
      → count p rows ≤ 1
      → All (λ r. p r ≡ true → r ≡ a) rows
  find-only p [] a e h = tt
  find-only p (r ∷ rows) a e h = elim (Bool-cases (p r)) [
    | inl yes_r ↦
        let none_else = count-zero p rows (ground (arith, yes_r, h)) in
        (
          (λ k. ground (arith, yes_r, e)),
          All-mono _ _ (λ s f k. ground (arith, f, k)) rows none_else,
        )
    | inr no_r ↦ (
      (λ k. ground (arith, no_r, k)),
      find-only p rows a (ground (arith, no_r, e)) (ground (arith, no_r, h)),
    )
  ]

  pub length-take : (n : ℕ) (rows : List A) → length (take n rows) ≤ n
  length-take zero rows = omega arith
  length-take (suc n) [] = omega arith
  length-take (suc n) (r ∷ rows) = omega (arith, length-take n rows)

  pub count-or :
      (p q : A → Bool) (rows : List A) → count (λ r. p r || q r) rows ≤ count p rows + count q rows
  count-or p q [] = omega arith
  count-or p q (r ∷ rows) = ground (arith, count-or p q rows)

  -- Two tests that no row passes both of.
  pub count-apart :
      (p q : A → Bool) (rows : List A)
      → All (λ r. p r ≡ true → q r ≡ false) rows
      → count p rows + count q rows ≤ count (λ r. p r || q r) rows
  count-apart p q [] h = omega arith
  count-apart p q (r ∷ rows) h =
      let rest = count-apart p q rows h.1 in let here = h.0 in ground (arith, rest, here)

  pub count-some : (p : A → Bool) (rows : List A) → any p rows ≡ true → 1 ≤ count p rows
  count-some p [] h = cc
  count-some p (r ∷ rows) h = ground (arith, h, count-some p rows)

  pub count-none : (p : A → Bool) (rows : List A) → All (λ r. p r ≡ false) rows → count p rows ≡ 0
  count-none p [] h = refl
  count-none p (r ∷ rows) h = rw h.0 (omega (arith, count-none p rows h.1))

  pub count-nothing : (rows : List A) → count (λ r. false) rows ≡ 0
  count-nothing [] = refl
  count-nothing (r ∷ rows) = omega (arith, count-nothing rows)

  -- Sorting and cutting give rows of the table.
  pub insert_row-All :
      (P : A → Type 0) (before : A → A → Bool) (r : A) (rows : List A)
      → P r
      → All P rows
      → All P (insert_by before r rows)
  insert_row-All P before r [] h k = (h, tt)
  insert_row-All P before r (s ∷ rows) h k = elim (Bool-cases (before s r)) [
    | inl e ↦ rw e (k.0, insert_row-All P before r rows h k.1)
    | inr e ↦ rw e (h, k)
  ]

  pub sort_by-All :
      (P : A → Type 0) (before : A → A → Bool) (rows : List A)
      → All P rows
      → All P (sort_by before rows)
  sort_by-All P before [] h = tt
  sort_by-All P before (r ∷ rows) h =
      insert_row-All P before r (sort_by before rows) h.0 (sort_by-All P before rows h.1)

  pub take-All : (P : A → Type 0) (n : ℕ) (rows : List A) → All P rows → All P (take n rows)
  take-All P zero rows h = tt
  take-All P (suc n) [] h = tt
  take-All P (suc n) (r ∷ rows) h = (h.0, take-All P n rows h.1)
