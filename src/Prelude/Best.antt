-- ===== src/Prelude/Best.antt =====
-- A loop that keeps the best entry so far: `candidate beats winner ? candidate : winner`.
use mathlib.Core.Path.{◌≡◌, refl, sym, ◌∙◌}
use mathlib.Core.Logic.{◌⊎◌, inl, inr}
use mathlib.Core.Bool.{Bool, true, false}
use mathlib.Core.List.{List, [], ◌∷◌}
use karar_flutter_version.Prelude.Tests.{if◌then◌else◌, Bool-cases}
use karar_flutter_version.Prelude.Lists.{Any, All}

module _ {A : Type 0} (beats : A → A → Bool) where
  abbrev pub best : A → List A → A
  best winner [] = winner
  best winner (a ∷ rest) = best (if beats a winner then a else winner) rest

  -- `beats` is the strict part of an order in which any two entries compare.
  abbrev pub IsRanking : Type 0
  IsRanking =
      ((a : A) → beats a a ≡ false)
      × ((a b c : A) → beats b a ≡ true → beats c a ≡ false → beats c b ≡ false)
      × ((a b c : A) → beats b a ≡ false → beats c b ≡ false → beats c a ≡ false)

  step :
      IsRanking
      → (w a : A)
      → let x = if beats a w then a else w in
        (beats w x ≡ false) × (beats a x ≡ false) × ((x ≡ w) ⊎ (x ≡ a))
  step (irreflexive, forward, back) w a = elim (Bool-cases (beats a w)) [
    | inl up ↦ rw up (forward w a w up (irreflexive w), irreflexive a, inr refl)
    | inr down ↦ rw down (irreflexive w, down, inl refl)
  ]

  -- The result is an entry, and no entry beats it.
  pub best-wins :
      IsRanking
      → (w : A) (rest : List A)
      → (beats w (best w rest) ≡ false)
        × All (λ c. beats c (best w rest) ≡ false) rest
        × ((best w rest ≡ w) ⊎ Any (λ c. c ≡ best w rest) rest)
  best-wins rank w [] = (rank.0 w, tt, inl refl)
  best-wins rank w (a ∷ rest) =
      let x = if beats a w then a else w in
      let (old, new, which) = step rank w a in
      let (kept, later, found) = best-wins rank x rest in
      (
        rank.2 (best x rest) x w kept old,
        (rank.2 (best x rest) x a kept new, later),
        elim found [
          | inl same ↦ elim which [
            | inl first ↦ inl (same ∙ first)
            | inr second ↦ inr (inl (sym (same ∙ second)))
          ]
          | inr more ↦ inr (inr more)
        ],
      )
