-- ===== src/SubjectPolicy/Selection/Governing.antt =====
-- Which election governs an instant, and when one has run out.
use mathlib.Core.Path.{subst}
use karar_flutter_version.Prelude.{
  ℕ, ◌≤◌, ◌<◌, ltb, String, ◌≡◌, refl, sym, ◌∙◌, ◌⊎◌, ◌↔◌, inl, inr, Bool-cases, true, false,
  Option, none, some, List, [], ◌∷◌, filter, filter-Any, Any, All, window_covers_iff, Covers, best,
  best-wins, arith,
}
use karar_flutter_version.SubjectPolicy.Selection.{
  SubjectPolicySelection, SelectionAtInstant, withdrawn_by, was_withdrawn_by, is_candidate, shadows,
  end_of, ran_out, ends_later, keep_expired, expired_row, no_effective, select_among,
  resolve_selection_at,
}
use karar_flutter_version.SubjectPolicy.Selection.Order.{
  shadows-IsRanking, IsUpTo, text_after-IsUpTo,
}

-- The election's window covers the instant and it was not withdrawn by then.
abbrev pub Bears : ℕ → SubjectPolicySelection → Type 0
Bears at row = Covers row.effective_from row.effective_to at × (was_withdrawn_by row at ≡ false)

candidate_iff :
    (rows : List SubjectPolicySelection) (at : ℕ) (s : SubjectPolicySelection)
    → Any (λ x. x ≡ s) (filter (is_candidate at) rows) ↔ (Any (λ x. x ≡ s) rows × Bears at s)
candidate_iff rows at s =
    let both = filter-Any (is_candidate at) rows s in
    let covers = window_covers_iff s.effective_from s.effective_to at in
    (
      λ h. let (m, c) = both.0 h in (m, (covers.0 (ground (arith, c)), ground (arith, c))),
      λ (m, (c, w)). both.1 (m, (let k = covers.1 c in ground (arith, k, w))),
    )

effective_among :
    (rows cs : List SubjectPolicySelection) (at : ℕ) (s : SubjectPolicySelection)
    → select_among at rows cs ≡ SelectionAtInstant.effective s
    → Any (λ x. x ≡ s) cs × All (λ c. shadows c s ≡ false) cs
unfolding select_among no_effective
effective_among rows [] at s h = lapsed (expired_row at none rows) h
  where
    lapsed :
        (o : Option SubjectPolicySelection)
        → no_effective o ≡ SelectionAtInstant.effective s
        → ⊥ × Unit {0}
    lapsed none k = ground (arith, k)
    lapsed (some row) k = ground (arith, k)
effective_among rows (c ∷ cs) at s h =
    let won : best shadows c (c ∷ cs) ≡ s = ground (arith, h) in
    let (first, rest, found) = best-wins shadows shadows-IsRanking c (c ∷ cs) in
    subst (λ w. Any (λ x. x ≡ w) (c ∷ cs) × All (λ x. shadows x w ≡ false) (c ∷ cs)) won
      (elim found [ inl e ↦ inl (sym e) | inr m ↦ m ], rest)

All-of :
    (P : SubjectPolicySelection → Type 0) (xs : List SubjectPolicySelection)
    (a : SubjectPolicySelection)
    → All P xs
    → Any (λ x. x ≡ a) xs
    → P a
All-of P [] a h m = elim m [ ]
All-of P (x ∷ xs) a h m = elim m [ inl e ↦ subst P e h.0 | inr later ↦ All-of P xs a h.1 later ]

-- No withdrawal of the row took effect by the instant.
abbrev pub Stands : ℕ → SubjectPolicySelection → Type 0
Stands at row = (t : ℕ) → row.withdrawn_at ≡ some t → at < t

was_withdrawn_by-Stands :
    (at : ℕ) (row : SubjectPolicySelection) → was_withdrawn_by row at ≡ false → Stands at row
unfolding was_withdrawn_by withdrawn_by
was_withdrawn_by-Stands at row h t e =
    let k = subst (λ o. withdrawn_by o at ≡ false) e h in ground (arith, k)

-- The first row does not win over the second: it took effect earlier, or at the same instant with an
-- id that is no greater.
abbrev pub YieldsTo : (c s : SubjectPolicySelection) → Type 0
YieldsTo c s =
    (c.effective_from < s.effective_from)
    ⊎ ((c.effective_from ≡ s.effective_from) × IsUpTo c.id s.id)

shadows-YieldsTo : (c s : SubjectPolicySelection) → shadows c s ≡ false → YieldsTo c s
shadows-YieldsTo c s h = elim (Bool-cases (ltb c.effective_from s.effective_from)) [
  | inl e ↦ inl (ground (arith, e))
  | inr e ↦ inr (ground (arith, e, h), text_after-IsUpTo c.id s.id (ground (arith, e, h)))
]

-- The election that governs an instant is one of the rows, its window covers the instant, and it was
-- not withdrawn by then; and every row whose window covers the instant and that was not withdrawn by
-- then took effect earlier, or at the same instant with an id that is no greater.
pub resolve_selection_at_effective :
    (rows : List SubjectPolicySelection) (at : ℕ) (s : SubjectPolicySelection)
    → resolve_selection_at rows at ≡ SelectionAtInstant.effective s
    → Any (λ x. x ≡ s) rows
      × Bears at s
      × Stands at s
      × ((c : SubjectPolicySelection) → Any (λ x. x ≡ c) rows → Bears at c → YieldsTo c s)
unfolding resolve_selection_at
resolve_selection_at_effective rows at s h =
    let (member, last) = effective_among rows (filter (is_candidate at) rows) at s h in
    let (m, bears) = (candidate_iff rows at s).0 member in
    (
      m,
      bears,
      was_withdrawn_by-Stands at s bears.1,
      λ c n k. shadows-YieldsTo c s (
          All-of (λ c. shadows c s ≡ false) (filter (is_candidate at) rows) c last
            ((candidate_iff rows at c).1 (n, k))),
    )

-- The row ended by the instant, after it took effect and without being withdrawn.
abbrev pub RanOut : ℕ → ℕ → SubjectPolicySelection → Type 0
RanOut at end row =
    (row.effective_to ≡ some end)
    × (row.effective_from ≤ at)
    × (end ≤ at)
    × (was_withdrawn_by row at ≡ false)

ran_out_holds :
    (at : ℕ) (row : SubjectPolicySelection)
    → ran_out at row ≡ true
    → RanOut at (end_of row.effective_to) row
unfolding ran_out
ran_out_holds at row h = closed row.effective_to refl (ground (arith, h))
  where
    closed :
        (o : Option ℕ)
        → row.effective_to ≡ o
        → (ran_out at row ≡ true)
        → RanOut at (end_of row.effective_to) row
    closed none e k = ground (arith, e, k)
    closed (some end) e k = ground (arith, e, k)

keep_expired_cases :
    (w : Option SubjectPolicySelection) (r : SubjectPolicySelection)
    → (keep_expired w r ≡ r) ⊎ (w ≡ some (keep_expired w r))
unfolding keep_expired
keep_expired_cases none r = inl refl
keep_expired_cases (some v) r = elim (Bool-cases (ends_later r v)) [
  | inl up ↦ inl (ground (arith, up))
  | inr down ↦ inr (ground (arith, down))
]

expired_row_holds :
    (at : ℕ) (w : Option SubjectPolicySelection) (rows : List SubjectPolicySelection)
    (x : SubjectPolicySelection)
    → expired_row at w rows ≡ some x
    → (w ≡ some x) ⊎ (Any (λ r. r ≡ x) rows × RanOut at (end_of x.effective_to) x)
unfolding expired_row
expired_row_holds at w [] x h = inl h
expired_row_holds at w (r ∷ rows) x h = elim (Bool-cases (ran_out at r)) [
  | inl out ↦
      elim (expired_row_holds at (some (keep_expired w r)) rows x (ground (arith, out, h))) [
        | inl same ↦ elim (keep_expired_cases w r) [
          | inl new ↦
              let here : r ≡ x = ground (arith, same, new) in
              inr (
                inl here,
                subst (λ y. RanOut at (end_of y.effective_to) y) here (ran_out_holds at r out),
              )
          | inr old ↦ inl (old ∙ same)
        ]
        | inr (m, k) ↦ inr (inr m, k)
      ]
  | inr stays ↦ elim (expired_row_holds at w rows x (ground (arith, stays, h))) [
    | inl same ↦ inl same
    | inr (m, k) ↦ inr (inr m, k)
  ]
]

lapsed_among :
    (rows cs : List SubjectPolicySelection) (at : ℕ) (id : String) (t : ℕ)
    → select_among at rows cs ≡ SelectionAtInstant.expired id t
    → (cs ≡ [])
      × ((row : SubjectPolicySelection) × (expired_row at none rows ≡ some row)
          × (row.id ≡ id)
          × (end_of row.effective_to ≡ t))
unfolding select_among no_effective
lapsed_among rows (c ∷ cs) at id t h = ground (arith, h)
lapsed_among rows [] at id t h = (refl, named (expired_row at none rows) h)
  where
    named :
        (o : Option SubjectPolicySelection)
        → no_effective o ≡ SelectionAtInstant.expired id t
        → (row : SubjectPolicySelection) × (o ≡ some row)
          × (row.id ≡ id)
          × (end_of row.effective_to ≡ t)
    named none k = ground (arith, k)
    named (some row) k = (row, refl, ground (arith, k), ground (arith, k))

-- If the answer at an instant is that an election expired, then no row bears on the instant, and the
-- one named is a row that took effect and ended by the instant, at the time told, and was not
-- withdrawn by then.
pub resolve_selection_at_expired :
    (rows : List SubjectPolicySelection) (at : ℕ) (id : String) (t : ℕ)
    → resolve_selection_at rows at ≡ SelectionAtInstant.expired id t
    → ((c : SubjectPolicySelection) → Any (λ x. x ≡ c) rows → ¬ Bears at c)
      × ((row : SubjectPolicySelection) × Any (λ x. x ≡ row) rows × (row.id ≡ id) × RanOut at t row)
unfolding resolve_selection_at
resolve_selection_at_expired rows at id t h =
    let (empty, (row, found, named, ended)) =
      lapsed_among rows (filter (is_candidate at) rows) at id t h in
    (
      λ c m k.
          let there =
            subst (λ xs. Any (λ x. x ≡ c) xs) empty ((candidate_iff rows at c).1 (m, k)) in
          elim there [ ],
      elim (expired_row_holds at none rows row found) [
        | inl never ↦ ground (arith, never)
        | inr (m, out) ↦ (row, m, named, subst (λ e. RanOut at e row) ended out)
      ],
    )
