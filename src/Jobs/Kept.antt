-- ===== src/Jobs/Kept.antt =====
-- The rows that the subquery of a claim keeps, and those that the claim takes.
use karar_flutter_version.Prelude.{
  ℕ, zero, suc, ◌≤◌, String, any_iff, filter-All, insert_by, insert_row-All, count-apart,
  count-some, ◌≡◌, ◌≢◌, refl, sym, ap, ◌∙◌, Bool, Bool-cases, false, List, [], ◌∷◌, inl, inr, All,
  All-mono, All-self, All-filter, Any-mono, take-All, sort_by-All, Any, length, map, filter, count,
  take, sort_by, same_text, eq_iff, arith,
}
use karar_flutter_version.Jobs.Row.{JobRow, returning, to_claimed}
use karar_flutter_version.Jobs.Queue.{is_picked, can_claim, claims_first}
use karar_flutter_version.Jobs.Sound.{HasKey}
use karar_flutter_version.Jobs.Returned.{length-returning}

module _ {P : Type 0} where
  filter-HasKey :
      (p : JobRow P → Bool) (rows : List (JobRow P)) → HasKey rows → HasKey (filter p rows)
  filter-HasKey p [] h = tt
  filter-HasKey p (r ∷ rows) h =
      let rest = filter-HasKey p rows h.1 in
      elim (Bool-cases (p r)) [
        | inl e ↦ rw e (filter-All (λ s. s.id ≢ r.id) p rows h.0, rest)
        | inr e ↦ rw e rest
      ]

  insert_by-HasKey :
      (before : JobRow P → JobRow P → Bool) (r : JobRow P) (rows : List (JobRow P))
      → All (λ s. s.id ≢ r.id) rows
      → HasKey rows
      → HasKey (insert_by before r rows)
  insert_by-HasKey before r [] away h = (tt, tt)
  insert_by-HasKey before r (s ∷ rows) away h =
      let rest = insert_by-HasKey before r rows away.1 h.1 in
      elim (Bool-cases (before s r)) [
        | inl e ↦
            rw e (insert_row-All (λ x. x.id ≢ s.id) before r rows (λ m. away.0 (sym m)) h.0, rest)
        | inr e ↦ rw e (away, h)
      ]

  sort_by-HasKey :
      (before : JobRow P → JobRow P → Bool) (rows : List (JobRow P))
      → HasKey rows
      → HasKey (sort_by before rows)
  sort_by-HasKey before [] h = tt
  sort_by-HasKey before (r ∷ rows) h =
      insert_by-HasKey before r (sort_by before rows)
        (sort_by-All (λ s. s.id ≢ r.id) before rows h.0) (sort_by-HasKey before rows h.1)

  take-HasKey : (n : ℕ) (rows : List (JobRow P)) → HasKey rows → HasKey (take n rows)
  take-HasKey zero rows h = tt
  take-HasKey (suc n) [] h = tt
  take-HasKey (suc n) (r ∷ rows) h =
      (take-All (λ s. s.id ≢ r.id) n rows h.0, take-HasKey n rows h.1)

  not_picked :
      (r k : JobRow P) (kept : List (JobRow P))
      → All (λ s. s.id ≢ k.id) kept
      → r.id ≡ k.id
      → is_picked (map (λ x. x.id) kept) r ≡ false
  not_picked r k [] h e = refl
  not_picked r k (s ∷ kept) h e = elim (Bool-cases (same_text r.id s.id)) [
    | inl same ↦ absurd (h.0 (sym ((eq_iff r.id s.id).0 same) ∙ e))
    | inr apart ↦ ground (arith, apart, not_picked r k kept h.1 e)
  ]

  -- Rows of the table with ids of their own are each taken by the update on their ids.
  length-picked :
      (kept rows : List (JobRow P))
      → HasKey kept
      → All (λ k. Any (λ x. x ≡ k) rows) kept
      → length kept ≤ count (is_picked (map (λ x. x.id) kept)) rows
  length-picked [] rows h there = omega arith
  length-picked (k ∷ kept) rows h there =
      let rest = length-picked kept rows h.1 there.1 in
      let here : JobRow P → Bool = λ r. same_text r.id k.id in
      let found =
        (any_iff here rows).1
          (Any-mono _ _ (λ x e. (eq_iff x.id k.id).1 (ap (λ y. y.id) e)) rows there.0) in
      let once = count-some here rows found in
      let apart = count-apart here (is_picked (map (λ x. x.id) kept)) rows (
        All-mono _ _ (λ r m e. not_picked r k kept h.0 ((eq_iff r.id k.id).0 e)) rows
          (All-self rows)) in
      omega (arith, rest, once, apart)

  -- The rows that are kept.
  abbrev pub kept_rows :
      (String → String → Bool)
      → (String → Bool)
      → (limit now : ℕ) → List (JobRow P)
      → List (JobRow P)
  kept_rows id_before locked limit now rows =
      take limit (sort_by (claims_first id_before) (filter (can_claim locked now) rows))

  pub kept_rows-inside :
      (id_before : String → String → Bool) (locked : String → Bool) (limit now : ℕ)
      (rows : List (JobRow P))
      → All (λ k. Any (λ x. x ≡ k) rows) (kept_rows id_before locked limit now rows)
  kept_rows-inside id_before locked limit now rows = take-All _ limit _ (
      sort_by-All _ (claims_first id_before) _
        (All-mono _ _ (λ k m. m.1) _ (All-filter (can_claim locked now) rows)))

  -- A claim takes as many rows as are kept.
  pub kept_rows-returned :
      (id_before : String → String → Bool) (locked : String → Bool) (limit now : ℕ)
      (rows : List (JobRow P)) (change : JobRow P → JobRow P)
      → HasKey rows
      → let kept = kept_rows id_before locked limit now rows in
        length kept
        ≤ length (map to_claimed (returning (is_picked (map (λ k. k.id) kept)) change rows))
  kept_rows-returned id_before locked limit now rows change key =
      let kept = kept_rows id_before locked limit now rows in
      let own = take-HasKey limit _ (
        sort_by-HasKey (claims_first id_before) _
          (filter-HasKey (can_claim locked now) rows key)) in
      omega (
        arith,
        length-returning (is_picked (map (λ k. k.id) kept)) change rows,
        length-picked kept rows own (kept_rows-inside id_before locked limit now rows),
      )
