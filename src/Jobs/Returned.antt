-- ===== src/Jobs/Returned.antt =====
-- What a claim returns, told by the rows that it takes.
use mathlib.Core.Path.{subst}
use karar_flutter_version.Prelude.{
  ℕ, ◌≤◌, String, ◌≡◌, ◌≢◌, refl, sym, ap, ◌∙◌, Bool, Bool-cases, true, List, [], ◌∷◌, inl, inr,
  All, All-mono, All-self, All-filter, filter-Any, All-Any, Any-mono, Any-with, Any-in, Any, length,
  map, filter, ltb, count, take, length-take, count-or, count-none, count-nothing, IsRanking,
  then_by-IsRanking, same_text, eq_iff, arith,
}
use karar_flutter_version.Prelude.Int.{ltb_ℤ}
use karar_flutter_version.Jobs.Row.{
  JobRow, ClaimedJob, ClaimOptions, JobQueueOptions, returning, to_claimed,
}
use karar_flutter_version.Jobs.Queue.{is_picked, claims_first}
use karar_flutter_version.Jobs.Sound.{HasKey}
use karar_flutter_version.Jobs.Claimed.{mark, keyed, map-id, is_picked-Passes}

module _ {P : Type 0} where
  -- A key is that of one row at most.
  count-id :
      (id : String) (rows : List (JobRow P)) → HasKey rows → count (λ r. same_text r.id id) rows ≤ 1
  count-id id [] h = omega arith
  count-id id (r ∷ rows) h = elim (Bool-cases (same_text r.id id)) [
    | inl e ↦
        let none_else =
          count-none (λ s. same_text s.id id) rows
            (All-mono _ _
              (λ s n. elim (Bool-cases (same_text s.id id)) [
                | inl k ↦ absurd (n ((eq_iff s.id id).0 k ∙ sym ((eq_iff r.id id).0 e)))
                | inr k ↦ k
              ])
              rows h.0) in
        rw e (omega (arith, none_else))
    | inr e ↦ rw e (omega (arith, count-id id rows h.1))
  ]

  count-picked :
      (ids : List String) (rows : List (JobRow P))
      → HasKey rows
      → count (is_picked ids) rows ≤ length ids
  count-picked [] rows h = omega (arith, count-nothing rows)
  count-picked (id ∷ ids) rows h =
      let more = count-or (λ r. same_text r.id id) (is_picked ids) rows in
      omega (arith, more, count-id id rows h, count-picked ids rows h)

  pub length-returning :
      (test : JobRow P → Bool) (change : JobRow P → JobRow P) (rows : List (JobRow P))
      → length (map to_claimed (returning test change rows)) ≡ count test rows
  length-returning test change [] = refl
  length-returning test change (r ∷ rows) = elim (Bool-cases (test r)) [
    | inl e ↦ rw e (omega (arith, length-returning test change rows))
    | inr e ↦ rw e (omega (arith, length-returning test change rows))
  ]

  by_ℕ : (key : JobRow P → ℕ) → IsRanking {A = JobRow P} (λ a b. ltb (key a) (key b))
  by_ℕ key = ((λ a. ground arith), (λ a b c x y. ground arith), (λ a b c x y. ground arith))

  -- The order of a claim ranks jobs, when the order of ids does.
  pub claims_first-IsRanking :
      (id_before : String → String → Bool)
      → IsRanking id_before
      → IsRanking {A = JobRow P} (claims_first id_before)
  claims_first-IsRanking id_before (irreflexive, forward, back) =
      then_by-IsRanking {A = JobRow P} (λ a b. ltb_ℤ b.priority a.priority) _
        ((λ a. ground arith), (λ a b c x y. ground arith), (λ a b c x y. ground arith))
        (then_by-IsRanking {A = JobRow P} (λ a b. ltb a.available_at b.available_at) _
          (by_ℕ (λ a. a.available_at))
          (then_by-IsRanking {A = JobRow P} (λ a b. ltb a.created_at b.created_at)
            (λ a b. id_before a.id b.id) (by_ℕ (λ a. a.created_at))
            (
              (λ a. irreflexive a.id),
              (λ a b c. forward a.id b.id c.id),
              (λ a b c. back a.id b.id c.id),
            )))

  length-ids : (rows : List (JobRow P)) → length (map (λ r. r.id) rows) ≡ length rows
  length-ids [] = refl
  length-ids (r ∷ rows) = omega (arith, length-ids rows)

  pub few_returned :
      (limit : ℕ) (xs rows : List (JobRow P)) (change : JobRow P → JobRow P)
      → HasKey rows
      → length
          (map to_claimed (returning (is_picked (map (λ k. k.id) (take limit xs))) change rows))
        ≤ limit
  few_returned limit xs rows change key =
      let ids = map (λ k. k.id) (take limit xs) in
      omega (
        arith,
        length-returning (is_picked ids) change rows,
        count-picked ids rows key,
        length-ids (take limit xs),
        length-take limit xs,
      )

  abbrev pub WasClaimed : List (ClaimedJob P) → JobRow P → Type 0
  WasClaimed jobs r = Any (λ c. c.id ≡ r.id) jobs

  -- What is returned, told by the rows.
  pub returned-taken :
      (test : JobRow P → Bool) (o : ClaimOptions) (queue : JobQueueOptions) (now : ℕ)
      (rows : List (JobRow P))
      → All
          (λ c. Any (λ s. (s.id ≡ c.id) × (test s ≡ true)) rows)
          (map to_claimed (returning test (mark queue now o) rows))
  returned-taken test o queue now rows = given (filter test rows) (All-filter test rows)
    where
      given :
          (xs : List (JobRow P))
          → All (λ a. (test a ≡ true) × Any (λ x. x ≡ a) rows) xs
          → All
              (λ c. Any (λ s. (s.id ≡ c.id) × (test s ≡ true)) rows)
              (map to_claimed (map (mark queue now o) xs))
      given [] h = tt
      given (x ∷ xs) h = (Any-mono _ _ (λ s e. rw e (refl, h.0.0)) rows h.0.1, given xs h.1)

  pub taken-returned :
      (test : JobRow P → Bool) (o : ClaimOptions) (queue : JobQueueOptions) (now : ℕ)
      (rows : List (JobRow P))
      → All
          (λ u.
            test u ≡ true → WasClaimed (map to_claimed (returning test (mark queue now o) rows)) u)
          rows
  taken-returned test o queue now rows =
      All-mono _ _ (λ u m e. given u (filter test rows) ((filter-Any test rows u).1 (m, e))) rows
        (All-self rows)
    where
      given :
          (u : JobRow P) (xs : List (JobRow P))
          → Any (λ x. x ≡ u) xs
          → WasClaimed (map to_claimed (map (mark queue now o) xs)) u
      given u [] m = elim m [ ]
      given u (x ∷ xs) m = elim m [ inl e ↦ inl (rw e refl) | inr later ↦ inr (given u xs later) ]

  one_of_key :
      (r k : JobRow P) (rows : List (JobRow P))
      → HasKey rows
      → Any (λ x. x ≡ r) rows
      → Any (λ x. x ≡ k) rows
      → r.id ≡ k.id
      → r ≡ k
  one_of_key r k [] h m n e = elim m [ ]
  one_of_key r k (x ∷ rows) h m n e = elim m [
    | inl a ↦ elim n [
      | inl b ↦ sym a ∙ b
      | inr later ↦
          absurd (All-Any (λ s. s.id ≢ x.id) k rows h.0 later (sym e ∙ sym (ap (λ y. y.id) a)))
    ]
    | inr later ↦ elim n [
      | inl b ↦ absurd (All-Any (λ s. s.id ≢ x.id) r rows h.0 later (e ∙ sym (ap (λ y. y.id) b)))
      | inr after ↦ one_of_key r k rows h.1 later after e
    ]
  ]

  pub picked-here :
      (u : JobRow P) (kept : List (JobRow P))
      → Any (λ k. k ≡ u) kept
      → is_picked (map (λ k. k.id) kept) u ≡ true
  picked-here u [] m = elim m [ ]
  picked-here u (k ∷ kept) m = elim m [
    | inl e ↦ rw ((eq_iff u.id k.id).1 (sym (ap (λ y. y.id) e))) refl
    | inr later ↦ ground (arith, picked-here u kept later)
  ]

  -- A row that is claimed is one of those that are kept.
  pub claimed-kept :
      (queue : JobQueueOptions) (o : ClaimOptions) (now : ℕ) (kept rows : List (JobRow P))
      (r : JobRow P)
      → HasKey rows
      → All (λ k. Any (λ x. x ≡ k) rows) kept
      → Any (λ x. x ≡ r) rows
      → WasClaimed
          (map to_claimed (returning (is_picked (map (λ k. k.id) kept)) (mark queue now o) rows))
          r
      → Any (λ k. k ≡ r) kept
  claimed-kept queue o now kept rows r key inside here m =
      let test : JobRow P → Bool = is_picked (map (λ k. k.id) kept) in
      let named =
        Any-in _ _ (λ c e f. subst (λ id. Any (λ s. (s.id ≡ id) × (test s ≡ true)) rows) e f) _ m
          (returned-taken test o queue now rows) in
      let hit = All-Any _ r rows (keyed test rows key) here named in
      let same =
        is_picked-Passes (λ id. Any (λ k. k.id ≡ id) kept) _ r
          (map-id (λ id. Any (λ k. k.id ≡ id) kept) kept
            (All-mono _ _ (λ k n. Any-mono _ _ (λ x e. ap (λ y. y.id) e) kept n) kept
              (All-self kept)))
          hit in
      Any-with _ _ _ (λ k e n. sym (one_of_key r k rows key here n (sym e))) kept same inside
