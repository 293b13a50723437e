-- ===== src/Jobs/Claimed.antt =====
-- A claim of jobs: which rows it takes, and that the copies it gives are current.
use mathlib.Core.Path.{subst}
use karar_flutter_version.Prelude.{
  ℕ, ◌+◌, String, ◌≡◌, ◌≢◌, refl, sym, inl, inr, Bool, Bool-cases, true, false, some, List, [], ◌∷◌,
  ◌++◌, map, filter, if◌then◌else◌, Any, All, All-mono, All-both, Any-All, take-All, sort_by-All,
  All-append, same_text, eq_iff, update_where, update_where-All, arith,
}
use karar_flutter_version.Jobs.Row.{
  JobRow, ClaimedJob, ClaimOptions, JobQueueOptions, returning, to_claimed, or_else, claim_limit,
}
use karar_flutter_version.Jobs.Queue.{
  picked_ids, can_claim, claims_first, claim, lease_mark, is_picked,
}
use karar_flutter_version.Jobs.Sound.{IsCurrent, HasKey, update-HasKey, lease_mark-IsSound}
use karar_flutter_version.Jobs.Steps.{Workers, IsIdle, IsFit, IsConsistent}

module _ {P : Type 0} where
  -- The copies of other workers stay current, and those of the claim are.
  marked_others :
      (held : List (ClaimedJob P)) (worker : String) (expires now : ℕ) (r : JobRow P)
      → IsIdle worker held
      → All (λ c. IsCurrent c (lease_mark worker expires now r)) held
  marked_others [] worker expires now r h = tt
  marked_others (c ∷ held) worker expires now r h = (
    (λ k. absurd (h.0 (sym ((eq_iff worker c.lease_owner).0 (ground (arith, k)))))),
    marked_others held worker expires now r h.1,
  )

  -- A copy of another row is no copy of this one.
  apart-IsCurrent : (c : ClaimedJob P) (r : JobRow P) → r.id ≢ c.id → IsCurrent c r
  apart-IsCurrent c r n k = absurd (n ((eq_iff r.id c.id).0 (ground (arith, k))))

  claimed_apart :
      (test : JobRow P → Bool) (worker : String) (expires now : ℕ) (r : JobRow P)
      (rows : List (JobRow P))
      → All (λ s. s.id ≢ r.id) rows
      → All
          (λ c. IsCurrent c r)
          (map to_claimed (returning test (lease_mark worker expires now) rows))
  claimed_apart test worker expires now r [] h = tt
  claimed_apart test worker expires now r (s ∷ rows) h =
      let rest = claimed_apart test worker expires now r rows h.1 in
      elim (Bool-cases (test s)) [
        | inl e ↦ rw e (
          apart-IsCurrent (to_claimed (lease_mark worker expires now s)) r (λ m. h.0 (sym m)),
          rest,
        )
        | inr e ↦ rw e rest
      ]

  -- One more row, which the claim takes or leaves.
  claimed_row :
      (test : JobRow P → Bool) (worker : String) (expires now : ℕ) (r : JobRow P)
      (rows : List (JobRow P)) (b : Bool)
      → let mark : JobRow P → JobRow P = lease_mark worker expires now in
        All (λ s. s.id ≢ r.id) rows
        → All
            (λ s. All (λ c. IsCurrent c s) (map to_claimed (returning test mark rows)))
            (update_where test mark rows)
        → All
            (λ s.
              All
                (λ c. IsCurrent c s)
                (map to_claimed (map mark (if b then r ∷ filter test rows else filter test rows))))
            ((if b then mark r else r) ∷ update_where test mark rows)
  claimed_row test worker expires now r rows true h rest =
      let mark : JobRow P → JobRow P = lease_mark worker expires now in
      let Apart : JobRow P → Type 0 = λ s. s.id ≢ r.id in
      let away = update_where-All Apart Apart test mark (λ s e n. n) (λ s e n. n) rows h in
      let jobs = map to_claimed (returning test mark rows) in
      (
        ((λ k. (refl, refl)), claimed_apart test worker expires now (mark r) rows h),
        All-both Apart (λ s. All (λ c. IsCurrent c s) jobs)
            (λ s. All (λ c. IsCurrent c s) (to_claimed (mark r) ∷ jobs))
            (λ s n k. (apart-IsCurrent (to_claimed (mark r)) s n, k)) (update_where test mark rows)
            away rest,
      )
  claimed_row test worker expires now r rows false h rest =
      (claimed_apart test worker expires now r rows h, rest)

  claimed-IsCurrent :
      (test : JobRow P → Bool) (worker : String) (expires now : ℕ) (rows : List (JobRow P))
      → HasKey rows
      → All
          (λ r.
            All
              (λ c. IsCurrent c r)
              (map to_claimed (returning test (lease_mark worker expires now) rows)))
          (update_where test (lease_mark worker expires now) rows)
  unfolding update_where
  claimed-IsCurrent test worker expires now [] h = tt
  claimed-IsCurrent test worker expires now (r ∷ rows) h =
      claimed_row test worker expires now r rows (test r) h.0
        (claimed-IsCurrent test worker expires now rows h.1)

  -- A row of the table whose id is that of a row that passes the test passes it.
  pub keyed :
      (p : JobRow P → Bool) (table : List (JobRow P))
      → HasKey table
      → All (λ r. Any (λ s. (s.id ≡ r.id) × (p s ≡ true)) table → p r ≡ true) table
  keyed p [] h = tt
  keyed p (r ∷ rows) h = (
    (λ m. elim m [
      | inl (same, k) ↦ k
      | inr later ↦ absurd (Any-All _ _ (λ s (same, k) n. n same) rows later h.0)
    ]),
    All-both _ _ _
        (λ s n f m. elim m [ inl (same, k) ↦ absurd (n (sym same)) | inr later ↦ f later ]) rows h.0
        (keyed p rows h.1),
  )

  filtered :
      (p : JobRow P → Bool) (table : List (JobRow P))
      → All (λ r. Any (λ s. (s.id ≡ r.id) × (p s ≡ true)) table) (filter p table)
  filtered p [] = tt
  filtered p (r ∷ rows) = elim (Bool-cases (p r)) [
    | inl e ↦ rw e (inl (refl, refl), All-mono _ _ (λ s m. inr m) (filter p rows) (filtered p rows))
    | inr e ↦ rw e (All-mono _ _ (λ s m. inr m) (filter p rows) (filtered p rows))
  ]

  abbrev pub Passes : (JobRow P → Bool) → List (JobRow P) → String → Type 0
  Passes p table id = Any (λ s. (s.id ≡ id) × (p s ≡ true)) table

  pub map-id :
      (Q : String → Type 0) (rows : List (JobRow P))
      → All (λ r. Q r.id) rows
      → All Q (map (λ r. r.id) rows)
  map-id Q [] h = tt
  map-id Q (r ∷ rows) h = (h.0, map-id Q rows h.1)

  -- Every id that is picked is that of a row that may be claimed.
  picked_ids-Passes :
      (id_before : String → String → Bool) (locked : String → Bool) (limit now : ℕ)
      (table : List (JobRow P))
      → All (Passes (can_claim locked now) table) (picked_ids id_before locked limit now table)
  unfolding picked_ids
  picked_ids-Passes id_before locked limit now table =
      let Q : JobRow P → Type 0 = λ r. Passes (can_claim locked now) table r.id in
      map-id (Passes (can_claim locked now) table) _ (
        take-All Q limit _
          (sort_by-All Q (claims_first id_before) _ (filtered (can_claim locked now) table)))

  pub is_picked-Passes :
      (Q : String → Type 0) (ids : List String) (r : JobRow P)
      → All Q ids
      → is_picked ids r ≡ true
      → Q r.id
  is_picked-Passes Q [] r h e = cc
  is_picked-Passes Q (id ∷ ids) r h e = elim (Bool-cases (same_text r.id id)) [
    | inl here ↦ subst Q (sym ((eq_iff r.id id).0 here)) h.0
    | inr other ↦ is_picked-Passes Q ids r h.1 (ground (arith, other, e))
  ]

  -- A row that the update takes may be claimed.
  pub picked_rows :
      (id_before : String → String → Bool) (locked : String → Bool) (limit now : ℕ)
      (table : List (JobRow P))
      → HasKey table
      → All
          (λ r.
            is_picked (picked_ids id_before locked limit now table) r ≡ true
            → can_claim locked now r ≡ true)
          table
  picked_rows id_before locked limit now table h =
      All-mono _ _
        (λ r f e. f (
          is_picked-Passes (Passes (can_claim locked now) table) _ r
            (picked_ids-Passes id_before locked limit now table) e))
        table (keyed (can_claim locked now) table h)

  -- The test and the change of a claim.
  abbrev pub taken :
      JobQueueOptions
      → (String → String → Bool)
      → (String → Bool)
      → ℕ
      → ClaimOptions
      → List (JobRow P)
      → JobRow P
      → Bool
  taken queue id_before locked now o table =
      is_picked (picked_ids id_before locked (claim_limit queue o) now table)

  abbrev pub mark : JobQueueOptions → ℕ → ClaimOptions → JobRow P → JobRow P
  mark queue now o =
      lease_mark o.worker_id (now + or_else o.lease_ttl_ms queue.default_lease_ttl_ms) now

  pub claim-some :
      (queue : JobQueueOptions) (id_before : String → String → Bool) (locked : String → Bool)
      (now : ℕ) (o : ClaimOptions) (rows table : List (JobRow P)) (jobs : List (ClaimedJob P))
      → claim queue id_before locked now o rows ≡ some (table, jobs)
      → (table ≡ update_where (taken queue id_before locked now o rows) (mark queue now o) rows)
        × (jobs
            ≡ map to_claimed
                (returning (taken queue id_before locked now o rows) (mark queue now o) rows))
  unfolding claim
  claim-some queue id_before locked now o rows table jobs e = ground (arith, e)

  pub claims-IsConsistent :
      (queue : JobQueueOptions) (s : Workers P) (id_before : String → String → Bool)
      (locked : String → Bool) (now : ℕ) (o : ClaimOptions) (table : List (JobRow P))
      (jobs : List (ClaimedJob P))
      → IsIdle o.worker_id s.held
      → claim queue id_before locked now o s.table ≡ some (table, jobs)
      → IsConsistent s
      → IsConsistent (record { table = table; held = jobs ++ s.held })
  claims-IsConsistent queue s id_before locked now o table jobs idle e h =
      let expires = now + or_else o.lease_ttl_ms queue.default_lease_ttl_ms in
      let test = taken queue id_before locked now o s.table in
      let change = mark queue now o in
      let (rows, given) = claim-some queue id_before locked now o s.table table jobs e in
      let fit =
        update_where-All (λ r. (test r ≡ true → can_claim locked now r ≡ true) × IsFit s.held r)
          (IsFit s.held) test change
          (λ r hit k. (
            lease_mark-IsSound locked now o.worker_id expires r (k.0 hit) k.1.0,
            marked_others s.held o.worker_id expires now r idle,
          ))
          (λ r miss k. k.1) s.table
          (All-both _ _ _ (λ r a b. (a, b)) s.table
            (picked_rows id_before locked (claim_limit queue o) now s.table h.0) h.1) in
      rw (rows, given)
        (
          update-HasKey test change (λ r. refl) s.table h.0,
          All-both _ _ _ (λ r a b. (b.0, All-append (λ c. IsCurrent c r) _ s.held a b.1)) _
              (claimed-IsCurrent test o.worker_id expires now s.table h.0) fit,
        )
