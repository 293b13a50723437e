-- ===== src/Outbox/Relay/Claims.antt =====
-- Two relays never hold the same row: a batch is claimed from rows that no live claim covers.
use karar_flutter_version.Prelude.{
  ℕ, zero, suc, ◌+◌, ◌≤◌, String, ◌≡◌, ◌≢◌, refl, sym, ◌∙◌, inl, inr, Bool-cases, true, false, List,
  [], ◌∷◌, Any, All, All-mono, arith,
}
use karar_flutter_version.Outbox.Relay.{
  OutboxRow, ClaimedRow, OutboxRelayOptions, batch_limit, is_claimable, claim_mark, returned,
  claim_rows, claim_batch,
}

module _ {E : Type 0} where
  -- No two rows have the same id: it is the table's key.
  abbrev pub HasKeys : List (OutboxRow E) → Type 0
  HasKeys [] = Unit
  HasKeys (r ∷ rows) = All (λ s. r.id ≢ s.id) rows × HasKeys rows

  claim_rows-ids :
      (o : OutboxRelayOptions) (now k : ℕ) (id : String) (table : List (OutboxRow E))
      → All (λ s. id ≢ s.id) table
      → All (λ s. id ≢ s.id) (claim_rows o now k table).0
        × All (λ c. id ≢ c.id) (claim_rows o now k table).1
  unfolding claim_rows
  claim_rows-ids o now zero id table h = (h, tt)
  claim_rows-ids o now (suc k) id [] h = (tt, tt)
  claim_rows-ids o now (suc k) id (r ∷ table) h = elim (Bool-cases (is_claimable now r)) [
    | inl yes_take ↦
        let (a, b) = claim_rows-ids o now k id table h.1 in rw yes_take ((h.0, a), (h.0, b))
    | inr no_take ↦
        let (a, b) = claim_rows-ids o now (suc k) id table h.1 in rw no_take ((h.0, a), b)
  ]

  flip_ids :
      (id : String) (cs : List (ClaimedRow E)) → All (λ c. id ≢ c.id) cs → All (λ c. c.id ≢ id) cs
  flip_ids id [] h = tt
  flip_ids id (c ∷ cs) h = ((λ e. h.0 (sym e)), flip_ids id cs h.1)

  -- One more claimed row, whose id no row that remains has.
  with_head :
      (later : ℕ) (r : OutboxRow E) (cs : List (ClaimedRow E)) (rows : List (OutboxRow E))
      → All (λ s. r.id ≢ s.id) rows
      → All (λ s. is_claimable later s ≡ true → All (λ c. c.id ≢ s.id) cs) rows
      → All (λ s. is_claimable later s ≡ true → All (λ c. c.id ≢ s.id) (returned r ∷ cs)) rows
  with_head later r cs [] h k = tt
  with_head later r cs (s ∷ rows) h k = ((λ e. (h.0, k.0 e)), with_head later r cs rows h.1 k.1)

  live_claim :
      (o : OutboxRelayOptions) (now later : ℕ) (r : OutboxRow E)
      → later ≤ now + o.claim_ttl_ms
      → is_claimable later (claim_mark o now r) ≡ false
  live_claim o now later r l = ground (arith, l)

  -- What a later statement may claim was not in the batch.
  claim_rows-disjoint :
      (o : OutboxRelayOptions) (now later k : ℕ) (table : List (OutboxRow E))
      → later ≤ now + o.claim_ttl_ms
      → HasKeys table
      → All
          (λ s. is_claimable later s ≡ true → All (λ c. c.id ≢ s.id) (claim_rows o now k table).1)
          (claim_rows o now k table).0
  unfolding claim_rows
  claim_rows-disjoint o now later zero table l h = all_unit table
    where
      all_unit :
          (rows : List (OutboxRow E)) → All (λ s. is_claimable later s ≡ true → Unit {0}) rows
      all_unit [] = tt
      all_unit (r ∷ rows) = (λ e. tt, all_unit rows)
  claim_rows-disjoint o now later (suc k) [] l h = tt
  claim_rows-disjoint o now later (suc k) (r ∷ table) l h = elim (Bool-cases (is_claimable now r)) [
    | inl yes_take ↦
        let (a, b) = claim_rows-ids o now k r.id table h.0 in
        let ih = claim_rows-disjoint o now later k table l h.1 in
        let live = live_claim o now later r l in
        rw yes_take (
          (λ e. ground (arith, e, live)),
          with_head later r (claim_rows o now k table).1 (claim_rows o now k table).0 a ih,
        )
    | inr no_take ↦
        let (a, b) = claim_rows-ids o now (suc k) r.id table h.0 in
        rw no_take (
          (λ e. flip_ids r.id (claim_rows o now (suc k) table).1 b),
          claim_rows-disjoint o now later (suc k) table l h.1,
        )
  ]

  -- A row that is returned was claimable, and has the id of a row of the table.
  claim_rows-claimable :
      (o : OutboxRelayOptions) (now k : ℕ) (table : List (OutboxRow E))
      → All
          (λ c. Any (λ s. (s.id ≡ c.id) × (is_claimable now s ≡ true)) table)
          (claim_rows o now k table).1
  unfolding claim_rows
  claim_rows-claimable o now zero table = tt
  claim_rows-claimable o now (suc k) [] = tt
  claim_rows-claimable o now (suc k) (r ∷ table) = elim (Bool-cases (is_claimable now r)) [
    | inl yes_take ↦ rw yes_take (
      inl (refl, refl),
      All-mono _ _ (λ c m. inr m) (claim_rows o now k table).1 (claim_rows-claimable o now k table),
    )
    | inr no_take ↦ rw no_take (
        All-mono _ _ (λ c m. inr m) (claim_rows o now (suc k) table).1
          (claim_rows-claimable o now (suc k) table))
  ]

  meet :
      (later : ℕ) (d : ClaimedRow E) (cs : List (ClaimedRow E)) (rows : List (OutboxRow E))
      → Any (λ s. (s.id ≡ d.id) × (is_claimable later s ≡ true)) rows
      → All (λ s. is_claimable later s ≡ true → All (λ c. c.id ≢ s.id) cs) rows
      → All (λ c. c.id ≢ d.id) cs
  meet later d cs [] m h = elim m [ ]
  meet later d cs (s ∷ rows) m h = elim m [
    | inl (e, yes_take) ↦ All-mono _ _ (λ c ne same. ne (same ∙ sym e)) cs (h.0 yes_take)
    | inr rest ↦ meet later d cs rows rest h.1
  ]

  -- If the ids of the table are distinct, a batch that any relay claims before the claims of an
  -- earlier batch expire has no row in common with the earlier batch.
  pub claim_batch-disjoint :
      (first second : OutboxRelayOptions) (now later : ℕ) (table : List (OutboxRow E))
      → later ≤ now + first.claim_ttl_ms
      → HasKeys table
      → All
          (λ d. All (λ c. c.id ≢ d.id) (claim_batch first now table).1)
          (claim_batch second later (claim_batch first now table).0).1
  unfolding claim_batch
  claim_batch-disjoint first second now later table l h =
      let after = claim_rows first now (batch_limit first.batch_size) table in
      let held = claim_rows-disjoint first now later (batch_limit first.batch_size) table l h in
      All-mono _ _ (λ d m. meet later d after.1 after.0 m held)
        (claim_rows second later (batch_limit second.batch_size) after.0).1
        (claim_rows-claimable second later (batch_limit second.batch_size) after.0)
