-- ===== src/Outbox/Relay/Outcomes.antt =====
-- What a run leaves: a row is marked published only after the publisher took its envelope.
use mathlib.Core.Path.{subst}
use karar_flutter_version.Prelude.{
  ℕ, zero, suc, ◌+◌, ◌≤◌, String, ◌≡◌, ◌≢◌, refl, sym, ◌∙◌, ◌⊎◌, inl, inr, Bool, Bool-cases,
  Option-cases, false, not, ◌&&◌, Option, none, some, List, [], ◌∷◌, Any, All, All-mono,
  update_where_keeps, length, leb, eq_iff, arith,
}
use karar_flutter_version.Outbox.Relay.{
  OutboxRow, ClaimedRow, OutboxRelayOptions, Outcome, RelayRunReport, batch_limit, is_claimable,
  claim_rows, claim_batch, has_id, is_null, is_empty, mark_published, mark_failed, after_publish,
  publish_one, release_own_claims, counted, publish_rows, run_once,
}

abbrev pub outcomes : RelayRunReport → ℕ
outcomes r = r.published + r.failed + r.dead_lettered

counted-one :
    (x : Outcome) (r : RelayRunReport)
    → (outcomes (counted x r) ≡ suc (outcomes r)) × ((counted x r).claimed ≡ r.claimed)
counted-one Outcome.published r = (omega arith, refl)
counted-one Outcome.failed r = (omega arith, refl)
counted-one Outcome.dead_lettered r = (omega arith, refl)

module _ {E : Type 0} where
  -- The row is not published, or its id is one that may be.
  abbrev MayBe : (String → Type 0) → OutboxRow E → Type 0
  MayBe Good r = (r.published_at ≡ none) ⊎ Good r.id

  publish_one-MayBe :
      (publish : E → Option String) (o : OutboxRelayOptions) (now : ℕ) (c : ClaimedRow E)
      (Good : String → Type 0) (rows : List (OutboxRow E))
      → (publish c.envelope ≡ none → Good c.id)
      → All (MayBe Good) rows
      → All (MayBe Good) (publish_one publish o now c rows).0
  unfolding publish_one after_publish mark_failed
  publish_one-MayBe publish o now c Good rows good h = answered (publish c.envelope) refl
    where
      answered :
          (a : Option String)
          → publish c.envelope ≡ a
          → All (MayBe Good) (after_publish o now c a rows).0
      answered none e =
          update_where_keeps (MayBe Good) (λ r. has_id c.id r && is_null r.published_at)
            (mark_published now)
            (λ r hit k.
              inr (subst Good (sym ((eq_iff r.id c.id).0 (ground (arith, hit)))) (good e)))
            rows h
      answered (some error) e = elim (Bool-cases (leb c.max_attempts (c.attempts + 1))) [
        | inl dead ↦ rw dead (update_where_keeps (MayBe Good) (has_id c.id) _ (λ r hit k. k) rows h)
        | inr retry ↦
            rw retry (update_where_keeps (MayBe Good) (has_id c.id) _ (λ r hit k. k) rows h)
      ]

  publish_rows-MayBe :
      (publish : E → Option String) (stops : String → Bool) (at : String → ℕ)
      (o : OutboxRelayOptions) (cs : List (ClaimedRow E)) (rows : List (OutboxRow E))
      (report : RelayRunReport) (Good : String → Type 0)
      → All (λ c. publish c.envelope ≡ none → Good c.id) cs
      → All (MayBe Good) rows
      → All (MayBe Good) (publish_rows publish stops at o cs (rows, report)).0
  unfolding publish_rows release_own_claims
  publish_rows-MayBe publish stops at o [] rows report Good g h = h
  publish_rows-MayBe publish stops at o (c ∷ cs) rows report Good g h =
      let marked = publish_one publish o (at c.id) c rows in
      let held = publish_one-MayBe publish o (at c.id) c Good rows g.0 h in
      elim (Bool-cases (stops c.id && not (is_empty cs))) [
        | inl stop ↦ rw stop (update_where_keeps (MayBe Good) _ _ (λ r hit k. k) marked.0 held)
        | inr go ↦ rw go (
            publish_rows-MayBe publish stops at o cs marked.0 (counted marked.1 report) Good g.1
              held)
      ]

  claim_rows-MayBe :
      (o : OutboxRelayOptions) (now k : ℕ) (Good : String → Type 0) (rows : List (OutboxRow E))
      → All (MayBe Good) rows
      → All (MayBe Good) (claim_rows o now k rows).0
  unfolding claim_rows
  claim_rows-MayBe o now zero Good rows h = h
  claim_rows-MayBe o now (suc k) Good [] h = tt
  claim_rows-MayBe o now (suc k) Good (r ∷ rows) h = elim (Bool-cases (is_claimable now r)) [
    | inl yes_take ↦ rw yes_take (h.0, claim_rows-MayBe o now k Good rows h.1)
    | inr no_take ↦ rw no_take (h.0, claim_rows-MayBe o now (suc k) Good rows h.1)
  ]

  -- The id is that of a row of the table that is published.
  abbrev pub WasPublished : List (OutboxRow E) → String → Type 0
  WasPublished rows id = Any (λ s. (s.id ≡ id) × (s.published_at ≢ none)) rows

  -- The id is that of a row of the batch whose envelope the publisher takes.
  abbrev pub WasTaken : (E → Option String) → List (ClaimedRow E) → String → Type 0
  WasTaken publish batch id = Any (λ c. (c.id ≡ id) × (publish c.envelope ≡ none)) batch

  at_first :
      (rows : List (OutboxRow E)) (Later : String → Type 0)
      → All (MayBe (λ id. WasPublished rows id ⊎ Later id)) rows
  at_first [] Later = tt
  at_first (r ∷ rows) Later = (
    elim (Option-cases r.published_at) [
      | inl e ↦ inl e
      | inr (t, e) ↦ inr (inl (inl (refl, λ n. ground (arith, e, n))))
    ],
    All-mono _ _
        (λ s h. elim h [
          | inl e ↦ inl e
          | inr good ↦ inr (elim good [ inl was ↦ inl (inr was) | inr x ↦ inr x ])
        ])
        rows (at_first rows Later),
  )

  each_taken :
      (publish : E → Option String) (cs : List (ClaimedRow E))
      → All (λ c. publish c.envelope ≡ none → WasTaken publish cs c.id) cs
  each_taken publish [] = tt
  each_taken publish (c ∷ cs) =
      (λ e. inl (refl, e), All-mono _ _ (λ d f e. inr (f e)) cs (each_taken publish cs))

  -- After a run, however it is interrupted, every row that is marked published was already published
  -- before it, or was in its batch and its envelope is one that the publisher took.
  pub run_once-published :
      (publish : E → Option String) (stops : String → Bool) (at : String → ℕ)
      (o : OutboxRelayOptions) (now : ℕ) (table : List (OutboxRow E))
      → All
          (λ r.
            (r.published_at ≡ none)
            ⊎ (WasPublished table r.id ⊎ WasTaken publish (claim_batch o now table).1 r.id))
          (run_once publish stops at o now table).0
  unfolding run_once claim_batch
  run_once-published publish stops at o now table =
      let taken = claim_rows o now (batch_limit o.batch_size) table in
      let Good : String → Type 0 = λ id. WasPublished table id ⊎ WasTaken publish taken.1 id in
      publish_rows-MayBe publish stops at o taken.1 taken.0 _ Good
        (All-mono _ _ (λ c f e. inr (f e)) taken.1 (each_taken publish taken.1))
        (claim_rows-MayBe o now (batch_limit o.batch_size) Good table
          (at_first table (WasTaken publish taken.1)))

  publish_rows-report :
      (publish : E → Option String) (stops : String → Bool) (at : String → ℕ)
      (o : OutboxRelayOptions) (cs : List (ClaimedRow E)) (rows : List (OutboxRow E))
      (report : RelayRunReport)
      → let last = (publish_rows publish stops at o cs (rows, report)).1 in
        (last.claimed ≡ report.claimed)
        × (outcomes last ≤ outcomes report + length cs)
        × (((id : String) → stops id ≡ false) → outcomes last ≡ outcomes report + length cs)
  unfolding publish_rows
  publish_rows-report publish stops at o [] rows report = (refl, omega arith, λ k. omega arith)
  publish_rows-report publish stops at o (c ∷ cs) rows report =
      let marked = publish_one publish o (at c.id) c rows in
      let (one, kept) = counted-one marked.1 report in
      let (a, b, f) =
        publish_rows-report publish stops at o cs marked.0 (counted marked.1 report) in
      elim (Bool-cases (stops c.id && not (is_empty cs))) [
        | inl stop ↦
            rw stop
              (kept, omega (arith, one), λ k. let never = k c.id in ground (arith, stop, never))
        | inr go ↦
            rw go
              (a ∙ kept, omega (arith, b, one), λ k. let all_of = f k in omega (arith, all_of, one))
      ]

  -- The report of a run counts the rows of its batch as claimed, and gives no more outcomes than
  -- that; without a shutdown every claimed row has exactly one outcome.
  pub run_once-report :
      (publish : E → Option String) (stops : String → Bool) (at : String → ℕ)
      (o : OutboxRelayOptions) (now : ℕ) (table : List (OutboxRow E))
      → let report = (run_once publish stops at o now table).1 in
        (report.claimed ≡ length (claim_batch o now table).1)
        × (outcomes report ≤ report.claimed)
        × (((id : String) → stops id ≡ false) → outcomes report ≡ report.claimed)
  unfolding run_once
  run_once-report publish stops at o now table =
      let taken = claim_batch o now table in
      let (a, b, f) =
        publish_rows-report publish stops at o taken.1 taken.0
          (record { claimed = length taken.1; published = 0; failed = 0; dead_lettered = 0 }) in
      (a, omega (arith, a, b), λ k. let all_of = f k in omega (arith, a, all_of))
