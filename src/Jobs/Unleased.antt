-- ===== src/Jobs/Unleased.antt =====
-- What a run of the poller leaves leased to its worker: nothing.
use karar_flutter_version.Prelude.{
  ℕ, ◌+◌, String, ◌≡◌, refl, ap, ◌∙◌, inl, inr, Bool, Bool-cases, true, false, some, List, [], ◌∷◌,
  map, filter, length, All, All-mono, All-both, Any, leb, is_blank, update_where, update_where-All,
  arith,
}
use karar_flutter_version.Jobs.Row.{
  JobRow, ClaimedJob, JobQueueOptions, ClaimOptions, returning, to_claimed,
}
use karar_flutter_version.Jobs.Queue.{claim}
use karar_flutter_version.Jobs.Lease.{is_stale, stale_mark, recover_stale_leases}
use karar_flutter_version.Jobs.Consistent.{stale_mark-unleased}
use karar_flutter_version.Jobs.Claimed.{taken, mark}
use karar_flutter_version.Jobs.Returned.{WasClaimed, taken-returned}
use karar_flutter_version.Jobs.Poller.{
  run_claimed, empty_report, JobHandlerRegistry, JobPoller, PollerRunReport, run_batch, sweep,
  claim_options, run_jobs,
}
use karar_flutter_version.Jobs.Leases.{is_owned, OwnedIn, GivesNoLease, batched}

module _ {P : Type 0} (worker : String) where
  swept :
      (poller : JobPoller) (now : ℕ) (table : List (JobRow P))
      → All (OwnedIn worker (λ id. ⊥)) table
      → All (OwnedIn worker (λ id. ⊥)) (sweep poller now table).1
  unfolding sweep recover_stale_leases
  swept poller now table h =
      elim (Bool-cases
        (leb (poller.last_stale_sweep_at_ms + poller.stale_recovery_interval_ms) now)) [
          | inl due ↦ rw due (
              update_where-All _ (OwnedIn worker (λ id. ⊥)) (is_stale now) (stale_mark now)
                (λ r hit k m. ground (arith, m, stale_mark-unleased now r)) (λ r miss k. k) table h)
          | inr not_due ↦ rw not_due h
        ]

  sweep-worker :
      (poller : JobPoller) (now : ℕ) (table : List (JobRow P))
      → (sweep poller now table).0.worker_id ≡ poller.worker_id
  unfolding sweep
  sweep-worker poller now table = ground arith

  leased_to :
      (queue : JobQueueOptions) (id_before : String → String → Bool) (locked : String → Bool)
      (now : ℕ) (o : ClaimOptions) (table : List (JobRow P))
      → let test = taken queue id_before locked now o table in
        o.worker_id ≡ worker
        → All (OwnedIn worker (λ id. ⊥)) table
        → All
            (OwnedIn worker (λ id.
              Any (λ c. c.id ≡ id) (map to_claimed (returning test (mark queue now o) table))))
            (update_where test (mark queue now o) table)
  leased_to queue id_before locked now o table own h =
      let test = taken queue id_before locked now o table in
      update_where-All
        (λ r.
          OwnedIn worker (λ id. ⊥) r
          × (test r ≡ true
              → WasClaimed (map to_claimed (returning test (mark queue now o) table)) r))
        _ test (mark queue now o) (λ r hit k m. k.1 hit) (λ r miss k m. absurd (k.0 m)) table
        (All-both _ _ _ (λ r a b. (a, b)) table h (taken-returned test o queue now table))

  given_owner :
      (queue : JobQueueOptions) (now : ℕ) (o : ClaimOptions) (rows : List (JobRow P))
      → o.worker_id ≡ worker
      → All (λ c. c.lease_owner ≡ worker) (map to_claimed (map (mark queue now o) rows))
  given_owner queue now o [] own = tt
  given_owner queue now o (r ∷ rows) own = (own, given_owner queue now o rows own)

  claimed_run :
      (queue : JobQueueOptions) (id_before : String → String → Bool) (locked : String → Bool)
      (now : ℕ) (o : ClaimOptions) (rows : List (JobRow P))
      → is_blank o.worker_id ≡ false
      → claim queue id_before locked now o rows
        ≡ some (
          update_where (taken queue id_before locked now o rows) (mark queue now o) rows,
          map to_claimed
              (returning (taken queue id_before locked now o rows) (mark queue now o) rows),
        )
  unfolding claim
  claimed_run queue id_before locked now o rows e = rw e refl

  none_owned : (r : JobRow P) → OwnedIn worker (λ id. ⊥) r → is_owned worker r ≡ false
  none_owned r k = elim (Bool-cases (is_owned worker r)) [ inl e ↦ absurd (k e) | inr e ↦ e ]

  -- A run of the poller, whether or not it is stopped on the way and whatever its handlers throw,
  -- returns, and leaves no job leased to its worker, when the worker had no lease before and nothing
  -- leases a job to it while a handler runs.
  pub run_jobs-unleased :
      (queue : JobQueueOptions) (registry : JobHandlerRegistry P)
      (id_before : String → String → Bool) (locked : String → Bool)
      (meanwhile : ClaimedJob P → List (JobRow P) → List (JobRow P)) (stopping : String → Bool)
      (at : String → ℕ) (now end : ℕ) (poller : JobPoller) (table : List (JobRow P))
      → poller.worker_id ≡ worker
      → is_blank poller.worker_id ≡ false
      → ((c : ClaimedJob P) → GivesNoLease worker (meanwhile c))
      → All (λ r. is_owned worker r ≡ false) table
      → (x : JobPoller × List (JobRow P) × PollerRunReport) × (run_jobs queue registry id_before
            locked meanwhile stopping at now end poller table
          ≡ some x)
        × All (λ r. is_owned worker r ≡ false) x.1
  unfolding run_jobs run_claimed
  run_jobs-unleased queue registry id_before locked meanwhile stopping at now end poller table own
        named quiet h =
      let first = sweep poller now table in
      let o = claim_options first.0 in
      let same = sweep-worker poller now table ∙ own in
      let start = swept poller now table (All-mono _ _ (λ r e m. ground (arith, e, m)) table h) in
      let run =
        claimed_run queue id_before locked now o first.1
          (ap is_blank (sweep-worker poller now table) ∙ named) in
      let change = mark queue now o in
      let test = taken queue id_before locked now o first.1 in
      let jobs = map to_claimed (returning test change first.1) in
      let rows = update_where test change first.1 in
      let last =
        run_batch queue registry meanwhile stopping at jobs
          (rows, empty_report (length jobs) first.2) in
      (
        (record first.0 { last_tick_at_ms = some end }, last.0, last.1),
        ap (run_claimed queue registry meanwhile stopping at end first.2 first.0) run,
        All-mono _ _ (λ r k. none_owned r k) last.0
            (batched worker queue registry meanwhile stopping at jobs
              (rows, empty_report (length jobs) first.2) quiet
              (given_owner queue now o (filter test first.1) same)
              (leased_to queue id_before locked now o first.1 same start)),
      )
