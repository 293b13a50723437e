-- ===== src/Jobs/Budget.antt =====
-- How often jobs are claimed: each claim spends one attempt of a job, and only a release gives one
-- back.
use karar_flutter_version.Prelude.{
  ℕ, ◌+◌, ◌-◌, ◌≤◌, ◌<◌, String, ◌≡◌, refl, Bool, Bool-cases, true, some, List, [], ◌∷◌, inl, inr,
  All, All-both, length, map, leb, count, update_where, ok, arith, if◌then◌else◌,
}
use karar_flutter_version.Jobs.Row.{
  JobStatus, JobRow, ClaimedJob, ClaimOptions, EnqueueJobInput, JobQueueOptions, or_else,
  claim_limit, retry_delay, returning, to_claimed,
}
use karar_flutter_version.Jobs.Queue.{new_row, enqueue_with, claim, lease_mark}
use karar_flutter_version.Jobs.Lease.{
  complete, unlease, dead_letter, fail_retryable, heartbeat, release, recover_stale_leases, holds,
  release_mark, dead_mark, retry_mark, extend_mark, is_stale, stale_mark,
}
use karar_flutter_version.Jobs.Sound.{can_claim-attempts}
use karar_flutter_version.Jobs.Enqueue.{insert_row-table, enqueue_with-insert_row}
use karar_flutter_version.Jobs.Claimed.{taken, claim-some, picked_rows}
use karar_flutter_version.Jobs.Steps.{Workers, Step, Reach, IsConsistent}
use karar_flutter_version.Jobs.Consistent.{reach-IsConsistent}

module _ {P : Type 0} where
  -- The attempts that the jobs of a table have left.
  abbrev pub attempts_left : List (JobRow P) → ℕ
  attempts_left [] = 0
  attempts_left (r ∷ rows) = r.max_attempts - r.attempts + attempts_left rows

  keeps_left :
      (test : JobRow P → Bool) (change : JobRow P → JobRow P)
      → ((r : JobRow P)
          → (change r).max_attempts - (change r).attempts ≡ r.max_attempts - r.attempts)
      → (rows : List (JobRow P))
      → attempts_left (update_where test change rows) ≡ attempts_left rows
  unfolding update_where
  keeps_left test change same [] = refl
  keeps_left test change same (r ∷ rows) = elim (Bool-cases (test r)) [
    | inl e ↦ rw e (omega (arith, same r, keeps_left test change same rows))
    | inr e ↦ rw e (omega (arith, keeps_left test change same rows))
  ]

  claim_left :
      (test : JobRow P → Bool) (worker : String) (expires now : ℕ) (rows : List (JobRow P))
      → All (λ r. test r ≡ true → r.attempts < r.max_attempts) rows
      → length (map to_claimed (returning test (lease_mark worker expires now) rows))
          + attempts_left (update_where test (lease_mark worker expires now) rows)
        ≡ attempts_left rows
  unfolding update_where
  claim_left test worker expires now [] h = refl
  claim_left test worker expires now (r ∷ rows) h =
      let rest = claim_left test worker expires now rows h.1 in
      elim (Bool-cases (test r)) [
        | inl e ↦ let less = h.0 e in rw e (omega (arith, less, rest))
        | inr e ↦ rw e (omega (arith, rest))
      ]

  release_left :
      (job : ClaimedJob P) (now : ℕ) (rows : List (JobRow P))
      → attempts_left (update_where (holds job) (release_mark now) rows)
        ≤ count (holds job) rows + attempts_left rows
  unfolding update_where
  release_left job now [] = omega arith
  release_left job now (r ∷ rows) = elim (Bool-cases (holds job r)) [
    | inl e ↦ rw e (omega (arith, release_left job now rows))
    | inr e ↦ rw e (omega (arith, release_left job now rows))
  ]

  -- What a step claims, and the attempts that it gives to the table: those of a job that is added,
  -- and one for a lease that is released.
  abbrev pub claims_of : {queue : JobQueueOptions} {s t : Workers P} → Step queue s t → ℕ
  claims_of (Step.claims s id_before locked now o table jobs idle e) = length jobs
  claims_of _ = 0

  abbrev pub grants_of : {queue : JobQueueOptions} {s t : Workers P} → Step queue s t → ℕ
  grants_of (Step.enqueues s json_bytes id now input table row created e) =
      if created then row.max_attempts else 0
  grants_of (Step.releases s now job m) = count (holds job) s.table
  grants_of _ = 0

  fail_left :
      (queue : JobQueueOptions) (now : ℕ) (job : ClaimedJob P) (error : String)
      (rows : List (JobRow P))
      → attempts_left (fail_retryable queue now job error rows).0 ≡ attempts_left rows
  unfolding fail_retryable dead_letter
  fail_left queue now job error rows = elim (Bool-cases (leb job.max_attempts job.attempts)) [
    | inl out ↦ rw out (keeps_left (holds job) (dead_mark now error) (λ r. refl) rows)
    | inr more ↦ rw more (
        keeps_left (holds job) (retry_mark (now + retry_delay queue job.attempts) now error)
          (λ r. refl) rows)
  ]

  claims_left :
      (queue : JobQueueOptions) (s : Workers P) (id_before : String → String → Bool)
      (locked : String → Bool) (now : ℕ) (o : ClaimOptions) (table : List (JobRow P))
      (jobs : List (ClaimedJob P))
      → claim queue id_before locked now o s.table ≡ some (table, jobs)
      → IsConsistent s
      → length jobs + attempts_left table ≡ attempts_left s.table
  claims_left queue s id_before locked now o table jobs e h =
      let (rows, given) = claim-some queue id_before locked now o s.table table jobs e in
      rw (rows, given)
        (claim_left (taken queue id_before locked now o s.table) o.worker_id _ now s.table (
          All-both _ _ _ (λ r a b k. can_claim-attempts locked now r (a k) b.0) s.table
            (picked_rows id_before locked (claim_limit queue o) now s.table h.0) h.1))

  enqueues_left :
      (queue : JobQueueOptions) (s : Workers P) (json_bytes : P → ℕ) (id : String) (now : ℕ)
      (input : EnqueueJobInput P) (table : List (JobRow P)) (row : JobRow P) (created : Bool)
      → enqueue_with queue json_bytes id now s.table input ≡ ok (table, row, created)
      → attempts_left table ≡ (if created then row.max_attempts else 0) + attempts_left s.table
  enqueues_left queue s json_bytes id now input table row created e =
      elim (insert_row-table s.table table (new_row id now input) row created
        (enqueue_with-insert_row queue json_bytes id now s.table input _ e)) [
          | inl (same, old, _, _) ↦ rw (same, old) (omega arith)
          | inr (more, found, new, _, _) ↦ rw (more, found, new) (omega arith)
        ]

  Step-left :
      (queue : JobQueueOptions) {s t : Workers P} (step : Step queue s t)
      → IsConsistent s
      → claims_of step + attempts_left t.table ≤ grants_of step + attempts_left s.table
  unfolding complete heartbeat recover_stale_leases release dead_letter
  Step-left queue (Step.enqueues s json_bytes id now input table row created e) h =
      omega (arith, enqueues_left queue s json_bytes id now input table row created e)
  Step-left queue (Step.claims s id_before locked now o table jobs idle e) h =
      omega (arith, claims_left queue s id_before locked now o table jobs e h)
  Step-left queue (Step.completes s now job m) h =
      omega (arith, keeps_left (holds job) (unlease JobStatus.succeeded now) (λ r. refl) s.table)
  Step-left queue (Step.fails s now job error m) h =
      omega (arith, fail_left queue now job error s.table)
  Step-left queue (Step.dies s now job error m) h =
      omega (arith, keeps_left (holds job) (dead_mark now error) (λ r. refl) s.table)
  Step-left queue (Step.extends s now job extend_ms m) h = omega (
    arith,
    keeps_left (holds job) (extend_mark (now + or_else extend_ms queue.default_lease_ttl_ms) now)
        (λ r. refl) s.table,
  )
  Step-left queue (Step.releases s now job m) h = omega (arith, release_left job now s.table)
  Step-left queue (Step.recovers s now) h =
      omega (arith, keeps_left (is_stale now) (stale_mark now) (λ r. refl) s.table)
  Step-left queue (Step.forgets s worker) h = omega arith

  abbrev pub claims_in : {queue : JobQueueOptions} {s t : Workers P} → Reach queue s t → ℕ
  claims_in Reach.here = 0
  claims_in (Reach.next run step) = claims_in run + claims_of step

  abbrev pub grants_in : {queue : JobQueueOptions} {s t : Workers P} → Reach queue s t → ℕ
  grants_in Reach.here = 0
  grants_in (Reach.next run step) = grants_in run + grants_of step

  -- However workers interleave, from a consistent state the jobs that are claimed in a run, each as
  -- often as it is, and the attempts that are left after it, are together no more than the attempts
  -- left before it, the maximum of each job that the run adds, and one for each lease that it
  -- releases: no job is claimed for ever.
  pub claims_in-bounded :
      (queue : JobQueueOptions) (s t : Workers P) (run : Reach queue s t)
      → IsConsistent s
      → claims_in run + attempts_left t.table ≤ grants_in run + attempts_left s.table
  claims_in-bounded queue s t Reach.here h = omega arith
  claims_in-bounded queue s t (Reach.next {t = u} run step) h =
      let before = claims_in-bounded queue s u run h in
      let last = Step-left queue step (reach-IsConsistent queue s u h run) in
      omega (arith, before, last)
