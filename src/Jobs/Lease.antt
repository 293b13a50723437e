-- ===== src/Jobs/Lease.antt =====
-- packages/platform/src/jobs/postgres-queue.ts: what the holder of a lease reports, and the recovery of
-- leases that have expired. The text that `describeError` makes of an error is an argument.
use karar_flutter_version.Prelude.{
  ℕ, ◌+◌, ◌-◌, String, Bool, not, ◌&&◌, Option, none, some, List, leb, ◌==◌, same_text,
  if◌then◌else◌, update_where, count,
}
use karar_flutter_version.Jobs.Row.{
  JobStatus, JobRow, ClaimedJob, JobQueueOptions, CompleteOutcome, FailOutcome, HeartbeatOutcome,
  ReleaseOutcome, StaleRecoveryReport, or_else, is_leased, is_dead, is_text, lease_expired,
  retry_delay, returning,
}

module _ {P : Type 0} where
  -- `id = $1 AND lease_owner = $2 AND status = 'leased'`
  abbrev pub holds : ClaimedJob P → JobRow P → Bool
  holds job row =
      same_text row.id job.id && is_text row.lease_owner job.lease_owner && is_leased row.status

  -- `result.rowCount === 1`
  abbrev pub one_row : ClaimedJob P → List (JobRow P) → Bool
  one_row job table = count (holds job) table == 1

  -- The part of every outcome that gives the lease up.
  abbrev pub unlease : JobStatus → ℕ → JobRow P → JobRow P
  unlease status now row = record row {
    status = status;
    lease_owner = none;
    lease_expires_at = none;
    updated_at = now;
  }

  unfoldable pub complete : ℕ → ClaimedJob P → List (JobRow P) → List (JobRow P) × CompleteOutcome
  unfolding update_where
  complete now job table = (
    update_where (holds job) (unlease JobStatus.succeeded now) table,
    if one_row job table then CompleteOutcome.completed else CompleteOutcome.lost_lease,
  )

  abbrev pub dead_mark : ℕ → String → JobRow P → JobRow P
  dead_mark now error row = record (unlease JobStatus.dead now row) { last_error = some error }

  unfoldable pub dead_letter :
      ℕ → ClaimedJob P → String → List (JobRow P) → List (JobRow P) × FailOutcome
  unfolding update_where
  dead_letter now job error table = (
    update_where (holds job) (dead_mark now error) table,
    if one_row job table then FailOutcome.dead_lettered else FailOutcome.lost_lease,
  )

  abbrev pub retry_mark : (available_at now : ℕ) → String → JobRow P → JobRow P
  retry_mark available_at now error row = record (unlease JobStatus.failed_retryable now row) {
    last_error = some error;
    available_at = available_at;
  }

  unfoldable pub fail_retryable :
      JobQueueOptions → ℕ → ClaimedJob P → String → List (JobRow P) → List (JobRow P) × FailOutcome
  unfolding dead_letter update_where
  fail_retryable queue now job error table =
      if leb job.max_attempts job.attempts then dead_letter now job error table else (
        update_where (holds job) (retry_mark (now + retry_delay queue job.attempts) now error)
            table,
        if one_row job table then FailOutcome.scheduled_retry else FailOutcome.lost_lease,
      )

  abbrev pub extend_mark : (expires now : ℕ) → JobRow P → JobRow P
  extend_mark expires now row = record row { lease_expires_at = some expires; updated_at = now }

  unfoldable pub heartbeat :
      JobQueueOptions
      → ℕ
      → ClaimedJob P
      → (extend_ms : Option ℕ) → List (JobRow P)
      → List (JobRow P) × HeartbeatOutcome
  unfolding update_where
  heartbeat queue now job extend_ms table = (
    update_where (holds job) (extend_mark (now + or_else extend_ms queue.default_lease_ttl_ms) now)
        table,
    if one_row job table then HeartbeatOutcome.extended else HeartbeatOutcome.lost_lease,
  )

  -- `greatest(attempts - 1, 0)` is the subtraction that stops at 0.
  abbrev pub release_mark : ℕ → JobRow P → JobRow P
  release_mark now row = record (unlease JobStatus.queued now row) { attempts = row.attempts - 1 }

  unfoldable pub release : ℕ → ClaimedJob P → List (JobRow P) → List (JobRow P) × ReleaseOutcome
  unfolding update_where
  release now job table = (
    update_where (holds job) (release_mark now) table,
    if one_row job table then ReleaseOutcome.released else ReleaseOutcome.lost_lease,
  )

  abbrev pub is_stale : ℕ → JobRow P → Bool
  is_stale now row = is_leased row.status && lease_expired row.lease_expires_at now

  abbrev pub stale_status : JobRow P → JobStatus
  stale_status row =
      if leb row.max_attempts row.attempts then JobStatus.dead else JobStatus.failed_retryable

  abbrev pub stale_mark : ℕ → JobRow P → JobRow P
  stale_mark now row = record (unlease (stale_status row) now row) {
    last_error = some "lease expired before the worker reported an outcome";
    available_at = now;
  }

  unfoldable pub recover_stale_leases : ℕ → List (JobRow P) → List (JobRow P) × StaleRecoveryReport
  unfolding update_where
  recover_stale_leases now table =
      let rows = returning (is_stale now) (stale_mark now) table in
      (
        update_where (is_stale now) (stale_mark now) table,
        record {
          recovered = count (λ r. not (is_dead r.status)) rows;
          dead_lettered = count (λ r. is_dead r.status) rows;
        },
      )
