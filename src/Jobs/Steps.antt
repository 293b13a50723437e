-- ===== src/Jobs/Steps.antt =====
-- Workers that share `platform.jobs`: the interleaved steps of packages/platform/src/jobs, and what
-- every table that they reach has. A worker holds the jobs that its last claim gave it, and claims
-- again when it has reported on each (`JobPoller.runOnce`) or has been lost with them.
use karar_flutter_version.Prelude.{
  ℕ, String, ◌≡◌, ◌≢◌, Bool, Option, some, List, ◌++◌, Any, All, not, same_text, filter, ok,
}
use karar_flutter_version.Jobs.Row.{
  JobRow, ClaimedJob, ClaimOptions, EnqueueJobInput, JobQueueOptions,
}
use karar_flutter_version.Jobs.Queue.{enqueue_with, claim}
use karar_flutter_version.Jobs.Lease.{
  complete, dead_letter, fail_retryable, heartbeat, release, recover_stale_leases,
}
use karar_flutter_version.Jobs.Sound.{IsSound, IsCurrent, HasKey}

-- The table, and the workers' copies of the jobs that they hold.
pub record Workers (P : Type 0) : Type 0 where
  pub table : List (JobRow P)
  pub held : List (ClaimedJob P)

module _ {P : Type 0} where
  abbrev pub IsHeld : ClaimedJob P → List (ClaimedJob P) → Type 0
  IsHeld job held = Any (λ c. c ≡ job) held

  abbrev pub IsIdle : String → List (ClaimedJob P) → Type 0
  IsIdle worker held = All (λ c. c.lease_owner ≢ worker) held

  -- The copies that are left when a worker ends its run, or is lost.
  abbrev pub without : String → List (ClaimedJob P) → List (ClaimedJob P)
  without worker held = filter (λ c. not (same_text c.lease_owner worker)) held

  -- A report does not take the copy away: a worker may report on a job again.
  pub data Step (queue : JobQueueOptions) : Workers P → Workers P → Type 0 where
    enqueues :
        (s : Workers P) (json_bytes : P → ℕ) (id : String) (now : ℕ) (input : EnqueueJobInput P)
        (table : List (JobRow P)) (row : JobRow P) (created : Bool)
        → enqueue_with queue json_bytes id now s.table input ≡ ok (table, row, created)
        → Step queue s (record s { table = table })
    claims :
        (s : Workers P) (id_before : String → String → Bool) (locked : String → Bool) (now : ℕ)
        (o : ClaimOptions) (table : List (JobRow P)) (jobs : List (ClaimedJob P))
        → IsIdle o.worker_id s.held
        → claim queue id_before locked now o s.table ≡ some (table, jobs)
        → Step queue s (record { table = table; held = jobs ++ s.held })
    completes :
        (s : Workers P) (now : ℕ) (job : ClaimedJob P)
        → IsHeld job s.held
        → Step queue s (record s { table = (complete now job s.table).0 })
    fails :
        (s : Workers P) (now : ℕ) (job : ClaimedJob P) (error : String)
        → IsHeld job s.held
        → Step queue s (record s { table = (fail_retryable queue now job error s.table).0 })
    dies :
        (s : Workers P) (now : ℕ) (job : ClaimedJob P) (error : String)
        → IsHeld job s.held
        → Step queue s (record s { table = (dead_letter now job error s.table).0 })
    extends :
        (s : Workers P) (now : ℕ) (job : ClaimedJob P) (extend_ms : Option ℕ)
        → IsHeld job s.held
        → Step queue s (record s { table = (heartbeat queue now job extend_ms s.table).0 })
    releases :
        (s : Workers P) (now : ℕ) (job : ClaimedJob P)
        → IsHeld job s.held
        → Step queue s (record s { table = (release now job s.table).0 })
    recovers :
        (s : Workers P) (now : ℕ)
        → Step queue s (record s { table = (recover_stale_leases now s.table).0 })
    forgets :
        (s : Workers P) (worker : String) → Step queue s (record s { held = without worker s.held })

  pub data Reach (queue : JobQueueOptions) (s : Workers P) : Workers P → Type 0 where
    here : Reach queue s s
    next : {t u : Workers P} → Reach queue s t → Step queue t u → Reach queue s u

  -- A row is sound, and every copy of it whose lease still stands tells its attempts.
  abbrev pub IsFit : List (ClaimedJob P) → JobRow P → Type 0
  IsFit held row = IsSound row × All (λ c. IsCurrent c row) held

  abbrev pub IsConsistent : Workers P → Type 0
  IsConsistent s = HasKey s.table × All (IsFit s.held) s.table
