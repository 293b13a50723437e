-- ===== src/Jobs/Poller.antt =====
-- packages/platform/src/jobs/poller.ts and registry.ts: `runOnce` and `executeOne`. The registered
-- handlers are arguments, told by what they throw; so is what the handler's heartbeats and other
-- workers do to the table while a handler runs. A statement that fails makes `runOnce` reject, which
-- is left out, with the timers, the instruments and the log lines.
use karar_flutter_version.Prelude.{
  ℕ, ◌+◌, String, Bool, true, false, Option, none, some, List, [], ◌∷◌, length, leb, same_text,
  join_text, is_blank, any, if◌then◌else◌, Result, ok, err,
}
use karar_flutter_version.Jobs.Row.{
  JobRow, ClaimedJob, ClaimOptions, JobQueueOptions, CompleteOutcome, FailOutcome, ReleaseOutcome,
}
use karar_flutter_version.Jobs.Queue.{claim}
use karar_flutter_version.Jobs.Lease.{complete, fail_retryable, release, recover_stale_leases}

-- What a handler throws, if it does.
abbrev pub JobHandler : Type 0 → Type 0
JobHandler P = ClaimedJob P → Option String

-- `Map<string, JobHandler>`
abbrev pub JobHandlerRegistry : Type 0 → Type 0
JobHandlerRegistry P = List (String × JobHandler P)

pub data RegisterError : Type 0 where
  empty_type : RegisterError
  already_registered : String → RegisterError

pub data ExecuteOutcome : Type 0 where
  completed scheduled_retry dead_lettered lost_lease : ExecuteOutcome

pub record PollerRunReport : Type 0 where
  pub claimed : ℕ
  pub completed : ℕ
  pub retried : ℕ
  pub dead_lettered : ℕ
  pub released : ℕ
  pub stale_recovered : ℕ

-- The fields of `JobPoller` that `runOnce` reads and writes.
pub record JobPoller : Type 0 where
  pub worker_id : String
  pub batch_size : ℕ
  pub lease_ttl_ms : Option ℕ
  pub stale_recovery_interval_ms : ℕ
  pub last_stale_sweep_at_ms : ℕ
  pub last_tick_at_ms : Option ℕ

abbrev pub of_fail : FailOutcome → ExecuteOutcome
of_fail FailOutcome.scheduled_retry = ExecuteOutcome.scheduled_retry
of_fail FailOutcome.dead_lettered = ExecuteOutcome.dead_lettered
of_fail FailOutcome.lost_lease = ExecuteOutcome.lost_lease

abbrev pub of_complete : CompleteOutcome → ExecuteOutcome
of_complete CompleteOutcome.completed = ExecuteOutcome.completed
of_complete CompleteOutcome.lost_lease = ExecuteOutcome.lost_lease

abbrev pub tallied : ExecuteOutcome → PollerRunReport → PollerRunReport
tallied ExecuteOutcome.completed r = record r { completed = r.completed + 1 }
tallied ExecuteOutcome.scheduled_retry r = record r { retried = r.retried + 1 }
tallied ExecuteOutcome.dead_lettered r = record r { dead_lettered = r.dead_lettered + 1 }
tallied ExecuteOutcome.lost_lease r = r

abbrev pub tally_release : ReleaseOutcome → PollerRunReport → PollerRunReport
tally_release ReleaseOutcome.released r = record r { released = r.released + 1 }
tally_release ReleaseOutcome.lost_lease r = r

abbrev pub empty_report : (claimed stale_recovered : ℕ) → PollerRunReport
empty_report claimed stale_recovered = record {
  claimed = claimed;
  completed = 0;
  retried = 0;
  dead_lettered = 0;
  released = 0;
  stale_recovered = stale_recovered;
}

abbrev pub claim_options : JobPoller → ClaimOptions
claim_options poller = record {
  worker_id = poller.worker_id;
  batch_size = some poller.batch_size;
  lease_ttl_ms = poller.lease_ttl_ms;
}

-- What `describeError` makes of the error for a type that is not registered.
abbrev pub no_handler : String → String
no_handler job_type =
    join_text (join_text "Error: No handler registered for job type '" job_type) "'"

module _ {P : Type 0} where
  unfoldable pub resolve : JobHandlerRegistry P → String → Option (JobHandler P)
  resolve [] job_type = none
  resolve ((key, handler) ∷ rest) job_type =
      let later = resolve rest job_type in if same_text key job_type then some handler else later

  unfoldable pub register_handler :
      JobHandlerRegistry P → String → JobHandler P → Result (JobHandlerRegistry P) RegisterError
  register_handler registry job_type handler =
      if is_blank job_type
      then err RegisterError.empty_type
      else if any (λ (key, h). same_text key job_type) registry
      then err (RegisterError.already_registered job_type)
      else ok ((job_type, handler) ∷ registry)

  -- What follows the handler, at the instant of the report.
  unfoldable pub after_handler :
      JobQueueOptions
      → ℕ
      → ClaimedJob P
      → Option String
      → List (JobRow P)
      → List (JobRow P) × ExecuteOutcome
  unfolding complete fail_retryable
  after_handler queue now job none table =
      let (rows, outcome) = complete now job table in (rows, of_complete outcome)
  after_handler queue now job (some error) table =
      let (rows, outcome) = fail_retryable queue now job error table in (rows, of_fail outcome)

  -- `executeOne` with the handler that is registered, if one is. `meanwhile` is what becomes of the
  -- table while the handler runs.
  unfoldable pub with_handler :
      JobQueueOptions
      → (meanwhile : ClaimedJob P → List (JobRow P) → List (JobRow P)) → ℕ
      → ClaimedJob P
      → Option (JobHandler P)
      → List (JobRow P)
      → List (JobRow P) × ExecuteOutcome
  unfolding after_handler fail_retryable
  with_handler queue meanwhile now job none table =
      let (rows, outcome) = fail_retryable queue now job (no_handler job.job_type) table in
      (rows, of_fail outcome)
  with_handler queue meanwhile now job (some handler) table =
      after_handler queue now job (handler job) (meanwhile job table)

  unfoldable pub execute_one :
      JobQueueOptions
      → JobHandlerRegistry P
      → (meanwhile : ClaimedJob P → List (JobRow P) → List (JobRow P)) → ℕ
      → ClaimedJob P
      → List (JobRow P)
      → List (JobRow P) × ExecuteOutcome
  unfolding with_handler resolve
  execute_one queue registry meanwhile now job table =
      with_handler queue meanwhile now job (resolve registry job.job_type) table

  -- One turn of the loop: a job that is not started when the poller stops goes back.
  unfoldable pub take_turn :
      JobQueueOptions
      → JobHandlerRegistry P
      → (meanwhile : ClaimedJob P → List (JobRow P) → List (JobRow P)) → (stopping : Bool) → ℕ
      → ClaimedJob P
      → List (JobRow P) × PollerRunReport
      → List (JobRow P) × PollerRunReport
  unfolding execute_one release
  take_turn queue registry meanwhile true now job (table, report) =
      let (rows, freed) = release now job table in (rows, tally_release freed report)
  take_turn queue registry meanwhile false now job (table, report) =
      let (rows, outcome) = execute_one queue registry meanwhile now job table in
      (rows, tallied outcome report)

  -- The loop over the batch. `stopping id` says whether a stop is seen when the job's turn comes, and
  -- `at id` is the instant of the statement that reports on it.
  unfoldable pub run_batch :
      JobQueueOptions
      → JobHandlerRegistry P
      → (meanwhile : ClaimedJob P → List (JobRow P) → List (JobRow P)) → (stopping : String → Bool)
      → (at : String → ℕ) → List (ClaimedJob P)
      → List (JobRow P) × PollerRunReport
      → List (JobRow P) × PollerRunReport
  unfolding take_turn
  run_batch queue registry meanwhile stopping at [] state = state
  run_batch queue registry meanwhile stopping at (job ∷ jobs) state =
      run_batch queue registry meanwhile stopping at jobs
        (take_turn queue registry meanwhile (stopping job.id) (at job.id) job state)

  -- The sweep of stale leases, when it is due.
  unfoldable pub sweep : JobPoller → ℕ → List (JobRow P) → JobPoller × List (JobRow P) × ℕ
  unfolding recover_stale_leases
  sweep poller now table =
      if leb (poller.last_stale_sweep_at_ms + poller.stale_recovery_interval_ms) now
      then (
        record poller { last_stale_sweep_at_ms = now },
        (recover_stale_leases now table).0,
        (recover_stale_leases now table).1.recovered,
      )
      else (poller, table, 0)

  -- What `runOnce` does with the claim; nothing where the claim throws.
  unfoldable pub run_claimed :
      JobQueueOptions
      → JobHandlerRegistry P
      → (meanwhile : ClaimedJob P → List (JobRow P) → List (JobRow P)) → (stopping : String → Bool)
      → (at : String → ℕ) → (end recovered : ℕ) → JobPoller
      → Option (List (JobRow P) × List (ClaimedJob P))
      → Option (JobPoller × List (JobRow P) × PollerRunReport)
  run_claimed queue registry meanwhile stopping at end recovered poller none = none
  run_claimed queue registry meanwhile stopping at end recovered poller (some (rows, jobs)) =
      let (after, report) =
        run_batch queue registry meanwhile stopping at jobs
          (rows, empty_report (length jobs) recovered) in
      some (record poller { last_tick_at_ms = some end }, after, report)

  -- `runOnce`, which starts at `now` and ends at `end`.
  unfoldable pub run_jobs :
      JobQueueOptions
      → JobHandlerRegistry P
      → (id_before : String → String → Bool) → (locked : String → Bool)
      → (meanwhile : ClaimedJob P → List (JobRow P) → List (JobRow P)) → (stopping : String → Bool)
      → (at : String → ℕ) → (now end : ℕ) → JobPoller
      → List (JobRow P)
      → Option (JobPoller × List (JobRow P) × PollerRunReport)
  run_jobs queue registry id_before locked meanwhile stopping at now end poller table =
      let (swept, rows, recovered) = sweep poller now table in
      run_claimed queue registry meanwhile stopping at end recovered swept
        (claim queue id_before locked now (claim_options swept) rows)
