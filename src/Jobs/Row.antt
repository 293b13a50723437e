-- ===== src/Jobs/Row.antt =====
-- packages/platform/src/jobs/queue.ts and postgres-queue.ts: a row of `platform.jobs`
-- (packages/platform/db/migrations/0021_jobs.sql) and the values that the queue gives and takes. The
-- table is the list of its rows. A statement is one atomic step at the instant `now`, in milliseconds.
use karar_flutter_version.Prelude.{
  ℕ, ◌*◌, ◌-◌, ◌^◌, String, Bool, true, false, Option, none, some, List, [], ◌∷◌, map, filter, ltb,
  same_text, lesser, greater,
}
use karar_flutter_version.Prelude.Int.{ℤ}

pub data JobStatus : Type 0 where
  queued leased succeeded failed_retryable dead : JobStatus

pub record JobRow (P : Type 0) : Type 0 where
  pub id : String
  pub job_type : String
  pub payload : P
  pub classification : String
  pub idempotency_key : Option String
  pub status : JobStatus
  pub priority : ℤ
  pub attempts : ℕ
  pub max_attempts : ℕ
  pub available_at : ℕ
  pub created_at : ℕ
  pub updated_at : ℕ
  pub lease_owner : Option String
  pub lease_expires_at : Option ℕ
  pub last_error : Option String
  pub correlation_id : Option String
  pub causation_id : Option String

pub record ClaimedJob (P : Type 0) : Type 0 where
  pub id : String
  pub job_type : String
  pub payload : P
  pub classification : String
  pub priority : ℤ
  pub attempts : ℕ
  pub max_attempts : ℕ
  pub lease_owner : String
  pub correlation_id : Option String
  pub causation_id : Option String

pub record EnqueueJobInput (P : Type 0) : Type 0 where
  pub job_type : String
  pub payload : P
  pub classification : Option String
  pub idempotency_key : Option String
  pub priority : Option ℤ
  pub delay_ms : Option ℕ
  pub max_attempts : Option ℕ
  pub correlation_id : Option String
  pub causation_id : Option String

-- `PostgresJobQueueOptions` with the defaults of the constructor.
pub record JobQueueOptions : Type 0 where
  pub max_payload_bytes : ℕ
  pub max_claim_batch : ℕ
  pub backoff_base_ms : ℕ
  pub backoff_cap_ms : ℕ
  pub default_lease_ttl_ms : ℕ

abbrev pub default_options : JobQueueOptions
default_options = record {
  max_payload_bytes = 262144;
  max_claim_batch = 25;
  backoff_base_ms = 1000;
  backoff_cap_ms = 300000;
  default_lease_ttl_ms = 30000;
}

pub record ClaimOptions : Type 0 where
  pub worker_id : String
  pub batch_size : Option ℕ
  pub lease_ttl_ms : Option ℕ

pub data EnqueueError : Type 0 where
  empty_job_type : EnqueueError
  payload_too_large : String → ℕ → ℕ → EnqueueError
  violated_constraint : EnqueueError
  enqueue_race : String → EnqueueError

pub data CompleteOutcome : Type 0 where
  completed lost_lease : CompleteOutcome

pub data FailOutcome : Type 0 where
  scheduled_retry dead_lettered lost_lease : FailOutcome

pub data HeartbeatOutcome : Type 0 where
  extended lost_lease : HeartbeatOutcome

pub data ReleaseOutcome : Type 0 where
  released lost_lease : ReleaseOutcome

pub record StaleRecoveryReport : Type 0 where
  pub recovered : ℕ
  pub dead_lettered : ℕ

abbrev pub or_else {ℓ} : {A : Type ℓ} → Option A → A → A
or_else none a = a
or_else (some b) a = b

abbrev pub is_leased : JobStatus → Bool
is_leased JobStatus.leased = true
is_leased _ = false

-- `status IN ('queued', 'failed_retryable')`
abbrev pub is_waiting : JobStatus → Bool
is_waiting JobStatus.queued = true
is_waiting JobStatus.failed_retryable = true
is_waiting _ = false

abbrev pub is_dead : JobStatus → Bool
is_dead JobStatus.dead = true
is_dead _ = false

-- `a = b` in SQL is not true of null.
abbrev pub is_text : Option String → String → Bool
is_text none b = false
is_text (some a) b = same_text a b

abbrev pub lease_expired : Option ℕ → ℕ → Bool
lease_expired none now = false
lease_expired (some expires) now = ltb expires now

-- The classifications that the table's constraint admits.
abbrev pub classifications : List String
classifications =
    "PUBLIC" ∷ "INTERNAL" ∷ "CONFIDENTIAL" ∷ "HIGHLY_SENSITIVE_FINANCIAL" ∷ "SECRET" ∷ "SEALED" ∷ []

-- `Math.min(Math.max(1, batchSize ?? maxClaimBatch), maxClaimBatch)`
abbrev pub claim_limit : JobQueueOptions → ClaimOptions → ℕ
claim_limit queue o =
    lesser (greater 1 (or_else o.batch_size queue.max_claim_batch)) queue.max_claim_batch

-- `min(cap, base * 2 ** (attempts - 1))`; a claimed job counts at least one attempt.
abbrev pub retry_delay : JobQueueOptions → ℕ → ℕ
retry_delay queue attempts =
    lesser queue.backoff_cap_ms (queue.backoff_base_ms * 2 ^ (attempts - 1))

module _ {P : Type 0} where
  abbrev pub to_claimed : JobRow P → ClaimedJob P
  to_claimed row = record {
    id = row.id;
    job_type = row.job_type;
    payload = row.payload;
    classification = row.classification;
    priority = row.priority;
    attempts = row.attempts;
    max_attempts = row.max_attempts;
    lease_owner = or_else row.lease_owner "";
    correlation_id = row.correlation_id;
    causation_id = row.causation_id;
  }

  -- The rows that an `UPDATE` returns, in the table's order.
  abbrev pub returning :
      (JobRow P → Bool) → (JobRow P → JobRow P) → List (JobRow P) → List (JobRow P)
  returning test change table = map change (filter test table)
