-- ===== src/Jobs/Queue.antt =====
-- packages/platform/src/jobs/postgres-queue.ts: the statements that add a job and that claim jobs, and
-- the constraints of packages/platform/db/migrations/0021_jobs.sql. What `randomUUID` gives is an
-- argument, and so are the byte length of a payload's JSON, the order of `uuid`s and the rows that
-- another transaction has locked.
use karar_flutter_version.Prelude.{
  ℕ, ◌+◌, String, Bool, true, false, not, ◌&&◌, Option, none, some, List, ◌∷◌, map, any, all, find,
  filter, leb, ltb, same_text, is_blank, if◌then◌else◌, take, sort_by, then_by, update_where,
  Result, ok, err,
}
use karar_flutter_version.Prelude.Int.{pos, ltb_ℤ}
use karar_flutter_version.Jobs.Row.{
  JobStatus, JobRow, ClaimedJob, EnqueueJobInput, JobQueueOptions, ClaimOptions, EnqueueError,
  or_else, is_waiting, is_text, classifications, claim_limit, to_claimed, returning,
}

module _ {P : Type 0} where
  -- The row that `INSERT` makes of an input, with the defaults.
  abbrev pub new_row : String → ℕ → EnqueueJobInput P → JobRow P
  new_row id now input = record {
    id = id;
    job_type = input.job_type;
    payload = input.payload;
    classification = or_else input.classification "INTERNAL";
    idempotency_key = input.idempotency_key;
    status = JobStatus.queued;
    priority = or_else input.priority (pos 0);
    attempts = 0;
    max_attempts = or_else input.max_attempts 5;
    available_at = now + or_else input.delay_ms 0;
    created_at = now;
    updated_at = now;
    lease_owner = none;
    lease_expires_at = none;
    last_error = none;
    correlation_id = input.correlation_id;
    causation_id = input.causation_id;
  }

  -- `CHECK` and `NOT NULL`, and the primary key, of a row that is inserted.
  abbrev pub admits : List (JobRow P) → JobRow P → Bool
  admits table row =
      leb 1 row.max_attempts
      && any (same_text row.classification) classifications
      && all (λ r. not (same_text r.id row.id)) table

  -- A row with the same type and key: the partial unique index, and the `WHERE` that reads it.
  abbrev pub has_key : String → Option String → JobRow P → Bool
  has_key job_type none row = false
  has_key job_type (some key) row =
      same_text row.job_type job_type && is_text row.idempotency_key key

  -- `ON CONFLICT DO NOTHING`, then the read of the row that is there.
  unfoldable pub insert_row :
      List (JobRow P) → JobRow P → Result (List (JobRow P) × JobRow P × Bool) EnqueueError
  insert_row table row =
      if not (admits table row)
      then err EnqueueError.violated_constraint
      else if any (has_key row.job_type row.idempotency_key) table
      then elim (find (has_key row.job_type row.idempotency_key) table) [
        | none ↦ err (EnqueueError.enqueue_race row.job_type)
        | some existing ↦ ok (table, existing, false)
      ]
      else ok (row ∷ table, row, true)

  -- `enqueueWith`: the table, the job's row and `created`.
  unfoldable pub enqueue_with :
      JobQueueOptions
      → (json_bytes : P → ℕ) → (id : String) → (now : ℕ) → List (JobRow P)
      → EnqueueJobInput P
      → Result (List (JobRow P) × JobRow P × Bool) EnqueueError
  unfolding insert_row
  enqueue_with queue json_bytes id now table input =
      if is_blank input.job_type
      then err EnqueueError.empty_job_type
      else if ltb queue.max_payload_bytes (json_bytes input.payload)
      then err (
          EnqueueError.payload_too_large input.job_type (json_bytes input.payload)
            queue.max_payload_bytes)
      else insert_row table (new_row id now input)

  abbrev pub can_claim : (locked : String → Bool) → ℕ → JobRow P → Bool
  can_claim locked now row =
      is_waiting row.status && leb row.available_at now && not (locked row.id)

  -- `ORDER BY priority DESC, available_at, created_at, id`
  abbrev pub claims_first : (id_before : String → String → Bool) → JobRow P → JobRow P → Bool
  claims_first id_before =
      then_by (λ a b. ltb_ℤ b.priority a.priority)
        (then_by (λ a b. ltb a.available_at b.available_at)
          (then_by (λ a b. ltb a.created_at b.created_at) (λ a b. id_before a.id b.id)))

  -- The ids of the subquery `pick`.
  unfoldable pub picked_ids :
      (id_before : String → String → Bool)
      → (locked : String → Bool) → (limit now : ℕ) → List (JobRow P)
      → List String
  picked_ids id_before locked limit now table =
      map (λ r. r.id)
        (take limit (sort_by (claims_first id_before) (filter (can_claim locked now) table)))

  abbrev pub lease_mark : (worker : String) → (expires now : ℕ) → JobRow P → JobRow P
  lease_mark worker expires now row = record row {
    status = JobStatus.leased;
    lease_owner = some worker;
    lease_expires_at = some expires;
    attempts = row.attempts + 1;
    updated_at = now;
  }

  abbrev pub is_picked : List String → JobRow P → Bool
  is_picked ids row = any (same_text row.id) ids

  -- `claim`: nothing is claimed for a blank worker id, which throws.
  unfoldable pub claim :
      JobQueueOptions
      → (id_before : String → String → Bool) → (locked : String → Bool) → (now : ℕ) → ClaimOptions
      → List (JobRow P)
      → Option (List (JobRow P) × List (ClaimedJob P))
  unfolding picked_ids update_where
  claim queue id_before locked now o table =
      let ids = picked_ids id_before locked (claim_limit queue o) now table in
      let expires = now + or_else o.lease_ttl_ms queue.default_lease_ttl_ms in
      let mark : JobRow P → JobRow P = lease_mark o.worker_id expires now in
      if is_blank o.worker_id
      then none
      else some (
        update_where (is_picked ids) mark table,
        map to_claimed (returning (is_picked ids) mark table),
      )
