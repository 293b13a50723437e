-- ===== src/Jobs/Enqueue.antt =====
-- What the statement that adds a job to `platform.jobs` leaves.
use mathlib.Core.Path.{subst}
use karar_flutter_version.Prelude.{
  ℕ, String, ◌≡◌, refl, ap, ◌∙◌, ◌⊎◌, inl, inr, Bool, Bool-cases, Option-cases, true, false, some,
  List, ◌∷◌, any, find, find-holds, find-some, eq_iff, ◌≤◌, ltb, is_blank, ok, arith,
}
use karar_flutter_version.Jobs.Row.{JobRow, EnqueueJobInput, JobQueueOptions}
use karar_flutter_version.Jobs.Queue.{admits, has_key, new_row, insert_row, enqueue_with}

module _ {P : Type 0} where
  -- The table is as it was, or has one more row, which the constraints admit and whose key is new.
  pub insert_row-table :
      (table after : List (JobRow P)) (row found : JobRow P) (created : Bool)
      → insert_row table row ≡ ok (after, found, created)
      → ((after ≡ table)
          × (created ≡ false)
          × (has_key row.job_type row.idempotency_key found ≡ true)
          × (any (has_key row.job_type row.idempotency_key) table ≡ true))
        ⊎ ((after ≡ row ∷ table)
            × (found ≡ row)
            × (created ≡ true)
            × (admits table row ≡ true)
            × (any (has_key row.job_type row.idempotency_key) table ≡ false))
  unfolding insert_row
  insert_row-table table after row found created e =
      let same_key = has_key row.job_type row.idempotency_key in
      elim (Bool-cases (admits table row)) [
        | inr refused ↦ ground (arith, refused, e)
        | inl fits ↦ elim (Bool-cases (any same_key table)) [
          | inl taken ↦ elim (Option-cases (find same_key table)) [
            | inl lost ↦ ground (arith, fits, taken, lost, e)
            | inr (x, seen) ↦ ground (arith, fits, taken, seen, find-holds same_key table x seen, e)
          ]
          | inr fresh ↦ ground (arith, fits, fresh, e)
        ]
      ]

  pub enqueue_with-insert_row :
      (queue : JobQueueOptions) (json_bytes : P → ℕ) (id : String) (now : ℕ)
      (table : List (JobRow P)) (input : EnqueueJobInput P) (x : List (JobRow P) × JobRow P × Bool)
      → enqueue_with queue json_bytes id now table input ≡ ok x
      → insert_row table (new_row id now input) ≡ ok x
  unfolding enqueue_with
  enqueue_with-insert_row queue json_bytes id now table input x e = ground (arith, e)

  -- A row that was enqueued has its key.
  enqueued-key :
      (id : String) (now : ℕ) (input : EnqueueJobInput P) (key : String)
      (table after : List (JobRow P)) (row : JobRow P) (created : Bool)
      → insert_row table (new_row id now input) ≡ ok (after, row, created)
      → input.idempotency_key ≡ some key
      → any (has_key input.job_type (some key)) after ≡ true
  enqueued-key id now input key table after row created e k =
      elim (insert_row-table table after (new_row id now input) row created e) [
        | inl (same, _, _, there) ↦
            rw same (subst (λ o. any (has_key input.job_type o) table ≡ true) k there)
        | inr (more, _, _, _, _) ↦
            let own = (eq_iff input.job_type input.job_type).1 refl in
            let named = (eq_iff key key).1 refl in rw (more, k) (ground (arith, own, named))
      ]

  insert_row-existing :
      (table : List (JobRow P)) (row x : JobRow P)
      → admits table row ≡ true
      → any (has_key row.job_type row.idempotency_key) table ≡ true
      → find (has_key row.job_type row.idempotency_key) table ≡ some x
      → insert_row table row ≡ ok (table, x, false)
  unfolding insert_row
  insert_row-existing table row x fits there seen = rw (fits, there, seen) refl

  enqueue_with-passes :
      (queue : JobQueueOptions) (json_bytes : P → ℕ) (id : String) (now : ℕ)
      (table : List (JobRow P)) (input : EnqueueJobInput P)
      → is_blank input.job_type ≡ false
      → json_bytes input.payload ≤ queue.max_payload_bytes
      → enqueue_with queue json_bytes id now table input ≡ insert_row table (new_row id now input)
  unfolding enqueue_with
  enqueue_with-passes queue json_bytes id now table input named size =
      let small : ltb queue.max_payload_bytes (json_bytes input.payload) ≡ false =
        ground (arith, size) in
      rw (named, small) refl

  -- A job that is enqueued with a key is enqueued once: enqueuing the same type and key again, with a
  -- payload in the budget and what the constraints admit, adds nothing, and gives a job with that key.
  pub enqueue_with-once :
      (queue : JobQueueOptions) (json_bytes : P → ℕ) (id again : String) (now later : ℕ)
      (table after : List (JobRow P)) (input other : EnqueueJobInput P) (key : String)
      (row : JobRow P) (created : Bool)
      → enqueue_with queue json_bytes id now table input ≡ ok (after, row, created)
      → input.idempotency_key ≡ some key
      → other.idempotency_key ≡ some key
      → other.job_type ≡ input.job_type
      → json_bytes other.payload ≤ queue.max_payload_bytes
      → admits after (new_row again later other) ≡ true
      → (x : JobRow P) × (enqueue_with queue json_bytes again later after other
          ≡ ok (after, x, false))
        × (has_key input.job_type (some key) x ≡ true)
  unfolding enqueue_with
  enqueue_with-once queue json_bytes id again now later table after input other key row created e k
        l t size fits =
      let here =
        enqueued-key id now input key table after row created
          (enqueue_with-insert_row queue json_bytes id now table input _ e) k in
      let named : is_blank input.job_type ≡ false = ground (arith, e) in
      let (x, seen) = find-some (has_key input.job_type (some key)) after here in
      (
        x,
        enqueue_with-passes queue json_bytes again later after other (ap is_blank t ∙ named) size
            ∙ insert_row-existing after (new_row again later other) x fits (rw (t, l) here)
                (rw (t, l) seen),
        find-holds (has_key input.job_type (some key)) after x seen,
      )
