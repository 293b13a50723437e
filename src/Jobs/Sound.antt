-- ===== src/Jobs/Sound.antt =====
-- What holds of the rows of `platform.jobs`, and that every statement keeps it.
use karar_flutter_version.Prelude.{
  ℕ, ◌≤◌, ◌<◌, String, ◌≡◌, ◌≢◌, refl, sym, ◌∙◌, inl, inr, Bool, Bool-cases, true, none, List, [],
  ◌∷◌, All, All-mono, leb, update_where, update_where-All, arith,
}
use karar_flutter_version.Jobs.Row.{
  JobStatus, JobRow, ClaimedJob, EnqueueJobInput, is_leased, is_waiting,
}
use karar_flutter_version.Jobs.Queue.{can_claim, lease_mark, new_row, admits}
use karar_flutter_version.Jobs.Lease.{
  holds, dead_mark, retry_mark, extend_mark, release_mark, is_stale, stale_mark,
}

is_leased-status : (s : JobStatus) → is_leased s ≡ true → s ≡ JobStatus.leased
is_leased-status JobStatus.leased h = refl
is_leased-status JobStatus.queued h = cc
is_leased-status JobStatus.succeeded h = cc
is_leased-status JobStatus.failed_retryable h = cc
is_leased-status JobStatus.dead h = cc

module _ {P : Type 0} where
  abbrev pub IsUnleased : JobRow P → Type 0
  IsUnleased row = (row.lease_owner ≡ none) × (row.lease_expires_at ≡ none)

  -- What the status of a row says of its attempts and of its lease.
  abbrev pub FitsStatus : JobStatus → JobRow P → Type 0
  FitsStatus JobStatus.queued row = (row.attempts < row.max_attempts) × IsUnleased row
  FitsStatus JobStatus.leased row =
      (1 ≤ row.attempts)
      × (row.attempts ≤ row.max_attempts)
      × (row.lease_owner ≢ none)
      × (row.lease_expires_at ≢ none)
  FitsStatus JobStatus.succeeded row = (row.attempts ≤ row.max_attempts) × IsUnleased row
  FitsStatus JobStatus.failed_retryable row = (row.attempts < row.max_attempts) × IsUnleased row
  FitsStatus JobStatus.dead row = (row.attempts ≤ row.max_attempts) × IsUnleased row

  abbrev pub IsSound : JobRow P → Type 0
  IsSound row = FitsStatus row.status row

  -- The worker's copy of a job tells the attempts of the row, while the worker holds its lease.
  abbrev pub IsCurrent : ClaimedJob P → JobRow P → Type 0
  IsCurrent job row =
      holds job row ≡ true → (row.attempts ≡ job.attempts) × (row.max_attempts ≡ job.max_attempts)

  -- The ids are a key.
  abbrev pub HasKey : List (JobRow P) → Type 0
  HasKey [] = Unit
  HasKey (r ∷ rows) = All (λ s. s.id ≢ r.id) rows × HasKey rows

  pub update-HasKey :
      (test : JobRow P → Bool) (change : JobRow P → JobRow P)
      → ((r : JobRow P) → (change r).id ≡ r.id)
      → (rows : List (JobRow P)) → HasKey rows
      → HasKey (update_where test change rows)
  unfolding update_where
  update-HasKey test change keeps [] h = tt
  update-HasKey test change keeps (r ∷ rows) h =
      let Apart : JobRow P → Type 0 = λ s. s.id ≢ r.id in
      let away =
        update_where-All Apart Apart test change (λ s e n m. n (sym (keeps s) ∙ m)) (λ s e n. n)
          rows h.0 in
      let rest = update-HasKey test change keeps rows h.1 in
      elim (Bool-cases (test r)) [
        | inl e ↦
            rw e
              (All-mono _ _ (λ s n m. n (m ∙ keeps r)) (update_where test change rows) away, rest)
        | inr e ↦ rw e (away, rest)
      ]

  fits-leased :
      (s : JobStatus) (r : JobRow P)
      → is_leased s ≡ true
      → FitsStatus s r
      → (1 ≤ r.attempts) × (r.attempts ≤ r.max_attempts)
  fits-leased JobStatus.leased r e h = (h.0, h.1)
  fits-leased JobStatus.queued r e h = cc
  fits-leased JobStatus.succeeded r e h = cc
  fits-leased JobStatus.failed_retryable r e h = cc
  fits-leased JobStatus.dead r e h = cc

  fits-waiting :
      (s : JobStatus) (r : JobRow P)
      → is_waiting s ≡ true
      → FitsStatus s r
      → r.attempts < r.max_attempts
  fits-waiting JobStatus.queued r e h = h.0
  fits-waiting JobStatus.failed_retryable r e h = h.0
  fits-waiting JobStatus.leased r e h = cc
  fits-waiting JobStatus.succeeded r e h = cc
  fits-waiting JobStatus.dead r e h = cc

  pub can_claim-attempts :
      (locked : String → Bool) (now : ℕ) (r : JobRow P)
      → can_claim locked now r ≡ true
      → IsSound r
      → r.attempts < r.max_attempts
  can_claim-attempts locked now r e h = fits-waiting r.status r (ground (arith, e)) h

  pub lease_mark-IsSound :
      (locked : String → Bool) (now : ℕ) (worker : String) (expires : ℕ) (r : JobRow P)
      → can_claim locked now r ≡ true
      → IsSound r
      → IsSound (lease_mark worker expires now r)
  lease_mark-IsSound locked now worker expires r e h =
      let less = can_claim-attempts locked now r e h in
      (omega (arith, less), omega (arith, less), λ n. cc, λ n. cc)

  pub holds-attempts :
      (job : ClaimedJob P) (r : JobRow P)
      → holds job r ≡ true
      → IsSound r
      → (1 ≤ r.attempts) × (r.attempts ≤ r.max_attempts)
  holds-attempts job r e h = fits-leased r.status r (ground (arith, e)) h

  pub dead_mark-IsSound :
      (job : ClaimedJob P) (now : ℕ) (error : String) (r : JobRow P)
      → holds job r ≡ true
      → IsSound r
      → IsSound (dead_mark now error r)
  dead_mark-IsSound job now error r e h = ((holds-attempts job r e h).1, (refl, refl))

  pub retry_mark-IsSound :
      (job : ClaimedJob P) (available_at now : ℕ) (error : String) (r : JobRow P)
      → job.attempts < job.max_attempts
      → holds job r ≡ true
      → IsCurrent job r
      → IsSound (retry_mark available_at now error r)
  retry_mark-IsSound job available_at now error r less e k =
      let (a, b) = k e in (omega (arith, a, b, less), (refl, refl))

  fits-extended :
      (expires now : ℕ) (s : JobStatus) (r : JobRow P)
      → is_leased s ≡ true
      → FitsStatus s r
      → FitsStatus s (extend_mark expires now r)
  fits-extended expires now JobStatus.leased r e h = (h.0, h.1, h.2, λ n. cc)
  fits-extended expires now JobStatus.queued r e h = cc
  fits-extended expires now JobStatus.succeeded r e h = cc
  fits-extended expires now JobStatus.failed_retryable r e h = cc
  fits-extended expires now JobStatus.dead r e h = cc

  pub extend_mark-IsSound :
      (job : ClaimedJob P) (expires now : ℕ) (r : JobRow P)
      → holds job r ≡ true
      → IsSound r
      → IsSound (extend_mark expires now r)
  extend_mark-IsSound job expires now r e h =
      fits-extended expires now r.status r (ground (arith, e)) h

  pub release_mark-IsSound :
      (job : ClaimedJob P) (now : ℕ) (r : JobRow P)
      → holds job r ≡ true
      → IsSound r
      → IsSound (release_mark now r)
  release_mark-IsSound job now r e h =
      let k = holds-attempts job r e h in (omega (arith, k.0, k.1), (refl, refl))

  pub stale_mark-IsSound :
      (now : ℕ) (r : JobRow P) → is_stale now r ≡ true → IsSound r → IsSound (stale_mark now r)
  stale_mark-IsSound now r e h =
      let k = fits-leased r.status r (ground (arith, e)) h in
      elim (Bool-cases (leb r.max_attempts r.attempts)) [
        | inl out ↦ rw out (k.1, (refl, refl))
        | inr more ↦ rw more (ground (arith, more), (refl, refl))
      ]

  pub new_row-IsSound :
      (id : String) (now : ℕ) (input : EnqueueJobInput P) (table : List (JobRow P))
      → admits table (new_row id now input) ≡ true
      → IsSound (new_row id now input)
  new_row-IsSound id now input table e = (ground (arith, e), (refl, refl))
