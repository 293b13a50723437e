-- ===== src/Jobs/Leases.antt =====
-- What the loop of the poller leaves leased to its worker: each report takes its job off.
use mathlib.Core.Path.{subst}
use karar_flutter_version.Prelude.{
  ℕ, ◌+◌, String, ◌≡◌, refl, sym, ◌⊎◌, inl, inr, Bool, Bool-cases, true, false, ◌&&◌, Option, none,
  some, List, [], ◌∷◌, All, All-mono, Any, leb, eq_iff, update_where, update_where-All, arith,
}
use karar_flutter_version.Jobs.Row.{
  JobStatus, JobRow, ClaimedJob, JobQueueOptions, is_leased, is_text, retry_delay,
}
use karar_flutter_version.Jobs.Lease.{
  holds, unlease, complete, dead_mark, dead_letter, retry_mark, fail_retryable, release_mark,
  release,
}
use karar_flutter_version.Jobs.Poller.{
  JobHandlerRegistry, PollerRunReport, resolve, after_handler, no_handler, with_handler, JobHandler,
  execute_one, take_turn, run_batch,
}

module _ {P : Type 0} (worker : String) where
  abbrev pub is_owned : JobRow P → Bool
  is_owned row = is_text row.lease_owner worker && is_leased row.status

  -- The ids of the rows that are leased to the worker are among some.
  abbrev pub OwnedIn : (String → Type 0) → JobRow P → Type 0
  OwnedIn Ids row = is_owned row ≡ true → Ids row.id

  -- A step of the others that leases nothing to the worker.
  abbrev pub GivesNoLease : (List (JobRow P) → List (JobRow P)) → Type 1
  GivesNoLease step =
      (Ids : String → Type 0) (table : List (JobRow P))
      → All (OwnedIn Ids) table
      → All (OwnedIn Ids) (step table)

  -- A report takes its job off the ids that may be leased.
  reported :
      (Ids : String → Type 0) (job : ClaimedJob P) (change : JobRow P → JobRow P)
      (table : List (JobRow P))
      → job.lease_owner ≡ worker
      → ((r : JobRow P) → is_leased (change r).status ≡ false)
      → All (OwnedIn (λ id. (id ≡ job.id) ⊎ Ids id)) table
      → All (OwnedIn Ids) (update_where (holds job) change table)
  reported Ids job change table own ends h =
      update_where-All _ (OwnedIn Ids) (holds job) change (λ r hit k m. ground (arith, m, ends r))
        (λ r miss k m. elim (k m) [
          | inl same ↦
              let here = (eq_iff r.id job.id).1 same in
              let held =
                subst (λ w. (is_text r.lease_owner w && is_leased r.status) ≡ true) (sym own) m in
              absurd (ground (arith, here, held, miss))
          | inr other ↦ other
        ])
        table h

  died :
      (Ids : String → Type 0) (job : ClaimedJob P) (now : ℕ) (error : String)
      (table : List (JobRow P))
      → job.lease_owner ≡ worker
      → All (OwnedIn (λ id. (id ≡ job.id) ⊎ Ids id)) table
      → All (OwnedIn Ids) (dead_letter now job error table).0
  unfolding dead_letter
  died Ids job now error table own h =
      reported Ids job (dead_mark now error) table own (λ r. refl) h

  failed :
      (Ids : String → Type 0) (queue : JobQueueOptions) (job : ClaimedJob P) (now : ℕ)
      (error : String) (table : List (JobRow P))
      → job.lease_owner ≡ worker
      → All (OwnedIn (λ id. (id ≡ job.id) ⊎ Ids id)) table
      → All (OwnedIn Ids) (fail_retryable queue now job error table).0
  unfolding fail_retryable
  failed Ids queue job now error table own h =
      elim (Bool-cases (leb job.max_attempts job.attempts)) [
        | inl out ↦ rw out (died Ids job now error table own h)
        | inr more ↦ rw more (
            reported Ids job (retry_mark (now + retry_delay queue job.attempts) now error) table own
              (λ r. refl) h)
      ]

  handled :
      (Ids : String → Type 0) (queue : JobQueueOptions) (job : ClaimedJob P) (now : ℕ)
      (thrown : Option String) (table : List (JobRow P))
      → job.lease_owner ≡ worker
      → All (OwnedIn (λ id. (id ≡ job.id) ⊎ Ids id)) table
      → All (OwnedIn Ids) (after_handler queue now job thrown table).0
  unfolding after_handler complete
  handled Ids queue job now none table own h =
      reported Ids job (unlease JobStatus.succeeded now) table own (λ r. refl) h
  handled Ids queue job now (some error) table own h = failed Ids queue job now error table own h

  executed :
      (Ids : String → Type 0) (queue : JobQueueOptions)
      (meanwhile : ClaimedJob P → List (JobRow P) → List (JobRow P)) (now : ℕ) (job : ClaimedJob P)
      (handler : Option (JobHandler P)) (table : List (JobRow P))
      → ((c : ClaimedJob P) → GivesNoLease (meanwhile c))
      → job.lease_owner ≡ worker
      → All (OwnedIn (λ id. (id ≡ job.id) ⊎ Ids id)) table
      → All (OwnedIn Ids) (with_handler queue meanwhile now job handler table).0
  unfolding with_handler
  executed Ids queue meanwhile now job none table quiet own h =
      failed Ids queue job now (no_handler job.job_type) table own h
  executed Ids queue meanwhile now job (some handler) table quiet own h =
      handled Ids queue job now (handler job) (meanwhile job table) own (quiet job _ table h)

  turned :
      (Ids : String → Type 0) (queue : JobQueueOptions) (registry : JobHandlerRegistry P)
      (meanwhile : ClaimedJob P → List (JobRow P) → List (JobRow P)) (stopping : Bool) (now : ℕ)
      (job : ClaimedJob P) (state : List (JobRow P) × PollerRunReport)
      → ((c : ClaimedJob P) → GivesNoLease (meanwhile c))
      → job.lease_owner ≡ worker
      → All (OwnedIn (λ id. (id ≡ job.id) ⊎ Ids id)) state.0
      → All (OwnedIn Ids) (take_turn queue registry meanwhile stopping now job state).0
  unfolding take_turn execute_one release
  turned Ids queue registry meanwhile true now job state quiet own h =
      reported Ids job (release_mark now) state.0 own (λ r. refl) h
  turned Ids queue registry meanwhile false now job state quiet own h =
      executed Ids queue meanwhile now job (resolve registry job.job_type) state.0 quiet own h

  pub batched :
      (queue : JobQueueOptions) (registry : JobHandlerRegistry P)
      (meanwhile : ClaimedJob P → List (JobRow P) → List (JobRow P)) (stopping : String → Bool)
      (at : String → ℕ) (jobs : List (ClaimedJob P)) (state : List (JobRow P) × PollerRunReport)
      → ((c : ClaimedJob P) → GivesNoLease (meanwhile c))
      → All (λ c. c.lease_owner ≡ worker) jobs
      → All (OwnedIn (λ id. Any (λ c. c.id ≡ id) jobs)) state.0
      → All (OwnedIn (λ id. ⊥)) (run_batch queue registry meanwhile stopping at jobs state).0
  unfolding run_batch
  batched queue registry meanwhile stopping at [] state quiet own h = h
  batched queue registry meanwhile stopping at (job ∷ jobs) state quiet own h =
      batched queue registry meanwhile stopping at jobs
        (take_turn queue registry meanwhile (stopping job.id) (at job.id) job state) quiet own.1
        (turned (λ id. Any (λ c. c.id ≡ id) jobs) queue registry meanwhile (stopping job.id)
          (at job.id) job state quiet own.0
          (All-mono _ _ (λ r k m. elim (k m) [ inl e ↦ inl (sym e) | inr later ↦ inr later ])
            state.0 h))
