-- ===== src/Jobs/Consistent.antt =====
-- Every table that the workers reach is consistent: its rows fit their status, and a copy of a job
-- whose lease still stands tells the attempts of the row.
use karar_flutter_version.Prelude.{
  ℕ, ◌+◌, String, ◌≡◌, ◌≢◌, refl, inl, inr, Bool, Bool-cases, true, false, Option, List, [], ◌∷◌,
  all, All, All-mono, All-Any, filter-All, not, same_text, eq_iff, leb, update_where,
  update_where-All, ok, arith,
}
use karar_flutter_version.Jobs.Row.{
  JobRow, ClaimedJob, EnqueueJobInput, JobQueueOptions, is_leased, retry_delay, JobStatus, or_else,
}
use karar_flutter_version.Jobs.Queue.{enqueue_with, new_row}
use karar_flutter_version.Jobs.Lease.{
  complete, dead_letter, fail_retryable, heartbeat, release, recover_stale_leases, holds, unlease,
  dead_mark, retry_mark, extend_mark, release_mark, is_stale, stale_mark,
}
use karar_flutter_version.Jobs.Sound.{
  holds-attempts, IsCurrent, HasKey, update-HasKey, dead_mark-IsSound, retry_mark-IsSound,
  extend_mark-IsSound, release_mark-IsSound, stale_mark-IsSound, new_row-IsSound,
}
use karar_flutter_version.Jobs.Enqueue.{insert_row-table, enqueue_with-insert_row}
use karar_flutter_version.Jobs.Claimed.{claims-IsConsistent}
use karar_flutter_version.Jobs.Steps.{Workers, IsHeld, IsFit, IsConsistent, without, Step, Reach}

module _ {P : Type 0} where
  -- A change that ends a lease, or that only moves its end, leaves every copy current.
  ends_lease :
      (held : List (ClaimedJob P)) (r : JobRow P)
      → is_leased r.status ≡ false
      → All (λ c. IsCurrent c r) held
  ends_lease [] r e = tt
  ends_lease (c ∷ held) r e = ((λ h. ground (arith, e, h)), ends_lease held r e)

  update-IsFit :
      (held : List (ClaimedJob P)) (test : JobRow P → Bool) (change : JobRow P → JobRow P)
      → ((r : JobRow P) → (change r).id ≡ r.id)
      → ((r : JobRow P) → test r ≡ true → IsFit held r → IsFit held (change r))
      → (table : List (JobRow P)) → HasKey table × All (IsFit held) table
      → HasKey (update_where test change table) × All (IsFit held) (update_where test change table)
  update-IsFit held test change keeps hit table h = (
    update-HasKey test change keeps table h.0,
    update_where-All (IsFit held) (IsFit held) test change hit (λ r e k. k) table h.1,
  )

  dead-IsConsistent :
      (now : ℕ) (job : ClaimedJob P) (error : String) (s : Workers P)
      → IsConsistent s
      → IsConsistent (record s { table = (dead_letter now job error s.table).0 })
  unfolding dead_letter
  dead-IsConsistent now job error s h =
      update-IsFit s.held (holds job) (dead_mark now error) (λ r. refl)
        (λ r e k.
          (dead_mark-IsSound job now error r e k.0, ends_lease s.held (dead_mark now error r) refl))
        s.table h

  fail-IsConsistent :
      (queue : JobQueueOptions) (now : ℕ) (job : ClaimedJob P) (error : String) (s : Workers P)
      → IsHeld job s.held
      → IsConsistent s
      → IsConsistent (record s { table = (fail_retryable queue now job error s.table).0 })
  unfolding fail_retryable
  fail-IsConsistent queue now job error s m h =
      elim (Bool-cases (leb job.max_attempts job.attempts)) [
        | inl out ↦ rw out (dead-IsConsistent now job error s h)
        | inr more ↦ rw more (
            update-IsFit s.held (holds job)
              (retry_mark (now + retry_delay queue job.attempts) now error) (λ r. refl)
              (λ r e k. (
                retry_mark-IsSound job (now + retry_delay queue job.attempts) now error r
                    (ground (arith, more)) e (All-Any (λ c. IsCurrent c r) job s.held k.1 m),
                ends_lease s.held (retry_mark (now + retry_delay queue job.attempts) now error r)
                    refl,
              ))
              s.table h)
      ]

  extends-IsConsistent :
      (queue : JobQueueOptions) (now : ℕ) (job : ClaimedJob P) (extend_ms : Option ℕ)
      (s : Workers P)
      → IsConsistent s
      → IsConsistent (record s { table = (heartbeat queue now job extend_ms s.table).0 })
  unfolding heartbeat
  extends-IsConsistent queue now job extend_ms s h =
      let expires = now + or_else extend_ms queue.default_lease_ttl_ms in
      update-IsFit s.held (holds job) (extend_mark expires now) (λ r. refl)
        (λ r e k. (extend_mark-IsSound job expires now r e k.0, k.1)) s.table h

  releases-IsConsistent :
      (now : ℕ) (job : ClaimedJob P) (s : Workers P)
      → IsConsistent s
      → IsConsistent (record s { table = (release now job s.table).0 })
  unfolding release
  releases-IsConsistent now job s h =
      update-IsFit s.held (holds job) (release_mark now) (λ r. refl)
        (λ r e k.
          (release_mark-IsSound job now r e k.0, ends_lease s.held (release_mark now r) refl))
        s.table h

  completes-IsConsistent :
      (now : ℕ) (job : ClaimedJob P) (s : Workers P)
      → IsConsistent s
      → IsConsistent (record s { table = (complete now job s.table).0 })
  unfolding complete
  completes-IsConsistent now job s h =
      update-IsFit s.held (holds job) (unlease JobStatus.succeeded now) (λ r. refl)
        (λ r e k. (
          ((holds-attempts job r e k.0).1, (refl, refl)),
          ends_lease s.held (unlease JobStatus.succeeded now r) refl,
        ))
        s.table h

  pub stale_mark-unleased : (now : ℕ) (r : JobRow P) → is_leased (stale_mark now r).status ≡ false
  stale_mark-unleased now r = ground arith

  recovers-IsConsistent :
      (now : ℕ) (s : Workers P)
      → IsConsistent s
      → IsConsistent (record s { table = (recover_stale_leases now s.table).0 })
  unfolding recover_stale_leases
  recovers-IsConsistent now s h =
      update-IsFit s.held (is_stale now) (stale_mark now) (λ r. refl)
        (λ r e k. (
          stale_mark-IsSound now r e k.0,
          ends_lease s.held (stale_mark now r) (stale_mark-unleased now r),
        ))
        s.table h

  forgets-IsConsistent :
      (worker : String) (s : Workers P)
      → IsConsistent s
      → IsConsistent (record s { held = without worker s.held })
  forgets-IsConsistent worker s h = (
    h.0,
    All-mono (IsFit s.held) (IsFit (without worker s.held))
        (λ r k. (
          k.0,
          filter-All (λ c. IsCurrent c r) (λ c. not (same_text c.lease_owner worker)) s.held k.1,
        ))
        s.table h.1,
  )

  all_apart :
      (id : String) (table : List (JobRow P))
      → all (λ r. not (same_text r.id id)) table ≡ true
      → All (λ r. r.id ≢ id) table
  all_apart id [] h = tt
  all_apart id (r ∷ table) h =
      ((λ m. ground (arith, h, (eq_iff r.id id).1 m)), all_apart id table (ground (arith, h)))

  enqueues-IsConsistent :
      (queue : JobQueueOptions) (s : Workers P) (json_bytes : P → ℕ) (id : String) (now : ℕ)
      (input : EnqueueJobInput P) (table : List (JobRow P)) (row : JobRow P) (created : Bool)
      → enqueue_with queue json_bytes id now s.table input ≡ ok (table, row, created)
      → IsConsistent s
      → IsConsistent (record s { table = table })
  enqueues-IsConsistent queue s json_bytes id now input table row created e h =
      let fresh = new_row id now input in
      let added = enqueue_with-insert_row queue json_bytes id now s.table input _ e in
      elim (insert_row-table s.table table fresh row created added) [
        | inl (same, _, _, _) ↦ rw same h
        | inr (more, _, _, fits, _) ↦ rw more (
          (all_apart id s.table (ground (arith, fits)), h.0),
          ((new_row-IsSound id now input s.table fits, ends_lease s.held fresh refl), h.1),
        )
      ]

  Step-IsConsistent :
      (queue : JobQueueOptions) {s t : Workers P} → Step queue s t → IsConsistent s → IsConsistent t
  Step-IsConsistent queue (Step.enqueues s json_bytes id now input table row created e) h =
      enqueues-IsConsistent queue s json_bytes id now input table row created e h
  Step-IsConsistent queue (Step.claims s id_before locked now o table jobs idle e) h =
      claims-IsConsistent queue s id_before locked now o table jobs idle e h
  Step-IsConsistent queue (Step.completes s now job m) h = completes-IsConsistent now job s h
  Step-IsConsistent queue (Step.fails s now job error m) h =
      fail-IsConsistent queue now job error s m h
  Step-IsConsistent queue (Step.dies s now job error m) h = dead-IsConsistent now job error s h
  Step-IsConsistent queue (Step.extends s now job extend_ms m) h =
      extends-IsConsistent queue now job extend_ms s h
  Step-IsConsistent queue (Step.releases s now job m) h = releases-IsConsistent now job s h
  Step-IsConsistent queue (Step.recovers s now) h = recovers-IsConsistent now s h
  Step-IsConsistent queue (Step.forgets s worker) h = forgets-IsConsistent worker s h

  -- Every state that the workers reach from a consistent one, such as the empty table with no job
  -- held, is consistent: ids are a key; a waiting job has attempts left; exactly a leased row has an
  -- owner and an expiry, and it counts at least one attempt and at most its maximum; and a worker's
  -- copy of a job whose lease it still has tells the attempts of the row.
  pub reach-IsConsistent :
      (queue : JobQueueOptions) (s t : Workers P)
      → IsConsistent s
      → Reach queue s t
      → IsConsistent t
  reach-IsConsistent queue s t h Reach.here = h
  reach-IsConsistent queue s t h (Reach.next run step) =
      Step-IsConsistent queue step (reach-IsConsistent queue s _ h run)
