-- ===== src/Jobs/Chosen.antt =====
-- How many jobs a claim takes, and which: never more than the cap, and in the order of the queue.
use karar_flutter_version.Prelude.{
  ℕ, ◌≤◌, ◌<◌, ◌↔◌, String, ◌≡◌, refl, Bool, true, false, some, List, ◌⊎◌, inl, inr, All, All-mono,
  All-self, All-Any, Any-with, All-both, Any, length, filter, IsRanking, sort_by, limit-IsBehind,
  arith,
}
use karar_flutter_version.Prelude.Int.{◌<ℤ◌}
use karar_flutter_version.Jobs.Row.{
  JobStatus, JobRow, is_waiting, ClaimedJob, ClaimOptions, JobQueueOptions, claim_limit,
}
use karar_flutter_version.Jobs.Queue.{claim, picked_ids, can_claim, claims_first}
use karar_flutter_version.Jobs.Sound.{HasKey}
use karar_flutter_version.Jobs.Claimed.{taken, mark, claim-some, picked_rows}
use karar_flutter_version.Jobs.Returned.{
  WasClaimed, few_returned, claims_first-IsRanking, returned-taken, taken-returned, picked-here,
  claimed-kept,
}
use karar_flutter_version.Jobs.Kept.{kept_rows, kept_rows-inside, kept_rows-returned}

is_waiting_iff :
    (s : JobStatus)
    → (is_waiting s ≡ true) ↔ ((s ≡ JobStatus.queued) ⊎ (s ≡ JobStatus.failed_retryable))
is_waiting_iff JobStatus.queued = ((λ h. inl refl), (λ h. refl))
is_waiting_iff JobStatus.failed_retryable = ((λ h. inr refl), (λ h. refl))
is_waiting_iff JobStatus.leased = ((λ h. cc), (λ h. elim h [ inl e ↦ cc | inr e ↦ cc ]))
is_waiting_iff JobStatus.succeeded = ((λ h. cc), (λ h. elim h [ inl e ↦ cc | inr e ↦ cc ]))
is_waiting_iff JobStatus.dead = ((λ h. cc), (λ h. elim h [ inl e ↦ cc | inr e ↦ cc ]))

module _ {P : Type 0} where
  -- The job may be claimed: it waits, its time has come, and no transaction has its row locked.
  abbrev pub IsDue : (locked : String → Bool) → ℕ → JobRow P → Type 0
  IsDue locked now u =
      ((u.status ≡ JobStatus.queued) ⊎ (u.status ≡ JobStatus.failed_retryable))
      × (u.available_at ≤ now)
      × (locked u.id ≡ false)

  -- The job comes before another: of a higher priority; or of the same, and available earlier; or at
  -- the same time, and created earlier; or at the same time, with an id that comes before.
  abbrev pub ComesFirst : (id_before : String → String → Bool) → JobRow P → JobRow P → Type 0
  ComesFirst id_before u r =
      (r.priority <ℤ u.priority)
      ⊎ ((u.priority ≡ r.priority)
          × ((u.available_at < r.available_at)
              ⊎ ((u.available_at ≡ r.available_at)
                  × ((u.created_at < r.created_at)
                      ⊎ ((u.created_at ≡ r.created_at) × (id_before u.id r.id ≡ true))))))

  can_claim-IsDue :
      (locked : String → Bool) (now : ℕ) (u : JobRow P)
      → (can_claim locked now u ≡ true) ↔ IsDue locked now u
  can_claim-IsDue locked now u =
      let waits = is_waiting_iff u.status in
      (
        (λ h. (waits.0 (ground (arith, h)), ground (arith, h), ground (arith, h))),
        (λ (w, a, l). let k = waits.1 w in ground (arith, k, a, l)),
      )

  claims_first-ComesFirst :
      (id_before : String → String → Bool) (u r : JobRow P)
      → ComesFirst id_before u r
      → claims_first id_before u r ≡ true
  claims_first-ComesFirst id_before u r h = elim h [
    | inl above ↦ ground (arith, above)
    | inr (p, later) ↦ elim later [
      | inl sooner ↦ ground (arith, p, sooner)
      | inr (a, born) ↦ elim born [
        | inl elder ↦ ground (arith, p, a, elder)
        | inr (c, named) ↦ ground (arith, p, a, c, named)
      ]
    ]
  ]

  -- A claim gives no more jobs than its limit, the worker's batch and the cap of the queue; each is a
  -- job of the table that waits, whose time has come and that no transaction has locked; and such a job
  -- is claimed, or the claim is as long as its limit and the job comes before none that is claimed, in
  -- the order of priority, time of availability, time of creation and id.
  pub claim-chosen :
      (queue : JobQueueOptions) (id_before : String → String → Bool) (locked : String → Bool)
      (now : ℕ) (o : ClaimOptions) (rows table : List (JobRow P)) (jobs : List (ClaimedJob P))
      → IsRanking id_before
      → HasKey rows
      → claim queue id_before locked now o rows ≡ some (table, jobs)
      → (length jobs ≤ claim_limit queue o)
        × (length jobs ≤ queue.max_claim_batch)
        × ((n : ℕ) → o.batch_size ≡ some n → 1 ≤ n → length jobs ≤ n)
        × All (λ c. Any (λ s. (s.id ≡ c.id) × IsDue locked now s) rows) jobs
        × All
            (λ u.
              IsDue locked now u
              → WasClaimed jobs u
                ⊎ ((length jobs ≡ claim_limit queue o)
                    × All (λ r. WasClaimed jobs r → ¬ ComesFirst id_before u r) rows))
            rows
  unfolding picked_ids
  claim-chosen queue id_before locked now o rows table jobs rank key e =
      let first = claims_first id_before in
      let limit = claim_limit queue o in
      let kept = kept_rows id_before locked limit now rows in
      let inside = kept_rows-inside id_before locked limit now rows in
      let test = taken queue id_before locked now o rows in
      let change = mark queue now o in
      let (after, given) = claim-some queue id_before locked now o rows table jobs e in
      let few =
        few_returned limit (sort_by first (filter (can_claim locked now) rows)) rows change key in
      let many = kept_rows-returned id_before locked limit now rows change key in
      rw given (
        few,
        ground (arith, few),
        (λ n b l. ground (arith, few, b, l)),
        All-mono _ _
            (λ c m.
              Any-with _ _ _ (λ s k f. (k.0, (can_claim-IsDue locked now s).0 (f k.1))) rows m
                (picked_rows id_before locked limit now rows key))
            _ (returned-taken test o queue now rows),
        All-both _ _ _
            (λ u f g due. elim (f ((can_claim-IsDue locked now u).1 due)) [
              | inl here ↦ inl (g (picked-here u kept here))
              | inr (full, behind) ↦ inr (
                omega (arith, few, many, full),
                All-mono _ _
                    (λ r there was before.
                      let yes_first = claims_first-ComesFirst id_before u r before in
                      let no_first =
                        All-Any (λ k. first u k ≡ false) r kept behind
                          (claimed-kept queue o now kept rows r key inside there was) in
                      ground (arith, yes_first, no_first))
                    rows (All-self rows),
              )
            ])
            rows
            (limit-IsBehind first (claims_first-IsRanking id_before rank) (can_claim locked now)
              limit rows)
            (taken-returned test o queue now rows),
      )
