-- ===== src/Jobs/Tests.antt =====
-- The theorems on the queue and on the poller at a table of two jobs.
use karar_flutter_version.Prelude.{
  ℕ, ◌+◌, ◌≤◌, String, ◌≡◌, refl, ◌⊎◌, inl, Bool, true, false, Option, none, some, List, [], ◌∷◌,
  All, Any, IsRanking, length, same_text, eq_iff, is_blank, ok, arith,
}
use karar_flutter_version.Prelude.Int.{pos}
use karar_flutter_version.Jobs.Row.{
  JobRow, ClaimedJob, ClaimOptions, EnqueueJobInput, default_options, claim_limit, JobStatus,
}
use karar_flutter_version.Jobs.Queue.{claim, enqueue_with, has_key, insert_row, new_row, picked_ids}
use karar_flutter_version.Jobs.Lease.{fail_retryable}
use karar_flutter_version.Jobs.Steps.{Workers, Step, Reach, IsConsistent}
use karar_flutter_version.Jobs.Sound.{HasKey}
use karar_flutter_version.Jobs.Enqueue.{enqueue_with-once}
use karar_flutter_version.Jobs.Chosen.{IsDue, ComesFirst, claim-chosen}
use karar_flutter_version.Jobs.Returned.{WasClaimed}
use karar_flutter_version.Jobs.Consistent.{reach-IsConsistent}
use karar_flutter_version.Jobs.Budget.{attempts_left, claims_in, grants_in, claims_in-bounded}
use karar_flutter_version.Jobs.Poller.{JobHandlerRegistry, JobPoller, PollerRunReport, run_jobs}
use karar_flutter_version.Jobs.Leases.{is_owned}
use karar_flutter_version.Jobs.Unleased.{run_jobs-unleased}

abbrev request : Option String → Option ℕ → EnqueueJobInput String
request key max_attempts = record {
  job_type = "echo";
  payload = "hello";
  classification = none;
  idempotency_key = key;
  priority = none;
  delay_ms = none;
  max_attempts = max_attempts;
  correlation_id = none;
  causation_id = none;
}

abbrev bytes : String → ℕ
bytes payload = 7

abbrev first_row : JobRow String
first_row = new_row "j1" 10 (request (some "k") (some 1))

abbrev two_rows : List (JobRow String)
two_rows = new_row "j2" 20 (request none none) ∷ first_row ∷ []

-- No two ids are told apart: an order that the theorems admit.
abbrev no_order : String → String → Bool
no_order a b = false

no_order-IsRanking : IsRanking no_order
no_order-IsRanking = ((λ a. refl), (λ a b c x y. refl), (λ a b c x y. refl))

abbrev unlocked : String → Bool
unlocked id = false

abbrev worker_options : ClaimOptions
worker_options = record { worker_id = "w"; batch_size = some 1; lease_ttl_ms = some 1000 }

abbrev none_yet : Workers String
none_yet = record { table = []; held = [] }

abbrev queued_once : Workers String
queued_once = record { table = first_row ∷ []; held = [] }

abbrev leased_row : JobRow String
leased_row = record first_row {
  status = JobStatus.leased;
  attempts = 1;
  updated_at = 30;
  lease_owner = some "w";
  lease_expires_at = some 1030;
}

abbrev job : ClaimedJob String
job = record {
  id = "j1";
  job_type = "echo";
  payload = "hello";
  classification = "INTERNAL";
  priority = pos 0;
  attempts = 1;
  max_attempts = 1;
  lease_owner = "w";
  correlation_id = none;
  causation_id = none;
}

abbrev claimed_once : Workers String
claimed_once = record { table = leased_row ∷ []; held = job ∷ [] }

queues : Step default_options none_yet queued_once
unfolding enqueue_with insert_row is_blank
queues =
    Step.enqueues none_yet bytes "j1" 10 (request (some "k") (some 1)) (first_row ∷ []) first_row
      true refl

leases : Step default_options queued_once claimed_once
unfolding claim picked_ids is_blank
leases =
    Step.claims queued_once no_order unlocked 30 worker_options (leased_row ∷ []) (job ∷ []) tt refl

abbrev dead_row : JobRow String
dead_row = record first_row {
  status = JobStatus.dead;
  attempts = 1;
  updated_at = 40;
  last_error = some "boom";
}

buries : Step default_options claimed_once (record { table = dead_row ∷ []; held = job ∷ [] })
unfolding fail_retryable
buries = Step.fails claimed_once 40 job "boom" (inl refl)

to_death : Reach default_options none_yet (record { table = dead_row ∷ []; held = job ∷ [] })
to_death = Reach.next (Reach.next (Reach.next Reach.here queues) leases) buries

reach-IsConsistent_example : IsConsistent (record { table = dead_row ∷ []; held = job ∷ [] })
reach-IsConsistent_example = reach-IsConsistent default_options none_yet _ (tt, tt) to_death

claims_in-bounded_example :
    claims_in to_death + attempts_left (dead_row ∷ [])
    ≤ grants_in to_death + attempts_left none_yet.table
claims_in-bounded_example = claims_in-bounded default_options none_yet _ to_death (tt, tt)

two_rows_keys : HasKey two_rows
two_rows_keys = (((λ e. ground (arith, (eq_iff "j1" "j2").1 e)), tt), (tt, tt))

claim-chosen_example :
    (length (job ∷ []) ≤ claim_limit default_options worker_options)
    × (length (job ∷ []) ≤ 25)
    × ((n : ℕ) → worker_options.batch_size ≡ some n → 1 ≤ n → length (job ∷ []) ≤ n)
    × All (λ c. Any (λ s. (s.id ≡ c.id) × IsDue unlocked 30 s) two_rows) (job ∷ [])
    × All
        (λ u.
          IsDue unlocked 30 u
          → WasClaimed (job ∷ []) u
            ⊎ ((length (job ∷ []) ≡ claim_limit default_options worker_options)
                × All (λ r. WasClaimed (job ∷ []) r → ¬ ComesFirst no_order u r) two_rows))
        two_rows
unfolding claim picked_ids is_blank
claim-chosen_example =
    claim-chosen default_options no_order unlocked 30 worker_options two_rows
      (new_row "j2" 20 (request none none) ∷ leased_row ∷ []) (job ∷ []) no_order-IsRanking
      two_rows_keys refl

enqueue_with-once_example :
    (x : JobRow String) × (enqueue_with default_options bytes "j3" 50
        (first_row ∷ [])
        (request (some "k") none)
      ≡ ok (first_row ∷ [], x, false))
    × (has_key "echo" (some "k") x ≡ true)
unfolding enqueue_with insert_row is_blank
enqueue_with-once_example =
    enqueue_with-once default_options bytes "j1" "j3" 10 50 [] (first_row ∷ [])
      (request (some "k") (some 1)) (request (some "k") none) "k" first_row true refl refl refl refl
      (omega arith) refl

-- The handler of `echo` throws.
abbrev handlers : JobHandlerRegistry String
handlers = ("echo", λ c. some "Error: boom") ∷ []

abbrev poller : JobPoller
poller = record {
  worker_id = "w";
  batch_size = 10;
  lease_ttl_ms = none;
  stale_recovery_interval_ms = 30000;
  last_stale_sweep_at_ms = 0;
  last_tick_at_ms = none;
}

run_jobs-unleased_example :
    (x : JobPoller × List (JobRow String) × PollerRunReport) × (run_jobs default_options handlers
        no_order unlocked
        (λ c rows. rows)
        (same_text "j2")
        (λ id. 60)
        50
        70
        poller
        two_rows
      ≡ some x)
    × All (λ r. is_owned "w" r ≡ false) x.1
unfolding is_blank
run_jobs-unleased_example =
    run_jobs-unleased "w" default_options handlers no_order unlocked (λ c rows. rows)
      (same_text "j2") (λ id. 60) 50 70 poller two_rows refl refl (λ c Ids table h. h)
      (refl, (refl, tt))
