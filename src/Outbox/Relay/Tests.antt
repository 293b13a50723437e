-- ===== src/Outbox/Relay/Tests.antt =====
-- The theorems on the relay at a table of two rows.
use karar_flutter_version.Prelude.{
  ◌≤◌, String, ◌≡◌, ◌≢◌, ◌⊎◌, false, Option, none, some, List, [], ◌∷◌, All, length, same_text,
  eq_iff, if◌then◌else◌, arith,
}
use karar_flutter_version.Outbox.Relay.{OutboxRow, OutboxRelayOptions, claim_batch, run_once}
use karar_flutter_version.Outbox.Relay.Claims.{HasKeys, claim_batch-disjoint}
use karar_flutter_version.Outbox.Relay.Outcomes.{
  WasPublished, WasTaken, run_once-published, outcomes, run_once-report,
}

abbrev event : String → OutboxRow String
event id = record {
  id = id;
  envelope = id;
  attempts = 0;
  max_attempts = 3;
  available_at = 10;
  claimed_by = none;
  claim_expires_at = none;
  published_at = none;
  dead_lettered_at = none;
  last_error = none;
}

abbrev pending : List (OutboxRow String)
pending = event "e1" ∷ event "e2" ∷ []

abbrev relay : String → OutboxRelayOptions
relay id = record {
  relay_id = id;
  batch_size = some 1;
  claim_ttl_ms = 30000;
  backoff_base_ms = 1000;
  backoff_cap_ms = 60000;
}

-- The publisher refuses `e2`.
abbrev publish : String → Option String
publish e = if same_text e "e2" then some "bus unavailable" else none

pending_keys : HasKeys pending
pending_keys = (((λ e. ground (arith, (eq_iff "e1" "e2").1 e)), tt), (tt, tt))

claim_batch-disjoint_example :
    All
      (λ d. All (λ c. c.id ≢ d.id) (claim_batch (relay "a") 100 pending).1)
      (claim_batch (relay "b") 200 (claim_batch (relay "a") 100 pending).0).1
claim_batch-disjoint_example =
    claim_batch-disjoint (relay "a") (relay "b") 100 200 pending (omega arith) pending_keys

run_once-published_example :
    All
      (λ r.
        (r.published_at ≡ none)
        ⊎ (WasPublished pending r.id
            ⊎ WasTaken publish (claim_batch (relay "a") 100 pending).1 r.id))
      (run_once publish (λ id. false) (λ id. 150) (relay "a") 100 pending).0
run_once-published_example =
    run_once-published publish (λ id. false) (λ id. 150) (relay "a") 100 pending

run_once-report_example :
    let report = (run_once publish (λ id. false) (λ id. 150) (relay "a") 100 pending).1 in
    (report.claimed ≡ length (claim_batch (relay "a") 100 pending).1)
    × (outcomes report ≤ report.claimed)
    × (((id : String) → false ≡ false) → outcomes report ≡ report.claimed)
run_once-report_example = run_once-report publish (λ id. false) (λ id. 150) (relay "a") 100 pending
