-- ===== src/Outbox/Relay.antt =====
-- packages/platform/src/outbox/relay.ts: claim a batch, publish it, mark the outcomes. The table
-- `platform.outbox_events` is the list of its rows in the order `created_at, id`, which no statement
-- here changes, and the rows that a statement returns are in that order. A statement is one atomic
-- step, at the instant `now`, in milliseconds. Metrics, the heartbeat and log lines are left out.
pub mod Claims
pub mod Due
pub mod Outcomes
mod Tests
use karar_flutter_version.Prelude.{
  ℕ, zero, suc, ◌+◌, ◌*◌, ◌-◌, ◌^◌, String, Bool, true, false, not, ◌&&◌, ◌||◌, Option, none, some,
  List, [], ◌∷◌, map, length, leb, ltb, same_text, if◌then◌else◌, update_where,
}

pub record OutboxRow (E : Type 0) : Type 0 where
  pub id : String
  pub envelope : E
  pub attempts : ℕ
  pub max_attempts : ℕ
  pub available_at : ℕ
  pub claimed_by : Option String
  pub claim_expires_at : Option ℕ
  pub published_at : Option ℕ
  pub dead_lettered_at : Option ℕ
  pub last_error : Option String

pub record ClaimedRow (E : Type 0) : Type 0 where
  pub id : String
  pub envelope : E
  pub attempts : ℕ
  pub max_attempts : ℕ

pub record OutboxRelayOptions : Type 0 where
  pub relay_id : String
  pub batch_size : Option ℕ
  pub claim_ttl_ms : ℕ
  pub backoff_base_ms : ℕ
  pub backoff_cap_ms : ℕ

abbrev pub is_null {ℓ} : {A : Type ℓ} → Option A → Bool
is_null none = true
is_null (some a) = false

abbrev is_empty {ℓ} : {A : Type ℓ} → List A → Bool
is_empty [] = true
is_empty (a ∷ rest) = false

abbrev min_ℕ : ℕ → ℕ → ℕ
min_ℕ a b = if leb a b then a else b

abbrev max_batch_size : ℕ
max_batch_size = 100

-- `Math.min(Math.max(1, options.batchSize ?? 25), MAX_BATCH_SIZE)`
pub batch_limit : Option ℕ → ℕ
batch_limit none = 25
batch_limit (some n) = min_ℕ (if leb 1 n then n else 1) max_batch_size

-- `claim_expires_at < now()` is not true of null.
abbrev pub expired_claim : Option ℕ → ℕ → Bool
expired_claim none now = false
expired_claim (some expires) now = ltb expires now

-- `backoffBaseMs * 2 ** (attemptsAfter - 1)`, capped.
pub backoff_ms : OutboxRelayOptions → (attempts_after : ℕ) → ℕ
backoff_ms options attempts_after =
    min_ℕ options.backoff_cap_ms (options.backoff_base_ms * 2 ^ (attempts_after - 1))

pub data Outcome : Type 0 where
  published failed dead_lettered : Outcome

pub record RelayRunReport : Type 0 where
  pub claimed : ℕ
  pub published : ℕ
  pub failed : ℕ
  pub dead_lettered : ℕ

abbrev counted : Outcome → RelayRunReport → RelayRunReport
counted Outcome.published r = record r { published = r.published + 1 }
counted Outcome.failed r = record r { failed = r.failed + 1 }
counted Outcome.dead_lettered r = record r { dead_lettered = r.dead_lettered + 1 }

module _ {E : Type 0} where
  -- The `WHERE` of the statement that claims.
  abbrev pub is_claimable : ℕ → OutboxRow E → Bool
  is_claimable now row =
      is_null row.published_at
      && is_null row.dead_lettered_at
      && leb row.available_at now
      && (is_null row.claimed_by || expired_claim row.claim_expires_at now)

  abbrev pub claim_mark : OutboxRelayOptions → ℕ → OutboxRow E → OutboxRow E
  claim_mark options now row = record row {
    claimed_by = some options.relay_id;
    claim_expires_at = some (now + options.claim_ttl_ms);
  }

  abbrev pub returned : OutboxRow E → ClaimedRow E
  returned row = record {
    id = row.id;
    envelope = row.envelope;
    attempts = row.attempts;
    max_attempts = row.max_attempts;
  }

  -- `claimBatch`: the first `limit` claimable rows are claimed and returned.
  abbrev pub claim_next :
      OutboxRelayOptions
      → ℕ
      → OutboxRow E
      → List (OutboxRow E) × List (ClaimedRow E)
      → List (OutboxRow E) × List (ClaimedRow E)
  claim_next options now row (rows, batch) =
      (claim_mark options now row ∷ rows, returned row ∷ batch)

  abbrev pub skip_row :
      OutboxRow E
      → List (OutboxRow E) × List (ClaimedRow E)
      → List (OutboxRow E) × List (ClaimedRow E)
  skip_row row (rows, batch) = (row ∷ rows, batch)

  claim_rows :
      OutboxRelayOptions
      → ℕ
      → (limit : ℕ) → List (OutboxRow E)
      → List (OutboxRow E) × List (ClaimedRow E)
  claim_rows options now zero table = (table, [])
  claim_rows options now (suc limit) [] = ([], [])
  claim_rows options now (suc limit) (row ∷ table) =
      let taken = claim_rows options now limit table in
      let passed = claim_rows options now (suc limit) table in
      if is_claimable now row then claim_next options now row taken else skip_row row passed

  pub claim_batch :
      OutboxRelayOptions → ℕ → List (OutboxRow E) → List (OutboxRow E) × List (ClaimedRow E)
  unfolding claim_rows
  claim_batch options now table = claim_rows options now (batch_limit options.batch_size) table

  abbrev pub mark_published : ℕ → OutboxRow E → OutboxRow E
  mark_published now row = record row {
    published_at = some now;
    claimed_by = none;
    claim_expires_at = none;
  }

  abbrev pub mark_dead : ℕ → ℕ → String → OutboxRow E → OutboxRow E
  mark_dead now attempts error row = record row {
    attempts = attempts;
    last_error = some error;
    dead_lettered_at = some now;
    claimed_by = none;
    claim_expires_at = none;
  }

  abbrev pub mark_retry : ℕ → ℕ → String → OutboxRow E → OutboxRow E
  mark_retry available_at attempts error row = record row {
    attempts = attempts;
    last_error = some error;
    available_at = available_at;
    claimed_by = none;
    claim_expires_at = none;
  }

  abbrev has_id : String → OutboxRow E → Bool
  has_id id row = same_text row.id id

  mark_failed :
      OutboxRelayOptions
      → ℕ
      → ClaimedRow E
      → (last_error : String) → List (OutboxRow E)
      → List (OutboxRow E) × Outcome
  unfolding update_where
  mark_failed options now row last_error table =
      let attempts_after = row.attempts + 1 in
      if leb row.max_attempts attempts_after
      then (
        update_where (has_id row.id) (mark_dead now attempts_after last_error) table,
        Outcome.dead_lettered,
      )
      else (
        update_where (has_id row.id)
            (mark_retry (now + backoff_ms options attempts_after) attempts_after last_error) table,
        Outcome.failed,
      )

  -- The publisher answers an envelope with nothing, or with an error.
  after_publish :
      OutboxRelayOptions
      → ℕ
      → ClaimedRow E
      → Option String
      → List (OutboxRow E)
      → List (OutboxRow E) × Outcome
  unfolding mark_failed update_where
  after_publish options now row none table = (
    update_where (λ r. has_id row.id r && is_null r.published_at) (mark_published now) table,
    Outcome.published,
  )
  after_publish options now row (some error) table = mark_failed options now row error table

  pub publish_one :
      (E → Option String)
      → OutboxRelayOptions
      → ℕ
      → ClaimedRow E
      → List (OutboxRow E)
      → List (OutboxRow E) × Outcome
  unfolding after_publish
  publish_one publish options now row table =
      after_publish options now row (publish row.envelope) table

  abbrev is_own : String → OutboxRow E → Bool
  is_own relay_id row = elim row.claimed_by [ none ↦ false | some owner ↦ same_text owner relay_id ]

  pub release_own_claims : String → List (OutboxRow E) → List (OutboxRow E)
  unfolding update_where
  release_own_claims relay_id table =
      update_where (λ r. is_own relay_id r && is_null r.published_at && is_null r.dead_lettered_at)
        (λ r. record r { claimed_by = none; claim_expires_at = none }) table

  -- The loop of `runOnce`. `stops id` says whether a shutdown is seen after the row, and `at id` is
  -- the instant of the statement that marks it.
  publish_rows :
      (E → Option String)
      → (stops : String → Bool) → (at : String → ℕ) → OutboxRelayOptions
      → List (ClaimedRow E)
      → List (OutboxRow E) × RelayRunReport
      → List (OutboxRow E) × RelayRunReport
  publish_rows publish stops at options [] (table, report) = (table, report)
  publish_rows publish stops at options (row ∷ rows) (table, report) =
      let marked = publish_one publish options (at row.id) row table in
      let rest = publish_rows publish stops at options rows (marked.0, counted marked.1 report) in
      if stops row.id && not (is_empty rows)
      then (release_own_claims options.relay_id marked.0, counted marked.1 report)
      else rest

  pub run_once :
      (E → Option String)
      → (stops : String → Bool) → (at : String → ℕ) → OutboxRelayOptions
      → ℕ
      → List (OutboxRow E)
      → List (OutboxRow E) × RelayRunReport
  unfolding publish_rows
  run_once publish stops at options now table =
      let taken = claim_batch options now table in
      publish_rows publish stops at options taken.1
        (taken.0, record { claimed = length taken.1; published = 0; failed = 0; dead_lettered = 0 })
