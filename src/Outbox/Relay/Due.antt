-- ===== src/Outbox/Relay/Due.antt =====
-- Which rows a batch of the relay holds: those that are due, up to its limit.
use karar_flutter_version.Prelude.{ℕ, ◌≤◌, ◌<◌, ◌≡◌, ◌⊎◌, none, some, List, Any}
use karar_flutter_version.Outbox.Relay.{OutboxRow, ClaimedRow}

module _ {E : Type 0} where
  -- The row may be published: it was neither published nor dead-lettered, it is available, and no
  -- claim of it is live.
  abbrev pub IsDue : ℕ → OutboxRow E → Type 0
  IsDue now s =
      (s.published_at ≡ none)
      × (s.dead_lettered_at ≡ none)
      × (s.available_at ≤ now)
      × ((s.claimed_by ≡ none) ⊎ ((t : ℕ) × (s.claim_expires_at ≡ some t) × (t < now)))

  -- The copy that a relay is given tells the row.
  abbrev pub IsCopy : OutboxRow E → ClaimedRow E → Type 0
  IsCopy s c =
      (s.id ≡ c.id)
      × (s.envelope ≡ c.envelope)
      × (s.attempts ≡ c.attempts)
      × (s.max_attempts ≡ c.max_attempts)

  abbrev pub IsIn : List (ClaimedRow E) → OutboxRow E → Type 0
  IsIn batch s = Any (λ c. s.id ≡ c.id) batch
