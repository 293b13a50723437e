-- ===== src/OperatingEntity/Completed.antt =====
-- What an advance that succeeds has read and what it leaves.
use mathlib.Core.Path.{subst}
use karar_flutter_version.Prelude.{
  ◌⊎◌, inl, inr, ℕ, String, ◌≡◌, refl, sym, ap, Bool, true, false, not, Option, none, some,
  if◌then◌else◌, ◌∷◌, find, All, All-mono, same_text, is_blank, update_where, update_where-All,
  Result, ok, err, arith,
}
use karar_flutter_version.OperatingEntity.Migration.{
  EntityMigrationStatus, EntityMigration, AdvanceFields, is_terminal_migration_status, is_set,
  advanced_row, guard_admits, admits_advance, fits_table, migration_transition_allowed,
}
use karar_flutter_version.OperatingEntity.Workflow.{
  WorkflowState, WorkflowDeps, EntityMigrationError, MigrationTarget, AdvanceEntityMigrationInput,
  target_status, target_action, completion, after_write, move, checked_move,
  advance_entity_migration,
}
use karar_flutter_version.OperatingEntity.History.{Rows, advance_taken}

-- The row is moved: it has the status, the instant exactly if it is over, and an evaluation.
abbrev pub IsMoved : MigrationTarget → ℕ → EntityMigration → Type 0
IsMoved to now r =
    (r.status ≡ target_status to)
    × (r.completed_at ≡ completion to now)
    × (is_set r.reconsent_evaluation_id ≡ true)

abbrev target_fields : MigrationTarget → ℕ → AdvanceFields
target_fields to now = record { reconsent_evaluation_id = none; completed_at = completion to now }

not_set : {A : Type 0} (o : Option A) → is_set o ≡ false → o ≡ none
not_set none h = refl
not_set (some a) h = cc

admitted-IsMoved :
    (to : MigrationTarget) (now : ℕ) (r : EntityMigration)
    → admits_advance (target_status to) (target_fields to now) r ≡ true
    → IsMoved to now (advanced_row (target_status to) (target_fields to now) r)
unfolding admits_advance fits_table
admitted-IsMoved MigrationTarget.awaiting_acceptance now r h =
    (refl, not_set r.completed_at (ground (arith, h)), ground (arith, h))
admitted-IsMoved MigrationTarget.migrated now r h = (refl, refl, ground (arith, h))
admitted-IsMoved MigrationTarget.blocked now r h = (refl, refl, ground (arith, h))

stops-ok :
    {A : Type 0} (state after : WorkflowState) (b : Bool) (e : EntityMigrationError) (a : A)
    (rest : WorkflowState × Result {0, 0} A EntityMigrationError)
    → (if b then (state, err e) else rest) ≡ (after, ok a)
    → (b ≡ false) × (rest ≡ (after, ok a))
stops-ok state after true e a rest h = cc
stops-ok state after false e a rest h = (refl, h)

after_write-ok :
    (deps : WorkflowDeps) (action id actor : String) (state after : WorkflowState)
    (written : Option Rows)
    → after_write {0} {A = Unit} deps action id actor tt state written ≡ (after, ok tt)
    → (rows : Rows) × (written ≡ some rows)
      × (after ≡ record { migrations = rows; audit = (action, id, actor) ∷ state.audit })
unfolding after_write
after_write-ok deps action id actor state after none h = cc
after_write-ok deps action id actor state after (some rows) h =
    let (can, k) =
      stops-ok state after (not deps.can_write) EntityMigrationError.store_failure tt _ h in
    (rows, refl, by_test deps.can_audit k)
  where
    by_test :
        (b : Bool)
        → if◌then◌else◌ {A = WorkflowState × Result {0, 0} Unit EntityMigrationError} b
            (record { migrations = rows; audit = (action, id, actor) ∷ state.audit }, ok tt)
            (record state { migrations = rows }, err EntityMigrationError.audit_append_failed)
          ≡ (after, ok tt)
        → after ≡ record { migrations = rows; audit = (action, id, actor) ∷ state.audit }
    by_test true k = sym (ap (λ x. x.0) k)
    by_test false k = cc

-- The moves of the state machine that an operator may ask for.
abbrev pub MayMove : EntityMigrationStatus → MigrationTarget → Type 0
MayMove from to =
    ((from ≡ EntityMigrationStatus.reconsent_evaluated)
      × ((to ≡ MigrationTarget.awaiting_acceptance) ⊎ (to ≡ MigrationTarget.migrated)))
    ⊎ ((from ≡ EntityMigrationStatus.awaiting_acceptance)
        × ((to ≡ MigrationTarget.migrated) ⊎ (to ≡ MigrationTarget.blocked)))

allowed-MayMove :
    (from : EntityMigrationStatus) (to : MigrationTarget)
    → migration_transition_allowed from (target_status to) ≡ true
    → MayMove from to
unfolding migration_transition_allowed
allowed-MayMove EntityMigrationStatus.proposed MigrationTarget.awaiting_acceptance h = cc
allowed-MayMove EntityMigrationStatus.proposed MigrationTarget.migrated h = cc
allowed-MayMove EntityMigrationStatus.proposed MigrationTarget.blocked h = cc
allowed-MayMove EntityMigrationStatus.reconsent_evaluated MigrationTarget.awaiting_acceptance h =
    inl (refl, inl refl)
allowed-MayMove EntityMigrationStatus.reconsent_evaluated MigrationTarget.migrated h =
    inl (refl, inr refl)
allowed-MayMove EntityMigrationStatus.reconsent_evaluated MigrationTarget.blocked h = cc
allowed-MayMove EntityMigrationStatus.awaiting_acceptance MigrationTarget.awaiting_acceptance h = cc
allowed-MayMove EntityMigrationStatus.awaiting_acceptance MigrationTarget.migrated h =
    inr (refl, inl refl)
allowed-MayMove EntityMigrationStatus.awaiting_acceptance MigrationTarget.blocked h =
    inr (refl, inr refl)
allowed-MayMove EntityMigrationStatus.migrated to h = cc
allowed-MayMove EntityMigrationStatus.blocked to h = cc

-- What an advance that succeeds has read, and what it leaves.
abbrev pub IsAdvance :
    AdvanceEntityMigrationInput
    → (found : Option EntityMigration) → (before after : WorkflowState) → Type 0
IsAdvance input found before after =
    (m : EntityMigration) × (found ≡ some m)
    × MayMove m.status input.to
    × All
        (λ r.
          same_text r.id input.migration_id ≡ true → is_terminal_migration_status r.status ≡ false)
        before.migrations
    × All (λ r. same_text r.id input.migration_id ≡ true → IsMoved input.to input.now r)
        after.migrations
    × (after.audit
        ≡ (target_action input.to, input.migration_id, input.principal_ref) ∷ before.audit)

update_where-IsMoved :
    (input : AdvanceEntityMigrationInput) (rows : Rows)
    → All
        (λ r.
          same_text r.id input.migration_id ≡ true
          → admits_advance (target_status input.to) (target_fields input.to input.now) r ≡ true)
        rows
    → All
        (λ r. same_text r.id input.migration_id ≡ true → IsMoved input.to input.now r)
        (update_where
          (λ r. same_text r.id input.migration_id)
          (advanced_row (target_status input.to) (target_fields input.to input.now))
          rows)
update_where-IsMoved input rows taken =
    update_where-All
      (λ r.
        same_text r.id input.migration_id ≡ true
        → admits_advance (target_status input.to) (target_fields input.to input.now) r ≡ true)
      (λ r. same_text r.id input.migration_id ≡ true → IsMoved input.to input.now r) _ _
      (λ r e k _. admitted-IsMoved input.to input.now r (k e)) (λ r e k same. cc) rows taken

found-ok :
    (deps : WorkflowDeps) (input : AdvanceEntityMigrationInput) (found : Option EntityMigration)
    (state after : WorkflowState)
    → move deps
        (target_action input.to)
        input.migration_id
        input.principal_ref
        (target_status input.to)
        (target_fields input.to input.now)
        found
        state
      ≡ (after, ok tt)
    → IsAdvance input found state after
unfolding move admits_advance guard_admits
found-ok deps input none state after h = cc
found-ok deps input (some m) state after h =
    let (allowed, k) =
      stops-ok state after (not (migration_transition_allowed m.status (target_status input.to)))
        (EntityMigrationError.invalid_transition m.status (target_status input.to)) tt _ h in
    let (rows, written, same) = after_write-ok deps _ _ _ state after _ k in
    let (taken, changed) = advance_taken _ _ _ state.migrations rows written in
    let moved = update_where-IsMoved input state.migrations taken in
    (
      m,
      refl,
      allowed-MayMove m.status input.to (ground (arith, allowed)),
      All-mono _ _ (λ r f e. ground (arith, f e)) state.migrations taken,
      subst
          (λ s.
            All (λ r. same_text r.id input.migration_id ≡ true → IsMoved input.to input.now r)
              s.migrations)
          (sym same)
          (subst
            (All (λ r. same_text r.id input.migration_id ≡ true → IsMoved input.to input.now r))
            (sym changed) moved),
      ap (λ s. s.audit) same,
    )

-- An advance that succeeds moves a migration along its state machine: the migration that it read was
-- evaluated and is asked to await acceptance or be migrated, or it awaited acceptance and is asked to
-- be migrated or blocked; no row of its id was migrated or blocked when it wrote; each has
-- afterwards that status, an evaluation that is linked to it, and the instant of the request as its
-- completion exactly if it is over; and the audit trail has the action.
pub advance_entity_migration-ok :
    (deps : WorkflowDeps) (input : AdvanceEntityMigrationInput) (read : Rows)
    (state after : WorkflowState)
    → advance_entity_migration deps input read state ≡ (after, ok tt)
    → IsAdvance input (find (λ m. same_text m.id input.migration_id) read) state after
unfolding advance_entity_migration checked_move
advance_entity_migration-ok deps input read state after h =
    let (a, k) =
      stops-ok state after (is_blank input.reason) EntityMigrationError.invalid_input tt _ h in
    let (b, l) =
      stops-ok state after (not deps.authorized) EntityMigrationError.authorization_denied tt _ k in
    let (c, moves) =
      stops-ok state after (not deps.can_read) EntityMigrationError.store_failure tt _ l in
    found-ok deps input _ state after moves
