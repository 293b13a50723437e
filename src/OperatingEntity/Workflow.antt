-- ===== src/OperatingEntity/Workflow.antt =====
-- modules/operating-entity/application/use-cases/entity-migration.ts, the three use cases. Each reads
-- the table once and writes it in a later statement: the rows that it reads and those that it writes
-- are two arguments, as other requests run between them. What the authorization answers, whether the
-- database and the audit trail answer, and the new id are arguments.
use karar_flutter_version.Prelude.{
  ℕ, String, Bool, not, ◌||◌, Option, none, some, List, ◌∷◌, find, same_text, is_blank,
  if◌then◌else◌, Result, ok, err,
}
use karar_flutter_version.OperatingEntity.Migration.{
  EntityMigrationStatus, AssignmentScope, EntityMigration, AdvanceFields,
  migration_transition_allowed, insert, advance,
}

-- `invalid_input` is thrown; the others are returned.
pub data EntityMigrationError : Type 0 where
  invalid_input authorization_denied store_failure audit_append_failed : EntityMigrationError
  not_found : (resource id : String) → EntityMigrationError
  invalid_transition : (from to : EntityMigrationStatus) → EntityMigrationError

-- The table, and the actions of the audit trail with the migration and the actor of each.
pub record WorkflowState : Type 0 where
  pub migrations : List EntityMigration
  pub audit : List (String × String × String)

pub record WorkflowDeps : Type 0 where
  pub authorized : Bool
  pub has_entity : String → Bool
  pub can_read : Bool
  pub can_write : Bool
  pub can_audit : Bool
  pub next_id : String

pub record ProposeEntityMigrationInput : Type 0 where
  pub principal_ref : String
  pub scope : AssignmentScope
  pub subject_ref : String
  pub from_entity : String
  pub to_entity : String
  pub reason : String
  pub now : ℕ

-- What follows a write that the database took or refused.
unfoldable pub after_write {ℓ} :
    {A : Type ℓ}
    → WorkflowDeps
    → (action id actor : String) → A
    → WorkflowState
    → Option (List EntityMigration)
    → WorkflowState × Result A EntityMigrationError
after_write deps action id actor a state none = (state, err EntityMigrationError.store_failure)
after_write deps action id actor a state (some rows) =
    if not deps.can_write
    then (state, err EntityMigrationError.store_failure)
    else if deps.can_audit
    then (record { migrations = rows; audit = (action, id, actor) ∷ state.audit }, ok a)
    else (record state { migrations = rows }, err EntityMigrationError.audit_append_failed)

abbrev pub new_migration : WorkflowDeps → ProposeEntityMigrationInput → EntityMigration
new_migration deps input = record {
  id = deps.next_id;
  scope = input.scope;
  subject_ref = input.subject_ref;
  from_entity = input.from_entity;
  to_entity = input.to_entity;
  status = EntityMigrationStatus.proposed;
  reason = input.reason;
  reconsent_evaluation_id = none;
  proposed_by = input.principal_ref;
  proposed_at = input.now;
  completed_at = none;
}

unfoldable pub propose_entity_migration :
    WorkflowDeps
    → ProposeEntityMigrationInput
    → WorkflowState
    → WorkflowState × Result EntityMigration EntityMigrationError
propose_entity_migration deps input state =
    if same_text input.from_entity input.to_entity
    then (state, err EntityMigrationError.invalid_input)
    else if not deps.authorized
    then (state, err EntityMigrationError.authorization_denied)
    else if not deps.can_read
    then (state, err EntityMigrationError.store_failure)
    else if not (deps.has_entity input.from_entity)
    then (state, err (EntityMigrationError.not_found "operating_entity" input.from_entity))
    else if not (deps.has_entity input.to_entity)
    then (state, err (EntityMigrationError.not_found "operating_entity" input.to_entity))
    else if is_blank input.subject_ref || is_blank input.reason
    then (state, err EntityMigrationError.invalid_input)
    else after_write deps "entity.migration.proposed" deps.next_id input.principal_ref
        (new_migration deps input) state
        (insert deps.has_entity (new_migration deps input) state.migrations)

-- The steps from the status that was read, the same in the two use cases that move a migration.
unfoldable pub move :
    WorkflowDeps
    → (action id actor : String) → EntityMigrationStatus
    → AdvanceFields
    → (found : Option EntityMigration) → WorkflowState
    → WorkflowState × Result {0, 0} Unit EntityMigrationError
move deps action id actor to fields none state =
    (state, err (EntityMigrationError.not_found "entity_migration" id))
move deps action id actor to fields (some migration) state =
    if not (migration_transition_allowed migration.status to)
    then (state, err (EntityMigrationError.invalid_transition migration.status to))
    else after_write deps action id actor tt state (advance id to fields state.migrations)

-- The checks before: the text that is required, the authorization and the read.
unfoldable pub checked_move :
    WorkflowDeps
    → (required action id actor : String) → EntityMigrationStatus
    → AdvanceFields
    → (read : List EntityMigration) → WorkflowState
    → WorkflowState × Result {0, 0} Unit EntityMigrationError
checked_move deps required action id actor to fields read state =
    if is_blank required
    then (state, err EntityMigrationError.invalid_input)
    else if not deps.authorized
    then (state, err EntityMigrationError.authorization_denied)
    else if not deps.can_read
    then (state, err EntityMigrationError.store_failure)
    else move deps action id actor to fields (find (λ m. same_text m.id id) read) state

pub record RecordEvaluationInput : Type 0 where
  pub principal_ref : String
  pub migration_id : String
  pub reconsent_evaluation_id : String
  pub now : ℕ

unfoldable pub record_migration_reconsent_evaluation :
    WorkflowDeps
    → RecordEvaluationInput
    → (read : List EntityMigration) → WorkflowState
    → WorkflowState × Result {0, 0} Unit EntityMigrationError
record_migration_reconsent_evaluation deps input read state =
    checked_move deps input.reconsent_evaluation_id "entity.migration.reconsent_evaluated"
      input.migration_id input.principal_ref EntityMigrationStatus.reconsent_evaluated
      (record { reconsent_evaluation_id = some input.reconsent_evaluation_id; completed_at = none })
      read state

-- The statuses that an operator may ask for.
pub data MigrationTarget : Type 0 where
  awaiting_acceptance migrated blocked : MigrationTarget

pub record AdvanceEntityMigrationInput : Type 0 where
  pub principal_ref : String
  pub migration_id : String
  pub to : MigrationTarget
  pub reason : String
  pub now : ℕ

abbrev pub target_status : MigrationTarget → EntityMigrationStatus
target_status MigrationTarget.awaiting_acceptance = EntityMigrationStatus.awaiting_acceptance
target_status MigrationTarget.migrated = EntityMigrationStatus.migrated
target_status MigrationTarget.blocked = EntityMigrationStatus.blocked

-- `terminal ? { completedAt: input.now } : {}`
abbrev pub completion : MigrationTarget → ℕ → Option ℕ
completion MigrationTarget.awaiting_acceptance now = none
completion MigrationTarget.migrated now = some now
completion MigrationTarget.blocked now = some now

abbrev pub target_action : MigrationTarget → String
target_action MigrationTarget.awaiting_acceptance = "entity.migration.awaiting_acceptance"
target_action MigrationTarget.migrated = "entity.migration.completed"
target_action MigrationTarget.blocked = "entity.migration.blocked"

unfoldable pub advance_entity_migration :
    WorkflowDeps
    → AdvanceEntityMigrationInput
    → (read : List EntityMigration) → WorkflowState
    → WorkflowState × Result {0, 0} Unit EntityMigrationError
advance_entity_migration deps input read state =
    checked_move deps input.reason (target_action input.to) input.migration_id input.principal_ref
      (target_status input.to)
      (record { reconsent_evaluation_id = none; completed_at = completion input.to input.now }) read
      state
