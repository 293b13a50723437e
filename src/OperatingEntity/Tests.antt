-- ===== src/OperatingEntity/Tests.antt =====
-- The theorems on the workflow at a table of one migration whose evaluation is recorded.
use karar_flutter_version.Prelude.{
  refl, true, some, none, [], ◌∷◌, find, same_text, is_blank, update_where,
}
use karar_flutter_version.OperatingEntity.Migration.{
  EntityMigrationStatus, AssignmentScope, EntityMigration, migration_transition_allowed, fits_table,
  guard_admits, admits_advance, advance,
}
use karar_flutter_version.OperatingEntity.Workflow.{
  WorkflowState, WorkflowDeps, MigrationTarget, AdvanceEntityMigrationInput, after_write, move,
  checked_move, advance_entity_migration,
}
use karar_flutter_version.OperatingEntity.History.{IsKept, IsFit}
use karar_flutter_version.OperatingEntity.Requests.{Reach, reach-IsPreserved}
use karar_flutter_version.OperatingEntity.Completed.{IsAdvance, advance_entity_migration-ok}

abbrev evaluated : EntityMigration
evaluated = record {
  id = "m1";
  scope = AssignmentScope.tenant_default;
  subject_ref = "tenant";
  from_entity = "entity_a";
  to_entity = "entity_b";
  status = EntityMigrationStatus.reconsent_evaluated;
  reason = "merger";
  reconsent_evaluation_id = some "e1";
  proposed_by = "operator";
  proposed_at = 10;
  completed_at = none;
}

abbrev evaluated_state : WorkflowState
evaluated_state = record { migrations = evaluated ∷ []; audit = [] }

abbrev deps : WorkflowDeps
deps = record {
  authorized = true;
  has_entity = λ id. true;
  can_read = true;
  can_write = true;
  can_audit = true;
  next_id = "m2";
}

abbrev input : AdvanceEntityMigrationInput
input = record {
  principal_ref = "approver";
  migration_id = "m1";
  to = MigrationTarget.migrated;
  reason = "no new consent is needed";
  now = 20;
}

abbrev migrated_state : WorkflowState
migrated_state = record {
  migrations =
      record evaluated { status = EntityMigrationStatus.migrated; completed_at = some 20 } ∷ [];
  audit = ("entity.migration.completed", "m1", "approver") ∷ [];
}

advance_entity_migration-ok_example :
    IsAdvance input
      (find (λ m. same_text m.id "m1") (evaluated ∷ []))
      evaluated_state
      migrated_state
unfolding advance_entity_migration checked_move move after_write migration_transition_allowed
    advance admits_advance guard_admits fits_table update_where is_blank
advance_entity_migration-ok_example =
    advance_entity_migration-ok deps input (evaluated ∷ []) evaluated_state migrated_state refl

reach-IsPreserved_example :
    IsKept
      (evaluated ∷ [])
      (advance_entity_migration deps input (evaluated ∷ []) evaluated_state).0.migrations
    × IsFit (advance_entity_migration deps input (evaluated ∷ []) evaluated_state).0.migrations
unfolding fits_table
reach-IsPreserved_example =
    reach-IsPreserved evaluated_state
      (advance_entity_migration deps input (evaluated ∷ []) evaluated_state).0
      (Reach.advances evaluated_state evaluated_state evaluated_state deps input
        (Reach.starts evaluated_state) (Reach.starts evaluated_state))
      (refl, tt)
