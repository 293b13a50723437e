-- ===== src/OperatingEntity/Requests.antt =====
-- The requests of the workflow interleaved on one table: what every table that they reach has, and
-- what no request ever rewrites.
use karar_flutter_version.Prelude.{
  String, ◌≡◌, refl, Bool, true, false, not, ◌||◌, Option, none, some, if◌then◌else◌, ◌∷◌,
  same_text, is_blank, Result, ok, err,
}
use karar_flutter_version.OperatingEntity.Migration.{
  EntityMigrationStatus, EntityMigration, AdvanceFields, migration_transition_allowed,
}
use karar_flutter_version.OperatingEntity.Workflow.{
  WorkflowState, WorkflowDeps, EntityMigrationError, ProposeEntityMigrationInput,
  RecordEvaluationInput, AdvanceEntityMigrationInput, after_write, new_migration,
  propose_entity_migration, move, checked_move, record_migration_reconsent_evaluation,
  advance_entity_migration,
}
use karar_flutter_version.OperatingEntity.History.{
  Rows, IsKept, IsFit, IsPreserved, IsKept-refl, IsKept-trans, advance-IsPreserved,
  insert-IsPreserved,
}

same-IsPreserved : (rows : Rows) → IsPreserved rows rows
same-IsPreserved rows = (IsKept-refl rows, (λ fit. fit))

record IsStep {A : Type 0} (state : WorkflowState) (answer : WorkflowState × A) : Type 0 where
  preserved : IsPreserved state.migrations answer.0.migrations

stays-IsStep :
    {A : Type 0} (state : WorkflowState) (answer : A) → IsStep {A = A} state (state, answer)
stays-IsStep state answer = record { preserved = same-IsPreserved state.migrations }

-- A test that stops the request with an error.
stops-IsStep :
    {A : Type 0} (state : WorkflowState) (b : Bool) (e : EntityMigrationError)
    {rest : WorkflowState × Result {0, 0} A EntityMigrationError}
    → IsStep state rest
    → IsStep state (if b then (state, err e) else rest)
stops-IsStep state true e h = stays-IsStep state (err e)
stops-IsStep state false e h = h

after_write-IsStep :
    {A : Type 0} (deps : WorkflowDeps) (action id actor : String) (a : A) (state : WorkflowState)
    (written : Option Rows)
    → ((rows : Rows) → written ≡ some rows → IsPreserved state.migrations rows)
    → IsStep state (after_write deps action id actor a state written)
unfolding after_write
after_write-IsStep deps action id actor a state none h = stays-IsStep state _
after_write-IsStep {A} deps action id actor a state (some rows) h =
    stops-IsStep state (not deps.can_write) EntityMigrationError.store_failure
      (by_test deps.can_audit)
  where
    by_test :
        (b : Bool)
        → IsStep state (
            if◌then◌else◌ {A = WorkflowState × Result {0, 0} A EntityMigrationError} b
              (record { migrations = rows; audit = (action, id, actor) ∷ state.audit }, ok a)
              (record state { migrations = rows }, err EntityMigrationError.audit_append_failed))
    by_test true = record { preserved = h rows refl }
    by_test false = record { preserved = h rows refl }

propose-IsStep :
    (deps : WorkflowDeps) (input : ProposeEntityMigrationInput) (state : WorkflowState)
    → IsStep state (propose_entity_migration deps input state)
unfolding propose_entity_migration
propose-IsStep deps input state =
    stops-IsStep state (same_text input.from_entity input.to_entity)
      EntityMigrationError.invalid_input
      (stops-IsStep state (not deps.authorized) EntityMigrationError.authorization_denied (
        stops-IsStep state (not deps.can_read) EntityMigrationError.store_failure (
          stops-IsStep state (not (deps.has_entity input.from_entity))
            (EntityMigrationError.not_found "operating_entity" input.from_entity)
            (stops-IsStep state (not (deps.has_entity input.to_entity))
              (EntityMigrationError.not_found "operating_entity" input.to_entity)
              (stops-IsStep state (is_blank input.subject_ref || is_blank input.reason)
                EntityMigrationError.invalid_input
                (after_write-IsStep deps "entity.migration.proposed" deps.next_id
                  input.principal_ref (new_migration deps input) state _
                  (insert-IsPreserved deps.has_entity (new_migration deps input)
                    state.migrations)))))))

move-IsStep :
    (deps : WorkflowDeps) (action id actor : String) (to : EntityMigrationStatus)
    (fields : AdvanceFields) (found : Option EntityMigration) (state : WorkflowState)
    → IsStep state (move deps action id actor to fields found state)
unfolding move
move-IsStep deps action id actor to fields none state = stays-IsStep state _
move-IsStep deps action id actor to fields (some m) state =
    stops-IsStep state (not (migration_transition_allowed m.status to))
      (EntityMigrationError.invalid_transition m.status to)
      (after_write-IsStep deps action id actor tt state _
        (advance-IsPreserved id to fields state.migrations))

checked_move-IsStep :
    (deps : WorkflowDeps) (required action id actor : String) (to : EntityMigrationStatus)
    (fields : AdvanceFields) (read : Rows) (state : WorkflowState)
    → IsStep state (checked_move deps required action id actor to fields read state)
unfolding checked_move
checked_move-IsStep deps required action id actor to fields read state =
    stops-IsStep state (is_blank required) EntityMigrationError.invalid_input (
      stops-IsStep state (not deps.authorized) EntityMigrationError.authorization_denied (
        stops-IsStep state (not deps.can_read) EntityMigrationError.store_failure
          (move-IsStep deps action id actor to fields _ state)))

-- The requests of the workflow. One that moves a migration reads the table at a state before, and
-- others run until it writes.
pub data Reach : WorkflowState → WorkflowState → Type 0 where
  starts : (s : WorkflowState) → Reach s s
  proposes :
      (s t : WorkflowState) (deps : WorkflowDeps) (input : ProposeEntityMigrationInput)
      → Reach s t
      → Reach s (propose_entity_migration deps input t).0
  records :
      (s read t : WorkflowState) (deps : WorkflowDeps) (input : RecordEvaluationInput)
      → Reach s read
      → Reach read t
      → Reach s (record_migration_reconsent_evaluation deps input read.migrations t).0
  advances :
      (s read t : WorkflowState) (deps : WorkflowDeps) (input : AdvanceEntityMigrationInput)
      → Reach s read
      → Reach read t
      → Reach s (advance_entity_migration deps input read.migrations t).0

IsPreserved-trans : (a b c : Rows) → IsPreserved a b → IsPreserved b c → IsPreserved a c
IsPreserved-trans a b c h k = (IsKept-trans a b c h.0 k.0, (λ fit. k.1 (h.1 fit)))

IsPreserved-reach : (s t : WorkflowState) → Reach s t → IsPreserved s.migrations t.migrations
unfolding record_migration_reconsent_evaluation advance_entity_migration
IsPreserved-reach s t (Reach.starts _) = same-IsPreserved s.migrations
IsPreserved-reach s t (Reach.proposes _ u deps input r) =
    IsPreserved-trans s.migrations u.migrations t.migrations (IsPreserved-reach s u r)
      (propose-IsStep deps input u).preserved
IsPreserved-reach s t (Reach.records _ read u deps input r q) =
    IsPreserved-trans s.migrations read.migrations t.migrations (IsPreserved-reach s read r) (
      IsPreserved-trans read.migrations u.migrations t.migrations (IsPreserved-reach read u q)
        (checked_move-IsStep deps _ _ _ _ _ _ read.migrations u).preserved)
IsPreserved-reach s t (Reach.advances _ read u deps input r q) =
    IsPreserved-trans s.migrations read.migrations t.migrations (IsPreserved-reach s read r) (
      IsPreserved-trans read.migrations u.migrations t.migrations (IsPreserved-reach read u q)
        (checked_move-IsStep deps _ _ _ _ _ _ read.migrations u).preserved)

-- History is never rewritten: however requests interleave, from a table that obeys its constraints they
-- reach one that obeys them, and every migration of the first table is still there with its
-- provenance, with the evaluation once linked to it, and as it was if it was migrated or blocked.
pub reach-IsPreserved :
    (s t : WorkflowState)
    → Reach s t
    → IsFit s.migrations
    → IsKept s.migrations t.migrations × IsFit t.migrations
reach-IsPreserved s t r fit = let (kept, fits) = IsPreserved-reach s t r in (kept, fits fit)
