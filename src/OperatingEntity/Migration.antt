-- ===== src/OperatingEntity/Migration.antt =====
-- modules/operating-entity: domain/entity-migration.ts, the statuses and their transitions; the
-- repository PrismaEntityMigrationRepository of infrastructure/persistence/prisma-repositories.ts; and
-- the table entity_migrations with its constraints and its trigger, of
-- packages/platform/db/migrations/0063_operating_entity_assignments.sql. A statement that the database
-- refuses gives nothing.
use karar_flutter_version.Prelude.{
  ℕ, String, Bool, true, false, not, ◌&&◌, ◌||◌, Option, none, some, List, [], ◌∷◌, any, same_text,
  if◌then◌else◌, update_where,
}

pub data EntityMigrationStatus : Type 0 where
  proposed reconsent_evaluated awaiting_acceptance migrated blocked : EntityMigrationStatus

pub data AssignmentScope : Type 0 where
  tenant_default user_contracting : AssignmentScope

abbrev pub same_status : EntityMigrationStatus → EntityMigrationStatus → Bool
same_status EntityMigrationStatus.proposed EntityMigrationStatus.proposed = true
same_status EntityMigrationStatus.reconsent_evaluated EntityMigrationStatus.reconsent_evaluated =
    true
same_status EntityMigrationStatus.awaiting_acceptance EntityMigrationStatus.awaiting_acceptance =
    true
same_status EntityMigrationStatus.migrated EntityMigrationStatus.migrated = true
same_status EntityMigrationStatus.blocked EntityMigrationStatus.blocked = true
same_status _ _ = false

-- `TRANSITIONS`
abbrev pub transitions : EntityMigrationStatus → List EntityMigrationStatus
transitions EntityMigrationStatus.proposed = EntityMigrationStatus.reconsent_evaluated ∷ []
transitions EntityMigrationStatus.reconsent_evaluated =
    EntityMigrationStatus.awaiting_acceptance ∷ EntityMigrationStatus.migrated ∷ []
transitions EntityMigrationStatus.awaiting_acceptance =
    EntityMigrationStatus.migrated ∷ EntityMigrationStatus.blocked ∷ []
transitions EntityMigrationStatus.migrated = []
transitions EntityMigrationStatus.blocked = []

unfoldable pub migration_transition_allowed : (from to : EntityMigrationStatus) → Bool
migration_transition_allowed from to = any (same_status to) (transitions from)

abbrev pub is_terminal_migration_status : EntityMigrationStatus → Bool
is_terminal_migration_status status =
    same_status status EntityMigrationStatus.migrated
    || same_status status EntityMigrationStatus.blocked

pub record EntityMigration : Type 0 where
  pub id : String
  pub scope : AssignmentScope
  pub subject_ref : String
  pub from_entity : String
  pub to_entity : String
  pub status : EntityMigrationStatus
  pub reason : String
  pub reconsent_evaluation_id : Option String
  pub proposed_by : String
  pub proposed_at : ℕ
  pub completed_at : Option ℕ

abbrev pub is_set {ℓ} : {A : Type ℓ} → Option A → Bool
is_set none = false
is_set (some a) = true

abbrev pub same_bool : Bool → Bool → Bool
same_bool true b = b
same_bool false b = not b

-- The `CHECK` constraints of the row.
unfoldable pub fits_table : EntityMigration → Bool
fits_table m =
    not (same_text m.subject_ref "")
    && not (same_text m.reason "")
    && not (same_text m.proposed_by "")
    && not (same_text m.from_entity m.to_entity)
    && same_bool (is_terminal_migration_status m.status) (is_set m.completed_at)
    && (same_status m.status EntityMigrationStatus.proposed || is_set m.reconsent_evaluation_id)

-- `INSERT`, with the primary key and the references to the entities.
unfoldable pub insert :
    (has_entity : String → Bool)
    → EntityMigration
    → List EntityMigration
    → Option (List EntityMigration)
insert has_entity m rows =
    if fits_table m
      && not (any (λ r. same_text r.id m.id) rows)
      && has_entity m.from_entity
      && has_entity m.to_entity
    then some (m ∷ rows)
    else none

-- What an `advance` sets beside the status; a field that is not given is kept.
pub record AdvanceFields : Type 0 where
  pub reconsent_evaluation_id : Option String
  pub completed_at : Option ℕ

abbrev pub given_or {ℓ} : {A : Type ℓ} → Option A → Option A → Option A
given_or none old = old
given_or (some a) old = some a

abbrev pub advanced_row : EntityMigrationStatus → AdvanceFields → EntityMigration → EntityMigration
advanced_row to fields row = record row {
  status = to;
  reconsent_evaluation_id = given_or fields.reconsent_evaluation_id row.reconsent_evaluation_id;
  completed_at = given_or fields.completed_at row.completed_at;
}

-- `NEW.reconsent_evaluation_id` is that of `OLD`, or `OLD` has none.
abbrev pub keeps_link : (old new : Option String) → Bool
keeps_link none new = true
keeps_link (some a) none = false
keeps_link (some a) (some b) = same_text b a

-- The trigger on updates. The columns that it compares besides are not set by an `advance`.
unfoldable pub guard_admits : (old new : EntityMigration) → Bool
guard_admits old new =
    not (is_terminal_migration_status old.status)
    && keeps_link old.reconsent_evaluation_id new.reconsent_evaluation_id

-- The row may be changed so: the trigger and the constraints admit it.
unfoldable pub admits_advance : EntityMigrationStatus → AdvanceFields → EntityMigration → Bool
admits_advance to fields row =
    guard_admits row (advanced_row to fields row) && fits_table (advanced_row to fields row)

-- `update` by the primary key, which throws where there is no row.
unfoldable pub advance :
    (id : String)
    → EntityMigrationStatus
    → AdvanceFields
    → List EntityMigration
    → Option (List EntityMigration)
advance id to fields rows =
    if not (any (λ r. same_text r.id id) rows)
      || any (λ r. same_text r.id id && not (admits_advance to fields r)) rows
    then none
    else some (update_where (λ r. same_text r.id id) (advanced_row to fields) rows)
