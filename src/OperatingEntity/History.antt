-- ===== src/OperatingEntity/History.antt =====
-- What the statements of the workflow on its table keep: the constraints, and the history of each
-- migration.
use mathlib.Core.Path.{subst}
use karar_flutter_version.Prelude.{
  String, ◌≡◌, refl, sym, ap, ◌∙◌, inl, inr, Bool, Bool-cases, true, false, not, ◌&&◌, Option, none,
  some, List, [], ◌∷◌, any, All, All-mono, All-both, All-self, Any, Any-mono, Any-in, update_where,
  update_where-All, same_text, eq_iff, arith,
}
use karar_flutter_version.OperatingEntity.Migration.{
  EntityMigrationStatus, EntityMigration, AdvanceFields, is_terminal_migration_status, given_or,
  advanced_row, keeps_link, guard_admits, admits_advance, fits_table, insert, advance,
}

abbrev pub Rows : Type 0
Rows = List EntityMigration

-- The later row tells the same migration: its provenance stays, an evaluation once linked stays, and
-- a migration that is over stays as it was.
pub record IsSuccessor (old new : EntityMigration) : Type 0 where
  pub same_id : new.id ≡ old.id
  pub same_scope : new.scope ≡ old.scope
  pub same_subject : new.subject_ref ≡ old.subject_ref
  pub same_from : new.from_entity ≡ old.from_entity
  pub same_to : new.to_entity ≡ old.to_entity
  pub same_reason : new.reason ≡ old.reason
  pub same_proposer : new.proposed_by ≡ old.proposed_by
  pub same_instant : new.proposed_at ≡ old.proposed_at
  pub link_stays :
      (e : String) → old.reconsent_evaluation_id ≡ some e → new.reconsent_evaluation_id ≡ some e
  pub over_stays : is_terminal_migration_status old.status ≡ true → new ≡ old

abbrev pub IsKept : (before after : Rows) → Type 0
IsKept before after = All (λ r. Any (IsSuccessor r) after) before

abbrev pub IsFit : Rows → Type 0
IsFit rows = All (λ r. fits_table r ≡ true) rows

IsSuccessor-refl : (m : EntityMigration) → IsSuccessor m m
IsSuccessor-refl m = record {
  same_id = refl;
  same_scope = refl;
  same_subject = refl;
  same_from = refl;
  same_to = refl;
  same_reason = refl;
  same_proposer = refl;
  same_instant = refl;
  link_stays = λ e h. h;
  over_stays = λ h. refl;
}

IsSuccessor-trans : (a b c : EntityMigration) → IsSuccessor a b → IsSuccessor b c → IsSuccessor a c
IsSuccessor-trans a b c h k = record {
  same_id = k.same_id ∙ h.same_id;
  same_scope = k.same_scope ∙ h.same_scope;
  same_subject = k.same_subject ∙ h.same_subject;
  same_from = k.same_from ∙ h.same_from;
  same_to = k.same_to ∙ h.same_to;
  same_reason = k.same_reason ∙ h.same_reason;
  same_proposer = k.same_proposer ∙ h.same_proposer;
  same_instant = k.same_instant ∙ h.same_instant;
  link_stays = λ e l. k.link_stays e (h.link_stays e l);
  over_stays = λ over.
      let same = h.over_stays over in
      k.over_stays (ap (λ m. is_terminal_migration_status m.status) same ∙ over) ∙ same;
}

pub IsKept-refl : (rows : Rows) → IsKept rows rows
IsKept-refl rows =
    All-mono _ _
      (λ r m. Any-mono _ _ (λ s e. subst (IsSuccessor r) (sym e) (IsSuccessor-refl r)) rows m) rows
      (All-self rows)

pub IsKept-trans : (a b c : Rows) → IsKept a b → IsKept b c → IsKept a c
IsKept-trans a b c h k =
    All-mono _ _
      (λ r m.
        Any-in _ _ (λ s old k. Any-mono _ _ (λ t new. IsSuccessor-trans r s t old new) c k) b m k)
      a h

kept_link :
    (old given : Option String)
    → keeps_link old (given_or given old) ≡ true
    → (e : String) → old ≡ some e
    → given_or given old ≡ some e
kept_link none given h e k = cc
kept_link (some a) none h e k = k
kept_link (some a) (some b) h e k = ap some ((eq_iff b a).0 h) ∙ k

-- An update that the trigger admits_advance.
admitted-IsSuccessor :
    (to : EntityMigrationStatus) (fields : AdvanceFields) (m : EntityMigration)
    → admits_advance to fields m ≡ true
    → IsSuccessor m (advanced_row to fields m)
unfolding admits_advance guard_admits
admitted-IsSuccessor to fields m h = record {
  same_id = refl;
  same_scope = refl;
  same_subject = refl;
  same_from = refl;
  same_to = refl;
  same_reason = refl;
  same_proposer = refl;
  same_instant = refl;
  link_stays =
      kept_link m.reconsent_evaluation_id fields.reconsent_evaluation_id (ground (arith, h));
  over_stays = λ over. ground (arith, h, over);
}

IsKept-later :
    (m : EntityMigration) (before after : Rows) → IsKept before after → IsKept before (m ∷ after)
IsKept-later m before after h =
    All-mono (λ r. Any (IsSuccessor r) after) (λ r. Any (IsSuccessor r) (m ∷ after)) (λ r k. inr k)
      before h

update_where-IsKept :
    (test : EntityMigration → Bool) (change : EntityMigration → EntityMigration) (rows : Rows)
    → All (λ r. test r ≡ true → IsSuccessor r (change r)) rows
    → IsKept rows (update_where test change rows)
unfolding update_where
update_where-IsKept test change [] h = tt
update_where-IsKept test change (r ∷ rows) h =
    let rest = update_where-IsKept test change rows h.1 in
    elim (Bool-cases (test r)) [
      | inl e ↦ rw e (inl (h.0 e), IsKept-later _ rows _ rest)
      | inr e ↦ rw e (inl (IsSuccessor-refl r), IsKept-later _ rows _ rest)
    ]

-- Where the update is taken, each row that it changes is admitted.
any-admits_advance :
    (id : String) (to : EntityMigrationStatus) (fields : AdvanceFields) (rows : Rows)
    → any (λ r. same_text r.id id && not (admits_advance to fields r)) rows ≡ false
    → All (λ r. same_text r.id id ≡ true → admits_advance to fields r ≡ true) rows
any-admits_advance id to fields [] h = tt
any-admits_advance id to fields (r ∷ rows) h =
    ((λ k. ground (arith, h, k)), any-admits_advance id to fields rows (ground (arith, h)))

-- What an update that is taken gives.
pub advance_taken :
    (id : String) (to : EntityMigrationStatus) (fields : AdvanceFields) (rows after : Rows)
    → advance id to fields rows ≡ some after
    → All (λ r. same_text r.id id ≡ true → admits_advance to fields r ≡ true) rows
      × (after ≡ update_where (λ r. same_text r.id id) (advanced_row to fields) rows)
unfolding advance
advance_taken id to fields rows after h =
    (any-admits_advance id to fields rows (ground (arith, h)), ground (arith, h))

-- What a step keeps: the rows that were, and the constraints.
abbrev pub IsPreserved : (before after : Rows) → Type 0
IsPreserved before after = IsKept before after × (IsFit before → IsFit after)

pub advance-IsPreserved :
    (id : String) (to : EntityMigrationStatus) (fields : AdvanceFields) (rows after : Rows)
    → advance id to fields rows ≡ some after
    → IsPreserved rows after
unfolding admits_advance
advance-IsPreserved id to fields rows after h =
    let (taken, same) = advance_taken id to fields rows after h in
    subst (IsPreserved rows) (sym same) (
      update_where-IsKept _ _ rows
          (All-mono _ _ (λ r f k. admitted-IsSuccessor to fields r (f k)) rows taken),
      (λ fit.
          update_where-All
            (λ r.
              (fits_table r ≡ true)
              × (same_text r.id id ≡ true → admits_advance to fields r ≡ true))
            (λ r. fits_table r ≡ true) _ _ (λ r e k. ground (arith, k.1 e)) (λ r e k. k.0) rows
            (All-both _ _ _ (λ r f t. (f, t)) rows fit taken)),
    )

pub insert-IsPreserved :
    (has_entity : String → Bool) (m : EntityMigration) (rows after : Rows)
    → insert has_entity m rows ≡ some after
    → IsPreserved rows after
unfolding insert
insert-IsPreserved has_entity m rows after h =
    let fit : fits_table m ≡ true = ground (arith, h) in
    let same : after ≡ m ∷ rows = ground (arith, h) in
    subst (IsPreserved rows) (sym same)
      (IsKept-later m rows rows (IsKept-refl rows), (λ k. (fit, k)))
