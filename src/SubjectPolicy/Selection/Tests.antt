-- ===== src/SubjectPolicy/Selection/Tests.antt =====
-- The theorems on selections at a concrete history.
use karar_flutter_version.Prelude.{◌≡◌, refl, none, some, List, [], ◌∷◌, Any}
use karar_flutter_version.SubjectPolicy.Selection.{
  SelectionStatus, SubjectPolicySelection, SelectionAtInstant, withdrawn_by, was_withdrawn_by,
  text_after, keep_expired, ran_out, expired_row, no_effective, select_among, resolve_selection_at,
}
use karar_flutter_version.SubjectPolicy.Selection.Governing.{
  Bears, Stands, YieldsTo, RanOut, resolve_selection_at_effective, resolve_selection_at_expired,
}

abbrev elected : SubjectPolicySelection
elected = record {
  id = "s1";
  user_id = "u";
  tenant_id = "t";
  capability_id = "TEST_SYNTH";
  profile_ref = "profile";
  profile_version = "1";
  jurisdiction_ref = "zz";
  policy_pack_version = "v1";
  effective_from = 100;
  effective_to = some 500;
  status = SelectionStatus.superseded;
  selection_source = "SUBJECT";
  recorded_by = "u";
  profile_snapshot_hash = none;
  withdrawn_at = none;
}

abbrev elected_later : SubjectPolicySelection
elected_later = record elected { id = "s2"; profile_version = "2"; status = SelectionStatus.active }

abbrev elections : List SubjectPolicySelection
elections = elected ∷ elected_later ∷ []

abbrev newer : SubjectPolicySelection
newer = record elected { id = "s0"; effective_from = 200; status = SelectionStatus.active }

abbrev newer_same_instant : SubjectPolicySelection
newer_same_instant = record newer { id = "s00" }

-- The greatest id is that of the election that took effect first.
abbrev history : List SubjectPolicySelection
history = newer ∷ elected ∷ newer_same_instant ∷ []

in_window : resolve_selection_at history 300 ≡ SelectionAtInstant.effective newer_same_instant
unfolding resolve_selection_at select_among was_withdrawn_by withdrawn_by text_after
in_window = refl

resolve_selection_at_effective_example :
    Any (λ x. x ≡ newer_same_instant) history
    × Bears 300 newer_same_instant
    × Stands 300 newer_same_instant
    × ((c : SubjectPolicySelection)
        → Any (λ x. x ≡ c) history
        → Bears 300 c
        → YieldsTo c newer_same_instant)
resolve_selection_at_effective_example =
    resolve_selection_at_effective history 300 newer_same_instant in_window

past_window : resolve_selection_at elections 600 ≡ SelectionAtInstant.expired "s2" 500
unfolding resolve_selection_at select_among was_withdrawn_by withdrawn_by text_after expired_row
    keep_expired ran_out no_effective
past_window = refl

resolve_selection_at_expired_example :
    ((c : SubjectPolicySelection) → Any (λ x. x ≡ c) elections → ¬ Bears 600 c)
    × ((row : SubjectPolicySelection) × Any (λ x. x ≡ row) elections
        × (row.id ≡ "s2")
        × RanOut 600 500 row)
resolve_selection_at_expired_example =
    resolve_selection_at_expired elections 600 "s2" 500 past_window
