-- ===== src/Jurisdiction/Assignment/Tests.antt =====
-- The theorems on assignments at a concrete history.
use karar_flutter_version.Prelude.{◌≤◌, ◌≡◌, ◌≢◌, refl, true, none, some, List, [], ◌∷◌, Any, All}
use karar_flutter_version.Jurisdiction.Assignment.{
  AssignmentSource, VerificationStatus, UserJurisdictionAssignment,
  verification_permitted_for_source, latest_of, pick_effective_assignment,
  EffectiveJurisdictionState, state_of, state_of_picked, effective_jurisdiction_state,
}
use karar_flutter_version.Jurisdiction.Assignment.Effective.{
  IsActive, pick_effective_assignment-some, effective_jurisdiction_state_verified,
}

abbrev declared : UserJurisdictionAssignment
declared = record {
  id = "a1";
  user_id = "u";
  tenant_id = "t";
  jurisdiction_code = "zz";
  source = AssignmentSource.user_declared;
  verification_status = VerificationStatus.unverified;
  effective_from = 100;
  effective_to = none;
  reason = "sign-up";
  assigned_by = "u";
  created_at = 100;
}

abbrev verified_row : UserJurisdictionAssignment
verified_row = record declared {
  id = "a2";
  source = AssignmentSource.provider_verified;
  verification_status = VerificationStatus.verified;
  effective_from = 200;
}

abbrev history : List UserJurisdictionAssignment
history = declared ∷ verified_row ∷ []

picked : pick_effective_assignment history 300 ≡ some verified_row
unfolding pick_effective_assignment latest_of
picked = refl

pick_effective_assignment-some_example :
    Any (λ x. x ≡ verified_row) history
    × IsActive 300 verified_row
    × ((c : UserJurisdictionAssignment)
        → Any (λ x. x ≡ c) history
        → IsActive 300 c
        → c.effective_from ≤ 200)
pick_effective_assignment-some_example =
    pick_effective_assignment-some history 300 verified_row picked

history_permitted :
    All (λ r. verification_permitted_for_source r.source r.verification_status ≡ true) history
unfolding verification_permitted_for_source
history_permitted = (refl, (refl, tt))

verified_state :
    effective_jurisdiction_state history 300 ≡ EffectiveJurisdictionState.verified verified_row
unfolding effective_jurisdiction_state pick_effective_assignment latest_of state_of_picked state_of
verified_state = refl

effective_jurisdiction_state_verified_example :
    Any (λ x. x ≡ verified_row) history
    × IsActive 300 verified_row
    × (verified_row.verification_status ≡ VerificationStatus.verified)
    × (verified_row.source ≢ AssignmentSource.user_declared)
effective_jurisdiction_state_verified_example =
    effective_jurisdiction_state_verified history 300 verified_row history_permitted verified_state
