-- ===== src/Jurisdiction/Assignment.antt =====
-- modules/jurisdiction/domain/assignment.ts: assignments as effective-dated rows.
pub mod Effective
mod Tests
use karar_flutter_version.Prelude.{
  ℕ, String, Bool, true, false, Option, none, some, List, [], ◌∷◌, filter, ltb, window_covers, best,
  if◌then◌else◌,
}

pub data AssignmentSource : Type 0 where
  user_declared provider_verified operator_assigned contract_derived : AssignmentSource

pub data VerificationStatus : Type 0 where
  unverified verified : VerificationStatus

pub record UserJurisdictionAssignment : Type 0 where
  pub id : String
  pub user_id : String
  pub tenant_id : String
  pub jurisdiction_code : String
  pub source : AssignmentSource
  pub verification_status : VerificationStatus
  pub effective_from : ℕ
  pub effective_to : Option ℕ
  pub reason : String
  pub assigned_by : String
  pub created_at : ℕ

pub verification_permitted_for_source : AssignmentSource → VerificationStatus → Bool
verification_permitted_for_source AssignmentSource.user_declared VerificationStatus.unverified =
    true
verification_permitted_for_source AssignmentSource.user_declared VerificationStatus.verified = false
verification_permitted_for_source AssignmentSource.provider_verified VerificationStatus.unverified =
    false
verification_permitted_for_source AssignmentSource.provider_verified VerificationStatus.verified =
    true
verification_permitted_for_source AssignmentSource.operator_assigned status = true
verification_permitted_for_source AssignmentSource.contract_derived status = true

abbrev pub assignment_active_at : UserJurisdictionAssignment → ℕ → Bool
assignment_active_at assignment at =
    window_covers assignment.effective_from assignment.effective_to at

abbrev pub starts_later : UserJurisdictionAssignment → UserJurisdictionAssignment → Bool
starts_later candidate latest = ltb latest.effective_from candidate.effective_from

-- `covering.reduce(...)`, which the source calls on a list that is not empty.
latest_of : List UserJurisdictionAssignment → Option UserJurisdictionAssignment
latest_of [] = none
latest_of (a ∷ rest) = some (best starts_later a rest)

pub pick_effective_assignment :
    List UserJurisdictionAssignment → ℕ → Option UserJurisdictionAssignment
unfolding latest_of
pick_effective_assignment assignments at =
    latest_of (filter (λ a. assignment_active_at a at) assignments)

pub data EffectiveJurisdictionState : Type 0 where
  no_assignment : EffectiveJurisdictionState
  unverified : UserJurisdictionAssignment → EffectiveJurisdictionState
  verified : UserJurisdictionAssignment → EffectiveJurisdictionState

state_of : VerificationStatus → UserJurisdictionAssignment → EffectiveJurisdictionState
state_of VerificationStatus.verified a = EffectiveJurisdictionState.verified a
state_of VerificationStatus.unverified a = EffectiveJurisdictionState.unverified a

state_of_picked : Option UserJurisdictionAssignment → EffectiveJurisdictionState
unfolding state_of
state_of_picked none = no_assignment
state_of_picked (some a) = state_of a.verification_status a

pub effective_jurisdiction_state : List UserJurisdictionAssignment → ℕ → EffectiveJurisdictionState
unfolding state_of_picked
effective_jurisdiction_state assignments at =
    state_of_picked (pick_effective_assignment assignments at)
