-- ===== src/Policy/Lifecycle.antt =====
-- packages/jurisdiction-policy/src/lifecycle.ts: which packs may become operative, and which may
-- still govern a historical record. The texts of the denial messages are left out.
pub mod Evidence
use karar_flutter_version.Prelude.{
  String, Bool, true, false, Option, none, some, List, [], ◌∷◌, is_blank, if◌then◌else◌,
}
use karar_flutter_version.Policy.Pack.{PolicyEnvironment, PackLifecycle, PolicyPack}

pub data ActivationDenialReason : Type 0 where
  lifecycle_not_activatable : PackLifecycle → PolicyEnvironment → ActivationDenialReason
  approval_evidence_missing : ActivationDenialReason

pub data ActivationDecision : Type 0 where
  allowed : ActivationDecision
  denied : List ActivationDenialReason → ActivationDecision

-- `approvalReference === null || approvalReference.trim() === ''`
unfoldable pub lacks_evidence : Option String → Bool
lacks_evidence none = true
lacks_evidence (some reference) = is_blank reference

is_local : PolicyEnvironment → Bool
is_local PolicyEnvironment.local = true
is_local _ = false

with_evidence : Option String → ActivationDecision
with_evidence approval_reference =
    if lacks_evidence approval_reference then denied (approval_evidence_missing ∷ []) else allowed

activate : PackLifecycle → Option String → PolicyEnvironment → ActivationDecision
unfolding with_evidence is_local
activate PackLifecycle.retired reference environment =
    denied (lifecycle_not_activatable PackLifecycle.retired environment ∷ [])
activate PackLifecycle.approved reference environment = with_evidence reference
activate lifecycle reference environment =
    if is_local environment
    then allowed
    else denied (lifecycle_not_activatable lifecycle environment ∷ [])

pub can_activate : PolicyPack → PolicyEnvironment → ActivationDecision
unfolding activate
can_activate pack environment = activate pack.lifecycle pack.approval_reference environment

resolve_version : PackLifecycle → Option String → PolicyEnvironment → ActivationDecision
unfolding with_evidence is_local activate
resolve_version PackLifecycle.retired reference environment =
    if is_local environment then allowed else with_evidence reference
resolve_version lifecycle reference environment = activate lifecycle reference environment

pub can_resolve_explicit_version : PolicyPack → PolicyEnvironment → ActivationDecision
unfolding resolve_version
can_resolve_explicit_version pack environment =
    resolve_version pack.lifecycle pack.approval_reference environment
