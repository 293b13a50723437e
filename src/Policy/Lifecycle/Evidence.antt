-- ===== src/Policy/Lifecycle/Evidence.antt =====
-- Which packs the life cycle lets govern: approval is its evidence, not the field that claims it.
use karar_flutter_version.Prelude.{
  String, ◌≡◌, refl, false, ◌⊎◌, ◌↔◌, Option, none, some, is_blank, arith,
}
use karar_flutter_version.Policy.Pack.{PolicyEnvironment, PackLifecycle, PolicyPack}
use karar_flutter_version.Policy.Lifecycle.{
  allowed, lacks_evidence, is_local, with_evidence, activate, can_activate, resolve_version,
  can_resolve_explicit_version,
}

-- There is an approval reference that is not blank.
abbrev pub HasEvidence : Option String → Type 0
HasEvidence o = (reference : String) × (o ≡ some reference) × (is_blank reference ≡ false)

with_evidence_iff : (o : Option String) → (with_evidence o ≡ allowed) ↔ HasEvidence o
unfolding with_evidence lacks_evidence
with_evidence_iff none = (λ h. ground arith, λ (r, e, b). ground arith)
with_evidence_iff (some reference) =
    (λ h. (reference, refl, ground arith), λ (r, e, b). ground (arith, e, b))

-- An unapproved pack that is not retired, in local development.
abbrev pub IsLocalDraft : PackLifecycle → PolicyEnvironment → Type 0
IsLocalDraft lifecycle environment =
    (environment ≡ PolicyEnvironment.local)
    × ((lifecycle ≡ PackLifecycle.draft) ⊎ (lifecycle ≡ PackLifecycle.pending_legal_review))

activate_iff :
    (l : PackLifecycle) (o : Option String) (env : PolicyEnvironment)
    → (activate l o env ≡ allowed)
      ↔ (((l ≡ PackLifecycle.approved) × HasEvidence o) ⊎ IsLocalDraft l env)
unfolding activate is_local
activate_iff PackLifecycle.retired o env = ground arith
activate_iff PackLifecycle.approved o env = ground (arith, with_evidence_iff o)
activate_iff PackLifecycle.draft o env = ground arith
activate_iff PackLifecycle.pending_legal_review o env = ground arith

-- A pack may become operative exactly when it is approved with evidence, or is a draft or a pending
-- pack in local development; a retired pack never may.
pub can_activate_iff :
    (pack : PolicyPack) (env : PolicyEnvironment)
    → (can_activate pack env ≡ allowed) ↔ (
        ((pack.lifecycle ≡ PackLifecycle.approved) × HasEvidence pack.approval_reference)
        ⊎ IsLocalDraft pack.lifecycle env)
unfolding can_activate
can_activate_iff pack env = activate_iff pack.lifecycle pack.approval_reference env

resolve_version_iff :
    (l : PackLifecycle) (o : Option String) (env : PolicyEnvironment)
    → (resolve_version l o env ≡ allowed) ↔ (
        (activate l o env ≡ allowed)
        ⊎ ((l ≡ PackLifecycle.retired) × ((env ≡ PolicyEnvironment.local) ⊎ HasEvidence o)))
unfolding resolve_version is_local
resolve_version_iff PackLifecycle.retired o env = ground (arith, with_evidence_iff o)
resolve_version_iff _ o env = ground arith

-- A historical record may still resolve against a version exactly when the version may become
-- operative, or is retired and either was approved with evidence or is read in local development.
pub can_resolve_explicit_version_iff :
    (pack : PolicyPack) (env : PolicyEnvironment)
    → (can_resolve_explicit_version pack env ≡ allowed) ↔ (
        (can_activate pack env ≡ allowed)
        ⊎ ((pack.lifecycle ≡ PackLifecycle.retired)
            × ((env ≡ PolicyEnvironment.local) ⊎ HasEvidence pack.approval_reference)))
unfolding can_resolve_explicit_version can_activate
can_resolve_explicit_version_iff pack env =
    resolve_version_iff pack.lifecycle pack.approval_reference env
