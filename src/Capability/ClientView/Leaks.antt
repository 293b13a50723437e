-- ===== src/Capability/ClientView/Leaks.antt =====
-- What a client can and cannot learn from the projection.
use karar_flutter_version.Prelude.{
  Bool, true, false, String, ◌≡◌, ap, ◌⊎◌, inl, inr, ◌↔◌, Option, none, some, List, [], ◌∷◌, Any,
  arith, includes,
}
use karar_flutter_version.Capability.DenialReason.{
  DenialReason, DenialReason-discrete, client_reason_for, hidden_denial_reasons,
}
use karar_flutter_version.Capability.Resolution.{CapabilityResolution, Outcome, GateName}
use karar_flutter_version.Capability.ClientView.{
  Exposed, available, unavailable, ClientCapabilityEntry, ClientExposureFacts, shown, expose,
  entry_for, to_client_view, push,
}

-- The reason invites an action, or is a pending provider that the descriptor lets be explained.
abbrev pub IsTellable : DenialReason → Bool → Type 0
IsTellable reason explainable =
    (reason ≡ DenialReason.consent_required)
    ⊎ (reason ≡ DenialReason.reconsent_required)
    ⊎ (reason ≡ DenialReason.entitlement_missing)
    ⊎ (reason ≡ DenialReason.entitlement_expired)
    ⊎ ((reason ≡ DenialReason.pending_provider) × (explainable ≡ true))

pub client_reason_for_iff :
    (reason told : DenialReason) (explainable : Bool)
    → (client_reason_for reason explainable ≡ some told)
      ↔ ((told ≡ reason) × IsTellable reason explainable)
unfolding client_reason_for
client_reason_for_iff DenialReason.not_implemented told explainable = ground arith
client_reason_for_iff _ told explainable = ground arith

-- No reason on the hidden list is ever told, whatever the descriptor lets be explained.
pub client_reason_hidden :
    (reason : DenialReason) (explainable : Bool)
    → includes DenialReason-discrete hidden_denial_reasons reason ≡ true
    → client_reason_for reason explainable ≡ none
unfolding client_reason_for hidden_denial_reasons
client_reason_hidden DenialReason.not_implemented explainable h = ground arith
client_reason_hidden _ explainable h = ground arith

-- What the client learns from an entry is true of a resolution.
abbrev pub Tells : Exposed → Outcome → Bool → Type 0
Tells (available state) outcome explainable = outcome ≡ Outcome.allowed state
Tells (unavailable told) outcome explainable =
    (gate : GateName) × (outcome ≡ Outcome.denied gate told) × IsTellable told explainable

abbrev pub IsShown :
    (String → ClientExposureFacts) → ClientCapabilityEntry → CapabilityResolution → Type 0
IsShown exposure_for e r =
    ((exposure_for r.capability_id).hidden ≡ false)
    × (e.capability_id ≡ r.capability_id)
    × Tells e.exposed r.outcome (exposure_for r.capability_id).provider_pending_explainable

eq_unavailable :
    (o : Option DenialReason) (told : DenialReason)
    → (◌≡◌ {A = Option Exposed}
        (elim o [ none ↦ none | some r ↦ some (unavailable r) ])
        (some (unavailable told)))
      ↔ (o ≡ some told)
eq_unavailable none told = ground arith
eq_unavailable (some r) told = ground arith

shown_iff :
    (o : Outcome) (explainable : Bool) (x : Exposed)
    → (shown o explainable ≡ some x) ↔ Tells x o explainable
unfolding shown
shown_iff (Outcome.allowed s) explainable (available t) = ground arith
shown_iff (Outcome.allowed s) explainable (unavailable told) =
    (λ h. ground arith, λ (g, e, t). ground arith)
shown_iff (Outcome.denied g reason) explainable (available t) = ground arith
shown_iff (Outcome.denied g reason) explainable (unavailable told) =
    let told_iff = client_reason_for_iff reason told explainable in
    let same = eq_unavailable (client_reason_for reason explainable) told in
    (
      λ h. let (e, t) = told_iff.0 (same.0 h) in (g, ground (arith, e), rw e t),
      λ (gate, e, t). same.1 (told_iff.1 (ground (arith, e), ground (arith, e, t))),
    )

expose_iff :
    (hidden : Bool) (id : String) (x : Option Exposed) (e : ClientCapabilityEntry)
    → (expose hidden id x ≡ some e)
      ↔ ((hidden ≡ false) × (e.capability_id ≡ id) × (x ≡ some e.exposed))
unfolding expose
expose_iff true id x e = ground arith
expose_iff false id none e = ground arith
expose_iff false id (some y) e = ground arith

entry_for_iff :
    (exposure_for : String → ClientExposureFacts) (r : CapabilityResolution)
    (e : ClientCapabilityEntry)
    → (entry_for exposure_for r ≡ some e) ↔ IsShown exposure_for e r
unfolding entry_for
entry_for_iff exposure_for r e =
    let exposure = exposure_for r.capability_id in
    let law = shown_iff r.outcome exposure.provider_pending_explainable e.exposed in
    let wrap =
      expose_iff exposure.hidden r.capability_id
        (shown r.outcome exposure.provider_pending_explainable) e in
    (λ h. let (a, b, c) = wrap.0 h in (a, b, law.0 c), λ (a, b, c). wrap.1 (a, b, law.1 c))

Any-push :
    (o : Option ClientCapabilityEntry) (es : List ClientCapabilityEntry) (e : ClientCapabilityEntry)
    → Any (λ x. x ≡ e) (push o es) ↔ ((o ≡ some e) ⊎ Any (λ x. x ≡ e) es)
Any-push none es e = (inr, λ h. elim h [ inl x ↦ ground (arith, x) | inr y ↦ y ])
Any-push (some x) es e = (
  λ h. elim h [ inl p ↦ inl (ap some p) | inr y ↦ inr y ],
  λ h. elim h [ inl p ↦ inl (ground (arith, p)) | inr y ↦ inr y ],
)

-- An entry stands in the client's view exactly when it tells the truth about one of the
-- resolutions, whose capability is not hidden: that it is allowed, in that state, or that it was
-- denied for that reason, and the reason is one that may be told.
pub to_client_view_iff :
    (exposure_for : String → ClientExposureFacts) (rs : List CapabilityResolution)
    (e : ClientCapabilityEntry)
    → Any (λ x. x ≡ e) (to_client_view rs exposure_for) ↔ Any (IsShown exposure_for e) rs
unfolding to_client_view
to_client_view_iff exposure_for [] e = (λ h. h, λ h. h)
to_client_view_iff exposure_for (r ∷ rs) e =
    let ih = to_client_view_iff exposure_for rs e in
    let law = entry_for_iff exposure_for r e in
    let put = Any-push (entry_for exposure_for r) (to_client_view rs exposure_for) e in
    (
      λ h. elim (put.0 h) [ inl here ↦ inl (law.0 here) | inr there ↦ inr (ih.0 there) ],
      λ h. put.1 (elim h [ inl here ↦ inl (law.1 here) | inr there ↦ inr (ih.1 there) ]),
    )
