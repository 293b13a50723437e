-- ===== src/Identity/Switched.antt =====
-- A switch of tenant replaces the session, or leaves the store as it was.
use karar_flutter_version.Prelude.{
  String, ◌≡◌, refl, sym, ap, ◌⊎◌, inl, inr, Bool, true, false, Option, none, some, ◌∷◌,
  if◌then◌else◌, Result, ok, err, arith,
}
use mathlib.Core.Path.{subst}
use karar_flutter_version.Identity.Session.{
  Session, IdentityAccount, NewSessionBundle, is_active_account, is_session_live, mint,
}
use karar_flutter_version.Identity.Store.{SessionStore, RebindOutcome, rebind_session, find_session}
use karar_flutter_version.Identity.Steps.{rebind_session-some}
use karar_flutter_version.Identity.Binding.{
  RecordedState, recorded, RebindDeps, RebindInput, RebindSessionTenantError, SessionTenantRebound,
  after_rebind, rebind_bound, rebind_found, rebind_account, rebind_session_tenant,
}
use karar_flutter_version.Identity.Replaced.{IsSwitched, rebound-IsSwitched}

-- The errors that are thrown when the transaction has committed.
abbrev pub IsLate : RebindSessionTenantError → Type 0
IsLate e =
    (e ≡ RebindSessionTenantError.dependency_unavailable)
    ⊎ (e ≡ RebindSessionTenantError.failed_signing)

-- The new session has the binding asked for and is in the store in place of the old one.
abbrev pub HasSwitched : RebindInput → NewSessionBundle → SessionStore → Type 0
HasSwitched input bundle s =
    (bundle.session.tenant_binding ≡ input.new_tenant_id)
    × IsSwitched input.account_id input.session_id bundle s

-- What a switch of tenant answers and leaves: the new session, with an entry in the ledger and in the
-- audit trail; or an error of before the commit, and the store as the request or its transaction found
-- it; or an error of after it, and the session switched.
abbrev pub SwitchedOrSame :
    RebindInput
    → (before : RecordedState) → (between : SessionStore)
    → RecordedState × Result SessionTenantRebound RebindSessionTenantError
    → Type 0
SwitchedOrSame input before between (after, result) =
    ((x : SessionTenantRebound) × (result ≡ ok x)
      × HasSwitched input x.bundle after.store
      × (after.ledger ≡ (input.account_id, "session_tenant_rebound") ∷ before.ledger)
      × (after.audit ≡ (input.account_id, "identity.session.tenant_rebound") ∷ before.audit))
    ⊎ (((e : RebindSessionTenantError) × (result ≡ err e)
          × (¬ IsLate e)
          × ((after.store ≡ before.store) ⊎ (after.store ≡ between))
          × (after.ledger ≡ before.ledger)
          × (after.audit ≡ before.audit))
        ⊎ ((e : RebindSessionTenantError) × (result ≡ err e)
            × IsLate e
            × (bundle : NewSessionBundle) × HasSwitched input bundle after.store))

-- What follows the commit of a switch.
recorded-switched :
    (deps : RebindDeps) (input : RebindInput) (before : RecordedState)
    (between store : SessionStore) (x : SessionTenantRebound)
    → HasSwitched input x.bundle store
    → SwitchedOrSame input before between (
        recorded deps.recorders input.account_id "session_tenant_rebound"
          "identity.session.tenant_rebound" RebindSessionTenantError.dependency_unavailable
          (record before { store = store })
          (if deps.can_sign then ok x else err RebindSessionTenantError.failed_signing))
unfolding recorded
recorded-switched deps input before between store x switched =
    by_test deps.recorders.ledger_takes deps.recorders.audit_takes deps.can_sign
  where
    by_test :
        (ledger audit sign : Bool)
        → SwitchedOrSame input before between (
            recorded
              (record { ledger_takes = ledger; audit_takes = audit })
              input.account_id
              "session_tenant_rebound"
              "identity.session.tenant_rebound"
              RebindSessionTenantError.dependency_unavailable
              (record before { store = store })
              (if sign then ok x else err RebindSessionTenantError.failed_signing))
    by_test false audit sign =
        inr (
          inr (RebindSessionTenantError.dependency_unavailable, refl, inl refl, x.bundle, switched))
    by_test true false sign =
        inr (
          inr (RebindSessionTenantError.dependency_unavailable, refl, inl refl, x.bundle, switched))
    by_test true true false =
        inr (inr (RebindSessionTenantError.failed_signing, refl, inr refl, x.bundle, switched))
    by_test true true true = inl (x, refl, switched, refl, refl)

abbrev is_late : RebindSessionTenantError → Bool
is_late RebindSessionTenantError.dependency_unavailable = true
is_late RebindSessionTenantError.failed_signing = true
is_late _ = false

early : (e : RebindSessionTenantError) → is_late e ≡ false → ¬ IsLate e
early e h late = elim late [
  | inl same ↦ let k = ap is_late same in ground (arith, h, k)
  | inr same ↦ let k = ap is_late same in ground (arith, h, k)
]

-- An error of before the commit.
refused-switched :
    (input : RebindInput) (before : RecordedState) (between store : SessionStore)
    (e : RebindSessionTenantError)
    → is_late e ≡ false
    → (store ≡ before.store) ⊎ (store ≡ between)
    → SwitchedOrSame input before between (record before { store = store }, err e)
refused-switched input before between store e soon same =
    inr (inl (e, refl, early e soon, same, refl, refl))

minted-switched :
    (deps : RebindDeps) (input : RebindInput) (account : IdentityAccount) (state : RecordedState)
    (previous : String) (o : Option (SessionStore × RebindOutcome))
    → let bundle =
        mint deps.policy deps.fresh_ids deps.minted_at account input.client input.new_tenant_id in
      rebind_session input.account_id input.session_id "tenant_switch" bundle deps.now
          (deps.meanwhile state.store)
        ≡ o
      → SwitchedOrSame input state (deps.meanwhile state.store) (
          after_rebind deps input bundle previous
            (record state { store = deps.meanwhile state.store })
            o)
unfolding after_rebind mint
minted-switched deps input account state previous none e =
    refused-switched input state _ _ RebindSessionTenantError.failed_rebind refl (inr refl)
minted-switched deps input account state previous (some (t, RebindOutcome.stale_session)) e =
    let m = deps.meanwhile state.store in
    let bundle =
      mint deps.policy deps.fresh_ids deps.minted_at account input.client input.new_tenant_id in
    elim (rebind_session-some input.account_id input.session_id "tenant_switch" bundle deps.now m t
      RebindOutcome.stale_session e) [
        | inl (same, _) ↦
            refused-switched input state m t RebindSessionTenantError.rebind_conflict refl
              (inr (sym same))
        | inr (fits, same, not_so, live) ↦ cc
      ]
minted-switched deps input account state previous (some (t, RebindOutcome.rebound)) e =
    let m = deps.meanwhile state.store in
    let bundle =
      mint deps.policy deps.fresh_ids deps.minted_at account input.client input.new_tenant_id in
    elim (rebind_session-some input.account_id input.session_id "tenant_switch" bundle deps.now m t
      RebindOutcome.rebound e) [
        | inl (same, not_so) ↦ cc
        | inr (fits, same, _, live) ↦
            recorded-switched deps input state m t
              (record {
                bundle = bundle;
                previous_binding = previous;
                new_binding = input.new_tenant_id;
              })
              (
                refl,
                subst (IsSwitched input.account_id input.session_id bundle) same (
                    rebound-IsSwitched input.account_id input.session_id "tenant_switch" bundle
                      deps.now m refl fits live),
              )
      ]

rebind_bound-switched :
    (deps : RebindDeps) (input : RebindInput) (account : IdentityAccount) (state : RecordedState)
    (binding : Option String)
    → SwitchedOrSame input state
        (deps.meanwhile state.store)
        (rebind_bound deps input account state binding)
unfolding rebind_bound
rebind_bound-switched deps input account state none =
    refused-switched input state _ _ RebindSessionTenantError.not_bound refl (inl refl)
rebind_bound-switched deps input account state (some previous) =
    minted-switched deps input account state previous _ refl

rebind_found-switched :
    (deps : RebindDeps) (input : RebindInput) (account : IdentityAccount) (state : RecordedState)
    (session : Option Session)
    → SwitchedOrSame input state
        (deps.meanwhile state.store)
        (rebind_found deps input account state session)
unfolding rebind_found
rebind_found-switched deps input account state none =
    refused-switched input state _ _ RebindSessionTenantError.session_not_found refl (inl refl)
rebind_found-switched deps input account state (some session) =
    by_test (is_session_live session deps.now)
  where
    by_test :
        (live : Bool)
        → SwitchedOrSame input state (deps.meanwhile state.store) (
            if live
            then rebind_bound deps input account state session.tenant_binding
            else (state, err RebindSessionTenantError.session_not_found))
    by_test true = rebind_bound-switched deps input account state session.tenant_binding
    by_test false =
        refused-switched input state _ _ RebindSessionTenantError.session_not_found refl (inl refl)

rebind_account-switched :
    (deps : RebindDeps) (input : RebindInput) (state : RecordedState)
    (account : Option IdentityAccount)
    → SwitchedOrSame input state
        (deps.meanwhile state.store)
        (rebind_account deps input state account)
unfolding rebind_account
rebind_account-switched deps input state none =
    refused-switched input state _ _ RebindSessionTenantError.account_not_active refl (inl refl)
rebind_account-switched deps input state (some account) = by_test (is_active_account account.status)
  where
    by_test :
        (live : Bool)
        → SwitchedOrSame input state (deps.meanwhile state.store) (
            if live
            then rebind_found deps input account state
                (find_session input.account_id input.session_id state.store)
            else (state, err RebindSessionTenantError.account_not_active))
    by_test true = rebind_found-switched deps input account state _
    by_test false =
        refused-switched input state _ _ RebindSessionTenantError.account_not_active refl (inl refl)

-- A switch of tenant is all or nothing in the store, and what it answers tells which. It gives a new
-- session, which has the binding asked for and is in the store while neither the old session nor a
-- refresh-token family of it is live, and the ledger and the audit trail have an entry more; or it
-- gives an error other than an unavailable dependency or a failed signature, and the store is as the
-- request, or its transaction, found it, and nothing is recorded; or it gives one of those two, and the
-- store has such a new session all the same.
pub rebind_session_tenant-switched :
    (deps : RebindDeps) (input : RebindInput) (state : RecordedState)
    → SwitchedOrSame input state
        (deps.meanwhile state.store)
        (rebind_session_tenant deps input state)
unfolding rebind_session_tenant
rebind_session_tenant-switched deps input state =
    rebind_account-switched deps input state (deps.find_account input.account_id)
