-- ===== src/Identity/Replaced.antt =====
-- What a rebind of a session leaves in the store: the new session in place of the old one.
use karar_flutter_version.Prelude.{
  ℕ, String, ◌≡◌, ◌≢◌, refl, ap, ◌∙◌, inl, inr, Bool-cases, true, false, none, [], ◌∷◌, any,
  any_mono, Any, All, All-mono, same_text, eq_iff, update_where_gives, update_where-any, count,
  count-absent, ◌==◌, arith,
}
use mathlib.Core.Path.{subst}
use karar_flutter_version.Identity.Session.{Session, RefreshTokenFamily, NewSessionBundle, is_unset}
use karar_flutter_version.Identity.Store.{
  SessionStore, is_live_row, is_live_family, revoke_row, revoke_family_row, bundle_fits,
  insert_bundle, revoke_rows, revoke_families_of_sessions,
}
use karar_flutter_version.Identity.Steps.{revoked_store}

-- The session of a bundle is there, and neither the old session nor a family of it is live.
abbrev pub IsSwitched :
    (account_id old_session_id : String) → NewSessionBundle → SessionStore → Type 0
IsSwitched account_id old_session_id bundle s =
    Any
      (λ r.
        (r.id ≡ bundle.session.id)
        × (r.account_id ≡ account_id)
        × (r.revoked_at ≡ none)
        × (r.tenant_binding ≡ bundle.session.tenant_binding))
      s.sessions
    × All (λ r. r.id ≡ old_session_id → r.account_id ≡ account_id → r.revoked_at ≢ none) s.sessions
    × All (λ f. f.session_id ≡ old_session_id → f.account_id ≡ account_id → f.revoked_at ≢ none)
        s.families

not_live_row :
    (account_id id : String) (r : Session)
    → is_live_row account_id id r ≡ false
    → r.id ≡ id
    → r.account_id ≡ account_id
    → r.revoked_at ≢ none
not_live_row account_id id r h a b c =
    let same_id = (eq_iff r.id id).1 a in
    let same_account = (eq_iff r.account_id account_id).1 b in
    let unset : is_unset r.revoked_at ≡ true = rw c refl in
    ground (arith, h, same_id, same_account, unset)

not_live_family :
    (account_id id : String) (f : RefreshTokenFamily)
    → is_live_family account_id (id ∷ []) f ≡ false
    → f.session_id ≡ id
    → f.account_id ≡ account_id
    → f.revoked_at ≢ none
not_live_family account_id id f h a b c =
    let same_id = (eq_iff f.session_id id).1 a in
    let same_account = (eq_iff f.account_id account_id).1 b in
    let unset : is_unset f.revoked_at ≡ true = rw c refl in
    ground (arith, h, same_id, same_account, unset)

-- The new id is not that of a session that was live.
fresh_id :
    (account_id old_session_id reason : String) (b : NewSessionBundle) (now : ℕ) (s : SessionStore)
    → bundle_fits account_id b (revoked_store account_id old_session_id reason now s) ≡ true
    → (count (is_live_row account_id old_session_id) s.sessions == 0) ≡ false
    → same_text b.session.id old_session_id ≡ false
unfolding revoked_store revoke_families_of_sessions
fresh_id account_id old_session_id reason b now s fits live =
    elim (Bool-cases (same_text b.session.id old_session_id)) [
      | inr apart ↦ apart
      | inl same ↦
          let live_row = is_live_row account_id old_session_id in
          let there : any live_row s.sessions ≡ true = elim (Bool-cases (any live_row s.sessions)) [
            | inl e ↦ e
            | inr gone ↦
                let zero_rows = count-absent live_row s.sessions gone in
                ground (arith, live, zero_rows)
          ] in
          let id_there =
            any_mono live_row (λ r. same_text r.id old_session_id) (λ r e. ground (arith, e))
              s.sessions there in
          let still =
            update_where-any (λ r. same_text r.id old_session_id) live_row (revoke_row reason now)
              (λ r. refl) s.sessions
            ∙ id_there in
          let none_had =
            subst
              (λ x.
                any (λ r. same_text r.id x)
                  (revoke_rows account_id old_session_id reason now s).sessions
                ≡ false)
              ((eq_iff b.session.id old_session_id).0 same) (ground (arith, fits)) in
          absurd (ground (arith, still, none_had))
    ]

pub rebound-IsSwitched :
    (account_id old_session_id reason : String) (b : NewSessionBundle) (now : ℕ) (s : SessionStore)
    → b.family.session_id ≡ b.session.id
    → bundle_fits account_id b (revoked_store account_id old_session_id reason now s) ≡ true
    → (count (is_live_row account_id old_session_id) s.sessions == 0) ≡ false
    → IsSwitched account_id old_session_id b
        (insert_bundle b (revoked_store account_id old_session_id reason now s))
unfolding revoked_store revoke_families_of_sessions
rebound-IsSwitched account_id old_session_id reason b now s own fits live =
    let apart = fresh_id account_id old_session_id reason b now s fits live in
    let family_apart = ap (λ x. same_text x old_session_id) own ∙ apart in
    let live_row = is_live_row account_id old_session_id in
    let live_family = is_live_family account_id (old_session_id ∷ []) in
    (
      inl (refl, (eq_iff b.session.account_id account_id).0 (ground (arith, fits)), refl, refl),
      All-mono _ _ (λ r. not_live_row account_id old_session_id r)
          (insert_bundle b (revoked_store account_id old_session_id reason now s)).sessions
          (
            ground (arith, apart),
            update_where_gives (λ r. live_row r ≡ false) live_row (revoke_row reason now)
                (λ r e. ground arith) (λ r e. e) s.sessions,
          ),
      All-mono _ _ (λ f. not_live_family account_id old_session_id f)
          (insert_bundle b (revoked_store account_id old_session_id reason now s)).families
          (
            ground (arith, family_apart),
            update_where_gives (λ f. live_family f ≡ false) live_family
                (revoke_family_row reason now) (λ f e. ground arith) (λ f e. e) s.families,
          ),
    )
