-- ===== src/Identity/Once.antt =====
-- A refresh token is exchanged once: the second presentation is a reuse.
use mathlib.Core.Path.{subst}
use karar_flutter_version.Prelude.{
  ℕ, String, ◌≡◌, refl, sym, ap, ◌∙◌, inl, inr, Bool, Option-cases, true, false, ◌&&◌, Option, none,
  some, ◌∷◌, any, any_iff, find, find-holds, find-some, find-Any, find-only, Any-mono, All-mono,
  All-Any, same_text, eq_iff, update_where, update_where-All, update_where-any, err, arith,
}
use karar_flutter_version.Identity.Session.{
  Session, RefreshTokenFamily, RefreshTokenRecord, is_unset,
}
use karar_flutter_version.Identity.Store.{
  SessionStore, PresentedRefreshToken, find_by_token_hash, presented_in, present_token,
  presented_with, successor_fits, rotated_store, is_session, owns_token, is_claimable_token,
}
use karar_flutter_version.Identity.Refresh.{
  IdentityState, RefreshDeps, RefreshSessionError, on_reuse_detected, refresh_presented,
  refresh_session,
}
use karar_flutter_version.Identity.Steps.{Reach, Step-Change}
use karar_flutter_version.Identity.WellFormed.{has_hash, IsWellFormed}
use karar_flutter_version.Identity.Hashes.{HashHas, new_hash, Change-HashHas, Change-owns_token}

-- The token with the hash has an id, and a family of the account.
abbrev pub IsKnown : (account_id token_id token_hash : String) → SessionStore → Type 0
IsKnown account_id token_id h s =
    HashHas h (λ t. (t.id ≡ token_id) × (owns_token account_id s t.family_id ≡ true)) s.tokens

abbrev pub IsSpent : (token_hash : String) → SessionStore → Type 0
IsSpent h s = HashHas h (λ t. is_unset t.used_at ≡ false) s.tokens

pub reach-IsKnown :
    (account_id token_id h : String) (s t : SessionStore)
    → Reach s t
    → IsKnown account_id token_id h s
    → IsKnown account_id token_id h t
reach-IsKnown account_id token_id h s t Reach.here k = k
reach-IsKnown account_id token_id h s t (Reach.next {t = u} run step) k =
    let change = Step-Change step in
    Change-HashHas h (λ r. (r.id ≡ token_id) × (owns_token account_id u r.family_id ≡ true))
      (λ r. (r.id ≡ token_id) × (owns_token account_id t r.family_id ≡ true)) change
      (λ r (e, o). (e, Change-owns_token account_id r.family_id change o))
      (λ r now (e, o). (e, Change-owns_token account_id r.family_id change o)) (λ r id q. q)
      (reach-IsKnown account_id token_id h s u run k)

pub reach-IsSpent : (h : String) (s t : SessionStore) → Reach s t → IsSpent h s → IsSpent h t
reach-IsSpent h s t Reach.here k = k
reach-IsSpent h s t (Reach.next {t = u} run step) k =
    Change-HashHas h (λ r. is_unset r.used_at ≡ false) (λ r. is_unset r.used_at ≡ false)
      (Step-Change step) (λ r q. q) (λ r now q. refl) (λ r id q. q) (reach-IsSpent h s u run k)

presented_in-some :
    (s : SessionStore) (token : RefreshTokenRecord) (o : Option RefreshTokenFamily)
    (p : PresentedRefreshToken)
    → presented_in s token o ≡ some p
    → (token ≡ p.token) × (o ≡ some p.family)
presented_in-some s token none p e = cc
presented_in-some s token (some family) p e =
    elim (Option-cases (find (is_session family.account_id family.session_id) s.sessions)) [
      | inl gone ↦ ground (arith, gone, e)
      | inr (session, found) ↦ ground (arith, found, e)
    ]

pub present_token-some :
    (s : SessionStore) (o : Option RefreshTokenRecord) (p : PresentedRefreshToken)
    → present_token s o ≡ some p
    → (o ≡ some p.token) × (find (λ f. same_text f.id p.token.family_id) s.families ≡ some p.family)
present_token-some s none p e = cc
present_token-some s (some token) p e =
    let (same, family) = presented_in-some s token _ p e in
    (
      ap some same,
      subst (λ t. find (λ f. same_text f.id t.family_id) s.families ≡ some p.family) same family,
    )

presented-owns_token :
    (s : SessionStore) (p : PresentedRefreshToken)
    → find (λ f. same_text f.id p.token.family_id) s.families ≡ some p.family
    → owns_token p.family.account_id s p.token.family_id ≡ true
presented-owns_token s p e =
    let test : RefreshTokenFamily → Bool = λ f. same_text f.id p.token.family_id in
    let named = find-holds test s.families p.family e in
    let own = (eq_iff p.family.account_id p.family.account_id).1 refl in
    (any_iff (λ f. same_text f.id p.token.family_id && same_text f.account_id p.family.account_id)
        s.families).1
      (Any-mono _ _ (λ f k. rw k (ground (arith, named, own))) s.families
        (find-Any test s.families p.family e))

-- What is found under the hash of a refresh that succeeds: the token that it exchanges.
pub found-IsKnown :
    (h : String) (s : SessionStore) (p : PresentedRefreshToken)
    → IsWellFormed s
    → find_by_token_hash h s ≡ some p
    → IsKnown p.family.account_id p.token.id h s
unfolding find_by_token_hash
found-IsKnown h s p (linked, owned, keys, ids, one) e =
    let (found, family) = present_token-some s _ p e in
    let own = presented-owns_token s p family in
    (
      (any_iff (has_hash h) s.tokens).1 (
          Any-mono _ _ (λ t k. rw k (find-holds (has_hash h) s.tokens p.token found)) s.tokens
            (find-Any (has_hash h) s.tokens p.token found)),
      All-mono _ _
          (λ t same k.
            let is_it = same k in
            (
              ap (λ x. x.id) is_it,
              subst (λ x. owns_token p.family.account_id s x.family_id ≡ true) (sym is_it) own,
            ))
          s.tokens (find-only (has_hash h) s.tokens p.token found (keys h)),
    )

-- A rotation of the token leaves it spent.
pub rotated-IsSpent :
    (account_id token_id h : String) (successor : RefreshTokenRecord) (now : ℕ) (s : SessionStore)
    → IsKnown account_id token_id h s
    → successor_fits account_id successor s ≡ true
    → IsSpent h (rotated_store account_id token_id successor now s)
rotated-IsSpent account_id token_id h successor now s (there, known) fits =
    let claims = is_claimable_token account_id token_id s in
    let use_up : RefreshTokenRecord → RefreshTokenRecord = λ t. record t { used_at = some now } in
    let linked : RefreshTokenRecord → Bool =
      λ t. same_text t.id token_id && owns_token account_id s t.family_id in
    let claimed = update_where claims use_up s.tokens in
    let next = record successor { used_at = none; superseded_by = none } in
    let Used : RefreshTokenRecord → Type 0 =
      λ t. has_hash h t ≡ true → is_unset t.used_at ≡ false in
    let still = update_where-any (has_hash h) claims use_up (λ r. refl) s.tokens ∙ there in
    (
      update_where-any (has_hash h) linked (λ t. record t { superseded_by = some successor.id })
            (λ r. refl) (next ∷ claimed)
          ∙ ground (arith, still),
      update_where-All Used Used linked (λ t. record t { superseded_by = some successor.id })
          (λ r e f. f) (λ r e f. f) (next ∷ claimed)
          (
            (λ e. new_hash h successor.token_hash s.tokens there (ground (arith, fits)) e),
            update_where-All
                (λ t.
                  has_hash h t ≡ true
                  → (t.id ≡ token_id) × (owns_token account_id s t.family_id ≡ true))
                Used claims use_up (λ r e f k. refl)
                (λ r miss f k.
                  let (same, own) = f k in
                  let id = (eq_iff r.id token_id).1 same in ground (arith, id, own, miss))
                s.tokens known,
          ),
    )

presented_by :
    (h : String) (s : SessionStore) (token : RefreshTokenRecord) (family : RefreshTokenFamily)
    (session : Session)
    → find (has_hash h) s.tokens ≡ some token
    → find (λ f. same_text f.id token.family_id) s.families ≡ some family
    → find (is_session family.account_id family.session_id) s.sessions ≡ some session
    → find_by_token_hash h s ≡ some (record { token = token; family = family; session = session })
unfolding find_by_token_hash
presented_by h s token family session found named seen =
    ap (present_token s) found
    ∙ ap (presented_in s token) named
    ∙ ap (presented_with token family) seen

-- A spent token is presented, and told as used.
pub spent-presented :
    (h : String) (s : SessionStore)
    → IsWellFormed s
    → IsSpent h s
    → (p : PresentedRefreshToken) × (find_by_token_hash h s ≡ some p)
      × (is_unset p.token.used_at ≡ false)
spent-presented h s (linked, owned, keys, ids, one) (there, used) =
    let (token, found) = find-some (has_hash h) s.tokens there in
    let hit = find-holds (has_hash h) s.tokens token found in
    let at_token = find-Any (has_hash h) s.tokens token found in
    let (family, named) =
      find-some (λ f. same_text f.id token.family_id) s.families
        (All-Any (λ t. any (λ f. same_text f.id t.family_id) s.families ≡ true) token s.tokens
          linked at_token) in
    let (session, seen) = find-some (is_session family.account_id family.session_id) s.sessions (
      All-Any (λ f. any (is_session f.account_id f.session_id) s.sessions ≡ true) family s.families
        owned (find-Any (λ f. same_text f.id token.family_id) s.families family named)) in
    (
      record { token = token; family = family; session = session },
      presented_by h s token family session found named seen,
      All-Any (λ t. has_hash h t ≡ true → is_unset t.used_at ≡ false) token s.tokens used at_token
          hit,
    )

pub refresh_presented-used :
    (deps : RefreshDeps) (state : IdentityState) (p : PresentedRefreshToken)
    → is_unset p.token.used_at ≡ false
    → refresh_presented deps state (some p)
      ≡ (on_reuse_detected deps p state, err RefreshSessionError.reuse_detected)
unfolding refresh_presented
refresh_presented-used deps state p used = ground (arith, used)

pub within-presented :
    (deps : RefreshDeps) (raw : String) (state : IdentityState)
    → deps.within_limit ≡ true
    → refresh_session deps raw state
      ≡ refresh_presented deps state (find_by_token_hash (deps.digest raw) state.store)
unfolding refresh_session
within-presented deps raw state limit = ground (arith, limit)
