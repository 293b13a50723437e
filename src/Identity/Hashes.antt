-- ===== src/Identity/Hashes.antt =====
-- What the transactions keep of the token that has a hash.
use mathlib.Core.Path.{subst}
use karar_flutter_version.Prelude.{
  ℕ, String, ◌≡◌, refl, sym, ◌∙◌, Bool, true, false, ◌&&◌, none, some, List, ◌∷◌, any, All,
  All-mono, same_text, eq_iff, update_where, update_where-All, update_where-any, arith,
}
use karar_flutter_version.Identity.Session.{RefreshTokenRecord}
use karar_flutter_version.Identity.Store.{SessionStore, is_claimable_token, owns_token}
use karar_flutter_version.Identity.Steps.{Change}
use karar_flutter_version.Identity.WellFormed.{has_hash}

-- Some token has the hash, and each that has it has a property.
abbrev pub HashHas : String → (RefreshTokenRecord → Type 0) → List RefreshTokenRecord → Type 0
HashHas h Q tokens = (any (has_hash h) tokens ≡ true) × All (λ t. has_hash h t ≡ true → Q t) tokens

-- A token with a new hash has no hash that is there.
pub new_hash :
    (h fresh : String) (tokens : List RefreshTokenRecord) {R : Type 0}
    → any (has_hash h) tokens ≡ true
    → any (has_hash fresh) tokens ≡ false
    → same_text fresh h ≡ true
    → R
new_hash h fresh tokens there gone e =
    let here = subst (λ x. any (has_hash x) tokens ≡ true) (sym ((eq_iff fresh h).0 e)) there in
    absurd (ground (arith, here, gone))

pub Change-HashHas :
    (h : String) (Q R : RefreshTokenRecord → Type 0) {s t : SessionStore}
    → Change s t
    → ((r : RefreshTokenRecord) → Q r → R r)
    → ((r : RefreshTokenRecord) (now : ℕ) → Q r → R (record r { used_at = some now }))
    → ((r : RefreshTokenRecord) (id : String) → R r → R (record r { superseded_by = some id }))
    → HashHas h Q s.tokens
    → HashHas h R t.tokens
Change-HashHas h Q R {s = s} (Change.kept {t = t} keeps) keep use_up link (there, all_of) =
    let same = keeps.3 in
    subst (HashHas h R) (sym same) (there, All-mono _ _ (λ r f k. keep r (f k)) s.tokens all_of)
Change-HashHas h Q R {s = s} (Change.added {m = m} account_id bundle keeps good fits) keep use_up
      link (there, all_of) =
    let (there_too, all_too) =
      subst (HashHas h R) (sym keeps.3)
        (there, All-mono _ _ (λ r f k. keep r (f k)) s.tokens all_of) in
    (
      ground (arith, there_too),
      (
        (λ e. new_hash h bundle.first_token.token_hash m.tokens there_too (ground (arith, fits)) e),
        all_too,
      ),
    )
Change-HashHas h Q R {s = s} (Change.exchanged account_id token_id successor now kin live fits) keep
      use_up link (there, all_of) =
    let claims = is_claimable_token account_id token_id s in
    let linked : RefreshTokenRecord → Bool =
      λ t. same_text t.id token_id && owns_token account_id s t.family_id in
    let claimed = update_where claims (λ t. record t { used_at = some now }) s.tokens in
    let next = record successor { used_at = none; superseded_by = none } in
    let Has : RefreshTokenRecord → Type 0 = λ t. has_hash h t ≡ true → R t in
    let still =
      update_where-any (has_hash h) claims (λ t. record t { used_at = some now }) (λ r. refl)
        s.tokens
      ∙ there in
    (
      update_where-any (has_hash h) linked (λ t. record t { superseded_by = some successor.id })
            (λ r. refl) (next ∷ claimed)
          ∙ ground (arith, still),
      update_where-All Has Has linked (λ t. record t { superseded_by = some successor.id })
          (λ r e f k. link r successor.id (f k)) (λ r e f. f) (next ∷ claimed)
          (
            (λ e. new_hash h successor.token_hash s.tokens there (ground (arith, fits)) e),
            update_where-All (λ t. has_hash h t ≡ true → Q t) Has claims
                (λ t. record t { used_at = some now }) (λ r e f k. use_up r now (f k))
                (λ r e f k. keep r (f k)) s.tokens all_of,
          ),
    )

-- A family of an account stays one of that account.
pub Change-owns_token :
    (account_id family_id : String) {s t : SessionStore}
    → Change s t
    → owns_token account_id s family_id ≡ true
    → owns_token account_id t family_id ≡ true
Change-owns_token account_id family_id (Change.kept keeps) e =
    keeps.2 (λ id account. same_text id family_id && same_text account account_id) ∙ e
Change-owns_token account_id family_id (Change.added a bundle keeps good fits) e =
    let there =
      keeps.2 (λ id account. same_text id family_id && same_text account account_id) ∙ e in
    ground (arith, there)
Change-owns_token account_id family_id (Change.exchanged a token_id successor now kin live fits) e =
    e
