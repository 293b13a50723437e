-- ===== src/SubjectPolicy/Selection.antt =====
-- modules/subject-policy/domain/selection.ts and option-set.ts. An id is compared as the source's
-- `>` does, character by character; the ids are ASCII, where UTF-16 units and code points agree.
pub mod Order
pub mod Governing
mod Tests
use Prim.Native.String
use Prim.Native.Char.{code}
use karar_flutter_version.Prelude.{
  ℕ, String, Bool, true, false, not, ◌&&◌, ◌||◌, ◌==◌, Option, none, some, List, [], ◌∷◌, any,
  filter, ltb, leb, same_text, window_covers, best, if◌then◌else◌,
}

pub data SelectionStatus : Type 0 where
  active superseded expired withdrawn : SelectionStatus

pub record SubjectPolicySelection : Type 0 where
  pub id : String
  pub user_id : String
  pub tenant_id : String
  pub capability_id : String
  pub profile_ref : String
  pub profile_version : String
  pub jurisdiction_ref : String
  pub policy_pack_version : String
  pub effective_from : ℕ
  pub effective_to : Option ℕ
  pub status : SelectionStatus
  pub selection_source : String
  pub recorded_by : String
  pub profile_snapshot_hash : Option String
  pub withdrawn_at : Option ℕ

pub data SelectionAtInstant : Type 0 where
  effective : SubjectPolicySelection → SelectionAtInstant
  expired : (selection_id : String) (expired_at : ℕ) → SelectionAtInstant
  no_selection : SelectionAtInstant

-- `a > b`.
unfoldable pub text_after : String → String → Bool
text_after String.[] b = false
text_after (String.◌∷◌ c a) String.[] = true
text_after (String.◌∷◌ c a) (String.◌∷◌ d b) =
    ltb (code d) (code c) || (code c == code d && text_after a b)

pub withdrawn_by : Option ℕ → ℕ → Bool
withdrawn_by none at = false
withdrawn_by (some instant) at = leb instant at

pub was_withdrawn_by : SubjectPolicySelection → ℕ → Bool
unfolding withdrawn_by
was_withdrawn_by row at = withdrawn_by row.withdrawn_at at

abbrev pub is_candidate : ℕ → SubjectPolicySelection → Bool
is_candidate at row =
    window_covers row.effective_from row.effective_to at && not (was_withdrawn_by row at)

-- Later by a key, or at the same key with the greater id.
abbrev pub shadows_by : (key₁ key₂ : ℕ) (id₁ id₂ : String) → Bool
shadows_by key₁ key₂ id₁ id₂ = ltb key₂ key₁ || (key₁ == key₂ && text_after id₁ id₂)

abbrev pub shadows : SubjectPolicySelection → SubjectPolicySelection → Bool
shadows row winner = shadows_by row.effective_from winner.effective_from row.id winner.id

-- `effectiveTo as Date`, which the loop reads only where it is not null.
abbrev pub end_of : Option ℕ → ℕ
end_of none = 0
end_of (some end) = end

-- The tests of the loop over expired rows, in the order of its `continue` lines.
pub ran_out : ℕ → SubjectPolicySelection → Bool
ran_out at row = closed row.effective_to
  where
    closed : Option ℕ → Bool
    closed none = false
    closed (some end) =
        not (ltb at row.effective_from) && not (ltb at end) && not (was_withdrawn_by row at)

abbrev pub ends_later : SubjectPolicySelection → SubjectPolicySelection → Bool
ends_later row winner =
    shadows_by (end_of row.effective_to) (end_of winner.effective_to) row.id winner.id

keep_expired : Option SubjectPolicySelection → SubjectPolicySelection → SubjectPolicySelection
keep_expired none row = row
keep_expired (some winner) row = if ends_later row winner then row else winner

expired_row :
    ℕ → Option SubjectPolicySelection → List SubjectPolicySelection → Option SubjectPolicySelection
unfolding keep_expired ran_out
expired_row at winner [] = winner
expired_row at winner (row ∷ rows) =
    expired_row at (if ran_out at row then some (keep_expired winner row) else winner) rows

no_effective : Option SubjectPolicySelection → SelectionAtInstant
no_effective none = no_selection
no_effective (some row) = SelectionAtInstant.expired row.id (end_of row.effective_to)

select_among :
    ℕ
    → List SubjectPolicySelection
    → (candidates : List SubjectPolicySelection) → SelectionAtInstant
unfolding expired_row no_effective
select_among at rows [] = no_effective (expired_row at none rows)
select_among at rows (c ∷ candidates) = effective (best shadows c (c ∷ candidates))

pub resolve_selection_at : List SubjectPolicySelection → ℕ → SelectionAtInstant
unfolding select_among
resolve_selection_at rows at = select_among at rows (filter (is_candidate at) rows)

pub record PermittedProfileOption : Type 0 where
  pub profile_ref : String
  pub profile_versions : List String

pub record SubjectOptionSet : Type 0 where
  pub capability_id : String
  pub jurisdiction_ref : String
  pub policy_pack_version : String
  pub permitted_options : List PermittedProfileOption

pub option_permitted : SubjectOptionSet → (profile_ref profile_version : String) → Bool
option_permitted option_set profile_ref profile_version =
    any
      (λ o.
        same_text o.profile_ref profile_ref
        && any (λ v. same_text v profile_version) o.profile_versions)
      option_set.permitted_options
