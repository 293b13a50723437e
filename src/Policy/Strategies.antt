-- ===== src/Policy/Strategies.antt =====
-- packages/jurisdiction-policy/src/resolution/strategies.ts: the registry of the rules that say
-- which pack version governs a record. The `Map` behind a registry is the list of its definitions,
-- in the order of their registration.
pub mod Registry
use karar_flutter_version.Prelude.{
  String, Bool, Option, none, some, List, [], ◌∷◌, ◌++◌, map, find, any, same_text, if◌then◌else◌,
  Result, ok, err,
}

pub record GoverningVersionContext : Type 0 where
  pub version_at_creation : Option String
  pub version_at_evaluation : Option String

pub record ResolutionStrategyDefinition : Type 0 where
  pub id : String
  pub governing_versions : GoverningVersionContext → List String

pub record ResolutionStrategyRegistry : Type 0 where
  pub by_id : List ResolutionStrategyDefinition

abbrev has_id : String → ResolutionStrategyDefinition → Bool
has_id id d = same_text d.id id

unfoldable pub get : ResolutionStrategyRegistry → String → Option ResolutionStrategyDefinition
get r id = find (has_id id) r.by_id

unfoldable pub has : ResolutionStrategyRegistry → String → Bool
has r id = any (has_id id) r.by_id

pub ids : ResolutionStrategyRegistry → List String
ids r = map (λ d. d.id) r.by_id

-- The loop of `createResolutionStrategyRegistry`; an error is the id that is registered twice.
register :
    List ResolutionStrategyDefinition
    → List ResolutionStrategyDefinition
    → Result (List ResolutionStrategyDefinition) String
register by_id [] = ok by_id
register by_id (d ∷ definitions) =
    let rest = register (by_id ++ d ∷ []) definitions in
    if any (has_id d.id) by_id then err d.id else rest

seal : Result (List ResolutionStrategyDefinition) String → Result ResolutionStrategyRegistry String
seal (ok by_id) = ok (record { by_id = by_id })
seal (err id) = err id

unfoldable pub create_resolution_strategy_registry :
    List ResolutionStrategyDefinition → Result ResolutionStrategyRegistry String
unfolding register seal
create_resolution_strategy_registry definitions = seal (register [] definitions)

abbrev version_list : Option String → List String
version_list none = []
version_list (some v) = v ∷ []

pub at_creation : ResolutionStrategyDefinition
at_creation = record {
  id = "AT_CREATION";
  governing_versions = λ c. version_list c.version_at_creation;
}

pub at_evaluation : ResolutionStrategyDefinition
at_evaluation = record {
  id = "AT_EVALUATION";
  governing_versions = λ c. version_list c.version_at_evaluation;
}

most_restrictive_versions : Option String → Option String → List String
most_restrictive_versions none evaluation = version_list evaluation
most_restrictive_versions (some c) none = c ∷ []
most_restrictive_versions (some c) (some e) = if same_text e c then c ∷ [] else c ∷ e ∷ []

pub most_restrictive : ResolutionStrategyDefinition
unfolding most_restrictive_versions
most_restrictive = record {
  id = "MOST_RESTRICTIVE";
  governing_versions = λ c. most_restrictive_versions c.version_at_creation c.version_at_evaluation;
}

unfoldable pub default_resolution_strategies : ResolutionStrategyRegistry
unfolding at_creation at_evaluation most_restrictive
default_resolution_strategies = record {
  by_id = at_creation ∷ at_evaluation ∷ most_restrictive ∷ [];
}
