-- ===== src/Minions.antt =====
-- Mergeable Ingresses of internal/k8s/configuration.go and internal/k8s/utils.go: the index of the
-- minions by their host, and the contest of the minions of one host for its paths.
pub mod Index
pub mod Consistent
pub mod Updated
use ingress_nextgen.Common.{
  Bool, List, Option, String, [], false, if◌then◌else◌, map, none, not, some, string_eq, true, ℕ_eq,
  ◌+++◌, ◌++◌, ◌==◌, ◌>>=◌, ◌∷◌,
}
use ingress_nextgen.Common.Maps.{Map, insert, keys, lookup, sorted_keys}
use ingress_nextgen.Objects.{Ingress, IngressPath, IngressRule}
use ingress_nextgen.Resources.{
  MinionConfiguration, choose_object_meta_winner, get_resource_key, new_minion_configuration,
}

-- ing.Annotations["nginx.org/mergeable-ingress-type"] == kind, where a missing key reads as ""
abbrev pub annotation : String → Ingress → String
annotation k ing = elim (lookup k ing.meta.annotations) [ none ↦ "" | some v ↦ v ]

unfoldable pub is_minion : Ingress → Bool
is_minion ing = annotation "nginx.org/mergeable-ingress-type" ing == "minion"

unfoldable pub is_master : Ingress → Bool
is_master ing = annotation "nginx.org/mergeable-ingress-type" ing == "master"

-- ing.Spec.Rules[0]
unfoldable pub first_rule : Ingress → Option IngressRule
first_rule ing = elim ing.rules [ [] ↦ none | r ∷ _ ↦ some r ]

-- The maps of buildMinionConfigs. The minions stand by their keys, in the order in which they came,
-- since `paths` and the list share them; `paths` has the key of the minion that holds a path.
pub record MinionBuilding : Type 0 where
  pub paths : Map String String
  pub minions : Map String MinionConfiguration
  pub child_warnings : Map String (List String)

abbrev pub path_warning : String → String
path_warning path = "path " ++ (path ++ " is taken by another resource")

-- childWarnings[key] = append(childWarnings[key], warning)
unfoldable pub warn_child : Ingress → String → Map String (List String) → Map String (List String)
warn_child ing path m =
    insert (get_resource_key ing.meta)
      (elim (lookup (get_resource_key ing.meta) m) [ none ↦ [] | some ws ↦ ws ]
        +++ path_warning path
        ∷ [])
      m

-- minionConfig.ValidPaths[path] = valid
unfoldable pub set_path :
    String → String → Bool → Map String MinionConfiguration → Map String MinionConfiguration
set_path key path valid m = elim (lookup key m) [
  | none ↦ m
  | some mc ↦ insert key (record mc { valid_paths = insert path valid mc.valid_paths }) m
]

-- The minion with the key takes the path, which nobody or the loser `from` holds.
unfoldable pub take_path : String → String → MinionBuilding → MinionBuilding
unfolding set_path
take_path key path b = record b {
  paths = insert path key b.paths;
  minions = set_path key path true b.minions;
}

-- one round of the loop over the paths of a minion
unfoldable pub claim_path : String → Ingress → String → MinionBuilding → Option MinionBuilding
unfolding take_path set_path warn_child
claim_path key ing path b = elim (lookup path b.paths) [
  | none ↦ some (take_path key path b)
  | some holder_key ↦ do
    holder ← lookup holder_key b.minions
    let b' = take_path key path b
    some (
        if not (choose_object_meta_winner holder.ingress.meta ing.meta)
        then record b' {
          minions = set_path holder_key path false b'.minions;
          child_warnings = warn_child holder.ingress path b.child_warnings;
        }
        else record b { child_warnings = warn_child ing path b.child_warnings })
]

unfoldable pub claim_paths :
    String → Ingress → List IngressPath → MinionBuilding → Option MinionBuilding
unfolding claim_path
claim_paths key ing [] b = some b
claim_paths key ing (p ∷ ps) b = claim_path key ing p.path b >>= claim_paths key ing ps

-- ingress.Spec.Rules[0].HTTP.Paths
unfoldable pub minion_paths : Ingress → Option (List IngressPath)
unfolding first_rule
minion_paths ing = do r ← first_rule ing; r.http

-- one round of the loop over the keys of the minions
unfoldable pub add_minion : Map String Ingress → String → MinionBuilding → Option MinionBuilding
unfolding minion_paths claim_paths
add_minion ingresses key b = elim (lookup key ingresses) [
  | none ↦ some b
  | some ing ↦ do
    ps ← minion_paths ing
    claim_paths key ing ps
        (record b { minions = insert key (new_minion_configuration ing) b.minions })
]

unfoldable pub add_minions :
    Map String Ingress → List String → MinionBuilding → Option MinionBuilding
unfolding add_minion
add_minions ingresses [] b = some b
add_minions ingresses (k ∷ ks) b = add_minion ingresses k b >>= add_minions ingresses ks

-- the minions of a host, in the order of their keys, and their warnings
unfoldable pub build_minion_configs :
    Map String (Map String Bool)
    → Map String Ingress
    → String
    → Option (List MinionConfiguration × Map String (List String))
unfolding add_minions sorted_keys
build_minion_configs minions_by_host ingresses host =
    let keys = sorted_keys (elim (lookup host minions_by_host) [ none ↦ [] | some ks ↦ ks ]) in
    do
      b ← add_minions ingresses keys (record { paths = []; minions = []; child_warnings = [] })
      some (map (λ kv. kv.1) b.minions, b.child_warnings)
