-- ===== src/Routes/Clean.antt =====
-- Duplicates and conflicts among the routes of a VirtualServer: deduplicateVSRSlice,
-- validateDuplicateVSRPaths and syncVSRSelectors.
use ingress_nextgen.Common.{
  List, String, [], contains, if◌then◌else◌, map, none, some, string_eq, ℕ_eq, ◌+++◌, ◌++◌, ◌==◌,
  ◌∷◌,
}
use ingress_nextgen.Common.Maps.{Map, insert, lookup}
use ingress_nextgen.Objects.{ObjectMeta, Route, VirtualServerRoute}
use ingress_nextgen.Resources.{
  get_resource_key, get_resource_key_with_kind, virtual_server_route_kind,
}
use ingress_nextgen.Routes.Paths.{normalize_path}

abbrev pub duplicate_warning : ObjectMeta → String → String
duplicate_warning vs name =
    "VS " ++ (get_resource_key vs ++ (" has duplicate VirtualServerRoutes " ++ name))

-- The loop, with the keys seen so far; the kept routes and the warnings.
unfoldable pub deduplicate_from :
    ObjectMeta → List String → List VirtualServerRoute → List VirtualServerRoute × List String
unfolding contains
deduplicate_from vs seen [] = ([], [])
deduplicate_from vs seen (vsr ∷ vsrs) =
    let key = get_resource_key vsr.meta in
    let dropped = deduplicate_from vs seen vsrs in
    let kept = deduplicate_from vs (key ∷ seen) vsrs in
    if contains seen key
    then (dropped.0, duplicate_warning vs key ∷ dropped.1)
    else (vsr ∷ kept.0, kept.1)

unfoldable pub deduplicate_vsr_slice :
    ObjectMeta → List VirtualServerRoute → List VirtualServerRoute × List String
unfolding deduplicate_from
deduplicate_vsr_slice vs vsrs = deduplicate_from vs [] vsrs

abbrev pub conflict_warning : String → String → String → String
conflict_warning path key other =
    "path "
    ++ (path
        ++ (" has conflicting subroutes on "
            ++ (if key == other then other else key ++ (" and " ++ other))))

-- What the loop over the subroutes has found: the owners of the normalised paths, the warnings, and
-- the keys of the routes to remove, in order.
pub record PathScan : Type 0 where
  pub paths : Map String String
  pub warnings : List String
  pub to_remove : List String

unfoldable pub scan_subroute : VirtualServerRoute → Route → PathScan → PathScan
unfolding normalize_path
scan_subroute vsr subroute s = elim (lookup (normalize_path subroute.path) s.paths) [
  | none ↦ record s {
    paths = insert (normalize_path subroute.path) (get_resource_key vsr.meta) s.paths;
  }
  | some owner ↦ record s {
    warnings = s.warnings +++ conflict_warning subroute.path (get_resource_key vsr.meta) owner ∷ [];
    to_remove = s.to_remove +++ get_resource_key_with_kind virtual_server_route_kind vsr.meta ∷ [];
  }
]

unfoldable pub scan_subroutes : VirtualServerRoute → List Route → PathScan → PathScan
unfolding scan_subroute
scan_subroutes vsr [] s = s
scan_subroutes vsr (r ∷ rs) s = scan_subroutes vsr rs (scan_subroute vsr r s)

unfoldable pub scan_vsrs : List VirtualServerRoute → PathScan → PathScan
unfolding scan_subroutes
scan_vsrs [] s = s
scan_vsrs (vsr ∷ vsrs) s = scan_vsrs vsrs (scan_subroutes vsr vsr.subroutes s)

-- The inner loop of the removal: the first route of the key goes, by removeFromVSRSlice.
unfoldable pub remove_first_vsr : String → List VirtualServerRoute → List VirtualServerRoute
remove_first_vsr key [] = []
remove_first_vsr key (vsr ∷ vsrs) =
    if get_resource_key_with_kind virtual_server_route_kind vsr.meta == key
    then vsrs
    else vsr ∷ remove_first_vsr key vsrs

unfoldable pub remove_vsrs : List String → List VirtualServerRoute → List VirtualServerRoute
unfolding remove_first_vsr
remove_vsrs [] vsrs = vsrs
remove_vsrs (k ∷ ks) vsrs = remove_vsrs ks (remove_first_vsr k vsrs)

unfoldable pub validate_duplicate_vsr_paths :
    List VirtualServerRoute → List VirtualServerRoute × List String
unfolding scan_vsrs remove_vsrs
validate_duplicate_vsr_paths vsrs =
    let s = scan_vsrs vsrs (record { paths = []; warnings = []; to_remove = [] }) in
    (remove_vsrs s.to_remove vsrs, s.warnings)

unfoldable pub keep_final : List String → List String → List String
unfolding contains
keep_final final [] = []
keep_final final (k ∷ ks) =
    if contains final k then k ∷ keep_final final ks else keep_final final ks

-- An entry that has no key left stays, empty.
unfoldable pub sync_vsr_selectors :
    Map String (List String) → List VirtualServerRoute → Map String (List String)
unfolding keep_final
sync_vsr_selectors selectors vsrs =
    map (λ e. (e.0, keep_final (map (λ vsr. get_resource_key vsr.meta) vsrs) e.1)) selectors
