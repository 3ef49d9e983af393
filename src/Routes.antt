-- ===== src/Routes.antt =====
-- The VirtualServerRoutes of a VirtualServer (internal/k8s/configuration.go): classifying the routes,
-- validating what they name, and cleaning the list of duplicates and conflicts.
pub mod Paths
pub mod Clean
pub mod Unique
pub mod Regex
use text.Mathlib.Text.{starts_with}
use ingress_nextgen.Common.{
  List, String, [], contains, if◌then◌else◌, none, not, some, string_eq, suc, ℕ, ℕ_eq, ◌+++◌, ◌++◌,
  ◌==◌, ◌∷◌,
}
use ingress_nextgen.Common.Maps.{Map, copy_map, lookup, sort_strings}
use ingress_nextgen.Objects.{Route, VirtualServer, VirtualServerRoute}
use ingress_nextgen.Environment.{Environment, Selector, selector, selector_error}
use ingress_nextgen.Resources.{get_resource_key}
use ingress_nextgen.Routes.Paths.{has_namespace, normalize_path}
use ingress_nextgen.Routes.Clean.{
  deduplicate_vsr_slice, duplicate_warning, sync_vsr_selectors, validate_duplicate_vsr_paths,
}
use ingress_nextgen.Routes.Regex.{
  RegexVsrEntry, add_regex_entry, regex_vsrs, validate_and_build_regex_vsrs,
}

-- The result of classifyAndCollectVSRs while it grows, with the loop's own two maps. A set of
-- strings is the list of its members.
pub record VsrCollection : Type 0 where
  pub vsrs : List VirtualServerRoute
  pub regex_entries : Map String RegexVsrEntry
  pub vsr_selectors : Map String (List String)
  pub warnings : List String
  pub regex_seen_paths : Map String (List String)
  pub seen_vsrs : List String

pub record Validated : Type 0 where
  pub vsrs : List VirtualServerRoute
  pub selectors : Map String (List String)
  pub warnings : List String

module _ (env : Environment) (vsr_map : Map String VirtualServerRoute) where
  -- the route's reference, in the namespace of the VirtualServer if it names none
  abbrev pub vsr_key_of : String → String → String
  vsr_key_of ns route = if has_namespace route then route else ns ++ ("/" ++ route)

  unfoldable pub validate_vsrs : Route → String → String → Validated
  validate_vsrs r vs_host vs_namespace =
      let key = vsr_key_of vs_namespace r.route in
      elim (lookup key vsr_map) [
        | none ↦ record {
          vsrs = [];
          selectors = [];
          warnings = ("VirtualServerRoute " ++ (key ++ " doesn't exist or invalid")) ∷ [];
        }
        | some vsr ↦
            elim (env.validate_virtual_server_route_for_virtual_server vsr vs_host (r.path ∷ [])) [
              | none ↦ record { vsrs = vsr ∷ []; selectors = []; warnings = [] }
              | some err ↦ record {
                vsrs = [];
                selectors = [];
                warnings = ("VirtualServerRoute " ++ (key ++ (" is invalid: " ++ err))) ∷ [];
              }
            ]
      ]

  -- One round of the loop of validateVSRSelectors: what it adds to the routes, their keys and the
  -- warnings.
  unfoldable pub select_vsr :
      Selector
      → String
      → String
      → String × VirtualServerRoute
      → List VirtualServerRoute × List String × List String
  select_vsr sel path vs_host (key, vsr) =
      if sel.matches vsr.meta.labels
      then elim (env.validate_virtual_server_route_for_virtual_server vsr vs_host (path ∷ [])) [
        | none ↦ (vsr ∷ [], key ∷ [], [])
        | some err ↦ ([], [], ("VirtualServerRoute " ++ (key ++ (" is invalid: " ++ err))) ∷ [])
      ]
      else ([], [], [])

  unfoldable pub select_vsrs :
      Selector
      → String
      → String
      → Map String VirtualServerRoute
      → List VirtualServerRoute × List String × List String
  unfolding select_vsr
  select_vsrs sel path vs_host [] = ([], [], [])
  select_vsrs sel path vs_host (e ∷ es) =
      let (vs, ks, ws) = select_vsr sel path vs_host e in
      let (vs', ks', ws') = select_vsrs sel path vs_host es in (vs +++ vs', ks +++ ks', ws +++ ws')

  unfoldable pub validate_vsr_selectors : Route → Map String String → String → Validated
  unfolding select_vsrs sort_strings
  validate_vsr_selectors r match_labels vs_host =
      elim (env.label_selector_as_selector match_labels) [
        | selector_error err ↦ record {
          vsrs = [];
          selectors = [];
          warnings = ("VirtualServerRoute LabelSelector " ++ err) ∷ [];
        }
        | selector sel ↦
            (let (vs, ks, ws) = select_vsrs sel r.path vs_host vsr_map in
              record { vsrs = vs; selectors = (sel.text, sort_strings ks) ∷ []; warnings = ws })
      ]

  -- The loop over valid routes that two of the collectors share: a route that was seen gives a
  -- warning only.
  unfoldable pub collect_valid :
      VirtualServer → List VirtualServerRoute → VsrCollection → VsrCollection
  unfolding contains
  collect_valid vs [] col = col
  collect_valid vs (vsr ∷ vsrs) col = collect_valid vs vsrs (
      if contains col.seen_vsrs (get_resource_key vsr.meta)
      then record col {
        warnings = col.warnings +++ duplicate_warning vs.meta (get_resource_key vsr.meta) ∷ [];
      }
      else record col {
        seen_vsrs = get_resource_key vsr.meta ∷ col.seen_vsrs;
        vsrs = col.vsrs +++ vsr ∷ [];
      })

  unfoldable pub collect_non_regex_named_route :
      VirtualServer → Route → VsrCollection → VsrCollection
  unfolding validate_vsrs collect_valid
  collect_non_regex_named_route vs r col =
      let valid = validate_vsrs r vs.host vs.meta.namespace in
      collect_valid vs valid.vsrs (record col { warnings = col.warnings +++ valid.warnings })

  unfoldable pub collect_selector_route :
      VirtualServer → Route → Map String String → VsrCollection → VsrCollection
  unfolding validate_vsr_selectors collect_valid
  collect_selector_route vs r match_labels col =
      let valid = validate_vsr_selectors r match_labels vs.host in
      collect_valid vs valid.vsrs (record col {
        warnings = col.warnings +++ valid.warnings;
        vsr_selectors = copy_map valid.selectors col.vsr_selectors;
      })

  unfoldable pub collect_regex_named_route :
      VirtualServer → String → String → ℕ → VsrCollection → VsrCollection
  unfolding normalize_path add_regex_entry
  collect_regex_named_route vs route path idx col =
      let key = vsr_key_of vs.meta.namespace route in
      elim (lookup key vsr_map) [
        | none ↦ record col {
          warnings =
              col.warnings +++ ("VirtualServerRoute " ++ (key ++ " doesn't exist or invalid")) ∷ [];
        }
        | some vsr ↦
            (let (entries, seen) =
                add_regex_entry key vsr path idx (col.regex_entries, col.regex_seen_paths) in
              record col { regex_entries = entries; regex_seen_paths = seen })
      ]

  -- the switch over one route
  unfoldable pub classify_route : VirtualServer → ℕ → Route → VsrCollection → VsrCollection
  unfolding collect_regex_named_route collect_non_regex_named_route collect_selector_route
  classify_route vs idx r col =
      if not (r.route == "")
      then (if starts_with r.path "~"
          then collect_regex_named_route vs r.route r.path idx col
          else collect_non_regex_named_route vs r col)
      else elim r.route_selector [ none ↦ col | some ls ↦ collect_selector_route vs r ls col ]

  unfoldable pub classify_routes : VirtualServer → ℕ → List Route → VsrCollection → VsrCollection
  unfolding classify_route
  classify_routes vs idx [] col = col
  classify_routes vs idx (r ∷ rs) col =
      classify_routes vs (suc idx) rs (classify_route vs idx r col)

  unfoldable pub classify_and_collect_vsrs : VirtualServer → VsrCollection
  unfolding classify_routes
  classify_and_collect_vsrs vs = classify_routes vs 0 vs.routes (record {
    vsrs = [];
    regex_entries = [];
    vsr_selectors = [];
    warnings = [];
    regex_seen_paths = [];
    seen_vsrs = [];
  })

  unfoldable pub build_virtual_server_routes : VirtualServer → Validated
  unfolding classify_and_collect_vsrs validate_and_build_regex_vsrs deduplicate_vsr_slice
      validate_duplicate_vsr_paths sync_vsr_selectors
  build_virtual_server_routes vs =
      let col = classify_and_collect_vsrs vs in
      let (regex_vsrs, regex_warnings) =
        validate_and_build_regex_vsrs env col.regex_entries vs.host in
      let (unique, dup_warnings) = deduplicate_vsr_slice vs.meta (col.vsrs +++ regex_vsrs) in
      let (vsrs, path_warnings) = validate_duplicate_vsr_paths unique in
      record {
        vsrs = vsrs;
        selectors = sync_vsr_selectors col.vsr_selectors vsrs;
        warnings = col.warnings +++ (regex_warnings +++ (dup_warnings +++ path_warnings));
      }
