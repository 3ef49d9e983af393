-- ===== src/Routes/Regex.antt =====
-- Regex routes: the entries that collectRegexNamedRoute gathers, and validateAndBuildRegexVSRs.
use ingress_nextgen.Common.{
  List, String, [], contains, if◌then◌else◌, ltb, none, some, string_eq, ℕ, ℕ_eq, ◌+++◌, ◌++◌, ◌∷◌,
}
use ingress_nextgen.Common.Maps.{Map, insert, lookup}
use ingress_nextgen.Objects.{VirtualServerRoute}
use ingress_nextgen.Environment.{Environment}
use ingress_nextgen.Routes.Paths.{normalize_path}

pub record RegexVsrEntry : Type 0 where
  pub vsr : VirtualServerRoute
  pub paths : List String
  pub first_seen_idx : ℕ

-- The entry of a route that a regex path names: a further path is added unless its normal form was
-- seen, and a new entry has the path alone.
unfoldable pub add_regex_entry :
    String
    → VirtualServerRoute
    → String
    → ℕ
    → Map String RegexVsrEntry × Map String (List String)
    → Map String RegexVsrEntry × Map String (List String)
unfolding normalize_path contains
add_regex_entry key vsr path idx (entries, seen) =
    let norm = normalize_path path in
    let seen_paths : List String = elim (lookup key seen) [ none ↦ [] | some ps ↦ ps ] in
    elim (lookup key entries) [
      | none ↦ (
        insert key (record { vsr = vsr; paths = path ∷ []; first_seen_idx = idx }) entries,
        insert key (norm ∷ []) seen,
      )
      | some entry ↦ if contains seen_paths norm then (entries, seen) else (
        insert key (record entry { paths = entry.paths +++ path ∷ [] }) entries,
        insert key (norm ∷ seen_paths) seen,
      )
    ]

-- sort.Slice by firstSeenIdx
insert_entry : String × RegexVsrEntry → Map String RegexVsrEntry → Map String RegexVsrEntry
insert_entry e [] = e ∷ []
insert_entry e (f ∷ fs) =
    if ltb f.1.first_seen_idx e.1.first_seen_idx then f ∷ insert_entry e fs else e ∷ f ∷ fs

unfoldable pub sort_entries : Map String RegexVsrEntry → Map String RegexVsrEntry
unfolding insert_entry
sort_entries [] = []
sort_entries (e ∷ es) = insert_entry e (sort_entries es)

module _ (env : Environment) where
  -- one entry: the route if it is valid with all of its paths, and else a warning
  unfoldable pub regex_vsr : String → String × RegexVsrEntry → List VirtualServerRoute × List String
  regex_vsr vs_host (key, entry) =
      elim (env.validate_virtual_server_route_for_virtual_server entry.vsr vs_host entry.paths) [
        | none ↦ (entry.vsr ∷ [], [])
        | some err ↦ ([], ("VirtualServerRoute " ++ (key ++ (" is invalid: " ++ err))) ∷ [])
      ]

  unfoldable pub regex_vsrs :
      String → Map String RegexVsrEntry → List VirtualServerRoute × List String
  unfolding regex_vsr
  regex_vsrs vs_host [] = ([], [])
  regex_vsrs vs_host (e ∷ es) =
      let (vsrs, warnings) = regex_vsr vs_host e in
      let (vsrs', warnings') = regex_vsrs vs_host es in (vsrs +++ vsrs', warnings +++ warnings')

  unfoldable pub validate_and_build_regex_vsrs :
      Map String RegexVsrEntry → String → List VirtualServerRoute × List String
  unfolding regex_vsrs sort_entries
  validate_and_build_regex_vsrs entries vs_host = regex_vsrs vs_host (sort_entries entries)
