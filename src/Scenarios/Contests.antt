-- ===== src/Scenarios/Contests.antt =====
-- Contests for a host, and duplicate routes, at concrete inputs.
use mathlib.Core.Option.{some-injective}
use ingress_nextgen.Common.{
  Bool-cases, List, String, [], contains, if◌then◌else◌, inl, inr, none, refl, some, string_eq,
  true, ℕ_eq, ◌&&◌, ◌==◌, ◌∷◌, ◌≡◌,
}
use ingress_nextgen.Common.Maps.{Map, lookup}
use ingress_nextgen.Objects.{VirtualServerRoute}
use ingress_nextgen.Resources.{get_key_with_kind, get_object_meta, get_resource_key, virtual_server}
use ingress_nextgen.Hosts.{Building, add_resource}
use ingress_nextgen.Hosts.Contest.{IsHeld, IsLater, IsUnbeaten, add_resource_lem}
use ingress_nextgen.Routes.Clean.{deduplicate_vsr_slice, sync_vsr_selectors}
use ingress_nextgen.Routes.Unique.{
  count_route, deduplicate_vsr_slice_lem, keys_of, sync_vsr_selectors_lem,
}
use ingress_nextgen.Scenarios.{cafe, meta_of, server, tea}

-- The VirtualServer `cafe` holds its host.
abbrev cafe_alone : Building
cafe_alone = record {
  holders = (cafe.host, "VirtualServer/default/cafe") ∷ [];
  resources = ("VirtualServer/default/cafe", virtual_server (server cafe)) ∷ [];
}

cafe_alone-IsHeld : IsHeld cafe_alone
unfolding lookup get_object_meta server
cafe_alone-IsHeld h g q = elim (Bool-cases (cafe.host == h)) [
  | inl t ↦
      (let e : "VirtualServer/default/cafe" ≡ g = some-injective _ _ (rw t at q) in
        (cafe.meta, rw (← e) refl))
  | inr n ↦ cc (rw n at q)
]

cafe_alone_new :
    lookup (get_key_with_kind (virtual_server (server tea))) cafe_alone.resources ≡ none
unfolding lookup get_key_with_kind get_resource_key server
cafe_alone_new = refl

add_resource_lem_example :
    (b : Building) × (add_resource (virtual_server (server tea)) (tea.host ∷ []) cafe_alone
      ≡ some b)
    × IsLater cafe_alone b
    × ((h : String)
        → contains (tea.host ∷ []) h ≡ true
        → IsUnbeaten b (get_object_meta (virtual_server (server tea))) h)
add_resource_lem_example =
    add_resource_lem (virtual_server (server tea)) (tea.host ∷ []) cafe_alone cafe_alone-IsHeld
      cafe_alone_new

abbrev route_named : String → VirtualServerRoute
route_named name = record {
  meta = meta_of name name 3;
  host = "cafe.example.com";
  upstreams = [];
  subroutes = [];
}

abbrev twice : List VirtualServerRoute
twice = route_named "a" ∷ route_named "b" ∷ route_named "a" ∷ []

deduplicate_vsr_slice_lem_example :
    count_route "default/a" (deduplicate_vsr_slice cafe.meta twice).0
    ≡ (if contains (keys_of twice) "default/a" then 1 else 0)
deduplicate_vsr_slice_lem_example = deduplicate_vsr_slice_lem cafe.meta "default/a" twice

abbrev selected : Map String (List String)
selected = ("app=tea", "default/a" ∷ "default/c" ∷ []) ∷ []

sync_vsr_selectors_lem_example :
    (kept : List String) × (lookup "app=tea" (sync_vsr_selectors selected twice) ≡ some kept)
    × ((k : String)
        → contains kept k
          ≡ (contains ("default/a" ∷ "default/c" ∷ []) k && contains (keys_of twice) k))
unfolding lookup
sync_vsr_selectors_lem_example = sync_vsr_selectors_lem selected twice "app=tea" refl
