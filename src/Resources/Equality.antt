-- ===== src/Resources/Equality.antt =====
-- The method IsEqual of the resources, and the comparisons that it makes.
use ingress_nextgen.Common.{
  Bool, List, String, [], all, bool_eq, contains, false, length, none, some, string_eq, true, ℕ_eq,
  ◌&&◌, ◌==◌, ◌∷◌,
}
use ingress_nextgen.Common.Maps.{Map, lookup}
use ingress_nextgen.Objects.{ObjectMeta, VirtualServerRoute}
use ingress_nextgen.Resources.{
  IngressConfiguration, MinionConfiguration, Resource, TransportServerConfiguration,
  VirtualServerConfiguration, ingress, transport_server, virtual_server,
}

unfoldable pub compare_object_metas : ObjectMeta → ObjectMeta → Bool
compare_object_metas meta1 meta2 =
    meta1.namespace == meta2.namespace
    && meta1.name == meta2.name
    && meta1.generation == meta2.generation

-- `reflect.DeepEqual` of two maps with comparable values: as many keys, and each key of the one has
-- its value in the other. A nil map is the empty one here; DeepEqual tells them apart.
module _ {V : Type 0} (eq : V → V → Bool) where
  unfoldable pub entry_in : Map String V → String × V → Bool
  entry_in other (k, v) = elim (lookup k other) [ none ↦ false | some w ↦ eq v w ]

  unfoldable pub deep_equal : Map String V → Map String V → Bool
  unfolding entry_in
  deep_equal m other = length m == length other && all (entry_in other) m

unfoldable pub compare_object_metas_with_annotations : ObjectMeta → ObjectMeta → Bool
unfolding compare_object_metas
compare_object_metas_with_annotations meta1 meta2 =
    compare_object_metas meta1 meta2
    && deep_equal (λ a b. a == b) meta1.annotations meta2.annotations

-- the loop over the minions, after the test that there are as many on both sides
unfoldable pub equal_minions : List MinionConfiguration → List MinionConfiguration → Bool
equal_minions [] [] = true
equal_minions (m ∷ ms) (n ∷ ns) =
    compare_object_metas_with_annotations m.ingress.meta n.ingress.meta && equal_minions ms ns
equal_minions _ _ = false

unfoldable pub equal_routes : List VirtualServerRoute → List VirtualServerRoute → Bool
equal_routes [] [] = true
equal_routes (r ∷ rs) (s ∷ ss) = compare_object_metas r.meta s.meta && equal_routes rs ss
equal_routes _ _ = false

-- one round of the loop over the selectors: as many routes, and each of the other side is among ours
unfoldable pub equal_selector : Map String (List String) → String × List String → Bool
equal_selector other (selector, routes) = elim (lookup selector other) [
  | none ↦ false
  | some other_routes ↦ length routes == length other_routes && all (contains routes) other_routes
]

unfoldable pub is_equal_ingress : IngressConfiguration → IngressConfiguration → Bool
unfolding equal_minions compare_object_metas_with_annotations deep_equal
is_equal_ingress ic other =
    compare_object_metas_with_annotations ic.ingress.meta other.ingress.meta
    && deep_equal bool_eq ic.valid_hosts other.valid_hosts
    && bool_eq ic.is_master other.is_master
    && length ic.minions == length other.minions
    && equal_minions ic.minions other.minions

unfoldable pub is_equal_virtual_server :
    VirtualServerConfiguration → VirtualServerConfiguration → Bool
unfolding equal_routes compare_object_metas equal_selector
is_equal_virtual_server vsc other =
    compare_object_metas vsc.virtual_server.meta other.virtual_server.meta
    && length vsc.virtual_server_routes == length other.virtual_server_routes
    && equal_routes vsc.virtual_server_routes other.virtual_server_routes
    && length vsc.virtual_server_route_selectors == length other.virtual_server_route_selectors
    && all (equal_selector other.virtual_server_route_selectors) vsc.virtual_server_route_selectors

unfoldable pub is_equal_transport_server :
    TransportServerConfiguration → TransportServerConfiguration → Bool
unfolding compare_object_metas
is_equal_transport_server tsc other =
    compare_object_metas tsc.transport_server.meta other.transport_server.meta
    && tsc.listener_port == other.listener_port

-- IsEqual: two resources of different kinds are not equal
unfoldable pub is_equal : Resource → Resource → Bool
unfolding is_equal_ingress is_equal_virtual_server is_equal_transport_server
is_equal (ingress ic) (ingress other) = is_equal_ingress ic other
is_equal (virtual_server vsc) (virtual_server other) = is_equal_virtual_server vsc other
is_equal (transport_server tsc) (transport_server other) = is_equal_transport_server tsc other
is_equal _ _ = false
