-- ===== src/Resources.antt =====
-- The configuration resources of internal/k8s/configuration.go: Ingresses with their minions,
-- VirtualServers with their routes, TransportServers, and what all of them can do (`Resource`).
pub mod Equality
pub mod Order
pub mod Same
use ingress_nextgen.Common.{
  Bool, List, String, [], false, if◌then◌else◌, ltb, str_ltb, string_eq, true, ℕ, ℕ_eq, ◌+++◌, ◌++◌,
  ◌==◌, ◌∷◌,
}
use ingress_nextgen.Common.Maps.{Map}
use ingress_nextgen.Objects.{
  Ingress, ObjectMeta, TransportServer, VirtualServer, VirtualServerRoute,
}

abbrev pub ingress_kind : String
ingress_kind = "Ingress"

abbrev pub virtual_server_kind : String
virtual_server_kind = "VirtualServer"

abbrev pub virtual_server_route_kind : String
virtual_server_route_kind = "VirtualServerRoute"

abbrev pub transport_server_kind : String
transport_server_kind = "TransportServer"

-- Whether the first object wins: the older one, and of two of one age the one with the larger UID.
unfoldable pub choose_object_meta_winner : ObjectMeta → ObjectMeta → Bool
choose_object_meta_winner meta1 meta2 =
    if meta1.creation_timestamp == meta2.creation_timestamp
    then str_ltb meta2.uid meta1.uid
    else ltb meta1.creation_timestamp meta2.creation_timestamp

-- namespace/name
unfoldable pub get_resource_key : ObjectMeta → String
get_resource_key meta = meta.namespace ++ ("/" ++ meta.name)

-- kind/namespace/name
unfoldable pub get_resource_key_with_kind : String → ObjectMeta → String
get_resource_key_with_kind kind meta = kind ++ ("/" ++ (meta.namespace ++ ("/" ++ meta.name)))

pub record MinionConfiguration : Type 0 where
  pub ingress : Ingress
  pub valid_paths : Map String Bool

pub record IngressConfiguration : Type 0 where
  pub ingress : Ingress
  pub is_master : Bool
  pub minions : List MinionConfiguration
  pub valid_hosts : Map String Bool
  pub warnings : List String
  pub child_warnings : Map String (List String)

unfoldable pub new_regular_ingress_configuration : Ingress → IngressConfiguration
new_regular_ingress_configuration ing = record {
  ingress = ing;
  is_master = false;
  minions = [];
  valid_hosts = [];
  warnings = [];
  child_warnings = [];
}

unfoldable pub new_master_ingress_configuration :
    Ingress → List MinionConfiguration → Map String (List String) → IngressConfiguration
new_master_ingress_configuration ing minions child_warnings = record {
  ingress = ing;
  is_master = true;
  minions = minions;
  valid_hosts = [];
  warnings = [];
  child_warnings = child_warnings;
}

unfoldable pub new_minion_configuration : Ingress → MinionConfiguration
new_minion_configuration ing = record { ingress = ing; valid_paths = [] }

pub record VirtualServerConfiguration : Type 0 where
  pub virtual_server : VirtualServer
  pub virtual_server_routes : List VirtualServerRoute
  pub virtual_server_route_selectors : Map String (List String)
  pub warnings : List String
  pub http_port : ℕ
  pub https_port : ℕ
  pub http_ipv4 : String
  pub http_ipv6 : String
  pub https_ipv4 : String
  pub https_ipv6 : String

unfoldable pub new_virtual_server_configuration :
    VirtualServer
    → List VirtualServerRoute
    → Map String (List String)
    → List String
    → VirtualServerConfiguration
new_virtual_server_configuration vs vsrs selectors warnings = record {
  virtual_server = vs;
  virtual_server_routes = vsrs;
  virtual_server_route_selectors = selectors;
  warnings = warnings;
  http_port = 0;
  https_port = 0;
  http_ipv4 = "";
  http_ipv6 = "";
  https_ipv4 = "";
  https_ipv6 = "";
}

pub record TransportServerConfiguration : Type 0 where
  pub listener_port : ℕ
  pub ipv4 : String
  pub ipv6 : String
  pub transport_server : TransportServer
  pub warnings : List String

unfoldable pub new_transport_server_configuration : TransportServer → TransportServerConfiguration
new_transport_server_configuration ts = record {
  listener_port = 0;
  ipv4 = "";
  ipv6 = "";
  transport_server = ts;
  warnings = [];
}

-- The interface `Resource` has these three implementations.
pub data Resource : Type 0 where
  ingress : IngressConfiguration → Resource
  virtual_server : VirtualServerConfiguration → Resource
  transport_server : TransportServerConfiguration → Resource

-- GetObjectMeta
unfoldable pub get_object_meta : Resource → ObjectMeta
get_object_meta (ingress ic) = ic.ingress.meta
get_object_meta (virtual_server vsc) = vsc.virtual_server.meta
get_object_meta (transport_server tsc) = tsc.transport_server.meta

-- GetKeyWithKind
unfoldable pub get_key_with_kind : Resource → String
unfolding get_resource_key
get_key_with_kind (ingress ic) = ingress_kind ++ ("/" ++ get_resource_key ic.ingress.meta)
get_key_with_kind (virtual_server vsc) =
    virtual_server_kind ++ ("/" ++ get_resource_key vsc.virtual_server.meta)
get_key_with_kind (transport_server tsc) =
    transport_server_kind ++ ("/" ++ get_resource_key tsc.transport_server.meta)

-- Wins
unfoldable pub wins : Resource → Resource → Bool
unfolding choose_object_meta_winner get_object_meta
wins r other = choose_object_meta_winner (get_object_meta r) (get_object_meta other)

-- AddWarning
unfoldable pub add_warning : Resource → String → Resource
add_warning (ingress ic) w = ingress (record ic { warnings = ic.warnings +++ w ∷ [] })
add_warning (virtual_server vsc) w =
    virtual_server (record vsc { warnings = vsc.warnings +++ w ∷ [] })
add_warning (transport_server tsc) w =
    transport_server (record tsc { warnings = tsc.warnings +++ w ∷ [] })
