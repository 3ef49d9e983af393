-- ===== src/Listeners.antt =====
-- TransportServers on the listeners of the GlobalConfiguration (internal/k8s/configuration.go): which
-- of them holds a pair of a listener and a host, and what changes.
pub mod Problem
pub mod Keys
use text.Mathlib.TextEquality.{eq_iff}
use ingress_nextgen.Common.{
  Bool, Eq, List, Option, String, [], arith, if◌then◌else◌, none, not, some, str_ltb, string_eq,
  true, ℕ_eq, ◌&&◌, ◌+++◌, ◌++◌, ◌==◌, ◌>>=◌, ◌↔◌, ◌∷◌, ◌≡◌,
}
use ingress_nextgen.Common.Maps.{Map, insert, keys, lookup}
use ingress_nextgen.Objects.{GlobalConfiguration, Listener, TransportServer}
use ingress_nextgen.Resources.{
  Resource, TransportServerConfiguration, choose_object_meta_winner,
  new_transport_server_configuration, transport_server,
}
use ingress_nextgen.Resources.Equality.{is_equal_transport_server}
use ingress_nextgen.Changes.{ResourceChange, create_resource_changes}
use ingress_nextgen.Hosts.Detect.{HostChanges, missing_from}

pub record ListenerHostKey : Type 0 where
  pub listener_name : String
  pub host : String

unfoldable pub key_beq : ListenerHostKey → ListenerHostKey → Bool
key_beq a b = a.listener_name == b.listener_name && a.host == b.host

pub key_beq_iff : (a b : ListenerHostKey) → (key_beq a b ≡ true) ↔ (a ≡ b)
unfolding key_beq
key_beq_iff a b = ground (arith, eq_iff a.listener_name b.listener_name, eq_iff a.host b.host)

instance abbrev pub listener_host_key_eq : Eq ListenerHostKey
unfolding key_beq
listener_host_key_eq = record { equals = key_beq; equals_iff = key_beq_iff }

-- String, the text by which the keys are sorted
unfoldable pub listener_host_key_string : ListenerHostKey → String
listener_host_key_string k = k.listener_name ++ ("|" ++ k.host)

pub insert_key : ListenerHostKey → List ListenerHostKey → List ListenerHostKey
unfolding listener_host_key_string
insert_key k [] = k ∷ []
insert_key k (j ∷ js) =
    if str_ltb (listener_host_key_string j) (listener_host_key_string k)
    then j ∷ insert_key k js
    else k ∷ j ∷ js

pub sort_keys : List ListenerHostKey → List ListenerHostKey
unfolding insert_key
sort_keys [] = []
sort_keys (k ∷ ks) = insert_key k (sort_keys ks)

unfoldable pub get_sorted_listener_host_keys :
    Map ListenerHostKey TransportServerConfiguration → List ListenerHostKey
unfolding sort_keys keys
get_sorted_listener_host_keys m = sort_keys (keys m)

-- The maps newListenerHosts and newTSConfigs under construction, which share their values: the
-- configurations stand once, by the keys of their objects, and a listener has the key of its holder.
pub record ListenerBuilding : Type 0 where
  pub holders : Map ListenerHostKey String
  pub ts_configs : Map String TransportServerConfiguration

-- The first listener of the name and the protocol.
unfoldable pub find_listener : TransportServer → List Listener → Option Listener
find_listener ts [] = none
find_listener ts (l ∷ ls) =
    if ts.listener_name == l.name && ts.listener_protocol == l.protocol
    then some l
    else find_listener ts ls

abbrev pub listener_warning : String → String → String
listener_warning listener host =
    "listener " ++ (listener ++ (" and host " ++ (host ++ " are taken by another resource")))

unfoldable pub add_ts_warning : TransportServerConfiguration → String → TransportServerConfiguration
add_ts_warning tsc w = record tsc { warnings = tsc.warnings +++ w ∷ [] }

-- holder.Wins(tsc)
unfoldable pub ts_wins : TransportServerConfiguration → TransportServerConfiguration → Bool
unfolding choose_object_meta_winner
ts_wins a b = choose_object_meta_winner a.transport_server.meta b.transport_server.meta

unfoldable pub settle_listener :
    ListenerHostKey
    → String
    → TransportServerConfiguration
    → String
    → TransportServerConfiguration
    → ListenerBuilding
    → ListenerBuilding
unfolding ts_wins add_ts_warning
settle_listener lk holder_key holder key tsc b =
    if not (ts_wins holder tsc)
    then record {
      holders = insert lk key b.holders;
      ts_configs =
          insert holder_key (add_ts_warning holder (listener_warning lk.listener_name lk.host))
            b.ts_configs;
    }
    else record b {
      ts_configs =
          insert key (add_ts_warning tsc (listener_warning lk.listener_name lk.host)) b.ts_configs;
    }

-- The TransportServer, by its key, claims the listener and host.
unfoldable pub claim_listener :
    String
    → TransportServerConfiguration
    → ListenerHostKey
    → ListenerBuilding
    → Option ListenerBuilding
unfolding settle_listener
claim_listener key tsc lk b = elim (lookup lk b.holders) [
  | none ↦ some (record b { holders = insert lk key b.holders })
  | some holder_key ↦ do
    holder ← lookup holder_key b.ts_configs
    some (settle_listener lk holder_key holder key tsc b)
]

-- The configuration of a TransportServer on a listener.
unfoldable pub on_listener : TransportServer → Listener → TransportServerConfiguration
unfolding new_transport_server_configuration
on_listener ts l = record (new_transport_server_configuration ts) {
  listener_port = l.port;
  ipv4 = l.ipv4;
  ipv6 = l.ipv6;
}

abbrev pub tls_passthrough_listener_protocol : String
tls_passthrough_listener_protocol = "TLS_PASSTHROUGH"

abbrev pub tls_passthrough_listener_name : String
tls_passthrough_listener_name = "tls-passthrough"

-- One round of the loop over the TransportServers, in the order in which the map has them.
unfoldable pub add_transport_server :
    Option GlobalConfiguration
    → String × TransportServer
    → ListenerBuilding
    → Option ListenerBuilding
unfolding claim_listener on_listener find_listener new_transport_server_configuration
add_transport_server gc (key, ts) b =
    if ts.listener_protocol == tls_passthrough_listener_protocol then some b else elim gc [
      | none ↦ some (record b {
        ts_configs = insert key (new_transport_server_configuration ts) b.ts_configs;
      })
      | some g ↦ elim (find_listener ts g.listeners) [
        | none ↦ some (record b {
          ts_configs = insert key (new_transport_server_configuration ts) b.ts_configs;
        })
        | some l ↦
            claim_listener key (on_listener ts l)
              (record { listener_name = l.name; host = ts.host })
              (record b { ts_configs = insert key (on_listener ts l) b.ts_configs })
      ]
    ]

unfoldable pub add_transport_servers :
    Option GlobalConfiguration
    → Map String TransportServer
    → ListenerBuilding
    → Option ListenerBuilding
unfolding add_transport_server
add_transport_servers gc [] b = some b
add_transport_servers gc (e ∷ es) b = add_transport_server gc e b >>= add_transport_servers gc es

unfoldable pub build_listener_hosts :
    Option GlobalConfiguration → Map String TransportServer → Option ListenerBuilding
unfolding add_transport_servers
build_listener_hosts gc ts = add_transport_servers gc ts (record { holders = []; ts_configs = [] })

unfoldable pub resolve_listeners :
    Map String TransportServerConfiguration
    → Map ListenerHostKey String
    → Map ListenerHostKey TransportServerConfiguration
resolve_listeners configs [] = []
resolve_listeners configs ((lk, k) ∷ es) =
    elim (lookup k configs) [ none ↦ [] | some tsc ↦ (lk, tsc) ∷ [] ]
    +++ resolve_listeners configs es

unfoldable pub updated_listener_hosts :
    Map ListenerHostKey TransportServerConfiguration
    → Map ListenerHostKey TransportServerConfiguration
    → List ListenerHostKey
    → List ListenerHostKey
unfolding is_equal_transport_server
updated_listener_hosts old new [] = []
updated_listener_hosts old new (k ∷ ks) =
    elim (lookup k old) [
      | none ↦ []
      | some a ↦ elim (lookup k new) [
        | none ↦ []
        | some b ↦ if is_equal_transport_server a b then [] else k ∷ []
      ]
    ]
    +++ updated_listener_hosts old new ks

unfoldable pub detect_changes_in_listener_hosts :
    Map ListenerHostKey TransportServerConfiguration
    → Map ListenerHostKey TransportServerConfiguration
    → HostChanges ListenerHostKey
unfolding missing_from updated_listener_hosts get_sorted_listener_host_keys
detect_changes_in_listener_hosts old new = record {
  removed = missing_from new (get_sorted_listener_host_keys old);
  updated = updated_listener_hosts old new (get_sorted_listener_host_keys new);
  added = missing_from old (get_sorted_listener_host_keys new);
}

abbrev pub as_resources :
    Map ListenerHostKey TransportServerConfiguration → Map ListenerHostKey Resource
as_resources [] = []
as_resources ((k, tsc) ∷ m) = (k, transport_server tsc) ∷ as_resources m

unfoldable pub create_resource_changes_for_listeners :
    List ListenerHostKey
    → List ListenerHostKey
    → List ListenerHostKey
    → Map ListenerHostKey TransportServerConfiguration
    → Map ListenerHostKey TransportServerConfiguration
    → List ResourceChange
unfolding create_resource_changes
create_resource_changes_for_listeners removed updated added old new =
    create_resource_changes removed updated added (as_resources old) (as_resources new)

-- the configurations as resources, under the keys that they have
abbrev pub ts_resources : Map String TransportServerConfiguration → Map String Resource
ts_resources [] = []
ts_resources ((k, tsc) ∷ m) = (k, transport_server tsc) ∷ ts_resources m
