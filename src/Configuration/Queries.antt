-- ===== src/Configuration/Queries.antt =====
-- What the controller asks of the configuration: its resources, and how many TransportServers it
-- has of each kind.
use ingress_nextgen.Common.{
  Bool, List, String, [], false, if◌then◌else◌, none, some, string_eq, suc, true, ℕ, ℕ_eq, ◌+++◌,
  ◌+◌, ◌==◌, ◌∷◌,
}
use ingress_nextgen.Common.Maps.{Map, insert, lookup, sorted_keys}
use ingress_nextgen.Environment.{Environment}
use ingress_nextgen.Resources.{
  Resource, TransportServerConfiguration, get_key_with_kind, ingress, transport_server,
  virtual_server,
}
use ingress_nextgen.Listeners.{ListenerHostKey, listener_host_key_eq}
use ingress_nextgen.Configuration.{Configuration}

pub record ResourceFilter : Type 0 where
  pub ingresses : Bool
  pub virtual_servers : Bool
  pub transport_servers : Bool

unfoldable pub passes : ResourceFilter → Resource → Bool
passes f (ingress ic) = f.ingresses
passes f (virtual_server vsc) = f.virtual_servers
passes f (transport_server tsc) = f.transport_servers

-- the loop over the hosts
unfoldable pub resources_of_hosts :
    ResourceFilter → Map String Resource → Map String Resource → Map String Resource
unfolding passes
resources_of_hosts f [] found = found
resources_of_hosts f ((h, r) ∷ hosts) found =
    resources_of_hosts f hosts (if passes f r then insert (get_key_with_kind r) r found else found)

-- the loop over the listener hosts
unfoldable pub resources_of_listeners :
    Map ListenerHostKey TransportServerConfiguration → Map String Resource → Map String Resource
resources_of_listeners [] found = found
resources_of_listeners ((lk, tsc) ∷ m) found =
    resources_of_listeners m
      (insert (get_key_with_kind (transport_server tsc)) (transport_server tsc) found)

unfoldable pub values_at : Map String Resource → List String → List Resource
values_at m [] = []
values_at m (k ∷ ks) = elim (lookup k m) [ none ↦ [] | some r ↦ r ∷ [] ] +++ values_at m ks

unfoldable pub get_resources_with_filter : ResourceFilter → Configuration → List Resource
unfolding resources_of_hosts resources_of_listeners values_at sorted_keys
get_resources_with_filter f c =
    let from_hosts = resources_of_hosts f c.hosts [] in
    let found =
      if f.transport_servers
      then resources_of_listeners c.listener_hosts from_hosts
      else from_hosts in
    values_at found (sorted_keys found)

unfoldable pub get_resources : Configuration → List Resource
unfolding get_resources_with_filter
get_resources c =
    get_resources_with_filter
      (record { ingresses = true; virtual_servers = true; transport_servers = true }) c

pub record TransportServerMetrics : Type 0 where
  pub total_tls_passthrough : ℕ
  pub total_tcp : ℕ
  pub total_udp : ℕ

abbrev pub is_transport_server : Resource → Bool
is_transport_server (transport_server _) = true
is_transport_server _ = false

unfoldable pub count_passthrough : Map String Resource → ℕ
count_passthrough [] = 0
count_passthrough ((h, r) ∷ m) =
    if is_transport_server r then suc (count_passthrough m) else count_passthrough m

unfoldable pub count_listeners :
    Map ListenerHostKey TransportServerConfiguration
    → TransportServerMetrics
    → TransportServerMetrics
count_listeners [] t = t
count_listeners ((lk, tsc) ∷ m) t = count_listeners m (
    if tsc.transport_server.listener_protocol == "TCP"
    then record t { total_tcp = t.total_tcp + 1 }
    else record t { total_udp = t.total_udp + 1 })

unfoldable pub get_transport_server_metrics : Environment → Configuration → TransportServerMetrics
unfolding count_passthrough count_listeners
get_transport_server_metrics env c = count_listeners c.listener_hosts (record {
  total_tls_passthrough = if env.is_tls_passthrough_enabled then count_passthrough c.hosts else 0;
  total_tcp = 0;
  total_udp = 0;
})
