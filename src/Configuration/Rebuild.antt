-- ===== src/Configuration/Rebuild.antt =====
-- rebuildHosts and rebuildListenerHosts: the tables are built anew, and the differences come back as
-- changes and problems.
use ingress_nextgen.Common.{List, Option, String, [], map, none, some, string_eq, ℕ_eq, ◌>>=◌}
use ingress_nextgen.Common.Maps.{Map, lookup, sorted_keys}
use ingress_nextgen.Environment.{Environment}
use ingress_nextgen.Resources.{Resource, TransportServerConfiguration}
use ingress_nextgen.Problems.{ConfigurationProblem, detect_changes_in_problems}
use ingress_nextgen.Changes.{ResourceChange, change_key, squash_resource_changes}
use ingress_nextgen.Hosts.{Building, resolve}
use ingress_nextgen.Hosts.Detect.{host_changes}
use ingress_nextgen.Listeners.{
  ListenerHostKey, build_listener_hosts, create_resource_changes_for_listeners,
  detect_changes_in_listener_hosts, listener_host_key_eq, resolve_listeners, ts_resources,
}
use ingress_nextgen.Listeners.Problem.{add_problems_for_ts_configs_without_active_listener}
use ingress_nextgen.Configuration.{Configuration}
use ingress_nextgen.Configuration.Build.{build_hosts_and_resources}
use ingress_nextgen.Configuration.Reports.{
  Problems, add_problems_for_orphan_minions, add_problems_for_orphan_or_ignored_vsrs,
  add_problems_for_resources_without_active_host, update_active_hosts_for_ingresses,
  warn_virtual_servers,
}

-- A change refers to the latest version of its resource.
unfoldable pub refresh_change : Map String Resource → ResourceChange → ResourceChange
refresh_change resources ch = elim (lookup (change_key ch) resources) [
  | none ↦ ch
  | some r ↦ record ch { resource = r }
]

unfoldable pub refresh_changes : Map String Resource → List ResourceChange → List ResourceChange
unfolding refresh_change
refresh_changes resources = map (refresh_change resources)

abbrev pub Outcome : Type 0
Outcome = Configuration × List ResourceChange × List ConfigurationProblem

-- the problems of the hosts, and of the minions and routes without one
unfoldable pub host_problems_of : Configuration → Building → Option Problems
unfolding add_problems_for_resources_without_active_host add_problems_for_orphan_minions
    add_problems_for_orphan_or_ignored_vsrs sorted_keys
host_problems_of c b = do
  problems ← add_problems_for_resources_without_active_host b b.resources []
  some (
      add_problems_for_orphan_or_ignored_vsrs b c.virtual_server_routes
        (sorted_keys c.virtual_server_routes)
        (add_problems_for_orphan_minions b c.ingresses c.minions_by_host problems))

-- The resources are pointers, and the last warnings are added to those that the changes and the
-- table already name: so both are read off at the end, from the resources `warned`.
unfoldable pub rebuild_hosts : Environment → Configuration → Option Outcome
unfolding build_hosts_and_resources update_active_hosts_for_ingresses host_changes host_problems_of
    warn_virtual_servers refresh_changes detect_changes_in_problems resolve
rebuild_hosts env c = do
  built ← build_hosts_and_resources env c
  active ← update_active_hosts_for_ingresses built
  let changes = host_changes c.hosts (resolve active)
  problems ← host_problems_of c active
  warned ← warn_virtual_servers c.global_configuration c.listener_map active.resources active
  some (
    record c { hosts = resolve warned; host_problems = problems },
    refresh_changes warned.resources changes,
    detect_changes_in_problems problems c.host_problems,
  )

unfoldable pub listener_changes :
    Map ListenerHostKey TransportServerConfiguration
    → Map ListenerHostKey TransportServerConfiguration
    → List ResourceChange
unfolding detect_changes_in_listener_hosts create_resource_changes_for_listeners
    squash_resource_changes
listener_changes old new =
    let d = detect_changes_in_listener_hosts old new in
    squash_resource_changes
      (create_resource_changes_for_listeners d.removed d.updated d.added old new)

-- The map newTSConfigs has the keys of the objects, without the kind that the change's key begins
-- with.
unfoldable pub rebuild_listener_hosts : Configuration → Option Outcome
unfolding build_listener_hosts listener_changes resolve_listeners refresh_changes
    detect_changes_in_problems add_problems_for_ts_configs_without_active_listener
rebuild_listener_hosts c = do
  built ← build_listener_hosts c.global_configuration c.transport_servers
  let new = resolve_listeners built.ts_configs built.holders
  let problems = add_problems_for_ts_configs_without_active_listener new built.ts_configs []
  some (
    record c { listener_hosts = new; listener_problems = problems },
    refresh_changes (ts_resources built.ts_configs) (listener_changes c.listener_hosts new),
    detect_changes_in_problems problems c.listener_problems,
  )
