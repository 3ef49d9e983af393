-- ===== src/Scenarios/Rebuilds.antt =====
-- Rebuilds of the hosts at a concrete input.
use ingress_nextgen.Common.{
  String, [], false, refl, some, string_eq, true, ℕ_eq, ◌+++◌, ◌↔◌, ◌∷◌, ◌≡◌, ◌⊎◌,
}
use ingress_nextgen.Common.Maps.{insert, lookup, sorted_keys}
use ingress_nextgen.Resources.{get_key_with_kind, virtual_server}
use ingress_nextgen.Changes.{Operation, change, final_op}
use ingress_nextgen.Hosts.Holding.{IsActive, IsTable}
use ingress_nextgen.Hosts.Applied.{IsConfigured}
use ingress_nextgen.Hosts.Detect.{host_changes}
use ingress_nextgen.Hosts.{holder_of, resolve}
use ingress_nextgen.Configuration.Rebuild.{Outcome, rebuild_hosts}
use ingress_nextgen.Configuration.Build.{add_virtual_servers, build_hosts_and_resources}
use ingress_nextgen.Configuration.Stands.{rebuild_hosts-IsTable}
use ingress_nextgen.Configuration.Outcome.{rebuild_hosts_lem}
use ingress_nextgen.Scenarios.{accepting, cafe, server}
use ingress_nextgen.Scenarios.Runs.{with_cafe, with_cafe-IsReachable, with_cafe-IsSound}
use ingress_nextgen.Configuration.Reached.{reachable-IsTable}
use ingress_nextgen.Configuration.Steps.{after, startup_done, step}
use ingress_nextgen.Configuration.Operations.{complete_startup}
use ingress_nextgen.Configuration.Operations.Reporting.{add_error, error_problem, on_change}
use ingress_nextgen.Configuration.Operations.Reported.{add_error_lem, carries_error, names_key}
use ingress_nextgen.Problems.{virtual_server_object}

abbrev rebuilt : Outcome
rebuilt = (
  record with_cafe { hosts = (cafe.host, virtual_server (server cafe)) ∷ [] },
  change Operation.add_or_update (virtual_server (server cafe)) ∷ [],
  [],
)

rebuild_with_cafe : rebuild_hosts accepting with_cafe ≡ some rebuilt
unfolding rebuild_hosts build_hosts_and_resources server sorted_keys add_virtual_servers lookup
    insert get_key_with_kind resolve host_changes holder_of
rebuild_with_cafe = refl

empty-IsTable : IsTable with_cafe.hosts
unfolding lookup
empty-IsTable h h' r q = cc q

rebuild_hosts-IsTable_example : IsTable rebuilt.0.hosts
rebuild_hosts-IsTable_example =
    rebuild_hosts-IsTable accepting with_cafe rebuilt with_cafe-IsSound rebuild_with_cafe

rebuild_hosts_lem_example :
    IsConfigured "VirtualServer/default/cafe" with_cafe.hosts
      (final_op "VirtualServer/default/cafe" rebuilt.1)
    ↔ IsActive "VirtualServer/default/cafe" rebuilt.0.hosts
rebuild_hosts_lem_example =
    rebuild_hosts_lem accepting with_cafe rebuilt "VirtualServer/default/cafe" with_cafe-IsSound
      empty-IsTable rebuild_with_cafe

-- The outcome of the end of the startup.
abbrev started : Outcome
started = (record (rebuilt.0) { startup_complete = true }, rebuilt.1, [])

step-startup_done : step accepting startup_done with_cafe ≡ some started
unfolding step complete_startup rebuild_hosts build_hosts_and_resources server sorted_keys
    add_virtual_servers lookup insert get_key_with_kind resolve host_changes holder_of
step-startup_done = refl

reachable-IsTable_example : IsTable started.0.hosts
reachable-IsTable_example =
    reachable-IsTable accepting started.0
      (after startup_done started with_cafe-IsReachable step-startup_done)

abbrev cafe_key : String
cafe_key = "VirtualServer/default/cafe"

add_error_lem_example :
    ((names_key cafe_key rebuilt.1 ≡ true)
      × (carries_error cafe_key "bad"
            (add_error (on_change cafe_key "bad" (virtual_server_object cafe) "rejected") rebuilt).1
          ≡ true)
      × ((add_error (on_change cafe_key "bad" (virtual_server_object cafe) "rejected") rebuilt).2
          ≡ rebuilt.2))
    ⊎ ((names_key cafe_key rebuilt.1 ≡ false)
        × ((add_error (on_change cafe_key "bad" (virtual_server_object cafe) "rejected") rebuilt).1
            ≡ rebuilt.1)
        × ((add_error (on_change cafe_key "bad" (virtual_server_object cafe) "rejected") rebuilt).2
            ≡ rebuilt.2 +++ error_problem (virtual_server_object cafe) "rejected" ∷ []))
add_error_lem_example = add_error_lem cafe_key "bad" "rejected" (virtual_server_object cafe) rebuilt
