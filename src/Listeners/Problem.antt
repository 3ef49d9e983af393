-- ===== src/Listeners/Problem.antt =====
-- addProblemsForTSConfigsWithoutActiveListener
use ingress_nextgen.Common.{
  Option, String, [], false, if◌then◌else◌, none, not, some, string_eq, ℕ_eq, ◌++◌, ◌==◌, ◌∷◌,
}
use ingress_nextgen.Common.Maps.{Map, insert, lookup}
use ingress_nextgen.Problems.{ConfigObject, ConfigurationProblem, transport_server_object}
use ingress_nextgen.Resources.{TransportServerConfiguration, get_key_with_kind, transport_server}
use ingress_nextgen.Resources.Equality.{is_equal_transport_server}
use ingress_nextgen.Listeners.{ListenerHostKey, listener_host_key_eq}

abbrev pub rejected : ConfigObject → String → ConfigurationProblem
rejected object message = record {
  object = object;
  is_error = false;
  reason = "Rejected";
  message = message;
}

-- the problem of one TransportServer, if it does not hold its listener
unfoldable pub listener_problem :
    Map ListenerHostKey TransportServerConfiguration
    → TransportServerConfiguration
    → Option ConfigurationProblem
unfolding is_equal_transport_server
listener_problem listener_hosts tsc =
    let ts = tsc.transport_server in
    elim (lookup (record { listener_name = ts.listener_name; host = ts.host }) listener_hosts) [
      | none ↦ some (
          rejected (transport_server_object ts)
            ("Listener " ++ (ts.listener_name ++ " doesn't exist")))
      | some holder ↦
          if not (is_equal_transport_server tsc holder)
          then some (
              rejected (transport_server_object ts) (
                "Listener "
                ++ (ts.listener_name
                    ++ (" with host "
                        ++ ((if ts.host == "" then "empty host" else ts.host)
                            ++ " is taken by another resource")))))
          else none
    ]

unfoldable pub add_problems_for_ts_configs_without_active_listener :
    Map ListenerHostKey TransportServerConfiguration
    → Map String TransportServerConfiguration
    → Map String ConfigurationProblem
    → Map String ConfigurationProblem
unfolding listener_problem
add_problems_for_ts_configs_without_active_listener listener_hosts [] problems = problems
add_problems_for_ts_configs_without_active_listener listener_hosts ((k, tsc) ∷ m) problems =
    add_problems_for_ts_configs_without_active_listener listener_hosts m
      (elim (listener_problem listener_hosts tsc) [
        | none ↦ problems
        | some p ↦ insert (get_key_with_kind (transport_server tsc)) p problems
      ])
