-- ===== src/Scenarios/Listeners.antt =====
-- The validation of a GlobalConfiguration at concrete inputs.
use ingress_nextgen.Environment.{Environment}
use ingress_nextgen.Common.Maps.{insert, lookup}
use ingress_nextgen.Configuration.{Configuration, new_configuration}
use ingress_nextgen.Configuration.Rebuild.{rebuild_listener_hosts}
use ingress_nextgen.Configuration.Operations.{
  add_or_update_global_configuration, listener_map_of, listeners_of, set_global_configuration,
}
use ingress_nextgen.Configuration.Listening.{reachable-listener_map, validating}
use ingress_nextgen.Configuration.Steps.{after, at_start, put_global_configuration, step}
use ingress_nextgen.Common.{
  List, Memᴰ, String, [], false, if◌then◌else◌, length, none, refl, some, string_eq, true, ℕ, ℕ_eq,
  ◌==◌, ◌↔◌, ◌∷◌, ◌≡◌,
}
use ingress_nextgen.Common.Bytes.{Bytes_eq, bytes}
use ingress_nextgen.Objects.{GlobalConfiguration, Listener}
use ingress_nextgen.Scenarios.{accepting, meta_of}
use ingress_nextgen.Validation.{
  Checks, admit_ports, get_valid_listeners, validate_global_configuration, validate_listener,
}
use ingress_nextgen.Validation.Compatible.{AllCompatible}
use ingress_nextgen.Validation.Kept.{
  validate_global_configuration-AllCompatible, validate_global_configuration-errors,
}
use ingress_nextgen.Validation.Again.{validate_global_configuration_idem}

abbrev checks : Checks
checks = record {
  is_dns1035_label = λ name. if name == "" then bytes "must not be empty" ∷ [] else [];
  is_valid_port_num = λ port. if port == 0 then bytes "must be between 1 and 65535" ∷ [] else [];
  parse_ip_sloppy = λ ip. if ip == "10.0.0.1" then some true else none;
  forbidden_listener_ports = λ port. port == 80;
}

abbrev listener : String → String → ℕ → String → Listener
listener name protocol port ipv4 = record {
  name = name;
  protocol = protocol;
  port = port;
  ipv4 = ipv4;
  ipv6 = "";
  ssl = false;
}

-- The third clashes with the first at its port, the fifth has no name, and the last is forbidden.
abbrev dns : GlobalConfiguration
dns = record {
  meta = meta_of "global" "9" 1;
  listeners =
      listener "dns-tcp" "TCP" 53 ""
      ∷ listener "dns-udp" "UDP" 53 ""
      ∷ listener "dns-http" "HTTP" 53 ""
      ∷ listener "other" "TCP" 5353 "10.0.0.1"
      ∷ listener "" "TCP" 5454 ""
      ∷ listener "web" "HTTP" 80 ""
      ∷ [];
}

abbrev kept : List Listener
kept =
    listener "dns-tcp" "TCP" 53 ""
    ∷ listener "dns-udp" "UDP" 53 ""
    ∷ listener "other" "TCP" 5353 "10.0.0.1"
    ∷ []

validate_dns : (validate_global_configuration checks dns).0.listeners ≡ kept
unfolding validate_global_configuration get_valid_listeners validate_listener admit_ports
    ingress_nextgen.Common.contains
validate_dns = refl

validate_global_configuration-AllCompatible_example :
    AllCompatible (validate_global_configuration checks dns).0.listeners
validate_global_configuration-AllCompatible_example =
    validate_global_configuration-AllCompatible checks dns

validate_global_configuration-errors_example :
    ((validate_global_configuration checks dns).1 ≡ [])
    ↔ ((validate_global_configuration checks dns).0.listeners ≡ dns.listeners)
validate_global_configuration-errors_example = validate_global_configuration-errors checks dns

validate_global_configuration_idem_example :
    validate_global_configuration checks (validate_global_configuration checks dns).0
    ≡ ((validate_global_configuration checks dns).0, [])
validate_global_configuration_idem_example = validate_global_configuration_idem checks dns

abbrev world : Environment
world = validating checks (λ errs. if length errs == 0 then none else some "invalid") accepting

abbrev with_dns : Configuration
with_dns = record new_configuration {
  global_configuration = some (record dns { listeners = kept });
  listener_map =
      ("dns-tcp", listener "dns-tcp" "TCP" 53 "")
      ∷ ("dns-udp", listener "dns-udp" "UDP" 53 "")
      ∷ ("other", listener "other" "TCP" 5353 "10.0.0.1")
      ∷ [];
}

put_dns : step world (put_global_configuration dns) new_configuration ≡ some (with_dns, [], [])
unfolding step new_configuration add_or_update_global_configuration set_global_configuration
    validating validate_global_configuration get_valid_listeners validate_listener admit_ports
    rebuild_listener_hosts listener_map_of insert lookup ingress_nextgen.Common.contains
put_dns = refl

reachable-listener_map_example :
    AllCompatible (listeners_of with_dns.global_configuration)
    × ((l : Listener)
        → Memᴰ l (listeners_of with_dns.global_configuration)
        → lookup l.name with_dns.listener_map ≡ some l)
reachable-listener_map_example =
    reachable-listener_map checks (λ errs. if length errs == 0 then none else some "invalid")
      accepting with_dns (after (put_global_configuration dns) (with_dns, [], []) at_start put_dns)
