-- ===== src/Scenarios/Found.antt =====
-- Searches for the resources that refer to a service, at a concrete input.
use ingress_nextgen.Common.{Memᴰ, [], false, inl, none, refl, true, ◌↔◌, ◌∷◌, ◌≡◌}
use ingress_nextgen.Objects.{PolicyReference, VirtualServer}
use ingress_nextgen.Resources.{virtual_server}
use ingress_nextgen.Routes.Paths.{has_namespace}
use ingress_nextgen.References.{format_resource_reference, parse_resource_reference}
use ingress_nextgen.References.Parsed.{parse_resource_reference-format_resource_reference}
use ingress_nextgen.Configuration.{Configuration, new_configuration}
use ingress_nextgen.Configuration.Operations.{update_policy_service_ref}
use ingress_nextgen.Configuration.Find.{
  endpoint_checker, find_resources_for_endpoints, find_resources_for_resource_reference,
  find_resources_for_service, is_service_referenced_by_virtual_server,
}
use ingress_nextgen.Configuration.Found.{Holds, Refers, find_resources_for_resource_reference_lem}
use ingress_nextgen.Configuration.Endpoints.{find_resources_for_endpoints-for_service}
use ingress_nextgen.Configuration.PolicyServices.{update_policy_service_ref_lem}
use ingress_nextgen.Scenarios.{cafe, server}

abbrev auth_policy : PolicyReference
auth_policy = record { name = "auth"; namespace = "" }

-- A VirtualServer with an upstream and a policy.
abbrev bar : VirtualServer
bar = record cafe {
  upstreams =
      (record {
        name = "tea";
        service = "tea-svc";
        port = 80;
        backup = "";
        use_cluster_ip = false;
        proxy = record {
          proxy_buffers = none;
          proxy_buffer_size = [];
          proxy_busy_buffers_size = [];
        };
      })
      ∷ [];
  policies = auth_policy ∷ [];
}

abbrev with_bar : Configuration
unfolding new_configuration
with_bar = record new_configuration { hosts = (bar.host, virtual_server (server bar)) ∷ [] }

bar_found :
    find_resources_for_endpoints "default" "tea-svc" with_bar ≡ virtual_server (server bar) ∷ []
unfolding find_resources_for_endpoints server parse_resource_reference with_bar
bar_found = refl

find_resources_for_resource_reference_lem_example :
    Memᴰ (virtual_server (server bar)) (
      find_resources_for_resource_reference
        (endpoint_checker with_bar)
        "default"
        "tea-svc"
        with_bar)
    ↔ (Holds with_bar (virtual_server (server bar))
        × Refers (endpoint_checker with_bar) "default" "tea-svc" (virtual_server (server bar)))
find_resources_for_resource_reference_lem_example =
    find_resources_for_resource_reference_lem (endpoint_checker with_bar) "default" "tea-svc"
      with_bar (virtual_server (server bar))

bar_in_endpoints :
    Memᴰ (virtual_server (server bar)) (find_resources_for_endpoints "default" "tea-svc" with_bar)
bar_in_endpoints = rw bar_found (Memᴰ.head refl)

find_resources_for_endpoints-for_service_example :
    Memᴰ (virtual_server (server bar)) (find_resources_for_service "default" "tea-svc" with_bar)
find_resources_for_endpoints-for_service_example =
    find_resources_for_endpoints-for_service "default" "tea-svc" with_bar
      (virtual_server (server bar)) bar_in_endpoints

no_slash : (has_namespace "auth-ns" ≡ false) × (has_namespace "auth-svc" ≡ false)
unfolding has_namespace
no_slash = (refl, refl)

update_policy_service_ref_lem_example :
    is_service_referenced_by_virtual_server "auth-ns" "auth-svc" bar (
      update_policy_service_ref "default" "auth"
        (format_resource_reference "auth-ns" "auth-svc")
        with_bar)
    ≡ true
update_policy_service_ref_lem_example =
    update_policy_service_ref_lem with_bar bar auth_policy "auth-ns" "auth-svc"
      (inl (Memᴰ.head refl)) no_slash.0 no_slash.1

parse_resource_reference-format_resource_reference_example :
    parse_resource_reference (format_resource_reference "auth-ns" "auth-svc") "default"
    ≡ ("auth-ns", "auth-svc")
parse_resource_reference-format_resource_reference_example =
    parse_resource_reference-format_resource_reference "auth-ns" "auth-svc" "default" no_slash.0
      no_slash.1
