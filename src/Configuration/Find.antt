-- ===== src/Configuration/Find.antt =====
-- Which resources refer to an object (FindResourcesFor... and Is...ReferencedBy... of
-- internal/k8s/configuration.go).
use ingress_nextgen.Common.{
  Bool, Eq, List, String, [], any, false, if◌then◌else◌, none, some, string_eq, true, ℕ_eq, ◌+++◌,
  ◌||◌, ◌∷◌,
}
use ingress_nextgen.Common.Maps.{Map, lookup, sorted_keys}
use ingress_nextgen.Objects.{Ingress, VirtualServer, VirtualServerRoute}
use ingress_nextgen.Resources.{
  MinionConfiguration, Resource, TransportServerConfiguration, ingress, transport_server,
  virtual_server,
}
use ingress_nextgen.Listeners.{ListenerHostKey, get_sorted_listener_host_keys, listener_host_key_eq}
use ingress_nextgen.References.{
  ReferenceChecker, secret_reference_checker, service_reference_checker,
}
use ingress_nextgen.References.Policies.{
  app_protect_resource_reference_checker, dos_resource_reference_checker, policy_reference_checker,
  ratelimit_scaling_annotation_checker,
}
use ingress_nextgen.Configuration.{Configuration}

-- The checkers that NewConfiguration makes.
abbrev pub secret_checker : Bool → ReferenceChecker
secret_checker is_plus = secret_reference_checker is_plus

abbrev pub service_checker : Configuration → ReferenceChecker
service_checker c = service_reference_checker false c.policy_services

abbrev pub endpoint_checker : Configuration → ReferenceChecker
endpoint_checker c = service_reference_checker true c.policy_services

-- A loop over some keys of a map that appends what each value gives.
unfoldable pub gather {ℓ κ} :
    {K : Type ℓ} {V : Type κ} ⦃e : Eq K⦄ → Map K V → (V → List Resource) → List K → List Resource
unfolding lookup
gather m found [] = []
gather m found (k ∷ ks) = elim (lookup k m) [ none ↦ [] | some v ↦ found v ] +++ gather m found ks

module _ (checker : ReferenceChecker) (namespace name : String) where
  -- The cases of the loop over the hosts.
  unfoldable pub refers : Resource → Bool
  refers (ingress ic) =
      checker.is_referenced_by_ingress namespace name ic.ingress
      || any
          (λ (fm : MinionConfiguration). checker.is_referenced_by_minion namespace name fm.ingress)
          ic.minions
  refers (virtual_server vsc) =
      checker.is_referenced_by_virtual_server namespace name vsc.virtual_server
      || any (checker.is_referenced_by_virtual_server_route namespace name)
          vsc.virtual_server_routes
  refers (transport_server tsc) =
      checker.is_referenced_by_transport_server namespace name tsc.transport_server

  abbrev pub if_refers : Resource → List Resource
  if_refers r = if refers r then r ∷ [] else []

  -- the loop over the hosts
  unfoldable pub find_in_hosts : Map String Resource → List Resource
  unfolding refers gather sorted_keys
  find_in_hosts hosts = gather hosts if_refers (sorted_keys hosts)

  -- the loop over the listener hosts
  unfoldable pub find_in_listener_hosts :
      Map ListenerHostKey TransportServerConfiguration → List Resource
  unfolding refers gather get_sorted_listener_host_keys
  find_in_listener_hosts listener_hosts =
      gather listener_hosts (λ tsc. if_refers (transport_server tsc))
        (get_sorted_listener_host_keys listener_hosts)

  unfoldable pub find_resources_for_resource_reference : Configuration → List Resource
  unfolding find_in_hosts find_in_listener_hosts
  find_resources_for_resource_reference c =
      find_in_hosts c.hosts +++ find_in_listener_hosts c.listener_hosts

unfoldable pub find_resources_for_service : String → String → Configuration → List Resource
unfolding find_resources_for_resource_reference service_reference_checker
find_resources_for_service ns name c =
    find_resources_for_resource_reference (service_checker c) ns name c

unfoldable pub find_resources_for_endpoints : String → String → Configuration → List Resource
unfolding find_resources_for_resource_reference service_reference_checker
find_resources_for_endpoints ns name c =
    find_resources_for_resource_reference (endpoint_checker c) ns name c

unfoldable pub find_resources_for_secret : Bool → String → String → Configuration → List Resource
unfolding find_resources_for_resource_reference secret_reference_checker
find_resources_for_secret is_plus = find_resources_for_resource_reference (secret_checker is_plus)

unfoldable pub find_resources_for_policy : String → String → Configuration → List Resource
unfolding find_resources_for_resource_reference policy_reference_checker
find_resources_for_policy = find_resources_for_resource_reference policy_reference_checker

unfoldable pub find_resources_for_app_protect_policy_annotation :
    String → String → Configuration → List Resource
unfolding find_resources_for_resource_reference app_protect_resource_reference_checker
find_resources_for_app_protect_policy_annotation =
    find_resources_for_resource_reference
      (app_protect_resource_reference_checker "appprotect.f5.com/app-protect-policy")

unfoldable pub find_resources_for_app_protect_log_conf_annotation :
    String → String → Configuration → List Resource
unfolding find_resources_for_resource_reference app_protect_resource_reference_checker
find_resources_for_app_protect_log_conf_annotation =
    find_resources_for_resource_reference
      (app_protect_resource_reference_checker "appprotect.f5.com/app-protect-security-log")

unfoldable pub find_resources_for_app_protect_dos_protected :
    String → String → Configuration → List Resource
unfolding find_resources_for_resource_reference dos_resource_reference_checker
find_resources_for_app_protect_dos_protected =
    find_resources_for_resource_reference
      (dos_resource_reference_checker "appprotectdos.f5.com/app-protect-dos-resource")

unfoldable pub find_ingresses_with_ratelimit_scaling : String → Configuration → List Resource
unfolding find_resources_for_resource_reference ratelimit_scaling_annotation_checker
find_ingresses_with_ratelimit_scaling ns =
    find_resources_for_resource_reference ratelimit_scaling_annotation_checker ns ""

unfoldable pub is_service_referenced_by_virtual_server :
    String → String → VirtualServer → Configuration → Bool
unfolding service_reference_checker
is_service_referenced_by_virtual_server ns name vs c =
    (service_checker c).is_referenced_by_virtual_server ns name vs

unfoldable pub is_service_referenced_by_virtual_server_route :
    String → String → VirtualServerRoute → Configuration → Bool
unfolding service_reference_checker
is_service_referenced_by_virtual_server_route ns name vsr c =
    (service_checker c).is_referenced_by_virtual_server_route ns name vsr

unfoldable pub is_service_referenced_by_ingress : String → String → Ingress → Configuration → Bool
unfolding service_reference_checker
is_service_referenced_by_ingress ns name ing c =
    (service_checker c).is_referenced_by_ingress ns name ing

unfoldable pub is_service_referenced_by_minion : String → String → Ingress → Configuration → Bool
unfolding service_reference_checker
is_service_referenced_by_minion ns name ing c =
    (service_checker c).is_referenced_by_minion ns name ing
