-- ===== src/Configuration/Endpoints.antt =====
-- What refers to the endpoints of a service refers to the service.
use ingress_nextgen.Common.{
  Bool, List, Memᴰ, String, [], any, arith, false, not, or_true, refl, true, ◌&&◌, ◌||◌, ◌∷◌, ◌≡◌,
}
use ingress_nextgen.Common.Maps.{Map}
use ingress_nextgen.Objects.{VirtualServer, VirtualServerRoute}
use ingress_nextgen.References.{ReferenceChecker, ingress_uses_service, service_reference_checker}
use ingress_nextgen.Configuration.Find.{
  endpoint_checker, find_resources_for_endpoints, find_resources_for_service, refers,
  service_checker,
}
use ingress_nextgen.Configuration.Found.{found_iff}
use ingress_nextgen.Configuration.{Configuration}
use ingress_nextgen.Resources.{Resource, ingress, transport_server, virtual_server}

any_mono {ℓ} :
    {A : Type ℓ} (p q : A → Bool) (xs : List A)
    → ((a : A) → p a ≡ true → q a ≡ true)
    → any p xs ≡ true
    → any q xs ≡ true
any_mono p q [] imp h = h
any_mono p q (x ∷ xs) imp h = ground (arith, imp x, any_mono p q xs imp)

or_mono :
    (a b a' b' : Bool)
    → (a ≡ true → a' ≡ true)
    → (b ≡ true → b' ≡ true)
    → (a || b) ≡ true
    → (a' || b') ≡ true
or_mono true b a' b' f g h = rw (f refl) refl
or_mono false b a' b' f g h = rw (g h) (or_true a')

unless_mono : (a b : Bool) → (not a && b) ≡ true → (not false && b) ≡ true
unless_mono true b h = cc
unless_mono false b h = h

module _ (policy_services : Map String String) (ns name : String) where
  abbrev endpoints : ReferenceChecker
  endpoints = service_reference_checker true policy_services

  abbrev services : ReferenceChecker
  services = service_reference_checker false policy_services

  -- The two checkers differ in the upstreams that name a cluster IP.
  virtual_server_mono :
      (vs : VirtualServer)
      → endpoints.is_referenced_by_virtual_server ns name vs ≡ true
      → services.is_referenced_by_virtual_server ns name vs ≡ true
  unfolding service_reference_checker
  virtual_server_mono vs =
      or_mono _ _ _ _
        (any_mono _ _ vs.upstreams λ u.
          or_mono _ _ _ _ (unless_mono (true && u.use_cluster_ip) _)
            (unless_mono (true && u.use_cluster_ip) _))
        (λ h. h)

  virtual_server_route_mono :
      (vsr : VirtualServerRoute)
      → endpoints.is_referenced_by_virtual_server_route ns name vsr ≡ true
      → services.is_referenced_by_virtual_server_route ns name vsr ≡ true
  unfolding service_reference_checker
  virtual_server_route_mono vsr =
      or_mono _ _ _ _ (any_mono _ _ vsr.upstreams λ u. unless_mono (true && u.use_cluster_ip) _)
        (λ h. h)

  refers_mono :
      (r : Resource) → refers endpoints ns name r ≡ true → refers services ns name r ≡ true
  unfolding refers service_reference_checker ingress_uses_service
  refers_mono (ingress ic) = λ h. h
  refers_mono (virtual_server vsc) =
      or_mono _ _ _ _ (virtual_server_mono vsc.virtual_server)
        (any_mono _ _ vsc.virtual_server_routes virtual_server_route_mono)
  refers_mono (transport_server tsc) = λ h. h

-- Every resource that is found for the endpoints of a service is found for the service too.
pub find_resources_for_endpoints-for_service :
    (ns name : String) (c : Configuration) (r : Resource)
    → Memᴰ r (find_resources_for_endpoints ns name c)
    → Memᴰ r (find_resources_for_service ns name c)
unfolding find_resources_for_endpoints find_resources_for_service
find_resources_for_endpoints-for_service ns name c r h =
    let (holds, t) = (found_iff (endpoint_checker c) ns name c r).0 h in
    (found_iff (service_checker c) ns name c r).1 (holds, refers_mono c.policy_services ns name r t)
