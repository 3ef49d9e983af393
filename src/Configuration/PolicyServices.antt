-- ===== src/Configuration/PolicyServices.antt =====
-- The services that policies refer to, in the search for what a service's change concerns.
use ingress_nextgen.Common.{
  ==_refl, Bool-cases, List, Memᴰ, String, [], any, arith, false, inl, inr, length, or_true, refl,
  some, string_eq, true, ℕ_eq, ◌++◌, ◌==◌, ◌∷◌, ◌≡◌, ◌⊎◌,
}
use ingress_nextgen.Common.Maps.{Map, insert, lookup, lookup-insert_self}
use ingress_nextgen.Common.Keys.{any-Mem}
use ingress_nextgen.Objects.{PolicyReference, Route, VirtualServer}
use ingress_nextgen.References.{
  format_resource_reference, is_policy_service_referenced, parse_resource_reference,
  policy_namespace, policy_uses_service, service_reference_checker,
}
use ingress_nextgen.Routes.Paths.{has_namespace}
use ingress_nextgen.Configuration.{Configuration}
use ingress_nextgen.Configuration.Operations.{update_policy_service_ref}
use ingress_nextgen.Configuration.Find.{is_service_referenced_by_virtual_server}
use ingress_nextgen.References.Parsed.{parse_resource_reference-format_resource_reference}

insert_some : (k v : String) (m : Map String String) → (length (insert k v m) == 0) ≡ false
unfolding insert
insert_some k v [] = ground arith
insert_some k v ((j, w) ∷ m) = elim (Bool-cases (j == k)) [
  | inl t ↦ rw t (ground arith)
  | inr n ↦ rw n (ground arith)
]

-- The reference that is stored is read in the namespace of the policy.
policy_uses_service_lem :
    (m : Map String String) (ns name owner reference : String) (p : PolicyReference)
    → lookup (policy_namespace owner p ++ ("/" ++ p.name)) m ≡ some reference
    → parse_resource_reference reference (policy_namespace owner p) ≡ (ns, name)
    → policy_uses_service m ns name owner p ≡ true
unfolding policy_uses_service
policy_uses_service_lem m ns name owner reference p e q =
    rw (policy_uses_service, e, q, ==_refl ns, ==_refl name) refl

is_policy_service_referenced_lem :
    (m : Map String String) (ns name : String) (policies : List PolicyReference) (owner : String)
    → (length m == 0) ≡ false
    → any (policy_uses_service m ns name owner) policies ≡ true
    → is_policy_service_referenced m ns name policies owner ≡ true
unfolding is_policy_service_referenced
is_policy_service_referenced_lem m ns name policies owner e h = rw e h

-- The VirtualServer names the policy, for all of it or for one of its routes.
abbrev pub NamesPolicy : PolicyReference → VirtualServer → Type 0
NamesPolicy p vs = Memᴰ p vs.policies ⊎ ((r : Route) × Memᴰ r vs.routes × Memᴰ p r.policies)

-- After the service of a policy is stored, written with its namespace, a VirtualServer that names
-- the policy, for all of it or for one of its routes, is found to refer to that service, if neither
-- the namespace nor the name of the service has a slash.
pub update_policy_service_ref_lem :
    (c : Configuration) (vs : VirtualServer) (p : PolicyReference) (svc_ns svc : String)
    → NamesPolicy p vs
    → has_namespace svc_ns ≡ false
    → has_namespace svc ≡ false
    → is_service_referenced_by_virtual_server svc_ns svc vs (
        update_policy_service_ref
          (policy_namespace vs.meta.namespace p)
          p.name
          (format_resource_reference svc_ns svc)
          c)
      ≡ true
unfolding is_service_referenced_by_virtual_server update_policy_service_ref
    service_reference_checker is_policy_service_referenced
update_policy_service_ref_lem c vs p svc_ns svc names h k =
    let owner = vs.meta.namespace in
    let ns = policy_namespace owner p in
    let key = ns ++ ("/" ++ p.name) in
    let reference = format_resource_reference svc_ns svc in
    let m = insert key reference c.policy_services in
    let uses =
      policy_uses_service_lem m svc_ns svc owner reference p
        (lookup-insert_self key reference c.policy_services)
        (parse_resource_reference-format_resource_reference svc_ns svc ns h k) in
    let found : (ps : List PolicyReference)
        → Memᴰ p ps
        → is_policy_service_referenced m svc_ns svc ps owner ≡ true =
      λ ps here.
        is_policy_service_referenced_lem m svc_ns svc ps owner
          (insert_some key reference c.policy_services)
          (any-Mem (policy_uses_service m svc_ns svc owner) ps p here uses) in
    elim names [
      | inl here ↦ rw (found vs.policies here) (or_true _)
      | inr (r, routed, here) ↦
          rw
            (any-Mem (λ (r : Route). is_policy_service_referenced m svc_ns svc r.policies owner)
              vs.routes r routed (found r.policies here))
            (rw (or_true (is_policy_service_referenced m svc_ns svc vs.policies owner)) (or_true _))
    ]
