-- ===== src/References/Policies.antt =====
-- The reference checkers for policies, App Protect resources and rate limits
-- (internal/k8s/reference_checkers.go).
use ingress_nextgen.Common.{
  Bool, List, String, [], any, false, none, some, string_eq, ℕ_eq, ◌&&◌, ◌==◌, ◌||◌, ◌∷◌,
}
use ingress_nextgen.Common.Maps.{lookup}
use ingress_nextgen.Objects.{Ingress, PolicyReference, Route}
use ingress_nextgen.References.{
  ReferenceChecker, format_resource_reference, policy_namespace, split, trim,
}

-- isPolicyReferenced
unfoldable pub is_policy_referenced : List PolicyReference → String → String → String → Bool
is_policy_referenced policies owner ns name =
    any (λ (p : PolicyReference). p.name == name && policy_namespace owner p == ns) policies

-- A name in the object's namespace, or with its namespace before it.
abbrev pub is_named : String → String → String → String → Bool
is_named ns name owner text =
    text == format_resource_reference ns name || (ns == owner && text == name)

-- the values of an annotation between commas
abbrev listed : String → (String → Bool) → Ingress → Bool
listed annotation test ing = elim (lookup annotation ing.meta.annotations) [
  | none ↦ false
  | some value ↦ any test (split b',' value)
]

unfoldable pub ingress_names_policy : String → String → Ingress → Bool
unfolding format_resource_reference split trim lookup
ingress_names_policy ns name ing =
    any (λ annotation. listed annotation (λ p. is_named ns name ing.meta.namespace (trim p)) ing)
      ("nginx.org/policies" ∷ "nginx.com/policies" ∷ [])

unfoldable pub policy_reference_checker : ReferenceChecker
unfolding is_policy_referenced ingress_names_policy
policy_reference_checker = record {
  is_referenced_by_ingress = ingress_names_policy;
  is_referenced_by_minion = ingress_names_policy;
  is_referenced_by_virtual_server = λ ns name vs.
      is_policy_referenced vs.policies vs.meta.namespace ns name
      || any (λ (r : Route). is_policy_referenced r.policies vs.meta.namespace ns name) vs.routes;
  is_referenced_by_virtual_server_route = λ ns name vsr.
      any (λ (r : Route). is_policy_referenced r.policies vsr.meta.namespace ns name) vsr.subroutes;
  is_referenced_by_transport_server = λ ns name ts. false;
}

unfoldable pub app_protect_resource_reference_checker : String → ReferenceChecker
unfolding format_resource_reference split lookup
app_protect_resource_reference_checker annotation = record {
  is_referenced_by_ingress =
      λ ns name ing. listed annotation (is_named ns name ing.meta.namespace) ing;
  is_referenced_by_minion = λ ns name ing. false;
  is_referenced_by_virtual_server = λ ns name vs. false;
  is_referenced_by_virtual_server_route = λ ns name vsr. false;
  is_referenced_by_transport_server = λ ns name ts. false;
}

unfoldable pub dos_resource_reference_checker : String → ReferenceChecker
unfolding format_resource_reference lookup
dos_resource_reference_checker annotation = record {
  is_referenced_by_ingress = λ ns name ing. elim (lookup annotation ing.meta.annotations) [
    | none ↦ false
    | some res ↦ is_named ns name ing.meta.namespace res
  ];
  is_referenced_by_minion = λ ns name ing. false;
  is_referenced_by_virtual_server = λ ns name vs.
      is_named ns name vs.meta.namespace vs.dos
      || any (λ (r : Route). is_named ns name vs.meta.namespace r.dos) vs.routes;
  is_referenced_by_virtual_server_route =
      λ ns name vsr. any (λ (r : Route). is_named ns name vsr.meta.namespace r.dos) vsr.subroutes;
  is_referenced_by_transport_server = λ ns name ts. false;
}

-- the loop over the annotations
unfoldable pub has_limit_req_scale : Ingress → Bool
has_limit_req_scale ing =
    any (λ (kv : String × String). kv.0 == "nginx.org/limit-req-scale" && kv.1 == "true")
      ing.meta.annotations

unfoldable pub ratelimit_scaling_annotation_checker : ReferenceChecker
unfolding has_limit_req_scale
ratelimit_scaling_annotation_checker = record {
  is_referenced_by_ingress = λ ns name ing. has_limit_req_scale ing;
  is_referenced_by_minion = λ ns name ing. has_limit_req_scale ing;
  is_referenced_by_virtual_server = λ ns name vs. false;
  is_referenced_by_virtual_server_route = λ ns name vsr. false;
  is_referenced_by_transport_server = λ ns name ts. false;
}
