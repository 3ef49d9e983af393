-- ===== src/References.antt =====
-- Which objects refer to a secret, a service, a policy or an App Protect resource
-- (internal/k8s/reference_checkers.go), and the references as texts
-- (internal/configs/virtualserver.go, internal/k8s/policies/policy_refs.go, internal/nsutils).
pub mod Policies
pub mod Parsed
use Prim.Native.Char.{Char, code}
use ingress_nextgen.Common.{
  Bool, List, Option, String, [], any, contains, false, if◌then◌else◌, leb, length, map, none, not,
  some, string_eq, ℕ, ℕ_eq, ◌&&◌, ◌++◌, ◌==◌, ◌||◌, ◌∷◌,
}
use ingress_nextgen.Common.Maps.{Map, lookup}
use ingress_nextgen.Objects.{
  Ingress, IngressRule, ObjectMeta, PolicyReference, Route, TransportServer,
  TransportServerUpstream, Upstream, VirtualServer, VirtualServerRoute,
}
use ingress_nextgen.Routes.Paths.{has_namespace}

abbrev push : Char → List String → List String
push c [] = String.◌∷◌ c "" ∷ []
push c (w ∷ ws) = String.◌∷◌ c w ∷ ws

-- strings.Split at a separator of one character
unfoldable pub split : ℕ → String → List String
split sep String.[] = "" ∷ []
split sep (String.◌∷◌ c s) =
    let rest = split sep s in if code c == sep then "" ∷ rest else push c rest

-- strings.TrimSpace on ASCII text
abbrev is_blank : Char → Bool
is_blank c = code c == b' ' || (leb b'\t' (code c) && leb (code c) b'\r')

unfoldable pub trim_start : String → String
trim_start String.[] = ""
trim_start (String.◌∷◌ c s) = let rest = trim_start s in if is_blank c then rest else String.◌∷◌ c s

unfoldable pub trim_end : String → String
trim_end String.[] = ""
trim_end (String.◌∷◌ c s) =
    let rest = trim_end s in if is_blank c && rest == "" then "" else String.◌∷◌ c rest

unfoldable pub trim : String → String
unfolding trim_start trim_end
trim s = trim_end (trim_start s)

unfoldable pub format_resource_reference : String → String → String
format_resource_reference namespace name = namespace ++ ("/" ++ name)

abbrev two_parts : List String → String × String → String × String
two_parts (namespace ∷ name ∷ []) default = (namespace, name)
two_parts parts default = default

-- ParseResourceReference and ParseServiceReference: the namespace and the name
unfoldable pub parse_resource_reference : String → String → String × String
unfolding split has_namespace
parse_resource_reference reference default_namespace =
    if has_namespace reference
    then two_parts (split b'/' reference) (default_namespace, reference)
    else (default_namespace, reference)

abbrev policy_ref : String → String → PolicyReference
policy_ref namespace policy_name =
    let (ns, name) = two_parts (split b'/' policy_name) (namespace, policy_name) in
    record { name = name; namespace = ns }

unfoldable pub get_policy_refs_from_annotation : String → String → List PolicyReference
unfolding split trim
get_policy_refs_from_annotation value namespace =
    map (λ policy_name. policy_ref namespace (trim policy_name)) (split b',' value)

-- the annotation is there with this value
abbrev annotated : String → String → ObjectMeta → Bool
annotated annotation value meta = elim (lookup annotation meta.annotations) [
  | none ↦ false
  | some v ↦ v == value
]

-- resourceReferenceChecker
pub record ReferenceChecker : Type 0 where
  pub is_referenced_by_ingress : String → String → Ingress → Bool
  pub is_referenced_by_minion : String → String → Ingress → Bool
  pub is_referenced_by_virtual_server : String → String → VirtualServer → Bool
  pub is_referenced_by_virtual_server_route : String → String → VirtualServerRoute → Bool
  pub is_referenced_by_transport_server : String → String → TransportServer → Bool

-- x != nil && x.Secret == name
abbrev is_name : Option String → String → Bool
is_name none name = false
is_name (some n) name = n == name

-- The annotations of a secretReferenceChecker, which a minion may have too.
unfoldable pub names_secret : Bool → String → ObjectMeta → Bool
unfolding lookup
names_secret is_plus name meta =
    (is_plus && annotated "nginx.com/jwt-key" name meta)
    || annotated "nginx.org/basic-auth-secret" name meta

unfoldable pub secret_reference_checker : Bool → ReferenceChecker
unfolding names_secret
secret_reference_checker is_plus = record {
  is_referenced_by_ingress = λ ns name ing.
      ing.meta.namespace == ns && (contains ing.tls name || names_secret is_plus name ing.meta);
  is_referenced_by_minion =
      λ ns name ing. ing.meta.namespace == ns && names_secret is_plus name ing.meta;
  is_referenced_by_virtual_server =
      λ ns name vs. vs.meta.namespace == ns && is_name vs.tls_secret name;
  is_referenced_by_virtual_server_route = λ ns name vsr. false;
  is_referenced_by_transport_server =
      λ ns name ts. ts.meta.namespace == ns && is_name ts.tls_secret name;
}

-- The namespace of a policy's reference in an object of this namespace.
abbrev pub policy_namespace : String → PolicyReference → String
policy_namespace owner p = if p.namespace == "" then owner else p.namespace

-- the reference, written in this namespace, is to the service
abbrev pub refers_to : String → String → String → String → Bool
refers_to ns name reference namespace =
    let (rns, rname) = parse_resource_reference reference namespace in rns == ns && rname == name

-- One round of isPolicyServiceReferenced.
unfoldable pub policy_uses_service :
    Map String String → String → String → String → PolicyReference → Bool
unfolding parse_resource_reference lookup
policy_uses_service policy_services ns name owner p =
    let namespace = policy_namespace owner p in
    elim (lookup (namespace ++ ("/" ++ p.name)) policy_services) [
      | none ↦ false
      | some auth_service ↦ refers_to ns name auth_service namespace
    ]

-- isPolicyServiceReferenced; without policies the loop finds nothing in an empty map
unfoldable pub is_policy_service_referenced :
    Map String String → String → String → List PolicyReference → String → Bool
unfolding policy_uses_service
is_policy_service_referenced policy_services ns name policies owner =
    if length policy_services == 0
    then false
    else any (policy_uses_service policy_services ns name owner) policies

abbrev rule_uses_service : String → IngressRule → Bool
rule_uses_service name r = elim r.http [
  | none ↦ false
  | some paths ↦ any (λ p. p.service == name) paths
]

module _ (has_cluster_ip : Bool) (policy_services : Map String String) where
  unfoldable pub ingress_uses_service : String → String → Ingress → Bool
  unfolding is_policy_service_referenced get_policy_refs_from_annotation
  ingress_uses_service ns name ing =
      (ing.meta.namespace == ns
        && (is_name ing.default_backend name || any (rule_uses_service name) ing.rules))
      || elim (lookup "nginx.org/policies" ing.meta.annotations) [
        | none ↦ false
        | some value ↦
            is_policy_service_referenced policy_services ns name
              (get_policy_refs_from_annotation value ing.meta.namespace) ing.meta.namespace
      ]

  -- the upstream's service, unless the checker leaves services with a cluster IP aside
  abbrev upstream_uses_service : String → String → String → Upstream → Bool
  upstream_uses_service ns name owner u =
      not (has_cluster_ip && u.use_cluster_ip) && refers_to ns name u.service owner

  abbrev upstream_backs_up : String → String → String → Upstream → Bool
  upstream_backs_up ns name owner u =
      not (has_cluster_ip && u.use_cluster_ip) && (owner == ns && u.backup == name)

  unfoldable pub service_reference_checker : ReferenceChecker
  unfolding ingress_uses_service
  service_reference_checker = record {
    is_referenced_by_ingress = ingress_uses_service;
    is_referenced_by_minion = ingress_uses_service;
    is_referenced_by_virtual_server = λ ns name vs.
        let owner = vs.meta.namespace in
        any (λ u. upstream_uses_service ns name owner u || upstream_backs_up ns name owner u)
          vs.upstreams
        || (is_policy_service_referenced policy_services ns name vs.policies owner
            || any
                (λ (r : Route).
                  is_policy_service_referenced policy_services ns name r.policies owner)
                vs.routes);
    is_referenced_by_virtual_server_route = λ ns name vsr.
        let owner = vsr.meta.namespace in
        any (upstream_uses_service ns name owner) vsr.upstreams
        || any
            (λ (r : Route). is_policy_service_referenced policy_services ns name r.policies owner)
            vsr.subroutes;
    is_referenced_by_transport_server = λ ns name ts.
        ts.meta.namespace == ns
        && any (λ (u : TransportServerUpstream). u.service == name || u.backup == name)
            ts.upstreams;
  }
