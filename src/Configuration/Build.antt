-- ===== src/Configuration/Build.antt =====
-- buildHostsAndResources: the resources of all objects, and who holds which host.
use ingress_nextgen.Common.{
  Bool, List, Option, String, [], bool_eq, false, if◌then◌else◌, map, none, not, some, string_eq,
  true, ℕ, ℕ_eq, ◌%◌, ◌&&◌, ◌+++◌, ◌==◌, ◌>>=◌, ◌||◌, ◌∷◌,
}
use ingress_nextgen.Common.Maps.{Map, lookup, sorted_keys}
use ingress_nextgen.Objects.{
  Ingress, IngressPath, IngressRule, Listener, TransportServer, VirtualServer, VirtualServerRoute,
}
use ingress_nextgen.Environment.{Environment}
use ingress_nextgen.Resources.{
  IngressConfiguration, VirtualServerConfiguration, ingress, new_master_ingress_configuration,
  new_regular_ingress_configuration, new_transport_server_configuration,
  new_virtual_server_configuration, transport_server, virtual_server,
}
use ingress_nextgen.Minions.{build_minion_configs, first_rule, is_master, is_minion}
use ingress_nextgen.Routes.{build_virtual_server_routes}
use ingress_nextgen.Listeners.{
  listener_host_key_eq, tls_passthrough_listener_name, tls_passthrough_listener_protocol,
}
use ingress_nextgen.Hosts.{Building, add_resource}
use ingress_nextgen.Configuration.{Configuration}
use ingress_nextgen.Buffers.{ProxyFields}

abbrev pub label : String → Ingress → String
label k ing = elim (lookup k ing.meta.labels) [ none ↦ "" | some v ↦ v ]

-- ing.Labels["acme.cert-manager.io/http01-solver"] == "true"
abbrev pub is_solver : Ingress → Bool
is_solver ing = label "acme.cert-manager.io/http01-solver" ing == "true"

unfoldable pub owned_by_virtual_server : String → Map String VirtualServer → Bool
owned_by_virtual_server host [] = false
owned_by_virtual_server host ((k, vs) ∷ m) = host == vs.host || owned_by_virtual_server host m

-- the zero value
abbrev no_proxy_fields : ProxyFields
no_proxy_fields = record {
  proxy_buffers = none;
  proxy_buffer_size = [];
  proxy_busy_buffers_size = [];
}

unfoldable pub challenge_vsr : Ingress → String → IngressPath → VirtualServerRoute
challenge_vsr ing host p = record {
  meta = record {
    namespace = ing.meta.namespace;
    name = ing.meta.name;
    uid = "";
    creation_timestamp = 0;
    generation = 0;
    labels = [];
    annotations = [];
  };
  host = host;
  upstreams =
      (record {
        name = "challenge";
        service = p.service;
        port = p.port % 65536;
        backup = "";
        use_cluster_ip = false;
        proxy = no_proxy_fields;
      })
      ∷ [];
  subroutes =
      (record {
        path = p.path;
        route = "";
        route_selector = none;
        pass = "challenge";
        policies = [];
        dos = "";
      })
      ∷ [];
}

-- rule.HTTP.Paths[0]
abbrev pub first_path : IngressRule → Option IngressPath
first_path r = do ps ← r.http; elim ps [ [] ↦ none | p ∷ _ ↦ some p ]

-- `some none` stands for a nil result, `none` for a crash.
unfoldable pub convert_ingress_to_vsr :
    Map String VirtualServer → Ingress → Option (Option VirtualServerRoute)
unfolding owned_by_virtual_server challenge_vsr first_rule
convert_ingress_to_vsr vss ing = do
  rule ← first_rule ing
  if not (owned_by_virtual_server rule.host vss)
      then some none
      else do p ← first_path rule; some (some (challenge_vsr ing rule.host p))

-- port, ipv4 and ipv6 of the listener, if it is an HTTP listener with this use of SSL
unfoldable pub assign_listener :
    Map String Listener → String → Bool → ℕ × String × String → ℕ × String × String
assign_listener listener_map name is_ssl old = elim (lookup name listener_map) [
  | none ↦ old
  | some l ↦ if l.protocol == "HTTP" && bool_eq l.ssl is_ssl then (l.port, l.ipv4, l.ipv6) else old
]

unfoldable pub build_listeners_for_vs_configuration :
    Configuration → VirtualServerConfiguration → VirtualServerConfiguration
unfolding assign_listener
build_listeners_for_vs_configuration c vsc = elim vsc.virtual_server.listener [
  | none ↦ vsc
  | some l ↦ elim c.global_configuration [
    | none ↦ vsc
    | some _ ↦
        (let (p, v4, v6) =
            assign_listener c.listener_map l.http false
              (vsc.http_port, vsc.http_ipv4, vsc.http_ipv6) in
          let (sp, sv4, sv6) =
            assign_listener c.listener_map l.https true
              (vsc.https_port, vsc.https_ipv4, vsc.https_ipv6) in
          record vsc {
            http_port = p;
            http_ipv4 = v4;
            http_ipv6 = v6;
            https_port = sp;
            https_ipv4 = sv4;
            https_ipv6 = sv6;
          })
  ]
]

module _ (env : Environment) (c : Configuration) where
  -- the resource of an Ingress that is no minion: with its minions, if it is a master
  unfoldable pub ingress_resource : Ingress → Option IngressConfiguration
  unfolding build_minion_configs first_rule is_master new_master_ingress_configuration
      new_regular_ingress_configuration
  ingress_resource ing =
      if is_master ing
      then (do
        rule ← first_rule ing
        built ← build_minion_configs c.minions_by_host c.ingresses rule.host
        some (new_master_ingress_configuration ing built.0 built.1))
      else some (new_regular_ingress_configuration ing)

  abbrev pub rule_hosts : Ingress → List String
  rule_hosts ing = map (λ (r : IngressRule). r.host) ing.rules

  abbrev pub challenge_of : Ingress → Option (Option VirtualServerRoute)
  challenge_of ing =
      if env.is_cert_manager_enabled && is_solver ing
      then convert_ingress_to_vsr c.virtual_servers ing
      else some none

  -- Step 1, one Ingress: a minion is left out, and a challenge of a VirtualServer becomes a route.
  unfoldable pub add_ingress :
      Ingress → Building × List VirtualServerRoute → Option (Building × List VirtualServerRoute)
  unfolding is_minion convert_ingress_to_vsr ingress_resource add_resource
  add_ingress ing (b, challenges) = if is_minion ing then some (b, challenges) else do
    challenge ← challenge_of ing
    elim challenge [
      | some vsr ↦ some (b, challenges +++ vsr ∷ [])
      | none ↦ do
        ic ← ingress_resource ing
        b' ← add_resource (ingress ic) (rule_hosts ing) b
        some (b', challenges)
    ]

  unfoldable pub add_ingresses :
      List String → Building × List VirtualServerRoute → Option (Building × List VirtualServerRoute)
  unfolding add_ingress
  add_ingresses [] b = some b
  add_ingresses (k ∷ ks) b = do
    ing ← lookup k c.ingresses
    b' ← add_ingress ing b
    add_ingresses ks b'

  abbrev pub challenges_for : String → List VirtualServerRoute → List VirtualServerRoute
  challenges_for host [] = []
  challenges_for host (vsr ∷ vsrs) =
      if host == vsr.host then vsr ∷ challenges_for host vsrs else challenges_for host vsrs

  unfoldable pub virtual_server_resource :
      List VirtualServerRoute → VirtualServer → VirtualServerConfiguration
  unfolding build_virtual_server_routes new_virtual_server_configuration
      build_listeners_for_vs_configuration
  virtual_server_resource challenges vs =
      let routes = build_virtual_server_routes env c.virtual_server_routes vs in
      build_listeners_for_vs_configuration c (
        new_virtual_server_configuration vs (routes.vsrs +++ challenges_for vs.host challenges)
          routes.selectors routes.warnings)

  -- Step 2
  unfoldable pub add_virtual_servers :
      List VirtualServerRoute → List String → Building → Option Building
  unfolding virtual_server_resource add_resource
  add_virtual_servers challenges [] b = some b
  add_virtual_servers challenges (k ∷ ks) b = do
    vs ← lookup k c.virtual_servers
    b' ← add_resource (virtual_server (virtual_server_resource challenges vs)) (vs.host ∷ []) b
    add_virtual_servers challenges ks b'

  -- Step 3, one TransportServer: one of TLS Passthrough only
  unfoldable pub add_passthrough : TransportServer → Building → Option Building
  unfolding add_resource new_transport_server_configuration
  add_passthrough ts b =
      if not (ts.listener_name == tls_passthrough_listener_name)
        && not (ts.listener_protocol == tls_passthrough_listener_protocol)
      then some b
      else add_resource (transport_server (new_transport_server_configuration ts)) (ts.host ∷ []) b

  unfoldable pub add_passthroughs : List String → Building → Option Building
  unfolding add_passthrough
  add_passthroughs [] b = some b
  add_passthroughs (k ∷ ks) b = do
    ts ← lookup k c.transport_servers
    b' ← add_passthrough ts b
    add_passthroughs ks b'

  unfoldable pub build_hosts_and_resources : Option Building
  unfolding add_ingresses add_virtual_servers add_passthroughs sorted_keys
  build_hosts_and_resources = do
    step1 ← add_ingresses (sorted_keys c.ingresses) (record { holders = []; resources = [] }, [])
    step2 ← add_virtual_servers step1.1 (sorted_keys c.virtual_servers) step1.0
    if env.is_tls_passthrough_enabled
        then add_passthroughs (sorted_keys c.transport_servers) step2
        else some step2
