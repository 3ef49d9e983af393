-- ===== src/Configuration/Built.antt =====
-- buildHostsAndResources on a sound store builds a table of the stored objects' resources in which
-- each host is held by a resource that claims it.
use mathlib.Core.Option.{some-injective}
use mathlib.Core.Path.{subst}
use ingress_nextgen.Common.{
  >>=-eq-some, Bool, List, Option, String, [], ap, false, if◌then◌else◌, map, none, not, refl, some,
  string_eq, sym, true, ℕ_eq, ◌&&◌, ◌+++◌, ◌++◌, ◌==◌, ◌>>=◌, ◌∙◌, ◌∷◌, ◌≡◌,
}
use ingress_nextgen.Common.Maps.{Map, lookup, sorted_keys}
use ingress_nextgen.Objects.{
  GlobalConfiguration, Ingress, IngressRule, TransportServer, VirtualServer, VirtualServerListener,
  VirtualServerRoute,
}
use ingress_nextgen.Environment.{Environment}
use ingress_nextgen.Resources.{
  IngressConfiguration, VirtualServerConfiguration, get_key_with_kind, get_resource_key, ingress,
  ingress_kind, new_master_ingress_configuration, new_regular_ingress_configuration,
  new_transport_server_configuration, new_virtual_server_configuration, transport_server,
  virtual_server, virtual_server_kind,
}
use ingress_nextgen.Minions.{build_minion_configs, first_rule, is_master, is_minion}
use ingress_nextgen.Routes.{build_virtual_server_routes}
use ingress_nextgen.Hosts.{Building, add_resource}
use ingress_nextgen.Listeners.{
  listener_host_key_eq, tls_passthrough_listener_name, tls_passthrough_listener_protocol,
}
use ingress_nextgen.Hosts.Owned.{profile}
use ingress_nextgen.Configuration.{Configuration}
use ingress_nextgen.Configuration.Build.{
  add_ingress, add_ingresses, add_passthrough, add_passthroughs, add_virtual_servers,
  assign_listener, build_hosts_and_resources, build_listeners_for_vs_configuration, challenge_of,
  challenges_for, ingress_resource, rule_hosts, virtual_server_resource,
}
use ingress_nextgen.Configuration.Sound.{IsSound}
use ingress_nextgen.Configuration.Owners.{
  IsBuilding, IsFrom, add_resource-IsBuilding, from_ingress, from_transport_server,
  from_virtual_server,
}

branch_some :
    {A : Type 0} (t : Bool) (x y : Option A) (P : Type 0) {o : Option A}
    → (if t then x else y) ≡ o
    → (x ≡ o → P)
    → (y ≡ o → P)
    → P
branch_some true x y P h p q = p h
branch_some false x y P h p q = q h

build_listeners-virtual_server :
    (c : Configuration) (vsc : VirtualServerConfiguration)
    → (build_listeners_for_vs_configuration c vsc).virtual_server ≡ vsc.virtual_server
unfolding build_listeners_for_vs_configuration
build_listeners-virtual_server c vsc = go vsc.virtual_server.listener c.global_configuration
  where
    go :
        (l : Option VirtualServerListener) (g : Option GlobalConfiguration)
        → (elim l as (λ _. VirtualServerConfiguration) [
          | none ↦ vsc
          | some l ↦ elim g [
            | none ↦ vsc
            | some _ ↦
                (let (p, v4, v6) =
                    assign_listener c.listener_map l.http false
                      (vsc.http_port, vsc.http_ipv4, vsc.http_ipv6) in
                  let (sp, sv4, sv6) =
                    assign_listener c.listener_map l.https true
                      (vsc.https_port, vsc.https_ipv4, vsc.https_ipv6) in
                  record vsc {
                    http_port = p;
                    http_ipv4 = v4;
                    http_ipv6 = v6;
                    https_port = sp;
                    https_ipv4 = sv4;
                    https_ipv6 = sv6;
                  })
          ]
        ]).virtual_server
          ≡ vsc.virtual_server
    go none g = refl
    go (some l) none = refl
    go (some l) (some gc) = refl

module _ (env : Environment) (c : Configuration) (sound : IsSound env c) where
  ingress_at :
      (k : String) (ing : Ingress)
      → lookup k c.ingresses ≡ some ing
      → lookup (get_resource_key ing.meta) c.ingresses ≡ some ing
  ingress_at k ing h = rw ((sound.0 k ing h).1) h

  virtual_server_at :
      (k : String) (vs : VirtualServer)
      → lookup k c.virtual_servers ≡ some vs
      → lookup (get_resource_key vs.meta) c.virtual_servers ≡ some vs
  virtual_server_at k vs h =
      let (vs0, ok, same, key) = sound.1 k vs h in
      let e : get_resource_key vs.meta ≡ k =
        ap (λ (x : VirtualServer). get_resource_key x.meta) same ∙ key in
      rw e h

  transport_server_at :
      (k : String) (ts : TransportServer)
      → lookup k c.transport_servers ≡ some ts
      → lookup (get_resource_key ts.meta) c.transport_servers ≡ some ts
  transport_server_at k ts h = rw ((sound.3 k ts h).1) h

  ingress_resource-profile :
      (ing : Ingress) (ic : IngressConfiguration)
      → ingress_resource env c ing ≡ some ic
      → (ic.ingress ≡ ing) × (ic.valid_hosts ≡ [])
  unfolding ingress_resource new_master_ingress_configuration new_regular_ingress_configuration
  ingress_resource-profile ing ic h =
      branch_some (is_master ing) _ _ _ h
        (λ h1.
          let (rule, p, h2) = >>=-eq-some (first_rule ing) _ h1 in
          let (built, q, h3) =
            >>=-eq-some (build_minion_configs c.minions_by_host c.ingresses rule.host) _ h2 in
          rw (← some-injective _ _ h3) (refl, refl))
        (λ h1. rw (← some-injective _ _ h1) (refl, refl))

  virtual_server_resource-profile :
      (challenges : List VirtualServerRoute) (vs : VirtualServer)
      → (virtual_server_resource env c challenges vs).virtual_server ≡ vs
  unfolding virtual_server_resource new_virtual_server_configuration
  virtual_server_resource-profile challenges vs =
      let routes = build_virtual_server_routes env c.virtual_server_routes vs in
      build_listeners-virtual_server c (
        new_virtual_server_configuration vs
          (routes.vsrs +++ challenges_for env c vs.host challenges) routes.selectors
          routes.warnings)

  ingress-IsFrom :
      (k : String) (ing : Ingress) (ic : IngressConfiguration)
      → lookup k c.ingresses ≡ some ing
      → ic.ingress ≡ ing
      → ic.valid_hosts ≡ []
      → IsFrom c (profile (ingress ic))
  unfolding get_key_with_kind
  ingress-IsFrom k ing ic at_key same fresh =
      subst
        (λ (x : Ingress × Map String Bool). IsFrom c (record {
          key = ingress_kind ++ ("/" ++ get_resource_key x.0.meta);
          claimed = map (λ (r : IngressRule). r.host) x.0.rules;
          flags = x.1;
        }))
        (λ i. (sym same i, sym fresh i)) (from_ingress ing (ingress_at k ing at_key))

  add_ingress-IsBuilding :
      (k : String) (ing : Ingress) (b b' : Building) (vsrs vsrs' : List VirtualServerRoute)
      → lookup k c.ingresses ≡ some ing
      → IsBuilding c b
      → add_ingress env c ing (b, vsrs) ≡ some (b', vsrs')
      → IsBuilding c b'
  unfolding add_ingress
  add_ingress-IsBuilding k ing b b' vsrs vsrs' at_key i h =
      branch_some (is_minion ing) _ _ _ h
        (λ h1.
          subst (IsBuilding c)
            (ap (λ (x : Building × List VirtualServerRoute). x.0) (some-injective _ _ h1)) i)
        (λ h1.
          let (challenge, p, h2) = >>=-eq-some (challenge_of env c ing) _ h1 in go challenge h2)
    where
      go :
          (ch : Option VirtualServerRoute)
          → elim ch as (λ _. Option (Building × List VirtualServerRoute)) [
            | some vsr ↦ some (b, vsrs +++ vsr ∷ [])
            | none ↦ do
              ic ← ingress_resource env c ing
              b' ← add_resource (ingress ic) (rule_hosts env c ing) b
              some (b', vsrs)
          ]
            ≡ some (b', vsrs')
          → IsBuilding c b'
      go (some vsr) e =
          subst (IsBuilding c)
            (ap (λ (x : Building × List VirtualServerRoute). x.0) (some-injective _ _ e)) i
      go none e =
          let (ic, p, e1) = >>=-eq-some (ingress_resource env c ing) _ e in
          let (b1, q, e2) = >>=-eq-some (add_resource (ingress ic) (rule_hosts env c ing) b) _ e1 in
          let (same, fresh) = ingress_resource-profile ing ic p in
          subst (IsBuilding c)
            (ap (λ (x : Building × List VirtualServerRoute). x.0) (some-injective _ _ e2))
            (add_resource-IsBuilding c (ingress ic) b b1 (ingress-IsFrom k ing ic at_key same fresh)
              i
              (subst
                (λ (x : Ingress).
                  add_resource (ingress ic) (map (λ (r : IngressRule). r.host) x.rules) b ≡ some b1)
                (sym same) q))

  add_ingresses-IsBuilding :
      (ks : List String) (b b' : Building) (vsrs vsrs' : List VirtualServerRoute)
      → IsBuilding c b
      → add_ingresses env c ks (b, vsrs) ≡ some (b', vsrs')
      → IsBuilding c b'
  unfolding add_ingresses
  add_ingresses-IsBuilding [] b b' vsrs vsrs' i h =
      subst (IsBuilding c)
        (ap (λ (x : Building × List VirtualServerRoute). x.0) (some-injective _ _ h)) i
  add_ingresses-IsBuilding (k ∷ ks) b b' vsrs vsrs' i h =
      let (ing, p, h1) = >>=-eq-some (lookup k c.ingresses) _ h in
      let (step1, q, h2) = >>=-eq-some (add_ingress env c ing (b, vsrs)) _ h1 in
      add_ingresses-IsBuilding ks step1.0 b' step1.1 vsrs'
        (add_ingress-IsBuilding k ing b step1.0 vsrs step1.1 p i q) h2

  virtual_server-IsFrom :
      (k : String) (vs : VirtualServer) (vsc : VirtualServerConfiguration)
      → lookup k c.virtual_servers ≡ some vs
      → vsc.virtual_server ≡ vs
      → IsFrom c (profile (virtual_server vsc))
  unfolding get_key_with_kind
  virtual_server-IsFrom k vs vsc at_key same =
      subst
        (λ (x : VirtualServer). IsFrom c (record {
          key = virtual_server_kind ++ ("/" ++ get_resource_key x.meta);
          claimed = x.host ∷ [];
          flags = [];
        }))
        (sym same) (from_virtual_server vs (virtual_server_at k vs at_key))

  add_virtual_servers-IsBuilding :
      (challenges : List VirtualServerRoute) (ks : List String) (b b' : Building)
      → IsBuilding c b
      → add_virtual_servers env c challenges ks b ≡ some b'
      → IsBuilding c b'
  unfolding add_virtual_servers
  add_virtual_servers-IsBuilding challenges [] b b' i h =
      subst (IsBuilding c) (some-injective _ _ h) i
  add_virtual_servers-IsBuilding challenges (k ∷ ks) b b' i h =
      let (vs, p, h1) = >>=-eq-some (lookup k c.virtual_servers) _ h in
      let vsc = virtual_server_resource env c challenges vs in
      let (b1, q, h2) = >>=-eq-some (add_resource (virtual_server vsc) (vs.host ∷ []) b) _ h1 in
      let same = virtual_server_resource-profile challenges vs in
      add_virtual_servers-IsBuilding challenges ks b1 b'
        (add_resource-IsBuilding c (virtual_server vsc) b b1 (virtual_server-IsFrom k vs vsc p same)
          i
          (subst
            (λ (x : VirtualServer). add_resource (virtual_server vsc) (x.host ∷ []) b ≡ some b1)
            (sym same) q))
        h2

  transport_server-IsFrom :
      (k : String) (ts : TransportServer)
      → lookup k c.transport_servers ≡ some ts
      → IsFrom c (profile (transport_server (new_transport_server_configuration ts)))
  unfolding get_key_with_kind new_transport_server_configuration
  transport_server-IsFrom k ts p = from_transport_server ts (transport_server_at k ts p)

  add_passthroughs-IsBuilding :
      (ks : List String) (b b' : Building)
      → IsBuilding c b
      → add_passthroughs env c ks b ≡ some b'
      → IsBuilding c b'
  unfolding add_passthroughs add_passthrough new_transport_server_configuration
  add_passthroughs-IsBuilding [] b b' i h = subst (IsBuilding c) (some-injective _ _ h) i
  add_passthroughs-IsBuilding (k ∷ ks) b b' i h =
      let (ts, p, h1) = >>=-eq-some (lookup k c.transport_servers) _ h in
      let (b1, q, h2) = >>=-eq-some (add_passthrough env c ts b) _ h1 in
      add_passthroughs-IsBuilding ks b1 b'
        (branch_some
          (not (ts.listener_name == tls_passthrough_listener_name)
            && not (ts.listener_protocol == tls_passthrough_listener_protocol))
          _ _ _ q (λ e. subst (IsBuilding c) (some-injective _ _ e) i)
          (λ e.
            add_resource-IsBuilding c (transport_server (new_transport_server_configuration ts)) b
              b1 (transport_server-IsFrom k ts p) i e))
        h2

  -- The table that is built from a sound store has resources of the stored objects only, each under
  -- its own key, and each host is held by one that claims it.
  pub build_hosts_and_resources-IsBuilding :
      (b : Building) → build_hosts_and_resources env c ≡ some b → IsBuilding c b
  unfolding build_hosts_and_resources lookup
  build_hosts_and_resources-IsBuilding b h =
      let empty : Building = record { holders = []; resources = [] } in
      let start : IsBuilding c empty = record {
        is_owned = record { keyed = λ k p q. cc q; owned = λ x k q. cc q };
        from_store = λ k p q. cc q;
      } in
      let (s1, p, h1) =
        >>=-eq-some (add_ingresses env c (sorted_keys c.ingresses) (empty, [])) _ h in
      let (s2, q, h2) =
        >>=-eq-some (add_virtual_servers env c s1.1 (sorted_keys c.virtual_servers) s1.0) _ h1 in
      let i1 = add_ingresses-IsBuilding (sorted_keys c.ingresses) empty s1.0 [] s1.1 start p in
      let i2 = add_virtual_servers-IsBuilding s1.1 (sorted_keys c.virtual_servers) s1.0 s2 i1 q in
      branch_some env.is_tls_passthrough_enabled _ _ _ h2
        (λ e. add_passthroughs-IsBuilding (sorted_keys c.transport_servers) s2 b i2 e)
        (λ e. subst (IsBuilding c) (some-injective _ _ e) i2)
