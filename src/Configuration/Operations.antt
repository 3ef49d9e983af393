-- ===== src/Configuration/Operations.antt =====
-- The operations of the configuration: adding, updating and deleting each kind of object, and the
-- end of the startup. Each method takes the lock for its whole body, so it is one step.
pub mod Reporting
pub mod Reported
use ingress_nextgen.Common.{
  Bool, List, Option, String, [], false, if◌then◌else◌, map, none, not, some, string_eq, true, ℕ_eq,
  ◌&&◌, ◌+++◌, ◌++◌, ◌>>=◌, ◌∷◌,
}
use ingress_nextgen.Common.Maps.{Map, insert, lookup, remove}
use ingress_nextgen.Objects.{
  GlobalConfiguration, Ingress, Listener, ObjectMeta, TransportServer, Upstream, VirtualServer,
  VirtualServerRoute,
}
use ingress_nextgen.Environment.{Environment}
use ingress_nextgen.Resources.{
  get_resource_key, get_resource_key_with_kind, ingress_kind, transport_server_kind,
  virtual_server_kind,
}
use ingress_nextgen.Problems.{
  ingress_object, transport_server_object, virtual_server_object, virtual_server_route_object,
}
use ingress_nextgen.Minions.Index.{remove_minion_from_index, update_minion_index}
use ingress_nextgen.Configuration.{Configuration}
use ingress_nextgen.Configuration.Rebuild.{Outcome, rebuild_hosts, rebuild_listener_hosts}
use ingress_nextgen.Configuration.Operations.Reporting.{
  Report, add_error, as_problem, no_error, on_change, startup_problems,
}
use ingress_nextgen.Buffers.{balance_proxies_for_upstreams}

-- A call that changes nothing and reports nothing.
abbrev pub unchanged : Configuration → Option Outcome
unchanged c = some (c, [], [])

-- During the startup the hosts are not rebuilt: only the error is reported.
abbrev pub rebuild_after : Environment → Report → Configuration → Option Outcome
rebuild_after env report c =
    if not c.startup_complete
    then some (c, [], startup_problems report)
    else do outcome ← rebuild_hosts env c; some (add_error report outcome)

-- two outcomes one after the other, of which the second began where the first ended
abbrev pub then_rebuild : Environment → Bool → Outcome → Option Outcome
then_rebuild env true (c, changes, problems) = do
  outcome ← rebuild_hosts env c
  some (outcome.0, changes +++ outcome.1, problems +++ outcome.2)
then_rebuild env false outcome = some outcome

-- setGlobalConfigListenerMap: of two listeners of one name the later counts
unfoldable pub listener_map_of : List Listener → Map String Listener → Map String Listener
listener_map_of [] m = m
listener_map_of (l ∷ ls) m = listener_map_of ls (insert l.name l m)

abbrev pub listeners_of : Option GlobalConfiguration → List Listener
listeners_of none = []
listeners_of (some gc) = gc.listeners

unfoldable pub set_global_configuration : Option GlobalConfiguration → Configuration → Configuration
unfolding listener_map_of
set_global_configuration gc c = record c {
  global_configuration = gc;
  listener_map = listener_map_of (listeners_of gc) [];
}

unfoldable pub store_ingress : String → Ingress → Configuration → Configuration
unfolding update_minion_index
store_ingress key ing c = record c {
  ingresses = insert key ing c.ingresses;
  minions_by_host = update_minion_index key (some ing) c.minions_by_host;
}

unfoldable pub drop_ingress : String → Configuration → Configuration
unfolding update_minion_index
drop_ingress key c = record c {
  ingresses = remove key c.ingresses;
  minions_by_host = update_minion_index key none c.minions_by_host;
}

abbrev pub rejection : String → ObjectMeta → String → String
rejection kind meta err =
    kind ++ (" " ++ (get_resource_key meta ++ (" was rejected with error: " ++ err)))

module _ (env : Environment) where
  -- `none` where the class of the object is another controller's
  unfoldable pub ingress_error : Ingress → Option (Option String)
  ingress_error ing =
      if env.has_correct_ingress_class (ingress_object ing)
      then some (env.validate_ingress ing)
      else none

  unfoldable pub add_or_update_ingress : Ingress → Configuration → Option Outcome
  unfolding store_ingress drop_ingress ingress_error
  add_or_update_ingress ing c =
      let key = get_resource_key ing.meta in
      elim (ingress_error ing) [
        | none ↦ rebuild_after env no_error (drop_ingress key c)
        | some none ↦ rebuild_after env no_error (store_ingress key ing c)
        | some (some err) ↦
            rebuild_after env
              (on_change (get_resource_key_with_kind ingress_kind ing.meta) err (ingress_object ing)
                err)
              (drop_ingress key c)
      ]

  unfoldable pub delete_ingress : String → Configuration → Option Outcome
  unfolding remove_minion_from_index
  delete_ingress key c = elim (lookup key c.ingresses) [
    | none ↦ unchanged c
    | some _ ↦ rebuild_after env no_error (record c {
      ingresses = remove key c.ingresses;
      minions_by_host = remove_minion_from_index key c.minions_by_host;
    })
  ]

  abbrev balance_upstream : Upstream → Upstream
  balance_upstream u = record u {
    proxy = balance_proxies_for_upstreams u.proxy env.is_directive_autoadjust_enabled;
  }

  abbrev pub balance_upstream_proxies : List Upstream → List Upstream
  balance_upstream_proxies upstreams = map balance_upstream upstreams

  abbrev pub balanced : VirtualServer → VirtualServer
  balanced vs = record vs { upstreams = balance_upstream_proxies vs.upstreams }

  abbrev pub balanced_route : VirtualServerRoute → VirtualServerRoute
  balanced_route vsr = record vsr { upstreams = balance_upstream_proxies vsr.upstreams }

  unfoldable pub virtual_server_error : VirtualServer → Option (Option String)
  virtual_server_error vs =
      if env.has_correct_ingress_class (virtual_server_object vs)
      then some (env.validate_virtual_server vs)
      else none

  unfoldable pub add_or_update_virtual_server : VirtualServer → Configuration → Option Outcome
  unfolding virtual_server_error
  add_or_update_virtual_server vs c =
      let key = get_resource_key vs.meta in
      let dropped = record c { virtual_servers = remove key c.virtual_servers } in
      elim (virtual_server_error vs) [
        | none ↦ rebuild_after env no_error dropped
        | some none ↦
            rebuild_after env no_error
              (record c { virtual_servers = insert key (balanced vs) c.virtual_servers })
        | some (some err) ↦
            rebuild_after env
              (on_change (get_resource_key_with_kind virtual_server_kind vs.meta) err
                (virtual_server_object vs) (rejection "VirtualServer" vs.meta err))
              dropped
      ]

  unfoldable pub delete_virtual_server : String → Configuration → Option Outcome
  delete_virtual_server key c = elim (lookup key c.virtual_servers) [
    | none ↦ unchanged c
    | some _ ↦
        rebuild_after env no_error (record c { virtual_servers = remove key c.virtual_servers })
  ]

  unfoldable pub virtual_server_route_error : VirtualServerRoute → Option (Option String)
  virtual_server_route_error vsr =
      if env.has_correct_ingress_class (virtual_server_route_object vsr)
      then some (env.validate_virtual_server_route vsr)
      else none

  unfoldable pub add_or_update_virtual_server_route :
      VirtualServerRoute → Configuration → Option Outcome
  unfolding virtual_server_route_error
  add_or_update_virtual_server_route vsr c =
      let key = get_resource_key vsr.meta in
      let dropped = record c { virtual_server_routes = remove key c.virtual_server_routes } in
      elim (virtual_server_route_error vsr) [
        | none ↦ rebuild_after env no_error dropped
        | some none ↦ rebuild_after env no_error (record c {
          virtual_server_routes = insert key (balanced_route vsr) c.virtual_server_routes;
        })
        | some (some err) ↦
            rebuild_after env
              (as_problem (virtual_server_route_object vsr)
                (rejection "VirtualServerRoute" vsr.meta err))
              dropped
      ]

  unfoldable pub delete_virtual_server_route : String → Configuration → Option Outcome
  delete_virtual_server_route key c = elim (lookup key c.virtual_server_routes) [
    | none ↦ unchanged c
    | some _ ↦
        rebuild_after env no_error
          (record c { virtual_server_routes = remove key c.virtual_server_routes })
  ]

  -- The validator leaves the valid listeners in the object, which is stored whatever the error.
  unfoldable pub add_or_update_global_configuration :
      GlobalConfiguration → Configuration → Option (Outcome × Option String)
  unfolding set_global_configuration
  add_or_update_global_configuration gc c =
      let (err, valid) = env.validate_global_configuration gc in
      do
        listeners ←
            rebuild_listener_hosts
              (set_global_configuration (some (record gc { listeners = valid })) c)
        outcome ← then_rebuild env c.startup_complete listeners
        some (outcome, err)

  unfoldable pub delete_global_configuration : Configuration → Option Outcome
  unfolding set_global_configuration
  delete_global_configuration c = do
    listeners ← rebuild_listener_hosts (set_global_configuration none c)
    then_rebuild env c.startup_complete listeners

  unfoldable pub transport_server_error : TransportServer → Option (Option String)
  transport_server_error ts =
      if env.has_correct_ingress_class (transport_server_object ts)
      then some (env.validate_transport_server ts)
      else none

  -- the rebuild of the listeners, and of the hosts if TLS Passthrough is on
  unfoldable pub rebuild_both : Report → Configuration → Option Outcome
  unfolding rebuild_listener_hosts
  rebuild_both report c = do
    listeners ← rebuild_listener_hosts c
    outcome ← then_rebuild env (env.is_tls_passthrough_enabled && c.startup_complete) listeners
    some (add_error report outcome)

  unfoldable pub add_or_update_transport_server : TransportServer → Configuration → Option Outcome
  unfolding transport_server_error rebuild_both
  add_or_update_transport_server ts c =
      let key = get_resource_key ts.meta in
      let dropped = record c { transport_servers = remove key c.transport_servers } in
      elim (transport_server_error ts) [
        | none ↦ rebuild_both no_error dropped
        | some none ↦
            rebuild_both no_error
              (record c { transport_servers = insert key ts c.transport_servers })
        | some (some err) ↦
            rebuild_both
              (on_change (get_resource_key_with_kind transport_server_kind ts.meta) err
                (transport_server_object ts) (rejection "TransportServer" ts.meta err))
              dropped
      ]

  unfoldable pub delete_transport_server : String → Configuration → Option Outcome
  unfolding rebuild_both
  delete_transport_server key c = elim (lookup key c.transport_servers) [
    | none ↦ unchanged c
    | some _ ↦
        rebuild_both no_error (record c { transport_servers = remove key c.transport_servers })
  ]

  unfoldable pub complete_startup : Configuration → Option Outcome
  unfolding rebuild_hosts
  complete_startup c = rebuild_hosts env (record c { startup_complete = true })

-- The references of policies to the services that authenticate for them, which the two service
-- reference checkers share.
unfoldable pub update_policy_service_ref : String → String → String → Configuration → Configuration
update_policy_service_ref namespace name auth_service c = record c {
  policy_services = insert (namespace ++ ("/" ++ name)) auth_service c.policy_services;
}

unfoldable pub delete_policy_service_ref : String → String → Configuration → Configuration
delete_policy_service_ref namespace name c = record c {
  policy_services = remove (namespace ++ ("/" ++ name)) c.policy_services;
}
