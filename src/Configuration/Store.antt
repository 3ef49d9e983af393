-- ===== src/Configuration/Store.antt =====
-- What the calls of the configuration promise: a store of functions from keys to objects, and the
-- effect of each call on it. The tables, the problems and the index of minions are left out of it.
use ingress_nextgen.Common.{
  Bool, List, Option, String, false, if◌then◌else◌, map, none, some, string_eq, true, ℕ_eq, ◌++◌,
  ◌==◌,
}
use ingress_nextgen.Common.Maps.{lookup}
use ingress_nextgen.Objects.{
  GlobalConfiguration, Ingress, Listener, TransportServer, Upstream, VirtualServer,
  VirtualServerRoute,
}
use ingress_nextgen.Problems.{
  ingress_object, transport_server_object, virtual_server_object, virtual_server_route_object,
}
use ingress_nextgen.Environment.{Environment}
use ingress_nextgen.Resources.{get_resource_key}
use ingress_nextgen.Buffers.{balance_proxies_for_upstreams}
use ingress_nextgen.Configuration.{Configuration}
use ingress_nextgen.Configuration.Steps.{
  Call, drop_global_configuration, drop_ingress_at, drop_policy_service, drop_transport_server_at,
  drop_virtual_server_at, drop_virtual_server_route_at, put_global_configuration, put_ingress,
  put_policy_service, put_transport_server, put_virtual_server, put_virtual_server_route,
  startup_done,
}
use ingress_nextgen.Configuration.Sound.{last_named}

-- A function from keys, changed at one key.
abbrev pub put {ℓ} : {A : Type ℓ} → String → Option A → (String → Option A) → String → Option A
put key v f k = if key == k then v else f k

-- What is stored of an object: it, if it has the right class and no error, and nothing otherwise.
abbrev pub if_admitted {ℓ} : {A : Type ℓ} → Bool → Option String → A → Option A
if_admitted true none x = some x
if_admitted true (some err) x = none
if_admitted false err x = none

pub record Store : Type 0 where
  pub ingresses_at : String → Option Ingress
  pub virtual_servers_at : String → Option VirtualServer
  pub virtual_server_routes_at : String → Option VirtualServerRoute
  pub transport_servers_at : String → Option TransportServer
  pub global : Option GlobalConfiguration
  pub listeners_at : String → Option Listener
  pub policy_services_at : String → Option String
  pub is_started : Bool

unfoldable pub view : Configuration → Store
view c = record {
  ingresses_at = λ k. lookup k c.ingresses;
  virtual_servers_at = λ k. lookup k c.virtual_servers;
  virtual_server_routes_at = λ k. lookup k c.virtual_server_routes;
  transport_servers_at = λ k. lookup k c.transport_servers;
  global = c.global_configuration;
  listeners_at = λ n. lookup n c.listener_map;
  policy_services_at = λ k. lookup k c.policy_services;
  is_started = c.startup_complete;
}

-- The upstreams after the automatic adjustment of their proxy buffers.
abbrev pub adjusted : Environment → List Upstream → List Upstream
adjusted env upstreams =
    map
      (λ (u : Upstream). record u {
        proxy = balance_proxies_for_upstreams u.proxy env.is_directive_autoadjust_enabled;
      })
      upstreams

unfoldable pub effect : Environment → Call → Store → Store
effect env (put_ingress ing) s = record s {
  ingresses_at =
      put (get_resource_key ing.meta)
        (if_admitted (env.has_correct_ingress_class (ingress_object ing)) (env.validate_ingress ing)
          ing)
        s.ingresses_at;
}
effect env (drop_ingress_at key) s = record s { ingresses_at = put key none s.ingresses_at }
effect env (put_virtual_server vs) s = record s {
  virtual_servers_at =
      put (get_resource_key vs.meta)
        (if_admitted (env.has_correct_ingress_class (virtual_server_object vs))
          (env.validate_virtual_server vs) (record vs { upstreams = adjusted env vs.upstreams }))
        s.virtual_servers_at;
}
effect env (drop_virtual_server_at key) s = record s {
  virtual_servers_at = put key none s.virtual_servers_at;
}
effect env (put_virtual_server_route vsr) s = record s {
  virtual_server_routes_at =
      put (get_resource_key vsr.meta)
        (if_admitted (env.has_correct_ingress_class (virtual_server_route_object vsr))
          (env.validate_virtual_server_route vsr)
          (record vsr { upstreams = adjusted env vsr.upstreams }))
        s.virtual_server_routes_at;
}
effect env (drop_virtual_server_route_at key) s = record s {
  virtual_server_routes_at = put key none s.virtual_server_routes_at;
}
effect env (put_global_configuration gc) s =
    let valid = (env.validate_global_configuration gc).1 in
    record s {
      global = some (record gc { listeners = valid });
      listeners_at = λ n. last_named n valid;
    }
effect env drop_global_configuration s = record s { global = none; listeners_at = λ n. none }
effect env (put_transport_server ts) s = record s {
  transport_servers_at =
      put (get_resource_key ts.meta)
        (if_admitted (env.has_correct_ingress_class (transport_server_object ts))
          (env.validate_transport_server ts) ts)
        s.transport_servers_at;
}
effect env (drop_transport_server_at key) s = record s {
  transport_servers_at = put key none s.transport_servers_at;
}
effect env startup_done s = record s { is_started = true }
effect env (put_policy_service namespace name auth_service) s = record s {
  policy_services_at = put (namespace ++ ("/" ++ name)) (some auth_service) s.policy_services_at;
}
effect env (drop_policy_service namespace name) s = record s {
  policy_services_at = put (namespace ++ ("/" ++ name)) none s.policy_services_at;
}
