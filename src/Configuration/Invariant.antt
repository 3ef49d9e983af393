-- ===== src/Configuration/Invariant.antt =====
-- What every reachable configuration keeps: only admitted objects are stored, each under its own key,
-- and the index of minions and the map of listeners agree with the objects from which they are made.
use ingress_nextgen.Common.{Option, String, none, refl, some, string_eq, ℕ_eq, ◌≡◌}
use ingress_nextgen.Common.Maps.{lookup}
use ingress_nextgen.Environment.{Environment}
use ingress_nextgen.Resources.{get_resource_key}
use ingress_nextgen.Minions.Index.{index_host, update_minion_index}
use ingress_nextgen.Minions.Consistent.{remove_minion_from_index-IsConsistent}
use ingress_nextgen.Minions.Updated.{update_minion_index-IsConsistent}
use ingress_nextgen.Configuration.{Configuration, new_configuration}
use ingress_nextgen.Configuration.Rebuild.{Outcome}
use ingress_nextgen.Configuration.Operations.{
  balanced, balanced_route, drop_ingress, ingress_error, set_global_configuration, store_ingress,
  transport_server_error, virtual_server_error, virtual_server_route_error,
}
use ingress_nextgen.Configuration.Sound.{
  HoldsAll-insert, HoldsAll-remove, IsIngress, IsSound, IsTransportServer, IsVirtualServer,
  IsVirtualServerRoute, ingress_error-IsAdmitted, last_named, listener_map_of-MapsLast,
  transport_server_error-IsAdmitted, virtual_server_error-IsAdmitted,
  virtual_server_route_error-IsAdmitted,
}
use ingress_nextgen.Configuration.Frame.{Tables, with_tables}
use ingress_nextgen.Configuration.Steps.{
  Call, IsReachable, after, at_start, drop_global_configuration, drop_ingress_at,
  drop_policy_service, drop_transport_server_at, drop_virtual_server_at,
  drop_virtual_server_route_at, put_global_configuration, put_ingress, put_policy_service,
  put_transport_server, put_virtual_server, put_virtual_server_route, startup_done, step,
}
use ingress_nextgen.Configuration.Stored.{admit, if_there, step-IsRebuilt, stored_after}

-- An admitted object satisfies a property of configurations that storing it establishes.
pub admit-elim :
    (P : Configuration → Type 0) (e : Option (Option String)) (stored dropped : Configuration)
    → (e ≡ some none → P stored)
    → P dropped
    → P (admit e stored dropped)
admit-elim P none stored dropped s d = d
admit-elim P (some none) stored dropped s d = s refl
admit-elim P (some (some err)) stored dropped s d = d

pub if_there-elim :
    {V : Type 0} (P : Configuration → Type 0) (v : Option V) (gone c : Configuration)
    → P gone
    → P c
    → P (if_there v gone c)
if_there-elim P none gone c g h = h
if_there-elim P (some v) gone c g h = g

drop_ingress-IsSound :
    (env : Environment) (key : String) (c : Configuration)
    → IsSound env c
    → IsSound env (drop_ingress key c)
unfolding drop_ingress update_minion_index index_host
drop_ingress-IsSound env key c i = (
  HoldsAll-remove (IsIngress env) key c.ingresses i.0,
  i.1,
  i.2,
  i.3,
  remove_minion_from_index-IsConsistent key c.minions_by_host c.ingresses i.4,
  i.5,
)

-- the store after a call is sound if the store before it was
pub stored_after-IsSound :
    (env : Environment) (call : Call) (c : Configuration)
    → IsSound env c
    → IsSound env (stored_after env call c)
unfolding stored_after store_ingress set_global_configuration
stored_after-IsSound env (put_ingress ing) c i =
    let key = get_resource_key ing.meta in
    admit-elim (IsSound env) (ingress_error env ing) _ _
      (λ ok. (
        HoldsAll-insert (IsIngress env) key ing c.ingresses
            (ingress_error-IsAdmitted env ing ok, refl) i.0,
        i.1,
        i.2,
        i.3,
        update_minion_index-IsConsistent key ing c.minions_by_host c.ingresses i.4,
        i.5,
      ))
      (drop_ingress-IsSound env key c i)
stored_after-IsSound env (drop_ingress_at key) c i =
    if_there-elim (IsSound env) (lookup key c.ingresses) _ _ (drop_ingress-IsSound env key c i) i
stored_after-IsSound env (put_virtual_server vs) c i =
    let key = get_resource_key vs.meta in
    admit-elim (IsSound env) (virtual_server_error env vs) _ _
      (λ ok. (
        i.0,
        HoldsAll-insert (IsVirtualServer env) key (balanced env vs) c.virtual_servers
            (vs, virtual_server_error-IsAdmitted env vs ok, refl, refl) i.1,
        i.2,
        i.3,
        i.4,
        i.5,
      ))
      ((i.0, HoldsAll-remove (IsVirtualServer env) key c.virtual_servers i.1, i.2, i.3, i.4, i.5))
stored_after-IsSound env (drop_virtual_server_at key) c i =
    if_there-elim (IsSound env) (lookup key c.virtual_servers) _ _
      ((i.0, HoldsAll-remove (IsVirtualServer env) key c.virtual_servers i.1, i.2, i.3, i.4, i.5)) i
stored_after-IsSound env (put_virtual_server_route vsr) c i =
    let key = get_resource_key vsr.meta in
    admit-elim (IsSound env) (virtual_server_route_error env vsr) _ _
      (λ ok. (
        i.0,
        i.1,
        HoldsAll-insert (IsVirtualServerRoute env) key (balanced_route env vsr)
            c.virtual_server_routes
            (vsr, virtual_server_route_error-IsAdmitted env vsr ok, refl, refl) i.2,
        i.3,
        i.4,
        i.5,
      ))
      ((
        i.0,
        i.1,
        HoldsAll-remove (IsVirtualServerRoute env) key c.virtual_server_routes i.2,
        i.3,
        i.4,
        i.5,
      ))
stored_after-IsSound env (drop_virtual_server_route_at key) c i =
    if_there-elim (IsSound env) (lookup key c.virtual_server_routes) _ _
      ((
        i.0,
        i.1,
        HoldsAll-remove (IsVirtualServerRoute env) key c.virtual_server_routes i.2,
        i.3,
        i.4,
        i.5,
      ))
      i
stored_after-IsSound env (put_global_configuration gc) c i =
    (i.0, i.1, i.2, i.3, i.4, listener_map_of-MapsLast _)
stored_after-IsSound env drop_global_configuration c i =
    (i.0, i.1, i.2, i.3, i.4, listener_map_of-MapsLast _)
stored_after-IsSound env (put_transport_server ts) c i =
    let key = get_resource_key ts.meta in
    admit-elim (IsSound env) (transport_server_error env ts) _ _
      (λ ok. (
        i.0,
        i.1,
        i.2,
        HoldsAll-insert (IsTransportServer env) key ts c.transport_servers
            (transport_server_error-IsAdmitted env ts ok, refl) i.3,
        i.4,
        i.5,
      ))
      ((
        i.0,
        i.1,
        i.2,
        HoldsAll-remove (IsTransportServer env) key c.transport_servers i.3,
        i.4,
        i.5,
      ))
stored_after-IsSound env (drop_transport_server_at key) c i =
    if_there-elim (IsSound env) (lookup key c.transport_servers) _ _
      ((
        i.0,
        i.1,
        i.2,
        HoldsAll-remove (IsTransportServer env) key c.transport_servers i.3,
        i.4,
        i.5,
      ))
      i
stored_after-IsSound env startup_done c i = i
stored_after-IsSound env (put_policy_service namespace name auth_service) c i = i
stored_after-IsSound env (drop_policy_service namespace name) c i = i

pub with_tables-IsSound :
    (env : Environment) (t : Tables) (c : Configuration)
    → IsSound env c
    → IsSound env (with_tables t c)
with_tables-IsSound env t c i = i

-- A call keeps a sound configuration sound.
pub step-IsSound :
    (env : Environment) (call : Call) (c : Configuration) (o : Outcome)
    → IsSound env c
    → step env call c ≡ some o
    → IsSound env o.0
step-IsSound env call c o i h =
    let (t, e) = step-IsRebuilt env call c o h in
    rw e (with_tables-IsSound env t (stored_after env call c) (stored_after-IsSound env call c i))

-- Every reachable configuration is sound: each stored Ingress and TransportServer has the right class
-- and no error, each stored VirtualServer and VirtualServerRoute is the balanced form, which is not
-- validated again, of one that has the right class and no error, all stand under their own keys, a key
-- stands in the index of minions under a host just when the Ingress with the key is a minion of the
-- host, and every name is mapped to the last listener of that name.
pub reachable-IsSound : (env : Environment) (c : Configuration) → IsReachable env c → IsSound env c
unfolding new_configuration lookup index_host last_named
reachable-IsSound env _ at_start = (
  λ k v h. cc h,
  λ k v h. cc h,
  λ k v h. cc h,
  λ k v h. cc h,
  record { one_entry = tt; agrees = λ h k. refl },
  λ n. refl,
)
reachable-IsSound env _ (after {c} call o r e) =
    step-IsSound env call c o (reachable-IsSound env c r) e
