-- ===== src/Configuration/Refined.antt =====
-- The calls of the configuration have the effects on the abstract store that are promised.
use ingress_nextgen.Common.{
  ==_true, Bool, Bool-cases, Option, String, [], ap, false, if◌then◌else◌, inl, inr, none, refl,
  some, string_eq, sym, true, ℕ_eq, ◌++◌, ◌==◌, ◌∙◌, ◌≡◌,
}
use ingress_nextgen.Common.Maps.{Map, lookup, lookup-insert, lookup-remove}
use ingress_nextgen.Problems.{
  ingress_object, transport_server_object, virtual_server_object, virtual_server_route_object,
}
use ingress_nextgen.Environment.{Environment}
use ingress_nextgen.Resources.{get_resource_key}
use ingress_nextgen.Configuration.{Configuration}
use ingress_nextgen.Configuration.Rebuild.{Outcome}
use ingress_nextgen.Configuration.Operations.{
  balanced, balanced_route, drop_ingress, ingress_error, set_global_configuration, store_ingress,
  transport_server_error, virtual_server_error, virtual_server_route_error,
}
use ingress_nextgen.Configuration.Frame.{Tables, with_tables}
use ingress_nextgen.Configuration.Steps.{
  Call, drop_global_configuration, drop_ingress_at, drop_policy_service, drop_transport_server_at,
  drop_virtual_server_at, drop_virtual_server_route_at, put_global_configuration, put_ingress,
  put_policy_service, put_transport_server, put_virtual_server, put_virtual_server_route,
  startup_done, step,
}
use ingress_nextgen.Configuration.Stored.{admit, if_there, step-IsRebuilt, stored_after}
use ingress_nextgen.Configuration.Sound.{IsSound, last_named, listener_map_of-MapsLast}
use ingress_nextgen.Configuration.Invariant.{step-IsSound}
use ingress_nextgen.Minions.Consistent.{IsConsistent}
use ingress_nextgen.Configuration.Store.{Store, effect, if_admitted, put, view}

-- An object that is admitted or not.
view-admit :
    {A : Type 0} (has_class : Bool) (err : Option String) (x : A) (at : Option A → Store)
    (stored dropped : Configuration)
    → view stored ≡ at (some x)
    → view dropped ≡ at none
    → view (admit (if has_class then some err else none) stored dropped)
      ≡ at (if_admitted has_class err x)
view-admit true none x at stored dropped p q = p
view-admit true (some err) x at stored dropped p q = q
view-admit false err x at stored dropped p q = q

-- A key that is there or not.
view-if_there :
    {A : Type 0} (o : Option A) (gone c : Configuration) (s : Store)
    → view gone ≡ s
    → (o ≡ none → view c ≡ s)
    → view (if_there o gone c) ≡ s
view-if_there none gone c s p q = q refl
view-if_there (some v) gone c s p q = p

-- Removing a key that is not there.
absent :
    {A : Type 0} (key k : String) (m : Map String A)
    → lookup key m ≡ none
    → lookup k m ≡ put key none (λ j. lookup j m) k
absent key k m h = elim (Bool-cases (key == k)) [
  | inl t ↦ rw t (ap (λ j. lookup j m) (sym (==_true key k t)) ∙ h)
  | inr f ↦ rw f refl
]

view-stored_after :
    (env : Environment) (call : Call) (c : Configuration)
    → view (stored_after env call c) ≡ effect env call (view c)
unfolding stored_after store_ingress drop_ingress set_global_configuration effect view ingress_error
    virtual_server_error virtual_server_route_error transport_server_error last_named
view-stored_after env (put_ingress ing) c =
    let key = get_resource_key ing.meta in
    view-admit (env.has_correct_ingress_class (ingress_object ing)) (env.validate_ingress ing) ing
      (λ o. record (view c) { ingresses_at = put key o (view c).ingresses_at })
      (store_ingress key ing c) (drop_ingress key c)
      (λ i. record (view c) { ingresses_at = λ k. lookup-insert key k ing c.ingresses i })
      (λ i. record (view c) { ingresses_at = λ k. lookup-remove key k c.ingresses i })
view-stored_after env (drop_ingress_at key) c =
    view-if_there (lookup key c.ingresses) (drop_ingress key c) c _
      (λ i. record (view c) { ingresses_at = λ k. lookup-remove key k c.ingresses i })
      (λ h i. record (view c) { ingresses_at = λ k. absent key k c.ingresses h i })
view-stored_after env (put_virtual_server vs) c =
    let key = get_resource_key vs.meta in
    view-admit (env.has_correct_ingress_class (virtual_server_object vs))
      (env.validate_virtual_server vs) (balanced env vs)
      (λ o. record (view c) { virtual_servers_at = put key o (view c).virtual_servers_at }) _ _
      (λ i. record (view c) {
        virtual_servers_at = λ k. lookup-insert key k (balanced env vs) c.virtual_servers i;
      })
      (λ i. record (view c) { virtual_servers_at = λ k. lookup-remove key k c.virtual_servers i })
view-stored_after env (drop_virtual_server_at key) c =
    view-if_there (lookup key c.virtual_servers) _ c _
      (λ i. record (view c) { virtual_servers_at = λ k. lookup-remove key k c.virtual_servers i })
      (λ h i. record (view c) { virtual_servers_at = λ k. absent key k c.virtual_servers h i })
view-stored_after env (put_virtual_server_route vsr) c =
    let key = get_resource_key vsr.meta in
    view-admit (env.has_correct_ingress_class (virtual_server_route_object vsr))
      (env.validate_virtual_server_route vsr) (balanced_route env vsr)
      (λ o. record (view c) {
        virtual_server_routes_at = put key o (view c).virtual_server_routes_at;
      })
      _ _
      (λ i. record (view c) {
        virtual_server_routes_at =
            λ k. lookup-insert key k (balanced_route env vsr) c.virtual_server_routes i;
      })
      (λ i. record (view c) {
        virtual_server_routes_at = λ k. lookup-remove key k c.virtual_server_routes i;
      })
view-stored_after env (drop_virtual_server_route_at key) c =
    view-if_there (lookup key c.virtual_server_routes) _ c _
      (λ i. record (view c) {
        virtual_server_routes_at = λ k. lookup-remove key k c.virtual_server_routes i;
      })
      (λ h i. record (view c) {
        virtual_server_routes_at = λ k. absent key k c.virtual_server_routes h i;
      })
view-stored_after env (put_global_configuration gc) c = λ i. record (view c) {
  global = some (record gc { listeners = (env.validate_global_configuration gc).1 });
  listeners_at = λ n. listener_map_of-MapsLast (env.validate_global_configuration gc).1 n i;
}
view-stored_after env drop_global_configuration c =
    λ i. record (view c) { global = none; listeners_at = λ n. listener_map_of-MapsLast [] n i }
view-stored_after env (put_transport_server ts) c =
    let key = get_resource_key ts.meta in
    view-admit (env.has_correct_ingress_class (transport_server_object ts))
      (env.validate_transport_server ts) ts
      (λ o. record (view c) { transport_servers_at = put key o (view c).transport_servers_at }) _ _
      (λ i. record (view c) {
        transport_servers_at = λ k. lookup-insert key k ts c.transport_servers i;
      })
      (λ i. record (view c) {
        transport_servers_at = λ k. lookup-remove key k c.transport_servers i;
      })
view-stored_after env (drop_transport_server_at key) c =
    view-if_there (lookup key c.transport_servers) _ c _
      (λ i. record (view c) {
        transport_servers_at = λ k. lookup-remove key k c.transport_servers i;
      })
      (λ h i. record (view c) { transport_servers_at = λ k. absent key k c.transport_servers h i })
view-stored_after env startup_done c = refl
view-stored_after env (put_policy_service namespace name auth_service) c = λ i. record (view c) {
  policy_services_at =
      λ k. lookup-insert (namespace ++ ("/" ++ name)) k auth_service c.policy_services i;
}
view-stored_after env (drop_policy_service namespace name) c = λ i. record (view c) {
  policy_services_at = λ k. lookup-remove (namespace ++ ("/" ++ name)) k c.policy_services i;
}

-- The tables and the problems are not part of the store.
view-with_tables : (t : Tables) (c : Configuration) → view (with_tables t c) ≡ view c
unfolding view
view-with_tables t c = refl

-- Every call on a sound configuration that succeeds has the effect on the store that an abstract
-- store of functions from keys defines, and in its result a key stands in the index of minions under
-- a host just when the Ingress with the key is a minion of the host.
pub step-effect :
    (env : Environment) (call : Call) (c : Configuration) (o : Outcome)
    → IsSound env c
    → step env call c ≡ some o
    → (view o.0 ≡ effect env call (view c)) × IsConsistent o.0.minions_by_host o.0.ingresses
step-effect env call c o sound h =
    let (t, q) = step-IsRebuilt env call c o h in
    (
      ap view q ∙ view-with_tables t (stored_after env call c) ∙ view-stored_after env call c,
      (step-IsSound env call c o sound h).4,
    )
