-- ===== src/Configuration/Stored.antt =====
-- What each call does to the stored objects: the store after a call, without the rebuilds.
use ingress_nextgen.Common.{
  >>=-eq-some, Bool, Option, String, ap, none, refl, some, string_eq, true, ℕ_eq, ◌++◌, ◌∙◌, ◌≡◌,
}
use ingress_nextgen.Common.Maps.{insert, lookup, remove}
use ingress_nextgen.Objects.{GlobalConfiguration}
use ingress_nextgen.Environment.{Environment}
use ingress_nextgen.Resources.{get_resource_key}
use ingress_nextgen.Minions.Index.{update_minion_index}
use ingress_nextgen.Configuration.{Configuration}
use ingress_nextgen.Configuration.Rebuild.{Outcome, rebuild_hosts, rebuild_listener_hosts}
use ingress_nextgen.Configuration.Operations.{
  add_or_update_global_configuration, add_or_update_ingress, add_or_update_transport_server,
  add_or_update_virtual_server, add_or_update_virtual_server_route, balanced, balanced_route,
  complete_startup, delete_global_configuration, delete_ingress, delete_policy_service_ref,
  delete_transport_server, delete_virtual_server, delete_virtual_server_route, drop_ingress,
  ingress_error, rebuild_after, rebuild_both, set_global_configuration, store_ingress, then_rebuild,
  transport_server_error, unchanged, update_policy_service_ref, virtual_server_error,
  virtual_server_route_error,
}
use ingress_nextgen.Configuration.Frame.{
  IsRebuilt, IsRebuilt-refl, rebuild_after-IsRebuilt, rebuild_both-IsRebuilt,
  rebuild_hosts-IsRebuilt, rebuild_listener_hosts-IsRebuilt, then_rebuild-IsRebuilt,
}
use ingress_nextgen.Configuration.Steps.{
  Call, drop_global_configuration, drop_ingress_at, drop_policy_service, drop_transport_server_at,
  drop_virtual_server_at, drop_virtual_server_route_at, put_global_configuration, put_ingress,
  put_policy_service, put_transport_server, put_virtual_server, put_virtual_server_route,
  startup_done, step,
}
use mathlib.Core.Option.{some-injective}
use mathlib.Core.Path.{subst}
use ingress_nextgen.Configuration.Operations.Reporting.{Report, no_error}

-- An object is stored if it has the right class and no error, and is dropped if not.
abbrev pub admit {ℓ} : {A : Type ℓ} → Option (Option String) → A → A → A
admit none stored dropped = dropped
admit (some none) stored dropped = stored
admit (some (some err)) stored dropped = dropped

abbrev pub if_there {ℓ κ} : {V : Type ℓ} {A : Type κ} → Option V → A → A → A
if_there none gone same = same
if_there (some v) gone same = gone

-- The store after a call.
unfoldable pub stored_after : Environment → Call → Configuration → Configuration
unfolding store_ingress drop_ingress set_global_configuration
stored_after env (put_ingress ing) c =
    admit (ingress_error env ing) (store_ingress (get_resource_key ing.meta) ing c)
      (drop_ingress (get_resource_key ing.meta) c)
stored_after env (drop_ingress_at key) c = if_there (lookup key c.ingresses) (drop_ingress key c) c
stored_after env (put_virtual_server vs) c =
    admit (virtual_server_error env vs)
      (record c {
        virtual_servers = insert (get_resource_key vs.meta) (balanced env vs) c.virtual_servers;
      })
      (record c { virtual_servers = remove (get_resource_key vs.meta) c.virtual_servers })
stored_after env (drop_virtual_server_at key) c =
    if_there (lookup key c.virtual_servers)
      (record c { virtual_servers = remove key c.virtual_servers }) c
stored_after env (put_virtual_server_route vsr) c =
    admit (virtual_server_route_error env vsr)
      (record c {
        virtual_server_routes =
            insert (get_resource_key vsr.meta) (balanced_route env vsr) c.virtual_server_routes;
      })
      (record c {
        virtual_server_routes = remove (get_resource_key vsr.meta) c.virtual_server_routes;
      })
stored_after env (drop_virtual_server_route_at key) c =
    if_there (lookup key c.virtual_server_routes)
      (record c { virtual_server_routes = remove key c.virtual_server_routes }) c
stored_after env (put_global_configuration gc) c =
    set_global_configuration
      (some (record gc { listeners = (env.validate_global_configuration gc).1 })) c
stored_after env drop_global_configuration c = set_global_configuration none c
stored_after env (put_transport_server ts) c =
    admit (transport_server_error env ts)
      (record c { transport_servers = insert (get_resource_key ts.meta) ts c.transport_servers })
      (record c { transport_servers = remove (get_resource_key ts.meta) c.transport_servers })
stored_after env (drop_transport_server_at key) c =
    if_there (lookup key c.transport_servers)
      (record c { transport_servers = remove key c.transport_servers }) c
stored_after env startup_done c = record c { startup_complete = true }
stored_after env (put_policy_service namespace name auth_service) c = record c {
  policy_services = insert (namespace ++ ("/" ++ name)) auth_service c.policy_services;
}
stored_after env (drop_policy_service namespace name) c = record c {
  policy_services = remove (namespace ++ ("/" ++ name)) c.policy_services;
}

-- A relation that every rebuild has from the configuration that it is called on to its result, every
-- call has from the store after it.
module _ (env : Environment) (R : Configuration → Configuration → Type 0)
    (same : (c : Configuration) → R c c)
    (after_rebuild : (report : Report) (c : Configuration) (o : Outcome)
      → rebuild_after env report c ≡ some o
      → R c o.0)
    (after_both : (report : Report) (c : Configuration) (o : Outcome)
      → rebuild_both env report c ≡ some o
      → R c o.0)
    (after_listeners : (b : Bool) (c : Configuration) (first o : Outcome)
      → rebuild_listener_hosts c ≡ some first
      → then_rebuild env b first ≡ some o
      → (b ≡ true → c.startup_complete ≡ true)
      → R c o.0)
    (after_hosts : (c : Configuration) (o : Outcome)
      → rebuild_hosts env c ≡ some o
      → c.startup_complete ≡ true
      → R c o.0) where
  -- a call that makes no change
  unchanged_lem : (c : Configuration) (o : Outcome) → unchanged c ≡ some o → R c o.0
  unchanged_lem c o h = subst (λ (x : Outcome). R c x.0) (some-injective _ _ h) (same c)

  -- an object that is admitted or not
  admit_lem :
      (rebuild : Report → Configuration → Option Outcome)
      → ((report : Report) (c : Configuration) (o : Outcome) → rebuild report c ≡ some o → R c o.0)
      → (e : Option (Option String)) (stored dropped : Configuration) (report : String → Report)
        (o : Outcome)
      → elim e [
        | none ↦ rebuild no_error dropped
        | some none ↦ rebuild no_error stored
        | some (some err) ↦ rebuild (report err) dropped
      ]
        ≡ some o
      → R (admit e stored dropped) o.0
  admit_lem rebuild sound none stored dropped report o h = sound no_error dropped o h
  admit_lem rebuild sound (some none) stored dropped report o h = sound no_error stored o h
  admit_lem rebuild sound (some (some err)) stored dropped report o h =
      sound (report err) dropped o h

  -- a key that is there or not
  if_there_lem {ℓ} :
      {V : Type ℓ} (rebuild : Report → Configuration → Option Outcome)
      → ((report : Report) (c : Configuration) (o : Outcome) → rebuild report c ≡ some o → R c o.0)
      → (v : Option V) (gone c : Configuration) (o : Outcome)
      → elim v [ none ↦ unchanged c | some _ ↦ rebuild no_error gone ] ≡ some o
      → R (if_there v gone c) o.0
  if_there_lem rebuild sound none gone c o h =
      subst (R c) (ap (λ (x : Outcome). x.0) (some-injective _ _ h)) (same c)
  if_there_lem rebuild sound (some v) gone c o h = sound no_error gone o h

  put_global_configuration_lem :
      (gc : GlobalConfiguration) (c : Configuration) (o : Outcome)
      → step env (put_global_configuration gc) c ≡ some o
      → R (stored_after env (put_global_configuration gc) c) o.0
  unfolding step add_or_update_global_configuration stored_after
  put_global_configuration_lem gc c o h =
      let (r, p, q) = >>=-eq-some (add_or_update_global_configuration env gc c) _ h in
      let d = stored_after env (put_global_configuration gc) c in
      let (first, p', q') = >>=-eq-some (rebuild_listener_hosts d) _ p in
      let (o', s, t) = >>=-eq-some (then_rebuild env c.startup_complete first) _ q' in
      subst (λ (x : Outcome). R d x.0)
        (ap (λ (x : Outcome × Option String). x.0) (some-injective _ _ t) ∙ some-injective _ _ q)
        (after_listeners c.startup_complete d first o' p' s (λ b. b))

  drop_global_configuration_lem :
      (c : Configuration) (o : Outcome)
      → step env drop_global_configuration c ≡ some o
      → R (stored_after env drop_global_configuration c) o.0
  unfolding step delete_global_configuration stored_after
  drop_global_configuration_lem c o h =
      let d = stored_after env drop_global_configuration c in
      let (first, p, q) = >>=-eq-some (rebuild_listener_hosts d) _ h in
      after_listeners c.startup_complete d first o p q (λ b. b)

  pub step_lem :
      (call : Call) (c : Configuration) (o : Outcome)
      → step env call c ≡ some o
      → R (stored_after env call c) o.0
  unfolding step stored_after update_minion_index add_or_update_ingress delete_ingress
      add_or_update_virtual_server delete_virtual_server add_or_update_virtual_server_route
      delete_virtual_server_route add_or_update_transport_server delete_transport_server
      complete_startup update_policy_service_ref delete_policy_service_ref
  step_lem (put_ingress ing) c o h =
      admit_lem (rebuild_after env) after_rebuild (ingress_error env ing) _ _ _ o h
  step_lem (drop_ingress_at key) c o h =
      if_there_lem (rebuild_after env) after_rebuild (lookup key c.ingresses) _ _ o h
  step_lem (put_virtual_server vs) c o h =
      admit_lem (rebuild_after env) after_rebuild (virtual_server_error env vs) _ _ _ o h
  step_lem (drop_virtual_server_at key) c o h =
      if_there_lem (rebuild_after env) after_rebuild (lookup key c.virtual_servers) _ _ o h
  step_lem (put_virtual_server_route vsr) c o h =
      admit_lem (rebuild_after env) after_rebuild (virtual_server_route_error env vsr) _ _ _ o h
  step_lem (drop_virtual_server_route_at key) c o h =
      if_there_lem (rebuild_after env) after_rebuild (lookup key c.virtual_server_routes) _ _ o h
  step_lem (put_global_configuration gc) c o h = put_global_configuration_lem gc c o h
  step_lem drop_global_configuration c o h = drop_global_configuration_lem c o h
  step_lem (put_transport_server ts) c o h =
      admit_lem (rebuild_both env) after_both (transport_server_error env ts) _ _ _ o h
  step_lem (drop_transport_server_at key) c o h =
      if_there_lem (rebuild_both env) after_both (lookup key c.transport_servers) _ _ o h
  step_lem startup_done c o h = after_hosts (record c { startup_complete = true }) o h refl
  step_lem (put_policy_service namespace name auth_service) c o h =
      unchanged_lem (update_policy_service_ref namespace name auth_service c) o h
  step_lem (drop_policy_service namespace name) c o h =
      unchanged_lem (delete_policy_service_ref namespace name c) o h

-- Every call that succeeds leaves the store that `stored_after` says, and changes besides it only the
-- tables and the problems.
pub step-IsRebuilt :
    (env : Environment) (call : Call) (c : Configuration) (o : Outcome)
    → step env call c ≡ some o
    → IsRebuilt (stored_after env call c) o.0
step-IsRebuilt env =
    step_lem env IsRebuilt IsRebuilt-refl (rebuild_after-IsRebuilt env) (rebuild_both-IsRebuilt env)
      (λ b c first o p q started.
        then_rebuild-IsRebuilt env b c first o (rebuild_listener_hosts-IsRebuilt c first p) q)
      (λ c o h started. rebuild_hosts-IsRebuilt env c o h)
