-- ===== src/Configuration/Reached.antt =====
-- Every reachable configuration has a table of hosts in which each resource claims what it holds.
use mathlib.Core.Option.{some-injective}
use mathlib.Core.Path.{subst}
use ingress_nextgen.Common.{
  >>=-eq-some, Bool, [], ap, false, inl, inr, refl, some, string_eq, sym, true, ℕ_eq, ◌&&◌, ◌>>=◌,
  ◌∙◌, ◌≡◌,
}
use ingress_nextgen.Common.Maps.{lookup}
use ingress_nextgen.Environment.{Environment}
use ingress_nextgen.Hosts.Holding.{IsTable}
use ingress_nextgen.Configuration.{Configuration, new_configuration}
use ingress_nextgen.Configuration.Rebuild.{Outcome, rebuild_hosts, rebuild_listener_hosts}
use ingress_nextgen.Configuration.Operations.{
  drop_ingress, ingress_error, rebuild_after, rebuild_both, set_global_configuration, store_ingress,
  then_rebuild, transport_server_error, virtual_server_error, virtual_server_route_error,
}
use ingress_nextgen.Configuration.Operations.Reporting.{Report, add_error, startup_problems}
use ingress_nextgen.Configuration.Frame.{
  IsRebuilt, add_error-config, rebuild_hosts-IsRebuilt, rebuild_listener_hosts-IsRebuilt,
  taken_branch,
}
use ingress_nextgen.Configuration.Steps.{
  Call, IsReachable, after, at_start, drop_global_configuration, drop_ingress_at,
  drop_policy_service, drop_transport_server_at, drop_virtual_server_at,
  drop_virtual_server_route_at, put_global_configuration, put_ingress, put_policy_service,
  put_transport_server, put_virtual_server, put_virtual_server_route, startup_done,
}
use ingress_nextgen.Configuration.Stored.{step_lem, stored_after}
use ingress_nextgen.Configuration.Invariant.{
  admit-elim, if_there-elim, reachable-IsSound, stored_after-IsSound, with_tables-IsSound,
}
use ingress_nextgen.Configuration.Sound.{IsSound}
use ingress_nextgen.Configuration.Stands.{rebuild_hosts-IsTable}
use ingress_nextgen.Listeners.{build_listener_hosts, listener_host_key_eq}

-- a sound configuration with a table, and the same of what a rebuild makes of it
abbrev IsGood : Environment → Configuration → Type 0
IsGood env c = IsSound env c × IsTable c.hosts

abbrev KeepsGood : Environment → Configuration → Configuration → Type 0
KeepsGood env c d = IsGood env c → IsGood env d

rebuilt-IsSound :
    (env : Environment) (c d : Configuration) → IsRebuilt c d → IsSound env c → IsSound env d
rebuilt-IsSound env c d (t, e) i = subst (IsSound env) (sym e) (with_tables-IsSound env t c i)

after_hosts :
    (env : Environment) (c : Configuration) (o : Outcome)
    → rebuild_hosts env c ≡ some o
    → KeepsGood env c o.0
after_hosts env c o h (i, t) = (
  rebuilt-IsSound env c o.0 (rebuild_hosts-IsRebuilt env c o h) i,
  rebuild_hosts-IsTable env c o i h,
)

after_rebuild :
    (env : Environment) (report : Report) (c : Configuration) (o : Outcome)
    → rebuild_after env report c ≡ some o
    → KeepsGood env c o.0
after_rebuild env report c o h good =
    elim (taken_branch c.startup_complete (some (c, [], startup_problems report))
      (rebuild_hosts env c >>= (λ outcome. some (add_error report outcome))) h) [
        | inr (t, e) ↦
            (let (o', p, q) = >>=-eq-some (rebuild_hosts env c) _ e in
              subst (IsGood env)
                (sym (add_error-config report o')
                  ∙ ap (λ (x : Outcome). x.0) (some-injective _ _ q))
                (after_hosts env c o' p good))
        | inl (n, e) ↦ subst (IsGood env) (ap (λ (x : Outcome). x.0) (some-injective _ _ e)) good
      ]

-- the rebuild of the listeners keeps the hosts
listeners-IsGood :
    (env : Environment) (c : Configuration) (o : Outcome)
    → rebuild_listener_hosts c ≡ some o
    → KeepsGood env c o.0
unfolding rebuild_listener_hosts
listeners-IsGood env c o h (i, t) =
    let (built, p, h1) =
      >>=-eq-some (build_listener_hosts c.global_configuration c.transport_servers) _ h in
    (
      rebuilt-IsSound env c o.0 (rebuild_listener_hosts-IsRebuilt c o h) i,
      subst (λ (x : Outcome). IsTable x.0.hosts) (some-injective _ _ h1) t,
    )

after_listeners :
    (env : Environment) (b : Bool) (c : Configuration) (first o : Outcome)
    → rebuild_listener_hosts c ≡ some first
    → then_rebuild env b first ≡ some o
    → KeepsGood env c o.0
after_listeners env true c (d, changes, problems) o p h good =
    let (o', q, r) = >>=-eq-some (rebuild_hosts env d) _ h in
    subst (IsGood env) (ap (λ (x : Outcome). x.0) (some-injective _ _ r))
      (after_hosts env d o' q (listeners-IsGood env c (d, changes, problems) p good))
after_listeners env false c first o p h good =
    subst (IsGood env) (ap (λ (x : Outcome). x.0) (some-injective _ _ h))
      (listeners-IsGood env c first p good)

after_both :
    (env : Environment) (report : Report) (c : Configuration) (o : Outcome)
    → rebuild_both env report c ≡ some o
    → KeepsGood env c o.0
unfolding rebuild_both
after_both env report c o h good =
    let (first, p, h1) = >>=-eq-some (rebuild_listener_hosts c) _ h in
    let b = env.is_tls_passthrough_enabled && c.startup_complete in
    let (o', q, h2) = >>=-eq-some (then_rebuild env b first) _ h1 in
    subst (IsGood env)
      (sym (add_error-config report o') ∙ ap (λ (x : Outcome). x.0) (some-injective _ _ h2))
      (after_listeners env b c first o' p q good)

pub stored_after-hosts :
    (env : Environment) (call : Call) (c : Configuration)
    → (stored_after env call c).hosts ≡ c.hosts
unfolding stored_after store_ingress drop_ingress set_global_configuration
stored_after-hosts env (put_ingress ing) c =
    admit-elim (λ d. d.hosts ≡ c.hosts) (ingress_error env ing) _ _ (λ e. refl) refl
stored_after-hosts env (drop_ingress_at key) c =
    if_there-elim (λ d. d.hosts ≡ c.hosts) (lookup key c.ingresses) _ _ refl refl
stored_after-hosts env (put_virtual_server vs) c =
    admit-elim (λ d. d.hosts ≡ c.hosts) (virtual_server_error env vs) _ _ (λ e. refl) refl
stored_after-hosts env (drop_virtual_server_at key) c =
    if_there-elim (λ d. d.hosts ≡ c.hosts) (lookup key c.virtual_servers) _ _ refl refl
stored_after-hosts env (put_virtual_server_route vsr) c =
    admit-elim (λ d. d.hosts ≡ c.hosts) (virtual_server_route_error env vsr) _ _ (λ e. refl) refl
stored_after-hosts env (drop_virtual_server_route_at key) c =
    if_there-elim (λ d. d.hosts ≡ c.hosts) (lookup key c.virtual_server_routes) _ _ refl refl
stored_after-hosts env (put_global_configuration gc) c = refl
stored_after-hosts env drop_global_configuration c = refl
stored_after-hosts env (put_transport_server ts) c =
    admit-elim (λ d. d.hosts ≡ c.hosts) (transport_server_error env ts) _ _ (λ e. refl) refl
stored_after-hosts env (drop_transport_server_at key) c =
    if_there-elim (λ d. d.hosts ≡ c.hosts) (lookup key c.transport_servers) _ _ refl refl
stored_after-hosts env startup_done c = refl
stored_after-hosts env (put_policy_service namespace name auth_service) c = refl
stored_after-hosts env (drop_policy_service namespace name) c = refl

-- In the table of hosts of every reachable configuration, each resource claims exactly the hosts that
-- its key holds.
pub reachable-IsTable :
    (env : Environment) (c : Configuration) → IsReachable env c → IsTable c.hosts
unfolding new_configuration lookup
reachable-IsTable env _ at_start = λ h h' r q. cc q
reachable-IsTable env _ (after {c} call o reached e) =
    (step_lem env (KeepsGood env) (λ d good. good) (after_rebuild env) (after_both env)
      (λ b c first o p h q. after_listeners env b c first o p h) (λ c o h q. after_hosts env c o h)
      call c o e
      (
        stored_after-IsSound env call c (reachable-IsSound env c reached),
        subst IsTable (sym (stored_after-hosts env call c)) (reachable-IsTable env c reached),
      )).1
