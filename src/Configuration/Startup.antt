-- ===== src/Configuration/Startup.antt =====
-- Before the end of the startup no host is held.
use mathlib.Core.Option.{some-injective}
use ingress_nextgen.Common.{
  >>=-eq-some, Bool, [], and-eq-true, ap, false, inl, inr, refl, some, string_eq, sym, true, ℕ_eq,
  ◌&&◌, ◌>>=◌, ◌∙◌, ◌≡◌,
}
use ingress_nextgen.Common.Maps.{lookup}
use ingress_nextgen.Environment.{Environment}
use ingress_nextgen.Configuration.{Configuration, new_configuration}
use ingress_nextgen.Configuration.Rebuild.{Outcome, rebuild_hosts, rebuild_listener_hosts}
use ingress_nextgen.Configuration.Operations.{
  drop_ingress, ingress_error, rebuild_after, rebuild_both, set_global_configuration, store_ingress,
  then_rebuild, transport_server_error, virtual_server_error, virtual_server_route_error,
}
use ingress_nextgen.Configuration.Operations.Reporting.{Report, add_error, startup_problems}
use ingress_nextgen.Configuration.Frame.{add_error-config, taken_branch}
use ingress_nextgen.Configuration.Steps.{
  Call, IsReachable, after, at_start, drop_global_configuration, drop_ingress_at,
  drop_policy_service, drop_transport_server_at, drop_virtual_server_at,
  drop_virtual_server_route_at, put_global_configuration, put_ingress, put_policy_service,
  put_transport_server, put_virtual_server, put_virtual_server_route, startup_done, step,
}
use ingress_nextgen.Configuration.Stored.{step-IsRebuilt, step_lem, stored_after}
use ingress_nextgen.Configuration.Invariant.{admit-elim, if_there-elim}
use ingress_nextgen.Listeners.{build_listener_hosts, listener_host_key_eq}
use ingress_nextgen.Configuration.Reached.{stored_after-hosts}

-- During the startup the hosts stay.
abbrev KeepsHosts : Configuration → Configuration → Type 0
KeepsHosts c d = c.startup_complete ≡ false → d.hosts ≡ c.hosts

config-hosts : (a b : Outcome) → a ≡ b → b.0.hosts ≡ a.0.hosts
config-hosts a b e = ap (λ (x : Outcome). x.0.hosts) (sym e)

rebuild_after-KeepsHosts :
    (env : Environment) (report : Report) (c : Configuration) (o : Outcome)
    → rebuild_after env report c ≡ some o
    → KeepsHosts c o.0
rebuild_after-KeepsHosts env report c o h quiet =
    elim (taken_branch c.startup_complete (some (c, [], startup_problems report))
      (rebuild_hosts env c >>= (λ outcome. some (add_error report outcome))) h) [
        | inr (t, e) ↦ absurd (cc (t, quiet))
        | inl (n, e) ↦ config-hosts (c, [], startup_problems report) o (some-injective _ _ e)
      ]

listeners-hosts :
    (c : Configuration) (o : Outcome) → rebuild_listener_hosts c ≡ some o → o.0.hosts ≡ c.hosts
unfolding rebuild_listener_hosts
listeners-hosts c o h =
    let (built, p, h1) =
      >>=-eq-some (build_listener_hosts c.global_configuration c.transport_servers) _ h in
    config-hosts _ o (some-injective _ _ h1)

then_rebuild-KeepsHosts :
    (env : Environment) (b : Bool) (c : Configuration) (first o : Outcome)
    → rebuild_listener_hosts c ≡ some first
    → then_rebuild env b first ≡ some o
    → (b ≡ true → c.startup_complete ≡ true)
    → KeepsHosts c o.0
then_rebuild-KeepsHosts env true c first o p h started quiet = absurd (cc (started refl, quiet))
then_rebuild-KeepsHosts env false c first o p h started quiet =
    config-hosts first o (some-injective _ _ h) ∙ listeners-hosts c first p

rebuild_both-KeepsHosts :
    (env : Environment) (report : Report) (c : Configuration) (o : Outcome)
    → rebuild_both env report c ≡ some o
    → KeepsHosts c o.0
unfolding rebuild_both
rebuild_both-KeepsHosts env report c o h quiet =
    let (first, p, h1) = >>=-eq-some (rebuild_listener_hosts c) _ h in
    let b = env.is_tls_passthrough_enabled && c.startup_complete in
    let (o', q, h2) = >>=-eq-some (then_rebuild env b first) _ h1 in
    config-hosts (add_error report o') o (some-injective _ _ h2)
    ∙ ap (λ d. d.hosts) (add_error-config report o')
    ∙ then_rebuild-KeepsHosts env b c first o' p q
        (λ t. (and-eq-true env.is_tls_passthrough_enabled c.startup_complete t).1) quiet

abbrev StartsAs : Configuration → Configuration → Type 0
StartsAs c d = d.startup_complete ≡ false → c.startup_complete ≡ false

-- A call does not undo the end of the startup.
stored_after-startup :
    (env : Environment) (call : Call) (c : Configuration)
    → (stored_after env call c).startup_complete ≡ false
    → c.startup_complete ≡ false
unfolding stored_after store_ingress drop_ingress set_global_configuration
stored_after-startup env (put_ingress ing) c h =
    admit-elim (StartsAs c) (ingress_error env ing) _ _ (λ e q. q) (λ q. q) h
stored_after-startup env (put_virtual_server vs) c h =
    admit-elim (StartsAs c) (virtual_server_error env vs) _ _ (λ e q. q) (λ q. q) h
stored_after-startup env (put_virtual_server_route vsr) c h =
    admit-elim (StartsAs c) (virtual_server_route_error env vsr) _ _ (λ e q. q) (λ q. q) h
stored_after-startup env (put_transport_server ts) c h =
    admit-elim (StartsAs c) (transport_server_error env ts) _ _ (λ e q. q) (λ q. q) h
stored_after-startup env (drop_ingress_at key) c h =
    if_there-elim (StartsAs c) (lookup key c.ingresses) _ _ (λ q. q) (λ q. q) h
stored_after-startup env (drop_virtual_server_at key) c h =
    if_there-elim (StartsAs c) (lookup key c.virtual_servers) _ _ (λ q. q) (λ q. q) h
stored_after-startup env (drop_virtual_server_route_at key) c h =
    if_there-elim (StartsAs c) (lookup key c.virtual_server_routes) _ _ (λ q. q) (λ q. q) h
stored_after-startup env (drop_transport_server_at key) c h =
    if_there-elim (StartsAs c) (lookup key c.transport_servers) _ _ (λ q. q) (λ q. q) h
stored_after-startup env (put_global_configuration gc) c h = h
stored_after-startup env drop_global_configuration c h = h
stored_after-startup env startup_done c h = absurd (cc h)
stored_after-startup env (put_policy_service namespace name auth_service) c h = h
stored_after-startup env (drop_policy_service namespace name) c h = h

step-startup :
    (env : Environment) (call : Call) (c : Configuration) (o : Outcome)
    → step env call c ≡ some o
    → o.0.startup_complete ≡ false
    → (stored_after env call c).startup_complete ≡ false
step-startup env call c o e quiet =
    let (t, q) = step-IsRebuilt env call c o e in
    ap (λ (d : Configuration). d.startup_complete) (sym q) ∙ quiet

-- In every reachable configuration whose startup is not complete, no host is held.
pub reachable-startup :
    (env : Environment) (c : Configuration)
    → IsReachable env c
    → c.startup_complete ≡ false
    → c.hosts ≡ []
unfolding new_configuration
reachable-startup env _ at_start quiet = refl
reachable-startup env _ (after {c} call o reached e) quiet =
    let still = step-startup env call c o e quiet in
    step_lem env KeepsHosts (λ d q. refl) (rebuild_after-KeepsHosts env)
      (rebuild_both-KeepsHosts env) (then_rebuild-KeepsHosts env)
      (λ d p h started q. absurd (cc (started, q))) call c o e still
    ∙ stored_after-hosts env call c
    ∙ reachable-startup env c reached (stored_after-startup env call c still)
