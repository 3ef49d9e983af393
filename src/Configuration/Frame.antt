-- ===== src/Configuration/Frame.antt =====
-- What a rebuild leaves alone: it replaces the tables and the problems, and keeps the stored objects.
use ingress_nextgen.Common.{
  >>=-eq-some, Bool, List, Option, String, [], ap, false, if◌then◌else◌, inl, inr, none, not, refl,
  some, sym, true, ◌&&◌, ◌+++◌, ◌>>=◌, ◌∙◌, ◌∷◌, ◌≡◌, ◌⊎◌,
}
use ingress_nextgen.Common.Maps.{Map}
use ingress_nextgen.Environment.{Environment}
use ingress_nextgen.Resources.{Resource, TransportServerConfiguration}
use ingress_nextgen.Problems.{ConfigurationProblem}
use ingress_nextgen.Changes.{ResourceChange}
use ingress_nextgen.Listeners.Problem.{add_problems_for_ts_configs_without_active_listener}
use ingress_nextgen.Listeners.{ListenerHostKey, build_listener_hosts, resolve_listeners}
use ingress_nextgen.Configuration.{Configuration}
use ingress_nextgen.Configuration.Build.{build_hosts_and_resources}
use ingress_nextgen.Configuration.Reports.{update_active_hosts_for_ingresses, warn_virtual_servers}
use ingress_nextgen.Configuration.Rebuild.{
  Outcome, host_problems_of, rebuild_hosts, rebuild_listener_hosts,
}
use ingress_nextgen.Configuration.Operations.{rebuild_after, rebuild_both, then_rebuild}
use ingress_nextgen.Configuration.Operations.Reporting.{
  Report, add_error, as_problem, error_problem, no_error, on_change, set_error, startup_problems,
}
use ingress_nextgen.Hosts.{resolve}
use mathlib.Core.Option.{some-injective}

-- The tables of hosts and listeners, and the problems with them.
pub record Tables : Type 0 where
  pub hosts : Map String Resource
  pub host_problems : Map String ConfigurationProblem
  pub listener_hosts : Map ListenerHostKey TransportServerConfiguration
  pub listener_problems : Map String ConfigurationProblem

abbrev pub with_tables : Tables → Configuration → Configuration
with_tables t c = record c {
  hosts = t.hosts;
  host_problems = t.host_problems;
  listener_hosts = t.listener_hosts;
  listener_problems = t.listener_problems;
}

abbrev pub IsRebuilt : Configuration → Configuration → Type 0
IsRebuilt c d = (t : Tables) × (d ≡ with_tables t c)

pub IsRebuilt-refl : (c : Configuration) → IsRebuilt c c
IsRebuilt-refl c = (
  record {
    hosts = c.hosts;
    host_problems = c.host_problems;
    listener_hosts = c.listener_hosts;
    listener_problems = c.listener_problems;
  },
  refl,
)

pub IsRebuilt-trans : (c d e : Configuration) → IsRebuilt c d → IsRebuilt d e → IsRebuilt c e
IsRebuilt-trans c d e (t, p) (u, q) = (u, q ∙ ap (with_tables u) p)

pub rebuild_hosts-IsRebuilt :
    (env : Environment) (c : Configuration) (o : Outcome)
    → rebuild_hosts env c ≡ some o
    → IsRebuilt c o.0
unfolding rebuild_hosts
rebuild_hosts-IsRebuilt env c o h =
    let (built, p, h1) = >>=-eq-some (build_hosts_and_resources env c) _ h in
    let (active, q, h2) = >>=-eq-some (update_active_hosts_for_ingresses built) _ h1 in
    let (problems, r, h3) = >>=-eq-some (host_problems_of c active) _ h2 in
    let (warned, s, h4) =
      >>=-eq-some
        (warn_virtual_servers c.global_configuration c.listener_map active.resources active) _ h3 in
    (
      record {
        hosts = resolve warned;
        host_problems = problems;
        listener_hosts = c.listener_hosts;
        listener_problems = c.listener_problems;
      },
      sym (ap (λ (x : Outcome). x.0) (some-injective _ _ h4)),
    )

pub rebuild_listener_hosts-IsRebuilt :
    (c : Configuration) (o : Outcome) → rebuild_listener_hosts c ≡ some o → IsRebuilt c o.0
unfolding rebuild_listener_hosts
rebuild_listener_hosts-IsRebuilt c o h =
    let (built, p, h1) =
      >>=-eq-some (build_listener_hosts c.global_configuration c.transport_servers) _ h in
    (
      record {
        hosts = c.hosts;
        host_problems = c.host_problems;
        listener_hosts = resolve_listeners built.ts_configs built.holders;
        listener_problems =
            add_problems_for_ts_configs_without_active_listener
              (resolve_listeners built.ts_configs built.holders) built.ts_configs [];
      },
      sym (ap (λ (x : Outcome). x.0) (some-injective _ _ h1)),
    )

pub add_error-config : (report : Report) (o : Outcome) → (add_error report o).0 ≡ o.0
unfolding add_error
add_error-config no_error o = refl
add_error-config (as_problem object message) (c, changes, problems) = refl
add_error-config (on_change key err object message) (c, changes, problems) =
    go (set_error key err changes)
  where
    go :
        (r : Option (List ResourceChange))
        → Path Configuration
            (elim r as (λ _. Outcome) [
              | some changes' ↦ (c, changes', problems)
              | none ↦ (c, changes, problems +++ error_problem object message ∷ [])
            ]).0
            c
    go none = refl
    go (some cs) = refl

pub taken_branch {ℓ} :
    {A : Type ℓ} (b : Bool) (x y : Option A) {o : Option A}
    → (if not b then x else y) ≡ o
    → ((b ≡ false) × (x ≡ o)) ⊎ ((b ≡ true) × (y ≡ o))
taken_branch true x y h = inr (refl, h)
taken_branch false x y h = inl (refl, h)

pub rebuild_after-IsRebuilt :
    (env : Environment) (report : Report) (c : Configuration) (o : Outcome)
    → rebuild_after env report c ≡ some o
    → IsRebuilt c o.0
rebuild_after-IsRebuilt env report c o h =
    elim (taken_branch c.startup_complete (some (c, [], startup_problems report))
      (rebuild_hosts env c >>= (λ outcome. some (add_error report outcome))) h) [
        | inr (t, e) ↦
            (let (o', p, q) = >>=-eq-some (rebuild_hosts env c) _ e in
              rw (← ap (λ (x : Outcome). x.0) (some-injective _ _ q), add_error-config report o')
                (rebuild_hosts-IsRebuilt env c o' p))
        | inl (n, e) ↦ rw (← ap (λ (x : Outcome). x.0) (some-injective _ _ e)) (IsRebuilt-refl c)
      ]

pub then_rebuild-IsRebuilt :
    (env : Environment) (b : Bool) (c : Configuration) (first o : Outcome)
    → IsRebuilt c first.0
    → then_rebuild env b first ≡ some o
    → IsRebuilt c o.0
then_rebuild-IsRebuilt env true c (d, changes, problems) o r h =
    let (o', p, q) = >>=-eq-some (rebuild_hosts env d) _ h in
    rw (← ap (λ (x : Outcome). x.0) (some-injective _ _ q))
      (IsRebuilt-trans c d o'.0 r (rebuild_hosts-IsRebuilt env d o' p))
then_rebuild-IsRebuilt env false c first o r h =
    rw (← ap (λ (x : Outcome). x.0) (some-injective _ _ h)) r

pub rebuild_both-IsRebuilt :
    (env : Environment) (report : Report) (c : Configuration) (o : Outcome)
    → rebuild_both env report c ≡ some o
    → IsRebuilt c o.0
unfolding rebuild_both
rebuild_both-IsRebuilt env report c o h =
    let (first, p, h1) = >>=-eq-some (rebuild_listener_hosts c) _ h in
    let (o', q, h2) =
      >>=-eq-some (then_rebuild env (env.is_tls_passthrough_enabled && c.startup_complete) first) _
        h1 in
    rw (← ap (λ (x : Outcome). x.0) (some-injective _ _ h2), add_error-config report o')
      (then_rebuild-IsRebuilt env (env.is_tls_passthrough_enabled && c.startup_complete) c first o'
        (rebuild_listener_hosts-IsRebuilt c first p) q)
