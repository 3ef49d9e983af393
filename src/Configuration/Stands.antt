-- ===== src/Configuration/Stands.antt =====
-- The stored table of hosts after a rebuild of a sound configuration.
use mathlib.Core.Option.{some-injective}
use mathlib.Core.Path.{subst}
use ingress_nextgen.Common.{
  >>=-eq-some, Option, String, [], ap, none, refl, some, string_eq, sym, ℕ_eq, ◌==◌, ◌∙◌, ◌≡◌,
}
use ingress_nextgen.Common.Maps.{lookup}
use ingress_nextgen.Resources.{Resource, get_key_with_kind}
use ingress_nextgen.Hosts.{Building, holder_of, resolve}
use ingress_nextgen.Environment.{Environment}
use ingress_nextgen.Changes.Effect.{holds_key}
use ingress_nextgen.Hosts.Resolved.{lookup-resolve}
use ingress_nextgen.Hosts.Owned.{Profile, flags_of, profile, profile_at}
use ingress_nextgen.Hosts.Holding.{IsTable}
use ingress_nextgen.Configuration.{Configuration}
use ingress_nextgen.Configuration.Build.{build_hosts_and_resources}
use ingress_nextgen.Configuration.Built.{build_hosts_and_resources-IsBuilding}
use ingress_nextgen.Configuration.Owners.{
  IsBuilding, IsFrom, from_ingress, from_transport_server, from_virtual_server,
}
use ingress_nextgen.Configuration.Sound.{IsSound}
use ingress_nextgen.Configuration.Reports.{update_active_hosts_for_ingresses, warn_virtual_servers}
use ingress_nextgen.Configuration.Rebuild.{Outcome, host_problems_of, rebuild_hosts}
use ingress_nextgen.Configuration.Active.{is_holder}
use ingress_nextgen.Configuration.Tabled.{
  IsTabled, update_active_hosts-IsTabled, warn_virtual_servers_lem, warned-IsTabled,
}

pub holds_key-resolve :
    (b : Building) (k h : String) → IsTabled b → holds_key k (resolve b) h ≡ is_holder b k h
unfolding holder_of
holds_key-resolve b k h t = go (lookup h b.holders) refl
  where
    go : (v : Option String) → lookup h b.holders ≡ v → holds_key k (resolve b) h ≡ is_holder b k h
    go none q =
        rw (lookup-resolve b h (t.present h), holds_key)
          (rw (q, holder_of) (rw (q, is_holder) refl))
    go (some g) q =
        let (r, p) = t.present h g q in
        rw (lookup-resolve b h (t.present h), holds_key)
          (rw (q, holder_of) (rw p (rw (q, is_holder) (ap (λ x. x == k) (t.own_key g r p)))))

-- The table of a building that agrees with what its resources claim.
pub resolve-IsTable : (b : Building) → IsTabled b → IsTable (resolve b)
unfolding holder_of
resolve-IsTable b t h h' r q =
    let (k, p, e) =
      >>=-eq-some (lookup h b.holders) _ (sym (lookup-resolve b h (t.present h)) ∙ q) in
    holds_key-resolve b (get_key_with_kind r) h' t
    ∙ (rw (t.own_key k r e) (sym (t.agree h h' k r p e)))

-- the table that a rebuild of a sound configuration has built, with the flags of the Ingresses
pub active-IsTabled :
    (env : Environment) (c : Configuration) (built active : Building)
    → IsSound env c
    → build_hosts_and_resources env c ≡ some built
    → update_active_hosts_for_ingresses built ≡ some active
    → IsTabled active
active-IsTabled env c built active sound p q =
    let i = build_hosts_and_resources-IsBuilding env c sound built p in
    update_active_hosts-IsTabled built active i.is_owned (fresh built i) q
  where
    no_flags : {p : Profile} → IsFrom c p → p.flags ≡ []
    no_flags (from_ingress ing q) = refl
    no_flags (from_virtual_server vs q) = refl
    no_flags (from_transport_server ts q) = refl

    fresh :
        (b : Building)
        → IsBuilding c b
        → (k : String) (r : Resource) → lookup k b.resources ≡ some r
        → flags_of r ≡ []
    fresh b i k r q = no_flags (i.from_store k (profile r) (rw (q, profile_at) refl))

-- A rebuild of a sound configuration stores a table in which each resource claims exactly the hosts
-- that its key holds.
pub rebuild_hosts-IsTable :
    (env : Environment) (c : Configuration) (o : Outcome)
    → IsSound env c
    → rebuild_hosts env c ≡ some o
    → IsTable o.0.hosts
unfolding rebuild_hosts
rebuild_hosts-IsTable env c o sound h =
    let (built, p, h1) = >>=-eq-some (build_hosts_and_resources env c) _ h in
    let (active, q, h2) = >>=-eq-some (update_active_hosts_for_ingresses built) _ h1 in
    let (problems, r, h3) = >>=-eq-some (host_problems_of c active) _ h2 in
    let (warned, s, h4) =
      >>=-eq-some
        (warn_virtual_servers c.global_configuration c.listener_map active.resources active) _ h3 in
    let t = active-IsTabled env c built active sound p q in
    subst (λ (x : Outcome). IsTable x.0.hosts) (some-injective _ _ h4)
      (resolve-IsTable warned (
        warn_virtual_servers_lem IsTabled warned-IsTabled c.global_configuration c.listener_map
          active.resources active warned s t))
