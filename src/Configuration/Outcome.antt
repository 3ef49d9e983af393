-- ===== src/Configuration/Outcome.antt =====
-- A rebuild from end to end: its changes turn what the old table had configured into what the new
-- table has.
use mathlib.Core.Option.{some-injective}
use mathlib.Core.Path.{ap₂, subst}
use ingress_nextgen.Common.{
  >>=-eq-some, Bool, List, Option, String, [], ap, false, if◌then◌else◌, none, refl, some,
  string_eq, sym, ℕ_eq, ◌==◌, ◌↔◌, ◌∙◌, ◌∷◌, ◌≡◌,
}
use ingress_nextgen.Common.Maps.{Map, insert, lookup}
use ingress_nextgen.Environment.{Environment}
use ingress_nextgen.Resources.{Resource, add_warning, get_key_with_kind}
use ingress_nextgen.Changes.{Operation, ResourceChange, change_key, final_op}
use ingress_nextgen.Changes.Effect.{holds_key}
use ingress_nextgen.Hosts.{Building, resolve}
use ingress_nextgen.Hosts.Detect.{host_changes}
use ingress_nextgen.Hosts.Holding.{IsActive, IsTable}
use ingress_nextgen.Hosts.Applied.{IsConfigured, host_changes_lem}
use ingress_nextgen.Configuration.{Configuration}
use ingress_nextgen.Configuration.Build.{build_hosts_and_resources}
use ingress_nextgen.Configuration.Sound.{IsSound}
use ingress_nextgen.Configuration.Reports.{update_active_hosts_for_ingresses, warn_virtual_servers}
use ingress_nextgen.Configuration.Rebuild.{
  Outcome, host_problems_of, rebuild_hosts, refresh_change, refresh_changes,
}
use ingress_nextgen.Configuration.Tabled.{IsTabled, warn_virtual_servers_lem, warned-IsTabled}
use ingress_nextgen.Configuration.Stands.{active-IsTabled, holds_key-resolve, resolve-IsTable}

refresh_change-key :
    (rs : Map String Resource) (ch : ResourceChange)
    → ((k : String) (r : Resource) → lookup k rs ≡ some r → get_key_with_kind r ≡ k)
    → (change_key (refresh_change rs ch) ≡ change_key ch) × ((refresh_change rs ch).op ≡ ch.op)
unfolding refresh_change
refresh_change-key rs ch own = go (lookup (change_key ch) rs) refl
  where
    go :
        (v : Option Resource)
        → lookup (change_key ch) rs ≡ v
        → (change_key
              (elim v as (λ _. ResourceChange) [ none ↦ ch | some r ↦ record ch { resource = r } ])
            ≡ change_key ch)
          × ((elim v as (λ _. ResourceChange) [
            | none ↦ ch
            | some r ↦ record ch { resource = r }
          ]).op
              ≡ ch.op)
    go none q = (refl, refl)
    go (some r) q = (own (change_key ch) r q, refl)

-- Refreshing the changes changes neither their resources' keys nor their operations.
final_op-refresh_changes :
    (rs : Map String Resource) (k : String) (cs : List ResourceChange)
    → ((j : String) (r : Resource) → lookup j rs ≡ some r → get_key_with_kind r ≡ j)
    → final_op k (refresh_changes rs cs) ≡ final_op k cs
unfolding refresh_changes
final_op-refresh_changes rs k [] own = refl
final_op-refresh_changes rs k (c ∷ cs) own =
    let (e, f) = refresh_change-key rs c own in
    ap₂
      (λ (v : Option Operation) (u : Option Operation). elim v as (λ _. Option Operation) [
        | some o ↦ some o
        | none ↦ u
      ])
      (final_op-refresh_changes rs k cs own)
      (ap₂ (λ (j : String) (o : Operation). if j == k then some o else none) e f)

warned-holders :
    (a b : Building) (k : String) (r : Resource) (w : String)
    → lookup k b.resources ≡ some r
    → IsTabled b × (b.holders ≡ a.holders)
    → IsTabled (record b { resources = insert k (add_warning r w) b.resources })
      × (b.holders ≡ a.holders)
warned-holders a b k r w p (t, e) = (warned-IsTabled b k r w p t, e)

same-IsActive :
    (a w : Building) (k : String)
    → IsTabled a
    → IsTabled w
    → w.holders ≡ a.holders
    → IsActive k (resolve a) ↔ IsActive k (resolve w)
same-IsActive a w k t u e =
    let same : (h : String) → holds_key k (resolve a) h ≡ holds_key k (resolve w) h = λ h.
      holds_key-resolve a k h t
      ∙ (ap
            (λ (hs : Map String String). elim (lookup h hs) as (λ _. Bool) [
              | none ↦ false
              | some g ↦ g == k
            ])
            (sym e)
          ∙ sym (holds_key-resolve w k h u)) in
    (λ (h, p). (h, sym (same h) ∙ p), λ (h, p). (h, same h ∙ p))

-- For a sound configuration with a table in which each resource claims the hosts that its key holds:
-- carrying out the changes of a rebuild over what the old table had configured leaves configured
-- exactly the resources that hold a host in the table that the rebuild stores.
pub rebuild_hosts_lem :
    (env : Environment) (c : Configuration) (o : Outcome) (k : String)
    → IsSound env c
    → IsTable c.hosts
    → rebuild_hosts env c ≡ some o
    → IsConfigured k c.hosts (final_op k o.1) ↔ IsActive k o.0.hosts
unfolding rebuild_hosts
rebuild_hosts_lem env c o k sound told h =
    let (built, p, h1) = >>=-eq-some (build_hosts_and_resources env c) _ h in
    let (active, q, h2) = >>=-eq-some (update_active_hosts_for_ingresses built) _ h1 in
    let (problems, r, h3) = >>=-eq-some (host_problems_of c active) _ h2 in
    let (warned, s, h4) =
      >>=-eq-some
        (warn_virtual_servers c.global_configuration c.listener_map active.resources active) _ h3 in
    let t = active-IsTabled env c built active sound p q in
    let (u, e) =
      warn_virtual_servers_lem (λ b. IsTabled b × (b.holders ≡ active.holders))
        (λ b. warned-holders active b) c.global_configuration c.listener_map active.resources active
        warned s (t, refl) in
    let main = host_changes_lem c.hosts (resolve active) k told (resolve-IsTable active t) in
    let both = same-IsActive active warned k t u e in
    let ops =
      final_op-refresh_changes warned.resources k (host_changes c.hosts (resolve active))
        u.own_key in
    subst (λ (x : Outcome). IsConfigured k c.hosts (final_op k x.1) ↔ IsActive k x.0.hosts)
      (some-injective _ _ h4) (rw ops (λ a. both.0 (main.0 a), λ a. main.1 (both.1 a)))
