-- ===== src/Configuration/Active.antt =====
-- The valid hosts of the Ingresses agree with the table: each resource claims the hosts that it holds.
use mathlib.Core.Option.{some-injective}
use mathlib.Core.Path.{subst}
use ingress_nextgen.Common.{
  ==_refl, ==_true, >>=-eq-some, Bool, Bool-cases, List, Option, String, [], ap, arith, contains,
  false, if◌then◌else◌, inl, inr, map, none, refl, some, string_eq, sym, true, ℕ_eq, ◌==◌, ◌∙◌, ◌∷◌,
  ◌≡◌,
}
use ingress_nextgen.Common.Maps.{Map, insert, lookup, lookup-insert}
use ingress_nextgen.Objects.{IngressRule}
use ingress_nextgen.Resources.{
  Resource, get_key_with_kind, ingress, transport_server, virtual_server,
}
use ingress_nextgen.Hosts.{Building, holder_of}
use ingress_nextgen.Hosts.Owned.{IsOwned, Profile, flags_of, hosts_of, profile, profile_at}
use ingress_nextgen.Hosts.Holding.{claims}
use ingress_nextgen.Configuration.Reports.{set_valid_hosts, with_valid_hosts}

-- the key has the host
abbrev pub is_holder : Building → String → String → Bool
is_holder b k h = elim (lookup h b.holders) [ none ↦ false | some g ↦ g == k ]

-- a holder's resource has the holder's key
holder_of-key :
    (b : Building) (k h : String) (r : Resource)
    → IsOwned b
    → holder_of b h ≡ some r
    → (get_key_with_kind r == k) ≡ is_holder b k h
unfolding holder_of
holder_of-key b k h r o e =
    let (g, p, e1) = >>=-eq-some (lookup h b.holders) _ e in
    rw (p, is_holder) (ap (λ x. x == k) (o.keyed g (profile r) (rw (e1, profile_at) refl)))

set_valid_hosts_lem :
    (b : Building) (k : String) (rs : List IngressRule) (valid valid' : Map String Bool)
    (h : String)
    → IsOwned b
    → set_valid_hosts b k rs valid ≡ some valid'
    → lookup h valid' ≡ (
        if contains (map (λ (r : IngressRule). r.host) rs) h
        then some (is_holder b k h)
        else lookup h valid)
unfolding set_valid_hosts contains
set_valid_hosts_lem b k [] valid valid' h o e = rw (← some-injective _ _ e) refl
set_valid_hosts_lem b k (r ∷ rs) valid valid' h o e =
    let (res, p, e1) = >>=-eq-some (holder_of b r.host) _ e in
    set_valid_hosts_lem b k rs (insert r.host (get_key_with_kind res == k) valid) valid' h o e1
    ∙ (rw (lookup-insert r.host h (get_key_with_kind res == k) valid)
        (elim (Bool-cases (r.host == h)) [
          | inl t ↦ rw t (
              same_value _ _ _
                (holder_of-key b k r.host res o p ∙ ap (is_holder b k) (==_true r.host h t)))
          | inr n ↦ rw n refl
        ]))
  where
    same_value : (c v w : Bool) → v ≡ w → (if c then some w else some v) ≡ some w
    same_value true v w q = refl
    same_value false v w q = ap some q

profile_of :
    (b : Building) (k : String) (r : Resource)
    → lookup k b.resources ≡ some r
    → profile_at k b.resources ≡ some (profile r)
profile_of b k r p = rw (p, profile_at) refl

is_holder-claimed :
    (b : Building) (k h : String) (r : Resource)
    → IsOwned b
    → lookup k b.resources ≡ some r
    → is_holder b k h ≡ true
    → contains (hosts_of r) h ≡ true
is_holder-claimed b k h r o p t = go (lookup h b.holders) refl
  where
    go : (g : Option String) → lookup h b.holders ≡ g → contains (hosts_of r) h ≡ true
    go none q = cc (rw (q, is_holder) at t)
    go (some g) q =
        let e : g ≡ k = ==_true g k (rw (q, is_holder) at t) in
        let (x, at_k, c) = o.owned h k (q ∙ ap some e) in
        let same : x ≡ profile r = some-injective _ _ (sym at_k ∙ profile_of b k r p) in
        subst (λ (y : Profile). contains y.claimed h ≡ true) same c

is_holder-intro :
    (b : Building) (k h : String) → lookup h b.holders ≡ some k → is_holder b k h ≡ true
is_holder-intro b k h q = rw (q, is_holder) (==_refl k)

-- what the holder of a host has as its one host
one_host :
    (b : Building) (k host h : String) (r : Resource)
    → IsOwned b
    → lookup k b.resources ≡ some r
    → hosts_of r ≡ host ∷ []
    → is_holder b k h ≡ true
    → (host == h) ≡ true
unfolding contains
one_host b k host h r o p one t =
    let c : contains (host ∷ []) h ≡ true =
      subst (λ hs. contains hs h ≡ true) one (is_holder-claimed b k h r o p t) in
    ground (arith, c)

-- a resource with one host, which holds it
claims_one_host :
    (b : Building) (k host h h' : String) (r : Resource)
    → IsOwned b
    → lookup k b.resources ≡ some r
    → hosts_of r ≡ host ∷ []
    → lookup h b.holders ≡ some k
    → (host == h') ≡ is_holder b k h'
claims_one_host b k host h h' r o p one q =
    let e : host ≡ h = ==_true host h (one_host b k host h r o p one (is_holder-intro b k h q)) in
    elim (Bool-cases (host == h')) [
      | inl t ↦
          (let f : h ≡ h' = sym e ∙ ==_true host h' t in
            t ∙ sym (is_holder-intro b k h' (rw f at q)))
      | inr n ↦ elim (Bool-cases (is_holder b k h')) [
        | inr m ↦ n ∙ sym m
        | inl t ↦ cc (one_host b k host h' r o p one t)
      ]
    ]

claims_flags :
    (b : Building) (k h' : String) (r : Resource) (valid : Map String Bool)
    → IsOwned b
    → lookup k b.resources ≡ some r
    → lookup h' valid ≡ (if contains (hosts_of r) h' then some (is_holder b k h') else none)
    → (elim (lookup h' valid) [ none ↦ false | some v ↦ v ]) ≡ is_holder b k h'
claims_flags b k h' r valid o p e = elim (Bool-cases (contains (hosts_of r) h')) [
  | inl t ↦ rw e (rw t refl)
  | inr n ↦ rw e (
      rw n (elim (Bool-cases (is_holder b k h')) [
        | inr m ↦ sym m
        | inl t ↦ cc (n, is_holder-claimed b k h' r o p t)
      ]))
]

-- What a resource claims once the flags are set: the hosts that its key holds.
pub with_valid_hosts_lem :
    (b : Building) (k : String) (r r' : Resource)
    → IsOwned b
    → lookup k b.resources ≡ some r
    → flags_of r ≡ []
    → with_valid_hosts b r ≡ some r'
    → (get_key_with_kind r' ≡ k)
      × ((h h' : String) → lookup h b.holders ≡ some k → claims r' h' ≡ is_holder b k h')
unfolding with_valid_hosts get_key_with_kind lookup
with_valid_hosts_lem b k (ingress ic) r' o p fresh e =
    let (valid, q, e1) = >>=-eq-some (set_valid_hosts b _ ic.ingress.rules ic.valid_hosts) _ e in
    let key = o.keyed k (profile (ingress ic)) (profile_of b k (ingress ic) p) in
    rw (← some-injective _ _ e1) (
      key,
      λ h h' held. claims_flags b k h' (ingress ic) valid o p (
          set_valid_hosts_lem b k ic.ingress.rules [] valid h' o (
            subst (λ x. set_valid_hosts b k ic.ingress.rules x ≡ some valid) fresh
              (subst (λ x. set_valid_hosts b x ic.ingress.rules ic.valid_hosts ≡ some valid) key
                q))),
    )
with_valid_hosts_lem b k (virtual_server vsc) r' o p fresh e = rw (← some-injective _ _ e) (
  o.keyed k (profile (virtual_server vsc)) (profile_of b k (virtual_server vsc) p),
  λ h h' held. claims_one_host b k vsc.virtual_server.host h h' (virtual_server vsc) o p refl held,
)
with_valid_hosts_lem b k (transport_server tsc) r' o p fresh e = rw (← some-injective _ _ e) (
  o.keyed k (profile (transport_server tsc)) (profile_of b k (transport_server tsc) p),
  λ h h' held.
      claims_one_host b k tsc.transport_server.host h h' (transport_server tsc) o p refl held,
)
