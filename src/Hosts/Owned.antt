-- ===== src/Hosts/Owned.antt =====
-- A host is only ever held by a resource that claims it, and resources stand under their own keys.
use mathlib.Core.Option.{some-injective}
use ingress_nextgen.Common.{
  ==_refl, ==_true, >>=-eq-some, Bool, Bool-cases, List, Option, String, [], arith, contains,
  if◌then◌else◌, inl, inr, map, none, refl, some, string_eq, sym, true, ℕ_eq, ◌==◌, ◌∙◌, ◌∷◌, ◌≡◌,
}
use ingress_nextgen.Common.Maps.{Map, insert, lookup, lookup-insert}
use ingress_nextgen.Objects.{IngressRule}
use ingress_nextgen.Resources.{
  Resource, add_warning, get_key_with_kind, ingress, transport_server, virtual_server, wins,
}
use ingress_nextgen.Hosts.{
  Building, add_resource, claim_host, claim_hosts, contest, host_warning, settle,
}

-- The hosts that a resource claims while the table is built.
abbrev pub hosts_of : Resource → List String
hosts_of (ingress ic) = map (λ (r : IngressRule). r.host) ic.ingress.rules
hosts_of (virtual_server vsc) = vsc.virtual_server.host ∷ []
hosts_of (transport_server tsc) = tsc.transport_server.host ∷ []

-- What a warning leaves alone: the key, the claimed hosts, and the flags of the hosts of an Ingress.
pub record Profile : Type 0 where
  pub key : String
  pub claimed : List String
  pub flags : Map String Bool

abbrev pub flags_of : Resource → Map String Bool
flags_of (ingress ic) = ic.valid_hosts
flags_of _ = []

abbrev pub profile : Resource → Profile
profile r = record { key = get_key_with_kind r; claimed = hosts_of r; flags = flags_of r }

abbrev pub profile_at : String → Map String Resource → Option Profile
profile_at k rs = elim (lookup k rs) [ none ↦ none | some r ↦ some (profile r) ]

add_warning-profile : (r : Resource) (w : String) → profile (add_warning r w) ≡ profile r
unfolding add_warning get_key_with_kind
add_warning-profile (ingress ic) w = refl
add_warning-profile (virtual_server vsc) w = refl
add_warning-profile (transport_server tsc) w = refl

profile_at-insert :
    (j k : String) (r : Resource) (rs : Map String Resource)
    → profile_at j (insert k r rs) ≡ (if k == j then some (profile r) else profile_at j rs)
profile_at-insert j k r rs = elim (Bool-cases (k == j)) [
  | inl t ↦ rw (lookup-insert k j r rs, profile_at) (rw t refl)
  | inr n ↦ rw (lookup-insert k j r rs, profile_at) (rw n refl)
]

pub profile_at-warn :
    (j k : String) (r : Resource) (w : String) (rs : Map String Resource)
    → lookup k rs ≡ some r
    → profile_at j (insert k (add_warning r w) rs) ≡ profile_at j rs
profile_at-warn j k r w rs q =
    profile_at-insert j k (add_warning r w) rs ∙ elim (Bool-cases (k == j)) [
      | inl t ↦
          (let same : lookup j rs ≡ some r = rw (← ==_true k j t) q in
            rw t (rw (add_warning-profile r w) (rw (same, profile_at) refl)))
      | inr n ↦ rw n refl
    ]

-- The key has a resource, under its own key, that claims the host.
abbrev pub IsClaimant : Building → String → String → Type 0
IsClaimant b h k =
    (p : Profile) × (profile_at k b.resources ≡ some p) × (contains p.claimed h ≡ true)

pub record IsOwned (b : Building) : Type 0 where
  pub keyed : (k : String) (p : Profile) → profile_at k b.resources ≡ some p → p.key ≡ k
  pub owned : (h k : String) → lookup h b.holders ≡ some k → IsClaimant b h k

abbrev pub HasProfiles : Building → Building → Type 0
HasProfiles b b' = (j : String) → profile_at j b'.resources ≡ profile_at j b.resources

IsOwned-with :
    (b : Building) (rs : Map String Resource)
    → ((j : String) → profile_at j rs ≡ profile_at j b.resources)
    → IsOwned b
    → IsOwned (record b { resources = rs })
IsOwned-with b rs same o = record {
  keyed = λ k p q. o.keyed k p (sym (same k) ∙ q);
  owned = λ h k q. let (p, e, c) = o.owned h k q in (p, same k ∙ e, c);
}

pub IsOwned-moved :
    (b : Building) (host key : String)
    → IsClaimant b host key
    → IsOwned b
    → IsOwned (record b { holders = insert host key b.holders })
IsOwned-moved b host key c o = record {
  keyed = o.keyed;
  owned = λ h k q. elim (Bool-cases (host == h)) [
    | inl t ↦
        (let e : key ≡ k = some-injective _ _ (rw (lookup-insert host h key b.holders, t) at q) in
          rw (← e, ← ==_true host h t) c)
    | inr n ↦ o.owned h k (rw (lookup-insert host h key b.holders, n) at q)
  ];
}

settle-IsOwned :
    (host g key : String) (holder resource : Resource) (b : Building)
    → lookup g b.resources ≡ some holder
    → lookup key b.resources ≡ some resource
    → IsClaimant b host key
    → IsOwned b
    → IsOwned (settle host g holder key resource b)
      × HasProfiles b (settle host g holder key resource b)
unfolding settle
settle-IsOwned host g key holder resource b p q c o =
    let w = host_warning host in
    elim (Bool-cases (wins holder resource)) [
      | inl t ↦ rw t (
        IsOwned-with b _ (λ j. profile_at-warn j key resource w b.resources q) o,
        λ j. profile_at-warn j key resource w b.resources q,
      )
      | inr n ↦ rw n (
        IsOwned-with (record b { holders = insert host key b.holders }) _
            (λ j. profile_at-warn j g holder w b.resources p) (IsOwned-moved b host key c o),
        λ j. profile_at-warn j g holder w b.resources p,
      )
    ]

pub claim_host-IsOwned :
    (key host : String) (b b' : Building)
    → claim_host key host b ≡ some b'
    → IsClaimant b host key
    → IsOwned b
    → IsOwned b' × HasProfiles b b'
unfolding claim_host contest
claim_host-IsOwned key host b b' h c o = go (lookup host b.holders) refl
  where
    go : (v : Option String) → lookup host b.holders ≡ v → IsOwned b' × HasProfiles b b'
    go none q =
        rw (← some-injective _ _ (rw (q, claim_host) at h))
          (IsOwned-moved b host key c o, λ j. refl)
    go (some g) q =
        let (holder, p, h1) = >>=-eq-some (lookup g b.resources) _ (rw (q, claim_host) at h) in
        let (resource, r, h2) = >>=-eq-some (lookup key b.resources) _ h1 in
        rw (← some-injective _ _ h2) (settle-IsOwned host g key holder resource b p r c o)

claim_hosts-IsOwned :
    (key : String) (hosts : List String) (b b' : Building) (p : Profile)
    → claim_hosts key hosts b ≡ some b'
    → profile_at key b.resources ≡ some p
    → ((h : String) → contains hosts h ≡ true → contains p.claimed h ≡ true)
    → IsOwned b
    → IsOwned b' × HasProfiles b b'
unfolding claim_hosts contains
claim_hosts-IsOwned key [] b b' p h q sub o = rw (← some-injective _ _ h) (o, λ j. refl)
claim_hosts-IsOwned key (host ∷ hosts) b b' p h q sub o =
    let (b1, e, h1) = >>=-eq-some (claim_host key host b) _ h in
    let (o1, same) =
      claim_host-IsOwned key host b b1 e (p, q, sub host (rw (==_refl host) refl)) o in
    let (o2, same2) =
      claim_hosts-IsOwned key hosts b1 b' p h1 (same key ∙ q) (λ x m. sub x (ground (arith, m)))
        o1 in
    (o2, λ j. same2 j ∙ same j)

-- Adding a resource to a table, in which its key has no resource or one with the same profile, leaves
-- every resource under its own key and every host with a holder that claims it.
pub add_resource-IsOwned :
    (r : Resource) (b b' : Building)
    → add_resource r (hosts_of r) b ≡ some b'
    → ((p : Profile) → profile_at (get_key_with_kind r) b.resources ≡ some p → p ≡ profile r)
    → IsOwned b
    → IsOwned b'
      × ((j : String)
          → profile_at j b'.resources
            ≡ (if get_key_with_kind r == j then some (profile r) else profile_at j b.resources))
unfolding add_resource
add_resource-IsOwned r b b' h agree o =
    let key = get_key_with_kind r in
    let b1 : Building = record b { resources = insert key r b.resources } in
    let o1 : IsOwned b1 = record {
      keyed = λ k p q. elim (Bool-cases (key == k)) [
        | inl t ↦
            (let e : profile r ≡ p =
                some-injective _ _ (rw (profile_at-insert k key r b.resources, t) at q) in
              rw (← e) (==_true key k t))
        | inr n ↦ o.keyed k p (rw (profile_at-insert k key r b.resources, n) at q)
      ];
      owned = λ x k q.
          let (p, e, c) = o.owned x k q in
          elim (Bool-cases (key == k)) [
            | inl t ↦
                (let same : p ≡ profile r = agree p (rw (← ==_true key k t) at e) in
                  (profile r, rw (profile_at-insert k key r b.resources) (rw t refl), rw same at c))
            | inr n ↦ (p, rw (profile_at-insert k key r b.resources) (rw n e), c)
          ];
    } in
    let (o2, same) =
      claim_hosts-IsOwned key (hosts_of r) b1 b' (profile r) h
        (rw (profile_at-insert key key r b.resources) (rw (==_refl key) refl)) (λ x m. m) o1 in
    (o2, λ j. same j ∙ profile_at-insert j key r b.resources)
