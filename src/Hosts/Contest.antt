-- ===== src/Hosts/Contest.antt =====
-- The contest for a host: it never crashes, and the holder of a host is not beaten by any claimant.
use ingress_nextgen.Common.{
  ==_true, Bool-cases, List, Option, String, [], contains, false, inl, inr, none, refl, some,
  string_eq, sym, true, ℕ_eq, ◌==◌, ◌∙◌, ◌∷◌, ◌≡◌,
}
use ingress_nextgen.Common.Maps.{Map, insert, lookup, lookup-insert, lookup-insert_self}
use ingress_nextgen.Objects.{ObjectMeta}
use mathlib.Core.Option.{some-injective}
use mathlib.Core.Path.{subst}
use ingress_nextgen.Resources.{
  Resource, add_warning, choose_object_meta_winner, get_key_with_kind, get_object_meta, ingress,
  transport_server, virtual_server, wins,
}
use ingress_nextgen.Resources.Order.{
  choose_object_meta_winner_asymm, choose_object_meta_winner_irrefl, choose_object_meta_winner_weak,
}
use ingress_nextgen.Hosts.{
  Building, add_resource, claim_host, claim_hosts, contest, host_warning, settle,
}

-- the metadata of the resource with the key
abbrev pub meta_at : String → Map String Resource → Option ObjectMeta
meta_at k resources = elim (lookup k resources) [ none ↦ none | some r ↦ some (get_object_meta r) ]

-- Every holder has its resource.
abbrev pub IsHeld : Building → Type 0
IsHeld b =
    (h g : String)
    → lookup h b.holders ≡ some g
    → (n : ObjectMeta) × (meta_at g b.resources ≡ some n)

-- The host has a holder that the object does not beat.
abbrev pub IsUnbeaten : Building → ObjectMeta → String → Type 0
IsUnbeaten b m h =
    (g : String) × (n : ObjectMeta) × (lookup h b.holders ≡ some g)
    × (meta_at g b.resources ≡ some n)
    × (choose_object_meta_winner m n ≡ false)

-- A later table keeps what an earlier one has: no object that did not beat a holder beats the new one.
pub record IsLater (b b' : Building) : Type 0 where
  pub is_held : IsHeld b'
  pub keeps_unbeaten : (m : ObjectMeta) (h : String) → IsUnbeaten b m h → IsUnbeaten b' m h

pub IsLater-trans : (a b c : Building) → IsLater a b → IsLater b c → IsLater a c
IsLater-trans a b c p q = record {
  is_held = q.is_held;
  keeps_unbeaten = λ m h u. q.keeps_unbeaten m h (p.keeps_unbeaten m h u);
}

meta_at-some :
    (k : String) (rs : Map String Resource) {m : ObjectMeta}
    → meta_at k rs ≡ some m
    → (r : Resource) × (lookup k rs ≡ some r) × (get_object_meta r ≡ m)
meta_at-some k rs {m} h = go (lookup k rs) refl
  where
    go :
        (o : Option Resource)
        → lookup k rs ≡ o
        → (r : Resource) × (lookup k rs ≡ some r) × (get_object_meta r ≡ m)
    go none q = cc (rw (q, meta_at) at h)
    go (some r) q = (r, q, some-injective _ _ (rw (q, meta_at) at h))

add_warning-get_object_meta :
    (r : Resource) (w : String) → get_object_meta (add_warning r w) ≡ get_object_meta r
unfolding get_object_meta add_warning
add_warning-get_object_meta (ingress ic) w = refl
add_warning-get_object_meta (virtual_server vsc) w = refl
add_warning-get_object_meta (transport_server tsc) w = refl

-- a warning to a resource leaves all metadata alone
meta_at-warn :
    (j k : String) (r : Resource) (w : String) (rs : Map String Resource)
    → lookup k rs ≡ some r
    → meta_at j (insert k (add_warning r w) rs) ≡ meta_at j rs
meta_at-warn j k r w rs q = elim (Bool-cases (k == j)) [
  | inl t ↦
      (let same : lookup j rs ≡ some r = rw (← ==_true k j t) q in
        rw (lookup-insert k j (add_warning r w) rs, meta_at)
          (rw t (rw (add_warning-get_object_meta r w) (rw (same, meta_at) refl))))
  | inr n ↦ rw (lookup-insert k j (add_warning r w) rs, meta_at) (rw n refl)
]

-- The host goes to the key, or stays with its holder, and all metadata are what they were.
moved :
    (b : Building) (rs : Map String Resource) (key host : String) (m : ObjectMeta)
    → ((j : String) → meta_at j rs ≡ meta_at j b.resources)
    → IsHeld b
    → meta_at key b.resources ≡ some m
    → ((g : String) (n : ObjectMeta)
        → lookup host b.holders ≡ some g
        → meta_at g b.resources ≡ some n
        → choose_object_meta_winner n m ≡ false)
    → IsLater b (record { holders = insert host key b.holders; resources = rs })
moved b rs key host m same held mine loses = record {
  is_held = λ h g q. elim (Bool-cases (host == h)) [
    | inl t ↦
        (let e : key ≡ g = some-injective _ _ (rw (lookup-insert host h key b.holders, t) at q) in
          (m, rw (← e) (same key ∙ mine)))
    | inr n ↦
        (let (n', p) = held h g (rw (lookup-insert host h key b.holders, n) at q) in
          (n', same g ∙ p))
  ];
  keeps_unbeaten = λ x h (g, n, q, p, u). elim (Bool-cases (host == h)) [
    | inl t ↦
        (let q' : lookup host b.holders ≡ some g = rw (==_true host h t) q in
          (
            key,
            m,
            rw (lookup-insert host h key b.holders) (rw t refl),
            same key ∙ mine,
            choose_object_meta_winner_weak x n m u (loses g n q' p),
          ))
    | inr f ↦ (g, n, rw (lookup-insert host h key b.holders) (rw f q), same g ∙ p, u)
  ];
}

-- What a claim by the key of the object achieves.
abbrev pub IsClaimed : String → String → ObjectMeta → Building → Option Building → Type 0
IsClaimed key host m b o =
    (b' : Building) × (o ≡ some b')
    × IsLater b b'
    × (meta_at key b'.resources ≡ some m)
    × IsUnbeaten b' m host

stayed :
    (b : Building) (rs : Map String Resource)
    → ((j : String) → meta_at j rs ≡ meta_at j b.resources)
    → IsHeld b
    → IsLater b (record b { resources = rs })
stayed b rs same held = record {
  is_held = λ h g q. let (n, p) = held h g q in (n, same g ∙ p);
  keeps_unbeaten = λ x h (g, n, q, p, u). (g, n, q, same g ∙ p, u);
}

claim_host-settle :
    (key host g : String) (b : Building) (m n : ObjectMeta)
    → IsHeld b
    → meta_at key b.resources ≡ some m
    → lookup host b.holders ≡ some g
    → meta_at g b.resources ≡ some n
    → IsClaimed key host m b (contest host g key b)
unfolding contest settle wins
claim_host-settle key host g b m n held mine at_host theirs =
    let (holder, p, e) = meta_at-some g b.resources theirs in
    let (resource, q, f) = meta_at-some key b.resources mine in
    let w = host_warning host in
    let warned_mine : (j : String) → _ = λ j. meta_at-warn j key resource w b.resources q in
    let warned_theirs : (j : String) → _ = λ j. meta_at-warn j g holder w b.resources p in
    rw (p, contest)
      (rw q (
        rw (e, f, settle)
          (elim (Bool-cases (choose_object_meta_winner n m)) [
            | inl t ↦ (
              record b { resources = insert key (add_warning resource w) b.resources },
              rw t refl,
              stayed b _ warned_mine held,
              warned_mine key ∙ mine,
              (g, n, at_host, warned_mine g ∙ theirs, choose_object_meta_winner_asymm n m t),
            )
            | inr l ↦ (
              record {
                holders = insert host key b.holders;
                resources = insert g (add_warning holder w) b.resources;
              },
              rw l refl,
              moved b _ key host m warned_theirs held mine (λ g' n'. loses g' n' l),
              warned_theirs key ∙ mine,
              (
                key,
                m,
                lookup-insert_self host key b.holders,
                warned_theirs key ∙ mine,
                choose_object_meta_winner_irrefl m,
              ),
            )
          ])))
  where
    loses :
        (g' : String) (n' : ObjectMeta)
        → choose_object_meta_winner n m ≡ false
        → lookup host b.holders ≡ some g'
        → meta_at g' b.resources ≡ some n'
        → choose_object_meta_winner n' m ≡ false
    loses g' n' l q' p' =
        let e : g ≡ g' = some-injective _ _ (sym at_host ∙ q') in
        let theirs' : meta_at g b.resources ≡ some n' =
          subst (λ x. meta_at x b.resources ≡ some n') (sym e) p' in
        rw (← some-injective _ _ (sym theirs ∙ theirs')) l

-- A claim succeeds, and leaves a holder that the claimant does not beat.
claim_host_lem :
    (key host : String) (b : Building) (m : ObjectMeta)
    → IsHeld b
    → meta_at key b.resources ≡ some m
    → IsClaimed key host m b (claim_host key host b)
unfolding claim_host
claim_host_lem key host b m held mine = go (lookup host b.holders) refl
  where
    go :
        (o : Option String)
        → lookup host b.holders ≡ o
        → IsClaimed key host m b (claim_host key host b)
    go none q =
        rw (q, claim_host)
          (
            record b { holders = insert host key b.holders },
            refl,
            moved b b.resources key host m (λ j. refl) held mine (λ g n e. cc (q, e)),
            mine,
            (
              key,
              m,
              lookup-insert_self host key b.holders,
              mine,
              choose_object_meta_winner_irrefl m,
            ),
          )
    go (some g) q =
        let (n, theirs) = held host g q in
        rw (q, claim_host) (claim_host-settle key host g b m n held mine q theirs)

claim_hosts_lem :
    (key : String) (hosts : List String) (b : Building) (m : ObjectMeta)
    → IsHeld b
    → meta_at key b.resources ≡ some m
    → (b' : Building) × (claim_hosts key hosts b ≡ some b')
      × IsLater b b'
      × ((h : String) → contains hosts h ≡ true → IsUnbeaten b' m h)
unfolding claim_hosts contains
claim_hosts_lem key [] b m held mine =
    (b, refl, record { is_held = held; keeps_unbeaten = λ x h u. u }, λ h c. cc c)
claim_hosts_lem key (host ∷ hosts) b m held mine =
    let (b1, e, later, mine1, first) = claim_host_lem key host b m held mine in
    let (b2, e2, later2, rest) = claim_hosts_lem key hosts b1 m later.is_held mine1 in
    (
      b2,
      rw e e2,
      IsLater-trans b b1 b2 later later2,
      λ h c. elim (Bool-cases (host == h)) [
        | inl t ↦ rw (← ==_true host h t) (later2.keeps_unbeaten m host first)
        | inr n ↦ rest h (rw n at c)
      ],
    )

-- Adding a resource that is not there yet to a table where every holder has its resource never
-- crashes, keeps every holder unbeaten by whatever did not beat it, and leaves at each host that the
-- resource claims a holder that the resource does not beat.
pub add_resource_lem :
    (r : Resource) (hosts : List String) (b : Building)
    → IsHeld b
    → lookup (get_key_with_kind r) b.resources ≡ none
    → (b' : Building) × (add_resource r hosts b ≡ some b')
      × IsLater b b'
      × ((h : String) → contains hosts h ≡ true → IsUnbeaten b' (get_object_meta r) h)
unfolding add_resource
add_resource_lem r hosts b held new =
    let key = get_key_with_kind r in
    let b1 : Building = record b { resources = insert key r b.resources } in
    let later : IsLater b b1 = record {
      is_held = λ h g q. let (n, p) = held h g q in (n, kept g n p);
      keeps_unbeaten = λ x h (g, n, q, p, u). (g, n, q, kept g n p, u);
    } in
    let (b2, e, later2, rest) =
      claim_hosts_lem key hosts b1 (get_object_meta r) later.is_held
        (rw (lookup-insert_self key r b.resources, meta_at) refl) in
    (b2, e, IsLater-trans b b1 b2 later later2, rest)
  where
    kept :
        (g : String) (n : ObjectMeta)
        → meta_at g b.resources ≡ some n
        → meta_at g (insert (get_key_with_kind r) r b.resources) ≡ some n
    kept g n p = elim (Bool-cases (get_key_with_kind r == g)) [
      | inl t ↦
          (let gone : lookup g b.resources ≡ none = rw (← ==_true (get_key_with_kind r) g t) new in
            cc (rw (gone, meta_at) at p))
      | inr f ↦ rw (lookup-insert (get_key_with_kind r) g r b.resources, meta_at) (rw f p)
    ]
