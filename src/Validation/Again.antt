-- ===== src/Validation/Again.antt =====
-- Validating the listeners that were kept.
use ingress_nextgen.Common.{
  ==_true, Bool, Bool-cases, List, String, [], and-eq-true, any, any-append, ap, contains, false,
  if◌then◌else◌, inl, inr, refl, string_eq, suc, true, ℕ, ℕ_eq, ◌&&◌, ◌+++◌, ◌==◌, ◌||◌, ◌∙◌, ◌∷◌,
  ◌≡◌,
}
use ingress_nextgen.Common.Bytes.{Bytes_eq}
use ingress_nextgen.Objects.{GlobalConfiguration, Listener}
use ingress_nextgen.Validation.{
  Checks, admit_listener, admit_named, admit_ports, get_valid_listeners, unless_errors,
  valid_listeners_from, validate_global_configuration, validate_listener,
}
use ingress_nextgen.Validation.Ports.{
  Combinations, Taken, clashes, conflicts, ensured, existing_protocols, existing_protocols-update,
  get_ip, update_port_protocol_combinations,
}
use ingress_nextgen.Validation.Compatible.{
  AllCompatible, Compatible, CompatibleWithAll, IsOverTcp, SharesTransport, conflicts-ensured,
}
use ingress_nextgen.Validation.Rounds.{Ends, IsFresh, Round, admit_listener-Ends}
use ingress_nextgen.Validation.Kept.{validate_global_configuration-AllCompatible}
use ingress_nextgen.Common.Maps.{lookup}
use ingress_nextgen.Validation.Index.{validate_listener_any}

-- The state after a listener is kept.
taken_after : Taken → Listener → Taken
taken_after t l = record {
  names = l.name ∷ t.names;
  ipv4 = update_port_protocol_combinations (ensured (get_ip true l) t.ipv4) (get_ip true l) l;
  ipv6 = update_port_protocol_combinations (ensured (get_ip false l) t.ipv6) (get_ip false l) l;
}

abbrev AllFresh : Taken → List Listener → Type 0
AllFresh t [] = Unit
AllFresh t (l ∷ ls) = IsFresh t l × AllFresh t ls

over_tcp : (p : String) → (p == "HTTP" || p == "TCP") ≡ true → IsOverTcp p
over_tcp p h = elim (Bool-cases (p == "HTTP")) [
  | inl t ↦ inl (==_true p "HTTP" t)
  | inr n ↦ inr (==_true p "TCP" (rw n at h))
]

clashes-SharesTransport : (p q : String) → clashes p q ≡ true → SharesTransport p q
unfolding clashes
clashes-SharesTransport p q h = elim (Bool-cases (p == "HTTP" || p == "TCP")) [
  | inl t ↦ inl (over_tcp p t, over_tcp q (rw t at h))
  | inr n ↦
      (let both = and-eq-true (p == "UDP") (q == "UDP") (rw n at h) in
        inr (==_true p "UDP" both.0, ==_true q "UDP" both.1))
]

apart_after :
    (is_ipv4 : Bool) (l k : Listener)
    → Compatible l k
    → get_ip is_ipv4 l ≡ get_ip is_ipv4 k
    → l.port ≡ k.port
    → any (clashes k.protocol) (l.protocol ∷ []) ≡ false
apart_after is_ipv4 l k (_, apart) ip port = elim (Bool-cases (clashes k.protocol l.protocol)) [
  | inl t ↦ absurd (apart is_ipv4 (clashes-SharesTransport k.protocol l.protocol t) ip port)
  | inr n ↦ rw n refl
]

conflicts-after :
    (is_ipv4 : Bool) (c : Combinations) (l k : Listener)
    → Compatible l k
    → conflicts c (get_ip is_ipv4 k) k ≡ false
    → conflicts
        (update_port_protocol_combinations (ensured (get_ip is_ipv4 l) c) (get_ip is_ipv4 l) l)
        (get_ip is_ipv4 k)
        k
      ≡ false
unfolding conflicts
conflicts-after is_ipv4 c l k apart h =
    let ip = get_ip is_ipv4 l in
    let other = get_ip is_ipv4 k in
    let free = conflicts-ensured c ip other k ∙ h in
    ap (any (clashes k.protocol)) (existing_protocols-update (ensured ip c) ip l other k.port)
    ∙ (elim (Bool-cases (ip == other && l.port == k.port)) [
      | inl t ↦
          (let same = and-eq-true (ip == other) (l.port == k.port) t in
            let same_ip = ==_true ip other same.0 in
            let same_port = ==_true l.port k.port same.1 in
            let here =
              (λ i.
                any (clashes k.protocol)
                  (existing_protocols (ensured ip c) (same_ip i) (same_port i)))
              ∙ free in
            rw t (
              any-append (clashes k.protocol) (existing_protocols (ensured ip c) ip l.port)
                (l.protocol ∷ [])
              ∙ (λ i. here i || apart_after is_ipv4 l k apart same_ip same_port i)))
      | inr n ↦ rw n free
    ])

IsFresh-after :
    (t : Taken) (l k : Listener) → Compatible l k → IsFresh t k → IsFresh (taken_after t l) k
unfolding taken_after contains
IsFresh-after t l k apart (new, (free4, free6)) = (
  elim (Bool-cases (l.name == k.name)) [
    | inl t ↦ absurd (apart.0 (==_true l.name k.name t))
    | inr n ↦ rw (n, new) refl
  ],
  (conflicts-after true t.ipv4 l k apart free4, conflicts-after false t.ipv6 l k apart free6),
)

if_false {ℓ} : {A : Type ℓ} (b : Bool) (x y : A) → b ≡ false → (if b then x else y) ≡ y
if_false true x y h = absurd (cc h)
if_false false x y h = refl

admit_named-fresh :
    (t : Taken) (i : ℕ) (l : Listener)
    → IsFresh t l
    → admit_named t i l ≡ (taken_after t l, l ∷ [], [])
unfolding admit_named admit_ports taken_after
admit_named-fresh t i l (new, (free4, free6)) =
    if_false (contains t.names l.name) _ _ new
    ∙ if_false (conflicts (ensured (get_ip true l) t.ipv4) (get_ip true l) l) _ _
        (conflicts-ensured t.ipv4 (get_ip true l) (get_ip true l) l ∙ free4)
    ∙ if_false (conflicts (ensured (get_ip false l) t.ipv6) (get_ip false l) l) _ _
        (conflicts-ensured t.ipv6 (get_ip false l) (get_ip false l) l ∙ free6)

AllFresh-after :
    (t : Taken) (l : Listener) (ls : List Listener)
    → CompatibleWithAll l ls
    → AllFresh t ls
    → AllFresh (taken_after t l) ls
AllFresh-after t l [] a f = tt
AllFresh-after t l (k ∷ ls) (a, as') (f, fs) =
    (IsFresh-after t l k a f, AllFresh-after t l ls as' fs)

module _ (checks : Checks) where
  abbrev AllValid : List Listener → Type 0
  AllValid [] = Unit
  AllValid (l ∷ ls) = ((i : ℕ) → validate_listener checks i l ≡ []) × AllValid ls

  AllValid-round :
      (t : Taken) (i : ℕ) (l : Listener) (r : Round) (ls : List Listener)
      → Ends ((validate_listener checks i l ≡ []) × IsFresh t l) t l r
      → AllValid ls
      → AllValid (r.1 +++ ls)
  unfolding Ends
  AllValid-round t i l (t', kept, errs) ls (grows, inl (q, e)) valid = rw q valid
  AllValid-round t i l (t', kept, errs) ls (grows, inr (q, e, (p, f), c)) valid =
      rw q (λ j. validate_listener_any checks i j l p, valid)

  valid_listeners_from-AllValid :
      (t : Taken) (i : ℕ) (ls : List Listener) → AllValid (valid_listeners_from checks t i ls).0
  unfolding valid_listeners_from
  valid_listeners_from-AllValid t i [] = tt
  valid_listeners_from-AllValid t i (l ∷ ls) =
      AllValid-round t i l (admit_listener checks t i l) _ (admit_listener-Ends checks t i l)
        (valid_listeners_from-AllValid (admit_listener checks t i l).0 (suc i) ls)

  valid_listeners_from-kept :
      (t : Taken) (i : ℕ) (ls : List Listener)
      → AllCompatible ls
      → AllValid ls
      → AllFresh t ls
      → valid_listeners_from checks t i ls ≡ (ls, [])
  unfolding valid_listeners_from admit_listener
  valid_listeners_from-kept t i [] a v f = refl
  valid_listeners_from-kept t i (l ∷ ls) (a, as') (v, vs) (f, fs) =
      ap
        (λ r.
          let rest = valid_listeners_from checks r.0 (suc i) ls in (r.1 +++ rest.0, r.2 +++ rest.1))
        (ap (λ errs. unless_errors errs t (admit_named t i l)) (v i) ∙ admit_named-fresh t i l f)
      ∙ ap (λ rest. (l ∷ rest.0, rest.1))
          (valid_listeners_from-kept (taken_after t l) (suc i) ls as' vs
            (AllFresh-after t l ls a fs))

  AllFresh-nothing :
      (ls : List Listener) → AllFresh (record { names = []; ipv4 = []; ipv6 = [] }) ls
  unfolding contains conflicts existing_protocols lookup
  AllFresh-nothing [] = tt
  AllFresh-nothing (l ∷ ls) = ((refl, (refl, refl)), AllFresh-nothing ls)

  -- Validating a validated GlobalConfiguration again leaves it and reports no error.
  pub validate_global_configuration_idem :
      (gc : GlobalConfiguration)
      → validate_global_configuration checks (validate_global_configuration checks gc).0
        ≡ ((validate_global_configuration checks gc).0, [])
  unfolding validate_global_configuration get_valid_listeners
  validate_global_configuration_idem gc =
      ap (λ r. (record gc { listeners = r.0 }, r.1))
        (valid_listeners_from-kept _ 0 _ (validate_global_configuration-AllCompatible checks gc)
          (valid_listeners_from-AllValid _ 0 gc.listeners) (AllFresh-nothing _))
