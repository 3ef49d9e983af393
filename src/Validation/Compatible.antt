-- ===== src/Validation/Compatible.antt =====
-- Listeners that can stand together, and what the combinations say of them.
use ingress_nextgen.Common.{
  ==_refl, ==_true, Bool, Bool-cases, List, String, [], and-eq-true, any, ap, contains,
  contains-append, false, inl, inr, or_true, refl, string_eq, sym, true, ℕ_eq, ◌&&◌, ◌==◌, ◌||◌,
  ◌∙◌, ◌∷◌, ◌≡◌, ◌≢◌, ◌⊎◌,
}
use ingress_nextgen.Common.Keys.{any_intro}
use ingress_nextgen.Objects.{Listener}
use ingress_nextgen.Validation.Ports.{
  Combinations, Taken, clashes, conflicts, ensured, existing_protocols, existing_protocols-ensured,
  existing_protocols-update, get_ip, update_port_protocol_combinations,
}

-- One of the protocols that run over TCP.
abbrev pub IsOverTcp : String → Type 0
IsOverTcp protocol = (protocol ≡ "HTTP") ⊎ (protocol ≡ "TCP")

-- Both protocols run over TCP, or both over UDP.
abbrev pub SharesTransport : String → String → Type 0
SharesTransport p q = (IsOverTcp p × IsOverTcp q) ⊎ ((p ≡ "UDP") × (q ≡ "UDP"))

-- Different names, and no address of either version and port at which their protocols clash.
abbrev pub Compatible : Listener → Listener → Type 0
Compatible k l =
    (k.name ≢ l.name)
    × ((is_ipv4 : Bool)
        → SharesTransport l.protocol k.protocol
        → get_ip is_ipv4 k ≡ get_ip is_ipv4 l
        → k.port ≡ l.port
        → ⊥)

SharesTransport-clashes : (p q : String) → SharesTransport p q → clashes p q ≡ true
unfolding clashes
SharesTransport-clashes p q (inl (inl e, inl f)) = rw (e, f) refl
SharesTransport-clashes p q (inl (inl e, inr f)) = rw (e, f) refl
SharesTransport-clashes p q (inl (inr e, inl f)) = rw (e, f) refl
SharesTransport-clashes p q (inl (inr e, inr f)) = rw (e, f) refl
SharesTransport-clashes p q (inr (e, f)) = rw (e, f) refl

abbrev pub CompatibleWithAll : Listener → List Listener → Type 0
CompatibleWithAll k [] = Unit
CompatibleWithAll k (l ∷ ls) = Compatible k l × CompatibleWithAll k ls

-- Each listener can stand with every later one.
abbrev pub AllCompatible : List Listener → Type 0
AllCompatible [] = Unit
AllCompatible (l ∷ ls) = CompatibleWithAll l ls × AllCompatible ls

-- The listener's protocol is noted at its address and port.
abbrev pub Noted : Bool → Combinations → Listener → Type 0
Noted is_ipv4 c l = contains (existing_protocols c (get_ip is_ipv4 l) l.port) l.protocol ≡ true

-- The listener's name is taken, and its protocol is noted for both versions.
abbrev pub Covers : Taken → Listener → Type 0
Covers t l = (contains t.names l.name ≡ true) × Noted true t.ipv4 l × Noted false t.ipv6 l

contains_self : (p : String) → contains (p ∷ []) p ≡ true
unfolding contains
contains_self p = rw (==_refl p) refl

pub Noted-update :
    (is_ipv4 : Bool) (c : Combinations) (ip : String) (l k : Listener)
    → Noted is_ipv4 c k
    → Noted is_ipv4 (update_port_protocol_combinations c ip l) k
Noted-update is_ipv4 c ip l k h =
    ap (λ ps. contains ps k.protocol) (existing_protocols-update c ip l (get_ip is_ipv4 k) k.port)
    ∙ (elim (Bool-cases (ip == get_ip is_ipv4 k && l.port == k.port)) [
      | inl t ↦
          (let same = and-eq-true (ip == get_ip is_ipv4 k) (l.port == k.port) t in
            let here =
              (λ i.
                contains
                  (existing_protocols c (==_true ip (get_ip is_ipv4 k) same.0 i)
                    (==_true l.port k.port same.1 i))
                  k.protocol)
              ∙ h in
            rw t (
              contains-append (existing_protocols c ip l.port) (l.protocol ∷ []) k.protocol
              ∙ ap (λ b. b || contains (l.protocol ∷ []) k.protocol) here))
      | inr n ↦ rw n h
    ])

pub update-Noted :
    (is_ipv4 : Bool) (c : Combinations) (l : Listener)
    → Noted is_ipv4 (update_port_protocol_combinations c (get_ip is_ipv4 l) l) l
update-Noted is_ipv4 c l =
    ap (λ ps. contains ps l.protocol)
      (existing_protocols-update c (get_ip is_ipv4 l) l (get_ip is_ipv4 l) l.port)
    ∙ rw (==_refl (get_ip is_ipv4 l), ==_refl l.port)
        (contains-append (existing_protocols c (get_ip is_ipv4 l) l.port) (l.protocol ∷ [])
            l.protocol
          ∙ ap (λ b. contains (existing_protocols c (get_ip is_ipv4 l) l.port) l.protocol || b)
              (contains_self l.protocol)
          ∙ or_true (contains (existing_protocols c (get_ip is_ipv4 l) l.port) l.protocol))

pub Noted-ensured :
    (is_ipv4 : Bool) (c : Combinations) (ip : String) (k : Listener)
    → Noted is_ipv4 c k
    → Noted is_ipv4 (ensured ip c) k
Noted-ensured is_ipv4 c ip k h =
    ap (λ ps. contains ps k.protocol) (existing_protocols-ensured ip (get_ip is_ipv4 k) k.port c)
    ∙ h

pub conflicts-ensured :
    (c : Combinations) (ip other : String) (l : Listener)
    → conflicts (ensured ip c) other l ≡ conflicts c other l
unfolding conflicts
conflicts-ensured c ip other l =
    ap (any (clashes l.protocol)) (existing_protocols-ensured ip other l.port c)

-- Without a conflict no noted listener clashes.
no_clash :
    (is_ipv4 : Bool) (c : Combinations) (k l : Listener)
    → conflicts c (get_ip is_ipv4 l) l ≡ false
    → Noted is_ipv4 c k
    → SharesTransport l.protocol k.protocol
    → get_ip is_ipv4 k ≡ get_ip is_ipv4 l
    → k.port ≡ l.port
    → ⊥
unfolding conflicts
no_clash is_ipv4 c k l free noted clash same_ip same_port =
    let here =
      (λ i. contains (existing_protocols c (sym same_ip i) (sym same_port i)) k.protocol) ∙ noted in
    let e =
      any_intro (clashes l.protocol) (existing_protocols c (get_ip is_ipv4 l) l.port) k.protocol
        here (SharesTransport-clashes l.protocol k.protocol clash) in
    cc (e, free)

-- A listener with a new name and no conflict can stand with all that are covered.
pub fresh-Compatible :
    (t : Taken) (l k : Listener)
    → contains t.names l.name ≡ false
    → conflicts t.ipv4 (get_ip true l) l ≡ false
    → conflicts t.ipv6 (get_ip false l) l ≡ false
    → Covers t k
    → Compatible k l
fresh-Compatible t l k new free4 free6 (named, noted4, noted6) =
    (λ e. cc (ap (contains t.names) e, named, new), go)
  where
    go :
        (is_ipv4 : Bool)
        → SharesTransport l.protocol k.protocol
        → get_ip is_ipv4 k ≡ get_ip is_ipv4 l
        → k.port ≡ l.port
        → ⊥
    go true = no_clash true t.ipv4 k l free4 noted4
    go false = no_clash false t.ipv6 k l free6 noted6
