-- ===== src/Validation/Ports.antt =====
-- The addresses, ports and protocols that are taken
-- (pkg/apis/configuration/validation/globalconfiguration.go).
use ingress_nextgen.Common.{
  ==_true, Bool, Bool-cases, List, Option, String, [], any, ap, false, if◌then◌else◌, inl, inr,
  none, refl, some, string_eq, sym, true, ℕ, ℕ_eq, ◌&&◌, ◌+++◌, ◌==◌, ◌||◌, ◌∙◌, ◌∷◌, ◌≡◌,
}
use ingress_nextgen.Common.Maps.{Map, insert, lookup, lookup-insert}
use ingress_nextgen.Objects.{Listener}

-- map[IP]map[Port][]Protocol
abbrev pub Combinations : Type 0
Combinations = Map String (Map ℕ (List String))

-- What the loop of getValidListeners keeps: the set of names, and the combinations of both versions.
pub record Taken : Type 0 where
  pub names : List String
  pub ipv4 : Combinations
  pub ipv6 : Combinations

-- getIP; the first argument is whether the version is 4
unfoldable pub get_ip : Bool → Listener → String
get_ip is_ipv4 l =
    if is_ipv4
    then (if l.ipv4 == "" then "0.0.0.0" else l.ipv4)
    else if l.ipv6 == ""
    then "::"
    else l.ipv6

-- combinations[ip], made where it is nil
unfoldable pub ensured : String → Combinations → Combinations
unfolding insert lookup
ensured ip c = elim (lookup ip c) [ none ↦ insert ip [] c | some m ↦ c ]

-- combinations[ip][port], empty where either is missing
abbrev ports_at : Option (Map ℕ (List String)) → ℕ → List String
ports_at none port = []
ports_at (some m) port = elim (lookup port m) [ none ↦ [] | some ps ↦ ps ]

unfoldable pub existing_protocols : Combinations → String → ℕ → List String
unfolding lookup
existing_protocols c ip port = ports_at (lookup ip c) port

-- The switch on the protocol: whether it cannot share a port with one that exists.
unfoldable pub clashes : String → String → Bool
clashes protocol existing =
    if protocol == "HTTP" || protocol == "TCP"
    then existing == "HTTP" || existing == "TCP"
    else protocol == "UDP" && existing == "UDP"

-- checkIPPortProtocolConflicts, after the map of the address is made
unfoldable pub conflicts : Combinations → String → Listener → Bool
unfolding existing_protocols clashes
conflicts c ip l = any (clashes l.protocol) (existing_protocols c ip l.port)

abbrev or_empty : Option (Map ℕ (List String)) → Map ℕ (List String)
or_empty none = []
or_empty (some m) = m

unfoldable pub update_port_protocol_combinations : Combinations → String → Listener → Combinations
unfolding insert lookup existing_protocols
update_port_protocol_combinations c ip l =
    insert ip
      (insert l.port (existing_protocols c ip l.port +++ (l.protocol ∷ []))
        (or_empty (lookup ip c)))
      c

-- What is taken after a step.
ports_at-or_empty :
    (o : Option (Map ℕ (List String))) (port : ℕ)
    → ports_at (some (or_empty o)) port ≡ ports_at o port
unfolding lookup
ports_at-or_empty none port = refl
ports_at-or_empty (some m) port = refl

ports_at-insert :
    (p port : ℕ) (ps : List String) (m : Map ℕ (List String))
    → ports_at (some (insert p ps m)) port ≡ (if p == port then ps else ports_at (some m) port)
ports_at-insert p port ps m =
    ap (λ o. elim o as (λ _. List String) [ none ↦ [] | some qs ↦ qs ]) (lookup-insert p port ps m)
    ∙ go (p == port)
  where
    go :
        (b : Bool)
        → (elim (if b then some ps else lookup port m) as (λ _. List String) [
          | none ↦ []
          | some qs ↦ qs
        ])
          ≡ (if b then ps else ports_at (some m) port)
    go true = refl
    go false = refl

pub existing_protocols-ensured :
    (ip other : String) (port : ℕ) (c : Combinations)
    → existing_protocols (ensured ip c) other port ≡ existing_protocols c other port
unfolding existing_protocols ensured
existing_protocols-ensured ip other port c = go (lookup ip c) refl
  where
    go :
        (o : Option (Map ℕ (List String)))
        → lookup ip c ≡ o
        → ports_at
            (lookup other (elim o as (λ _. Combinations) [ none ↦ insert ip [] c | some m ↦ c ]))
            port
          ≡ ports_at (lookup other c) port
    go (some m) q = refl
    go none q = rw lookup-insert (elim (Bool-cases (ip == other)) [
      | inl t ↦
          rw (t, ap (λ x. lookup x c) (sym (==_true ip other t)) ∙ q) (ports_at-or_empty none port)
      | inr n ↦ rw n refl
    ])

pub existing_protocols-update :
    (c : Combinations) (ip : String) (l : Listener) (other : String) (port : ℕ)
    → existing_protocols (update_port_protocol_combinations c ip l) other port ≡ (
        if ip == other && l.port == port
        then existing_protocols c ip l.port +++ (l.protocol ∷ [])
        else existing_protocols c other port)
unfolding existing_protocols update_port_protocol_combinations
existing_protocols-update c ip l other port = rw lookup-insert (elim (Bool-cases (ip == other)) [
  | inl t ↦ rw t (
      ports_at-insert l.port port _ (or_empty (lookup ip c))
      ∙ ap
          (λ ps.
            if l.port == port then existing_protocols c ip l.port +++ (l.protocol ∷ []) else ps)
          (ports_at-or_empty (lookup ip c) port
            ∙ ap (λ x. ports_at (lookup x c) port) (==_true ip other t)))
  | inr n ↦ rw n refl
])
