-- ===== src/Configuration/Sound.antt =====
-- Sound configurations: what is stored, under which key, and what the index of minions and the map of
-- listeners say of it.
use ingress_nextgen.Common.{
  ==_true, Bool, Bool-cases, List, Option, String, [], all, false, if◌then◌else◌, inl, inr, none,
  refl, some, string_eq, true, ℕ_eq, ◌==◌, ◌∙◌, ◌∷◌, ◌≡◌,
}
use ingress_nextgen.Common.Maps.{Map, insert, lookup, lookup-insert, lookup-remove, remove}
use ingress_nextgen.Problems.{
  ingress_object, transport_server_object, virtual_server_object, virtual_server_route_object,
}
use ingress_nextgen.Objects.{Ingress, Listener, TransportServer, VirtualServer, VirtualServerRoute}
use ingress_nextgen.Environment.{Environment}
use ingress_nextgen.Resources.{get_resource_key}
use ingress_nextgen.Minions.Consistent.{IsConsistent}
use ingress_nextgen.Configuration.{Configuration}
use ingress_nextgen.Configuration.Operations.{
  balanced, balanced_route, ingress_error, listener_map_of, listeners_of, transport_server_error,
  virtual_server_error, virtual_server_route_error,
}
use mathlib.Core.Option.{some-injective}

-- each value of the map has the property, at its key
abbrev pub HoldsAll : {V : Type 0} → (String → V → Type 0) → Map String V → Type 0
HoldsAll {V} p m = (k : String) (v : V) → lookup k m ≡ some v → p k v

pub HoldsAll-insert :
    {V : Type 0} (p : String → V → Type 0) (k : String) (v : V) (m : Map String V)
    → p k v
    → HoldsAll p m
    → HoldsAll p (insert k v m)
HoldsAll-insert p k v m here all j w h = elim (Bool-cases (k == j)) [
  | inl t ↦
      (let e : v ≡ w = some-injective _ _ (rw (lookup-insert k j v m, t) at h) in
        rw (← e, ← ==_true k j t) here)
  | inr n ↦ all j w (rw (lookup-insert k j v m, n) at h)
]

pub HoldsAll-remove :
    {V : Type 0} (p : String → V → Type 0) (k : String) (m : Map String V)
    → HoldsAll p m
    → HoldsAll p (remove k m)
HoldsAll-remove p k m all j w h = elim (Bool-cases (k == j)) [
  | inl t ↦ cc (rw (lookup-remove k j m, t) at h)
  | inr n ↦ all j w (rw (lookup-remove k j m, n) at h)
]

-- An object has the right class and no error.
abbrev pub IsAdmitted : Bool → Option String → Type 0
IsAdmitted has_class err = (has_class ≡ true) × (err ≡ none)

IsAdmitted-intro :
    (has_class : Bool) (err : Option String)
    → (if has_class then some err else none) ≡ some none
    → IsAdmitted has_class err
IsAdmitted-intro true none h = (refl, refl)
IsAdmitted-intro true (some err) h = cc (some-injective _ _ h)
IsAdmitted-intro false err h = cc h

-- A stored object under its key. An Ingress or a TransportServer is itself admitted; a VirtualServer
-- or a VirtualServerRoute is the balanced form of one that is.
abbrev pub IsIngress : Environment → String → Ingress → Type 0
IsIngress env k ing =
    IsAdmitted (env.has_correct_ingress_class (ingress_object ing)) (env.validate_ingress ing)
    × (get_resource_key ing.meta ≡ k)

abbrev pub IsVirtualServer : Environment → String → VirtualServer → Type 0
IsVirtualServer env k stored =
    (vs : VirtualServer) × IsAdmitted (env.has_correct_ingress_class (virtual_server_object vs))
      (env.validate_virtual_server vs)
    × (stored ≡ balanced env vs)
    × (get_resource_key vs.meta ≡ k)

abbrev pub IsVirtualServerRoute : Environment → String → VirtualServerRoute → Type 0
IsVirtualServerRoute env k stored =
    (vsr : VirtualServerRoute) × IsAdmitted
      (env.has_correct_ingress_class (virtual_server_route_object vsr))
      (env.validate_virtual_server_route vsr)
    × (stored ≡ balanced_route env vsr)
    × (get_resource_key vsr.meta ≡ k)

abbrev pub IsTransportServer : Environment → String → TransportServer → Type 0
IsTransportServer env k ts =
    IsAdmitted (env.has_correct_ingress_class (transport_server_object ts))
      (env.validate_transport_server ts)
    × (get_resource_key ts.meta ≡ k)

pub ingress_error-IsAdmitted :
    (env : Environment) (ing : Ingress)
    → ingress_error env ing ≡ some none
    → IsAdmitted (env.has_correct_ingress_class (ingress_object ing)) (env.validate_ingress ing)
unfolding ingress_error
ingress_error-IsAdmitted env ing h =
    IsAdmitted-intro (env.has_correct_ingress_class (ingress_object ing)) (env.validate_ingress ing)
      h

pub virtual_server_error-IsAdmitted :
    (env : Environment) (vs : VirtualServer)
    → virtual_server_error env vs ≡ some none
    → IsAdmitted
        (env.has_correct_ingress_class (virtual_server_object vs))
        (env.validate_virtual_server vs)
unfolding virtual_server_error
virtual_server_error-IsAdmitted env vs h =
    IsAdmitted-intro (env.has_correct_ingress_class (virtual_server_object vs))
      (env.validate_virtual_server vs) h

pub virtual_server_route_error-IsAdmitted :
    (env : Environment) (vsr : VirtualServerRoute)
    → virtual_server_route_error env vsr ≡ some none
    → IsAdmitted
        (env.has_correct_ingress_class (virtual_server_route_object vsr))
        (env.validate_virtual_server_route vsr)
unfolding virtual_server_route_error
virtual_server_route_error-IsAdmitted env vsr h =
    IsAdmitted-intro (env.has_correct_ingress_class (virtual_server_route_object vsr))
      (env.validate_virtual_server_route vsr) h

pub transport_server_error-IsAdmitted :
    (env : Environment) (ts : TransportServer)
    → transport_server_error env ts ≡ some none
    → IsAdmitted
        (env.has_correct_ingress_class (transport_server_object ts))
        (env.validate_transport_server ts)
unfolding transport_server_error
transport_server_error-IsAdmitted env ts h =
    IsAdmitted-intro (env.has_correct_ingress_class (transport_server_object ts))
      (env.validate_transport_server ts) h

-- The last listener of the name.
unfoldable pub last_named : String → List Listener → Option Listener
last_named n [] = none
last_named n (l ∷ ls) =
    let later = last_named n ls in
    elim later [ none ↦ if l.name == n then some l else none | some k ↦ some k ]

pub lookup-listener_map :
    (n : String) (ls : List Listener) (m : Map String Listener)
    → lookup n (listener_map_of ls m)
      ≡ elim (last_named n ls) as (λ _. Option Listener) [ none ↦ lookup n m | some k ↦ some k ]
unfolding listener_map_of last_named
lookup-listener_map n [] m = refl
lookup-listener_map n (l ∷ ls) m =
    lookup-listener_map n ls (insert l.name l m) ∙ go (last_named n ls)
  where
    go :
        (later : Option Listener)
        → (elim later as (λ _. Option Listener) [
          | none ↦ lookup n (insert l.name l m)
          | some k ↦ some k
        ])
          ≡ (elim (elim later as (λ _. Option Listener) [
            | none ↦ if l.name == n then some l else none
            | some k ↦ some k
          ])
              as (λ _. Option Listener) [ none ↦ lookup n m | some k ↦ some k ])
    go (some k) = refl
    go none =
        rw lookup-insert (elim (Bool-cases (l.name == n)) [ inl t ↦ rw t refl | inr f ↦ rw f refl ])

-- Every name is mapped to its last listener.
abbrev pub MapsLast : Map String Listener → List Listener → Type 0
MapsLast m ls = (n : String) → lookup n m ≡ last_named n ls

pub listener_map_of-MapsLast : (ls : List Listener) → MapsLast (listener_map_of ls []) ls
unfolding lookup
listener_map_of-MapsLast ls n = lookup-listener_map n ls [] ∙ go (last_named n ls)
  where
    go :
        (o : Option Listener)
        → (elim o as (λ _. Option Listener) [ none ↦ none | some k ↦ some k ]) ≡ o
    go none = refl
    go (some k) = refl

abbrev pub IsSound : Environment → Configuration → Type 0
IsSound env c =
    HoldsAll (IsIngress env) c.ingresses
    × HoldsAll (IsVirtualServer env) c.virtual_servers
    × HoldsAll (IsVirtualServerRoute env) c.virtual_server_routes
    × HoldsAll (IsTransportServer env) c.transport_servers
    × IsConsistent c.minions_by_host c.ingresses
    × MapsLast c.listener_map (listeners_of c.global_configuration)
