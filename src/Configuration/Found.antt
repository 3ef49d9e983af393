-- ===== src/Configuration/Found.antt =====
-- The resources that are found for an object are exactly those that refer to it and hold a host or a
-- listener.
use mathlib.Core.List.Memᴰ
use mathlib.Core.Path.{subst}
use ingress_nextgen.Common.{
  ==_true, Bool, Bool-cases, Eq, List, Memᴰ, Option, String, [], any, ap, arith, contains, false,
  inl, inr, none, refl, some, string_eq, sym, true, ℕ_eq, ◌+++◌, ◌==◌, ◌||◌, ◌↔◌, ◌∙◌, ◌∷◌, ◌≡◌,
  ◌⊎◌,
}
use ingress_nextgen.Common.Maps.{Map, lookup, sorted_keys}
use ingress_nextgen.Objects.{VirtualServerRoute}
use ingress_nextgen.Resources.{
  MinionConfiguration, Resource, TransportServerConfiguration, ingress, transport_server,
  virtual_server,
}
use ingress_nextgen.Listeners.{ListenerHostKey, get_sorted_listener_host_keys, listener_host_key_eq}
use ingress_nextgen.References.{ReferenceChecker}
use ingress_nextgen.Configuration.{Configuration}
use ingress_nextgen.Configuration.Find.{
  find_in_hosts, find_in_listener_hosts, find_resources_for_resource_reference, gather, if_refers,
  refers,
}
use ingress_nextgen.Common.Keys.{Mem-any, any-Mem, contains-sorted_keys, is_some}
use ingress_nextgen.Listeners.Keys.{contains-get_sorted_listener_host_keys}

module _ {ℓ κ} {K : Type ℓ} {V : Type κ} ⦃e : Eq K⦄ (m : Map K V) (found : V → List Resource)
    (r : Resource) where
  gather_elim :
      (ks : List K)
      → Memᴰ r (gather m found ks)
      → (k : K) × (v : V) × (lookup k m ≡ some v) × Memᴰ r (found v)
  unfolding gather
  gather_elim [] h = absurd (Memᴰ.not-nil h)
  gather_elim (k ∷ ks) h = go (lookup k m) refl (gather_elim ks) h
    where
      go :
          (o : Option V)
          → lookup k m ≡ o
          → (Memᴰ r (gather m found ks)
              → (k : K) × (v : V) × (lookup k m ≡ some v) × Memᴰ r (found v))
          → Memᴰ r (
              elim o as (λ _. List Resource) [ none ↦ [] | some v ↦ found v ] +++ gather m found ks)
          → (k : K) × (v : V) × (lookup k m ≡ some v) × Memᴰ r (found v)
      go none q more h = more h
      go (some v) q more h = elim (Memᴰ.append_cases (found v) h) [
        | inl here ↦ (k, v, q, here)
        | inr there ↦ more there
      ]

  gather_intro :
      (ks : List K) (k : K) (v : V)
      → contains ks k ≡ true
      → lookup k m ≡ some v
      → Memᴰ r (found v)
      → Memᴰ r (gather m found ks)
  unfolding gather contains
  gather_intro [] k v h q here = cc
  gather_intro (j ∷ ks) k v h q here = elim (Bool-cases (j == k)) [
    | inl t ↦ rw (ap (λ x. lookup x m) (==_true j k t) ∙ q) (Memᴰ.append_left _ here)
    | inr n ↦ Memᴰ.append_right _ (gather_intro ks k v (ground (arith, n)) q here)
  ]

Mem-if_refers :
    (checker : ReferenceChecker) (ns name : String) (r s : Resource)
    → Memᴰ r (if_refers checker ns name s)
    → (r ≡ s) × (refers checker ns name r ≡ true)
Mem-if_refers checker ns name r s h = elim (Bool-cases (refers checker ns name s)) [
  | inl t ↦ let e = Memᴰ.eq_of_singleton (rw t at h) in (e, ap (refers checker ns name) e ∙ t)
  | inr n ↦ absurd (Memᴰ.not-nil (rw n at h))
]

if_refers-Mem :
    (checker : ReferenceChecker) (ns name : String) (r : Resource)
    → refers checker ns name r ≡ true
    → Memᴰ r (if_refers checker ns name r)
if_refers-Mem checker ns name r h = rw h (Memᴰ.head refl)

-- A resource that holds a host, or a TransportServer that holds a listener.
abbrev pub Holds : Configuration → Resource → Type 0
Holds c r =
    ((h : String) × (lookup h c.hosts ≡ some r))
    ⊎ ((k : ListenerHostKey) × (tsc : TransportServerConfiguration) × (lookup k c.listener_hosts
          ≡ some tsc)
        × (r ≡ transport_server tsc))

module _ (checker : ReferenceChecker) (ns name : String) where
  -- The checker finds the reference in the resource itself, in a minion of it or in a route of it.
  abbrev pub Refers : Resource → Type 0
  Refers (ingress ic) =
      (checker.is_referenced_by_ingress ns name ic.ingress ≡ true)
      ⊎ ((fm : MinionConfiguration) × Memᴰ fm ic.minions
          × (checker.is_referenced_by_minion ns name fm.ingress ≡ true))
  Refers (virtual_server vsc) =
      (checker.is_referenced_by_virtual_server ns name vsc.virtual_server ≡ true)
      ⊎ ((vsr : VirtualServerRoute) × Memᴰ vsr vsc.virtual_server_routes
          × (checker.is_referenced_by_virtual_server_route ns name vsr ≡ true))
  Refers (transport_server tsc) =
      checker.is_referenced_by_transport_server ns name tsc.transport_server ≡ true

  first_or_any {ℓ} :
      {A : Type ℓ} (b : Bool) (p : A → Bool) (xs : List A)
      → ((b || any p xs) ≡ true) ↔ ((b ≡ true) ⊎ ((a : A) × Memᴰ a xs × (p a ≡ true)))
  first_or_any true p xs = (λ h. inl refl, λ h. refl)
  first_or_any false p xs =
      (λ h. inr (Mem-any p xs h), λ h. elim h [ inl e ↦ cc e | inr (a, m, t) ↦ any-Mem p xs a m t ])

  refers_iff : (r : Resource) → (refers checker ns name r ≡ true) ↔ Refers r
  unfolding refers
  refers_iff (ingress ic) =
      first_or_any (checker.is_referenced_by_ingress ns name ic.ingress)
        (λ (fm : MinionConfiguration). checker.is_referenced_by_minion ns name fm.ingress)
        ic.minions
  refers_iff (virtual_server vsc) =
      first_or_any (checker.is_referenced_by_virtual_server ns name vsc.virtual_server)
        (checker.is_referenced_by_virtual_server_route ns name) vsc.virtual_server_routes
  refers_iff (transport_server tsc) = (λ h. h, λ h. h)

pub found_iff :
    (checker : ReferenceChecker) (ns name : String) (c : Configuration) (r : Resource)
    → Memᴰ r (find_resources_for_resource_reference checker ns name c)
      ↔ (Holds c r × (refers checker ns name r ≡ true))
unfolding find_resources_for_resource_reference find_in_hosts find_in_listener_hosts
found_iff checker ns name c r = (there, back)
  where
    there :
        Memᴰ r (find_resources_for_resource_reference checker ns name c)
        → Holds c r × (refers checker ns name r ≡ true)
    there h = elim (Memᴰ.append_cases (find_in_hosts checker ns name c.hosts) h) [
      | inl here ↦
          let (k, v, q, m) =
            gather_elim c.hosts (if_refers checker ns name) r (sorted_keys c.hosts) here in
          let (e, t) = Mem-if_refers checker ns name r v m in (inl (k, q ∙ ap some (sym e)), t)
      | inr here ↦
          let (k, tsc, q, m) =
            gather_elim c.listener_hosts (λ tsc. if_refers checker ns name (transport_server tsc)) r
              (get_sorted_listener_host_keys c.listener_hosts) here in
          let (e, t) = Mem-if_refers checker ns name r (transport_server tsc) m in
          (inr (k, tsc, q, e), t)
    ]

    back :
        Holds c r × (refers checker ns name r ≡ true)
        → Memᴰ r (find_resources_for_resource_reference checker ns name c)
    back (inl (h, q), t) = Memᴰ.append_left _ (
        gather_intro c.hosts (if_refers checker ns name) r (sorted_keys c.hosts) h r
          (contains-sorted_keys h c.hosts ∙ ap is_some q) q (if_refers-Mem checker ns name r t))
    back (inr (k, tsc, q, e), t) = Memᴰ.append_right (find_in_hosts checker ns name c.hosts) (
        gather_intro c.listener_hosts (λ tsc. if_refers checker ns name (transport_server tsc)) r
          (get_sorted_listener_host_keys c.listener_hosts) k tsc
          (contains-get_sorted_listener_host_keys k c.listener_hosts ∙ ap is_some q) q
          (subst (λ s. Memᴰ r (if_refers checker ns name s)) e (if_refers-Mem checker ns name r t)))

-- A resource is found for a reference exactly if it holds a host, or is a TransportServer that
-- holds a listener, and the checker finds the reference in it or in a minion or route of it.
pub find_resources_for_resource_reference_lem :
    (checker : ReferenceChecker) (ns name : String) (c : Configuration) (r : Resource)
    → Memᴰ r (find_resources_for_resource_reference checker ns name c)
      ↔ (Holds c r × Refers checker ns name r)
find_resources_for_resource_reference_lem checker ns name c r =
    let (there, back) = found_iff checker ns name c r in
    let (describe, test) = refers_iff checker ns name r in
    (λ m. let (held, t) = there m in (held, describe t), λ (held, d). back (held, test d))
