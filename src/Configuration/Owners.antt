-- ===== src/Configuration/Owners.antt =====
-- buildHostsAndResources on a sound store: each host has a holder that claims it, and the resources
-- are those of the stored objects.
use mathlib.Core.Option.{some-injective}
use ingress_nextgen.Common.{
  Bool-cases, String, [], ap, inl, inr, map, some, string_eq, sym, ℕ_eq, ◌++◌, ◌==◌, ◌∙◌, ◌∷◌, ◌≡◌,
}
use ingress_nextgen.Common.Maps.{lookup}
use ingress_nextgen.Objects.{Ingress, IngressRule, TransportServer, VirtualServer}
use ingress_nextgen.Resources.{
  Resource, get_key_with_kind, get_resource_key, ingress_kind, transport_server_kind,
  virtual_server_kind,
}
use ingress_nextgen.Hosts.{Building, add_resource}
use ingress_nextgen.Hosts.Owned.{
  IsOwned, Profile, add_resource-IsOwned, hosts_of, profile, profile_at,
}
use ingress_nextgen.Hosts.Kinds.{
  ingress_transport_server, ingress_virtual_server, keys_apart, virtual_server_transport_server,
}
use ingress_nextgen.Configuration.{Configuration}

-- The profiles of the resources that the stored objects have, each by its kind.
pub data IsFrom (c : Configuration) : Profile → Type 0 where
  from_ingress :
      (ing : Ingress)
      → lookup (get_resource_key ing.meta) c.ingresses ≡ some ing
      → IsFrom c (record {
        key = ingress_kind ++ ("/" ++ get_resource_key ing.meta);
        claimed = map (λ (r : IngressRule). r.host) ing.rules;
        flags = [];
      })
  from_virtual_server :
      (vs : VirtualServer)
      → lookup (get_resource_key vs.meta) c.virtual_servers ≡ some vs
      → IsFrom c (record {
        key = virtual_server_kind ++ ("/" ++ get_resource_key vs.meta);
        claimed = vs.host ∷ [];
        flags = [];
      })
  from_transport_server :
      (ts : TransportServer)
      → lookup (get_resource_key ts.meta) c.transport_servers ≡ some ts
      → IsFrom c (record {
        key = transport_server_kind ++ ("/" ++ get_resource_key ts.meta);
        claimed = ts.host ∷ [];
        flags = [];
      })

-- Two profiles with one key are one profile.
same_profile : (c : Configuration) {p q : Profile} → IsFrom c p → IsFrom c q → p.key ≡ q.key → p ≡ q
same_profile c (from_ingress a h) (from_ingress b k) e =
    let s = keys_apart ingress_kind (get_resource_key a.meta) (get_resource_key b.meta) e in
    let t : a ≡ b = some-injective _ _ (sym h ∙ (rw s k)) in
    ap
      (λ (x : Ingress). record {
        key = ingress_kind ++ ("/" ++ get_resource_key x.meta);
        claimed = map (λ (r : IngressRule). r.host) x.rules;
        flags = [];
      })
      t
same_profile c (from_virtual_server a h) (from_virtual_server b k) e =
    let s = keys_apart virtual_server_kind (get_resource_key a.meta) (get_resource_key b.meta) e in
    let t : a ≡ b = some-injective _ _ (sym h ∙ (rw s k)) in
    ap
      (λ (x : VirtualServer). record {
        key = virtual_server_kind ++ ("/" ++ get_resource_key x.meta);
        claimed = x.host ∷ [];
        flags = [];
      })
      t
same_profile c (from_transport_server a h) (from_transport_server b k) e =
    let s =
      keys_apart transport_server_kind (get_resource_key a.meta) (get_resource_key b.meta) e in
    let t : a ≡ b = some-injective _ _ (sym h ∙ (rw s k)) in
    ap
      (λ (x : TransportServer). record {
        key = transport_server_kind ++ ("/" ++ get_resource_key x.meta);
        claimed = x.host ∷ [];
        flags = [];
      })
      t
same_profile c (from_ingress a h) (from_virtual_server b k) e =
    absurd (ingress_virtual_server _ _ e)
same_profile c (from_ingress a h) (from_transport_server b k) e =
    absurd (ingress_transport_server _ _ e)
same_profile c (from_virtual_server a h) (from_ingress b k) e =
    absurd (ingress_virtual_server _ _ (sym e))
same_profile c (from_virtual_server a h) (from_transport_server b k) e =
    absurd (virtual_server_transport_server _ _ e)
same_profile c (from_transport_server a h) (from_ingress b k) e =
    absurd (ingress_transport_server _ _ (sym e))
same_profile c (from_transport_server a h) (from_virtual_server b k) e =
    absurd (virtual_server_transport_server _ _ (sym e))

-- A table in construction: owned, with resources of the stored objects only.
pub record IsBuilding (c : Configuration) (b : Building) : Type 0 where
  pub is_owned : IsOwned b
  pub from_store : (k : String) (p : Profile) → profile_at k b.resources ≡ some p → IsFrom c p

pub add_resource-IsBuilding :
    (c : Configuration) (r : Resource) (b b' : Building)
    → IsFrom c (profile r)
    → IsBuilding c b
    → add_resource r (hosts_of r) b ≡ some b'
    → IsBuilding c b'
add_resource-IsBuilding c r b b' from i h =
    let key = get_key_with_kind r in
    let (o, same) =
      add_resource-IsOwned r b b' h
        (λ p q. same_profile c (i.from_store key p q) from (i.is_owned.keyed key p q)) i.is_owned in
    record {
      is_owned = o;
      from_store = λ k p q. elim (Bool-cases (key == k)) [
        | inl t ↦
            (let e : profile r ≡ p = some-injective _ _ (rw (same k, t) at q) in rw (← e) from)
        | inr n ↦ i.from_store k p (rw (same k, n) at q)
      ];
    }
