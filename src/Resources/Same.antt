-- ===== src/Resources/Same.antt =====
-- What equal resources have in common.
use text.Mathlib.TextEquality.{eq_iff}
use ingress_nextgen.Common.{
  ==_true, Bool, Bool-cases, String, [], all, arith, bool_eq, bool_eq_iff, inl, inr, some,
  string_eq, true, ℕ_eq, ◌==◌, ◌∷◌, ◌≡◌,
}
use ingress_nextgen.Common.Maps.{Map, lookup}
use ingress_nextgen.Resources.{
  IngressConfiguration, Resource, get_key_with_kind, get_resource_key, ingress, transport_server,
  virtual_server,
}
use ingress_nextgen.Resources.Equality.{
  compare_object_metas, compare_object_metas_with_annotations, deep_equal, entry_in, is_equal,
  is_equal_ingress, is_equal_transport_server, is_equal_virtual_server,
}
use ingress_nextgen.Objects.{ObjectMeta}

compare_object_metas-key :
    (meta1 meta2 : ObjectMeta)
    → compare_object_metas meta1 meta2 ≡ true
    → get_resource_key meta1 ≡ get_resource_key meta2
unfolding compare_object_metas get_resource_key
compare_object_metas-key meta1 meta2 h =
    ground (arith, eq_iff meta1.namespace meta2.namespace, eq_iff meta1.name meta2.name)

-- Equal resources have one kind and one key.
pub is_equal-get_key_with_kind :
    (r s : Resource) → is_equal r s ≡ true → get_key_with_kind r ≡ get_key_with_kind s
unfolding is_equal is_equal_ingress is_equal_virtual_server is_equal_transport_server
    get_key_with_kind compare_object_metas_with_annotations
is_equal-get_key_with_kind (ingress ic) (ingress other) h =
    ground (arith, compare_object_metas-key ic.ingress.meta other.ingress.meta)
is_equal-get_key_with_kind (virtual_server vsc) (virtual_server other) h =
    ground (arith, compare_object_metas-key vsc.virtual_server.meta other.virtual_server.meta)
is_equal-get_key_with_kind (transport_server tsc) (transport_server other) h =
    ground (arith, compare_object_metas-key tsc.transport_server.meta other.transport_server.meta)
is_equal-get_key_with_kind _ _ h = cc

all_entries :
    (m other : Map String Bool) (k : String) (v : Bool)
    → all (entry_in bool_eq other) m ≡ true
    → lookup k m ≡ some v
    → lookup k other ≡ some v
unfolding lookup entry_in
all_entries [] other k v h p = cc
all_entries ((j, w) ∷ m) other k v h p = elim (Bool-cases (j == k)) [
  | inl e ↦
      let found : some w ≡ some v = (rw e at p) in
      ground (arith, h, ==_true j k e, found, bool_eq_iff w v)
  | inr n ↦ all_entries m other k v (ground (arith, h)) (ground (arith, n, p))
]

-- Equal Ingresses have the same valid hosts.
pub is_equal-valid_hosts :
    (ic other : IngressConfiguration) (h : String) (v : Bool)
    → is_equal (ingress ic) (ingress other) ≡ true
    → lookup h ic.valid_hosts ≡ some v
    → lookup h other.valid_hosts ≡ some v
unfolding is_equal is_equal_ingress deep_equal
is_equal-valid_hosts ic other h v e p =
    all_entries ic.valid_hosts other.valid_hosts h v (ground (arith, e)) p
