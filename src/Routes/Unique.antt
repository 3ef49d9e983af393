-- ===== src/Routes/Unique.antt =====
-- What is left of the routes of a VirtualServer when duplicates are dropped, and of its selectors.
use text.Mathlib.TextEquality.{eq_iff}
use mathlib.Core.Option.{some-injective}
use ingress_nextgen.Common.{
  Bool-cases, List, String, [], arith, contains, if◌then◌else◌, inl, inr, map, refl, some,
  string_eq, suc, ℕ, ℕ_eq, ◌&&◌, ◌==◌, ◌∷◌, ◌≡◌,
}
use ingress_nextgen.Common.Maps.{Map, lookup}
use ingress_nextgen.Objects.{ObjectMeta, VirtualServerRoute}
use ingress_nextgen.Resources.{get_resource_key}
use ingress_nextgen.Routes.Clean.{
  deduplicate_from, deduplicate_vsr_slice, keep_final, sync_vsr_selectors,
}

abbrev pub keys_of : List VirtualServerRoute → List String
keys_of vsrs = map (λ (vsr : VirtualServerRoute). get_resource_key vsr.meta) vsrs

-- how many of the routes have the key
abbrev pub count_route : String → List VirtualServerRoute → ℕ
count_route k [] = 0
count_route k (vsr ∷ vsrs) =
    if get_resource_key vsr.meta == k then suc (count_route k vsrs) else count_route k vsrs

deduplicate_from_lem :
    (vs : ObjectMeta) (k : String) (seen : List String) (vsrs : List VirtualServerRoute)
    → count_route k (deduplicate_from vs seen vsrs).0
      ≡ (if contains seen k then 0 else (if contains (keys_of vsrs) k then 1 else 0))
unfolding deduplicate_from contains
deduplicate_from_lem vs k seen [] = ground arith
deduplicate_from_lem vs k seen (vsr ∷ vsrs) =
    elim (Bool-cases (contains seen (get_resource_key vsr.meta))) [
      | inl t ↦ rw t (
          ground
            (arith, deduplicate_from_lem vs k seen vsrs, eq_iff (get_resource_key vsr.meta) k, t))
      | inr n ↦ rw n (
          ground (
            arith,
            deduplicate_from_lem vs k (get_resource_key vsr.meta ∷ seen) vsrs,
            eq_iff (get_resource_key vsr.meta) k,
            n,
          ))
    ]

-- Of the routes with one key exactly one is left, if there is one.
pub deduplicate_vsr_slice_lem :
    (vs : ObjectMeta) (k : String) (vsrs : List VirtualServerRoute)
    → count_route k (deduplicate_vsr_slice vs vsrs).0 ≡ (if contains (keys_of vsrs) k then 1 else 0)
unfolding deduplicate_vsr_slice contains
deduplicate_vsr_slice_lem vs k vsrs = deduplicate_from_lem vs k [] vsrs

contains-keep_final :
    (final ks : List String) (k : String)
    → contains (keep_final final ks) k ≡ (contains ks k && contains final k)
unfolding keep_final contains
contains-keep_final final [] k = refl
contains-keep_final final (j ∷ ks) k = elim (Bool-cases (contains final j)) [
  | inl t ↦ rw t (ground (arith, contains-keep_final final ks k, eq_iff j k, t))
  | inr n ↦ rw n (ground (arith, contains-keep_final final ks k, eq_iff j k, n))
]

-- Every selector stays, and has of its routes exactly those that are in the final list.
pub sync_vsr_selectors_lem :
    (selectors : Map String (List String)) (vsrs : List VirtualServerRoute) (sel : String)
    {ks : List String}
    → lookup sel selectors ≡ some ks
    → (kept : List String) × (lookup sel (sync_vsr_selectors selectors vsrs) ≡ some kept)
      × ((k : String) → contains kept k ≡ (contains ks k && contains (keys_of vsrs) k))
unfolding sync_vsr_selectors lookup
sync_vsr_selectors_lem [] vsrs sel h = cc h
sync_vsr_selectors_lem ((s, js) ∷ selectors) vsrs sel {ks} h = elim (Bool-cases (s == sel)) [
  | inl t ↦
      (let e : js ≡ ks = some-injective _ _ (rw t at h) in
        (
          keep_final (keys_of vsrs) js,
          rw t refl,
          λ k. rw (← e) (contains-keep_final (keys_of vsrs) js k),
        ))
  | inr n ↦
      (let (kept, p, q) = sync_vsr_selectors_lem selectors vsrs sel (rw n at h) in
        (kept, rw n p, q))
]
