-- ===== src/Common/Maps.antt =====
-- Go's `map[K]V` as an association list in some order of iteration, which Go leaves open.
use ingress_nextgen.Common.Tests.{
  ==_refl, ==_true, Bool-cases, Eq, if◌then◌else◌, string_eq, ℕ_eq, ◌==◌,
}
use ingress_nextgen.Common.Text.{str_ltb}
use Prim.Native.String.{String}
use mathlib.Core.Path.{◌≡◌, refl}
use mathlib.Core.Option.{Option, none, some}
use mathlib.Core.List.{List, [], ◌∷◌, map}
use native.Mathlib.Omega.{arith}
use mathlib.Core.Logic.{inl, inr}

abbrev pub Map {ℓ κ} : Type ℓ → Type κ → Type (ℓ ⊔ κ)
Map K V = List (K × V)

module _ {ℓ κ} {K : Type ℓ} {V : Type κ} ⦃e : Eq K⦄ where
  -- m[k], with `none` for a missing key
  unfoldable pub lookup : K → Map K V → Option V
  lookup key [] = none
  lookup key ((first, x) ∷ rest) = if first == key then some x else lookup key rest

  -- delete(m, k)
  unfoldable pub remove : K → Map K V → Map K V
  remove key [] = []
  remove key ((first, x) ∷ entries) =
      let rest = remove key entries in if first == key then rest else (first, x) ∷ rest

  -- m[k] = v
  unfoldable pub insert : K → V → Map K V → Map K V
  insert key new [] = (key, new) ∷ []
  insert key new ((first, x) ∷ rest) =
      if first == key then (key, new) ∷ rest else (first, x) ∷ insert key new rest

  pub lookup-remove :
      (k j : K) (m : Map K V) → lookup j (remove k m) ≡ (if k == j then none else lookup j m)
  unfolding lookup remove
  lookup-remove k j [] = ground arith
  lookup-remove k j ((i, w) ∷ m) =
      ground (arith, e.equals_iff k j, e.equals_iff i k, e.equals_iff i j, lookup-remove k j m)

  pub lookup-insert :
      (key other : K) (new : V) (m : Map K V)
      → lookup other (insert key new m) ≡ (if key == other then some new else lookup other m)
  unfolding insert lookup
  lookup-insert key other new [] = refl
  lookup-insert key other new ((first, x) ∷ rest) = ground (
    arith,
    lookup-insert key other new rest,
    e.equals_iff first key,
    e.equals_iff first other,
    e.equals_iff key other,
  )

  pub lookup-insert_self :
      (key : K) (new : V) (m : Map K V) → lookup key (insert key new m) ≡ some new
  lookup-insert_self key new m = simp (lookup-insert, ==_refl)

-- the keys, in the order of iteration
unfoldable pub keys {ℓ κ} : {K : Type ℓ} {V : Type κ} → Map K V → List K
keys m = map (λ kv. kv.0) m

-- sort.Strings
unfoldable pub insert_sorted : String → List String → List String
insert_sorted k [] = k ∷ []
insert_sorted k (j ∷ js) = if str_ltb j k then j ∷ insert_sorted k js else k ∷ j ∷ js

unfoldable pub sort_strings : List String → List String
unfolding insert_sorted
sort_strings [] = []
sort_strings (k ∷ ks) = insert_sorted k (sort_strings ks)

-- the loops `for k := range m { keys = append(keys, k) }; sort.Strings(keys)`
unfoldable pub sorted_keys {κ} : {V : Type κ} → Map String V → List String
unfolding sort_strings keys
sorted_keys m = sort_strings (keys m)

-- maps.Copy(dst, src)
unfoldable pub copy_map {ℓ κ} : {K : Type ℓ} {V : Type κ} ⦃e : Eq K⦄ → Map K V → Map K V → Map K V
copy_map [] dst = dst
copy_map ((k, v) ∷ src) dst = copy_map src (insert k v dst)

-- A list that stands for a map has one entry for a key.
abbrev pub IsMap {ℓ κ} : {K : Type ℓ} {V : Type κ} ⦃e : Eq K⦄ → Map K V → Type κ
IsMap [] = Unit
IsMap ((k, v) ∷ m) = (lookup k m ≡ none) × IsMap m

module _ {ℓ κ} {K : Type ℓ} {V : Type κ} ⦃e : Eq K⦄ where
  pub insert-IsMap : (k : K) (v : V) (m : Map K V) → IsMap m → IsMap (insert k v m)
  unfolding insert lookup
  insert-IsMap k v [] h = (refl, tt)
  insert-IsMap k v ((j, w) ∷ m) h = elim (Bool-cases (j == k)) [
    | inl t ↦ rw t (rw (← ==_true j k t) h.0, h.1)
    | inr f ↦ rw f (
      rw lookup-insert (ground (arith, e.equals_iff j k, e.equals_iff k j, h.0, f)),
      insert-IsMap k v m h.1,
    )
  ]

  pub remove-IsMap : (k : K) (m : Map K V) → IsMap m → IsMap (remove k m)
  unfolding remove
  remove-IsMap k [] h = tt
  remove-IsMap k ((j, w) ∷ m) h = elim (Bool-cases (j == k)) [
    | inl t ↦ rw t (remove-IsMap k m h.1)
    | inr f ↦ rw f (ground (arith, lookup-remove k j m, h.0), remove-IsMap k m h.1)
  ]
