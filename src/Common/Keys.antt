-- ===== src/Common/Keys.antt =====
-- Which keys a map has, in the lists of keys over which the program loops, and in what order.
use Prim.Native.String.{String}
use mathlib.Core.Path.{◌≡◌, ◌∙◌, ap, refl, sym}
use mathlib.Core.Bool.{Bool, true, false, ◌||◌}
use mathlib.Core.Option.{Option, none, some}
use mathlib.Core.Logic.{inl, inr}
use mathlib.Core.List.{List, Memᴰ, [], ◌∷◌}
use mathlib.Core.List.Memᴰ
use native.Mathlib.Omega.{arith}
use ingress_nextgen.Common.Tests.{==_refl, ==_true, Bool-cases, Eq, string_eq, ℕ_eq, ◌==◌}
use ingress_nextgen.Common.Lists.{any, contains}
use ingress_nextgen.Common.Maps.{Map, insert_sorted, keys, lookup, sort_strings, sorted_keys}

abbrev pub is_some {ℓ} : {A : Type ℓ} → Option A → Bool
is_some none = false
is_some (some a) = true

contains-insert_sorted :
    (k j : String) (ks : List String) → contains (insert_sorted k ks) j ≡ (k == j || contains ks j)
unfolding contains insert_sorted
contains-insert_sorted k j [] = refl
contains-insert_sorted k j (i ∷ ks) = ground (arith, contains-insert_sorted k j ks)

pub contains-sort_strings :
    (j : String) (ks : List String) → contains (sort_strings ks) j ≡ contains ks j
unfolding contains sort_strings
contains-sort_strings j [] = refl
contains-sort_strings j (k ∷ ks) =
    ground (arith, contains-insert_sorted k j (sort_strings ks), contains-sort_strings j ks)

contains-keys {κ} :
    {V : Type κ} (j : String) (m : Map String V) → contains (keys m) j ≡ is_some (lookup j m)
unfolding contains keys lookup
contains-keys j [] = refl
contains-keys j ((k, v) ∷ m) = ground (arith, contains-keys j m)

-- The sorted keys are the keys of the map.
pub contains-sorted_keys {κ} :
    {V : Type κ} (j : String) (m : Map String V) → contains (sorted_keys m) j ≡ is_some (lookup j m)
unfolding sorted_keys
contains-sorted_keys j m = rw contains-sort_strings (contains-keys j m)

module _ {ℓ} {A : Type ℓ} ⦃e : Eq A⦄ where
  pub any_intro :
      (p : A → Bool) (xs : List A) (a : A) → contains xs a ≡ true → p a ≡ true → any p xs ≡ true
  unfolding contains
  any_intro p [] a h t = h
  any_intro p (x ∷ xs) a h t = elim (Bool-cases (x == a)) [
    | inl e ↦ rw (==_true x a e) (rw t)
    | inr n ↦ ground (arith, any_intro p xs a, n)
  ]

  pub any_elim :
      (p : A → Bool) (xs : List A)
      → any p xs ≡ true
      → (a : A) × (contains xs a ≡ true) × (p a ≡ true)
  unfolding contains
  any_elim p [] h = cc
  any_elim p (x ∷ xs) h = elim (Bool-cases (p x)) [
    | inl t ↦ (x, rw ==_refl, t)
    | inr n ↦ let (a, m, t) = any_elim p xs (ground (arith, n)) in (a, ground (arith, m), t)
  ]

-- A test passes on some element of the list.
pub any-Mem {ℓ} :
    {A : Type ℓ} (p : A → Bool) (xs : List A) (a : A) → Memᴰ a xs → p a ≡ true → any p xs ≡ true
any-Mem p [] a h t = absurd (Memᴰ.not-nil h)
any-Mem p (x ∷ xs) a h t = elim (Memᴰ.cases_cons h) [
  | inl e ↦ rw (ap p (sym e) ∙ t) refl
  | inr m ↦ ground (arith, any-Mem p xs a m t)
]

pub Mem-any {ℓ} :
    {A : Type ℓ} (p : A → Bool) (xs : List A) → any p xs ≡ true → (a : A) × Memᴰ a xs × (p a ≡ true)
Mem-any p [] h = cc
Mem-any p (x ∷ xs) h = elim (Bool-cases (p x)) [
  | inl t ↦ (x, Memᴰ.head refl, t)
  | inr n ↦ let (a, m, t) = Mem-any p xs (ground (arith, n)) in (a, Memᴰ.tail m, t)
]
