-- ===== src/Common/Text.antt =====
-- The byte order of Go strings, which is the order of the texts' characters.
use Prim.Native.Nat.{ℕ, Ordering, compare as compare_ℕ}
use Prim.Native.Char.{code}
use Prim.Native.String.{String, [], ◌∷◌, compare, then}
use Prim.Native.String.compare as Clauses
use mathlib.Core.Path.{◌≡◌, refl}
use mathlib.Core.Bool.{Bool, true, false}
use native.Mathlib.Omega.{arith}
use text.Mathlib.TextEquality.{path_by_compare}
use text.Mathlib.TextPositions.{compare_refl}

-- s < t
unfoldable pub str_ltb : String → String → Bool
str_ltb s t = elim (compare s t) [ Ordering.lt ↦ true | _ ↦ false ]

abbrev flip : Ordering → Ordering
flip Ordering.lt = Ordering.gt
flip Ordering.eq = Ordering.eq
flip Ordering.gt = Ordering.lt

then-flip :
    (a b : ℕ) (o p : Ordering) → p ≡ flip o → then (compare_ℕ b a) p ≡ flip (then (compare_ℕ a b) o)
then-flip a b o p e = ground arith

compare-flip : (s t : String) → compare t s ≡ flip (compare s t)
compare-flip [] [] = refl
compare-flip [] (d ∷ t) = rw (Clauses.nil-cons, Clauses.cons-nil)
compare-flip (c ∷ s) [] = rw (Clauses.nil-cons, Clauses.cons-nil)
compare-flip (c ∷ s) (d ∷ t) =
    simp Clauses.cons-cons (then-flip (code c) (code d) _ _ (compare-flip s t))

then_trans :
    (a b c : ℕ) (o p q : Ordering)
    → (o ≡ Ordering.lt → p ≡ Ordering.lt → q ≡ Ordering.lt)
    → then (compare_ℕ a b) o ≡ Ordering.lt
    → then (compare_ℕ b c) p ≡ Ordering.lt
    → then (compare_ℕ a c) q ≡ Ordering.lt
then_trans a b c o p q e h k = ground arith

compare_trans :
    (r s t : String)
    → compare r s ≡ Ordering.lt
    → compare s t ≡ Ordering.lt
    → compare r t ≡ Ordering.lt
compare_trans [] [] [] h k = h
compare_trans [] [] (e ∷ t) h k = k
compare_trans [] (d ∷ s) [] h k = cc (Clauses.cons-nil d s)
compare_trans [] (d ∷ s) (e ∷ t) h k = Clauses.nil-cons e t
compare_trans (c ∷ r) [] [] h k = h
compare_trans (c ∷ r) [] (e ∷ t) h k = cc (Clauses.cons-nil c r)
compare_trans (c ∷ r) (d ∷ s) [] h k = cc (Clauses.cons-nil d s)
compare_trans (c ∷ r) (d ∷ s) (e ∷ t) h k = rw Clauses.cons-cons (
    then_trans (code c) (code d) (code e) (compare r s) (compare s t) _ (compare_trans r s t)
      (rw Clauses.cons-cons at h) (rw Clauses.cons-cons at k))

-- Of two different texts exactly one is below the other.
pub str_ltb-ne :
    (s t : String)
    → (s ≡ t → ⊥)
    → str_ltb t s ≡ (elim (str_ltb s t) [ true ↦ false | false ↦ true ])
unfolding str_ltb
str_ltb-ne s t h = ground (arith, compare-flip s t, path_by_compare s t)

pub str_ltb_irrefl : (s : String) → str_ltb s s ≡ false
unfolding str_ltb
str_ltb_irrefl s = rw (compare_refl, str_ltb)

pub str_ltb_trans : (r s t : String) → str_ltb r s ≡ true → str_ltb s t ≡ true → str_ltb r t ≡ true
unfolding str_ltb
str_ltb_trans r s t h k = ground (arith, compare_trans r s t)

pub str_ltb_asymm : (s t : String) → str_ltb s t ≡ true → str_ltb t s ≡ false
unfolding str_ltb
str_ltb_asymm s t h = ground (arith, compare-flip s t)
