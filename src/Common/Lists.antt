-- ===== src/Common/Lists.antt =====
-- Lists measured by native numbers, and membership by the Boolean tests that the program makes.
use ingress_nextgen.Common.Tests.{Eq, if◌then◌else◌, string_eq, ℕ_eq, ◌==◌}
use Prim.Native.Nat.{ℕ, suc}
use mathlib.Core.Path.{◌≡◌, refl}
use mathlib.Core.Bool.{Bool, true, false, ◌||◌}
use mathlib.Core.List.{List, [], ◌∷◌}
use mathlib.Core.List
use native.Mathlib.Omega.{arith}

infixr 67 ◌+++◌
-- append(xs, ys...): the library's `++`, under a name that texts do not use
abbrev pub ◌+++◌ {ℓ} : {A : Type ℓ} → List A → List A → List A
xs +++ ys = List.◌++◌ xs ys

module _ {ℓ} {A : Type ℓ} where
  abbrev pub length : List A → ℕ
  length [] = 0
  length (x ∷ xs) = suc (length xs)

  -- some element passes the test: a loop that sets `found` or returns true
  abbrev pub any : (A → Bool) → List A → Bool
  any p [] = false
  any p (x ∷ xs) = p x || any p xs

  abbrev pub all : (A → Bool) → List A → Bool
  all p [] = true
  all p (x ∷ xs) = if p x then all p xs else false

  pub any-append : (p : A → Bool) (xs ys : List A) → any p (xs +++ ys) ≡ (any p xs || any p ys)
  any-append p [] ys = refl
  any-append p (x ∷ xs) ys = ground (arith, any-append p xs ys)

module _ {ℓ} {A : Type ℓ} ⦃e : Eq A⦄ where
  unfoldable pub contains : List A → A → Bool
  contains [] a = false
  contains (x ∷ xs) a = x == a || contains xs a

  pub contains-append :
      (xs ys : List A) (a : A) → contains (xs +++ ys) a ≡ (contains xs a || contains ys a)
  unfolding contains
  contains-append [] ys a = refl
  contains-append (x ∷ xs) ys a = ground (arith, contains-append xs ys a)
