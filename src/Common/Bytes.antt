-- ===== src/Common/Bytes.antt =====
-- Go strings as lists of bytes, for the code that walks them byte by byte, and the functions of the
-- standard library that such code calls: FormatUint, ParseUint, TrimSpace, ToLower and Fields on
-- ASCII text.
use Prim.Native.Nat.{ℕ}
use Prim.Native.Char.{code}
use Prim.Native.String.{String}
use mathlib.Core.Path.{◌≡◌}
use mathlib.Core.Logic.{◌↔◌}
use mathlib.Core.Bool.{Bool, true, false, ◌&&◌}
use mathlib.Core.List.{List, [], ◌∷◌}
use native.Mathlib.Omega.{arith}
use ingress_nextgen.Common.Tests.{Eq, nat_eq}

abbrev pub Bytes : Type 0
Bytes = List ℕ

-- The bytes of an ASCII literal.
abbrev pub bytes : String → Bytes
bytes String.[] = []
bytes (String.◌∷◌ c s) = code c ∷ bytes s

abbrev pub bytes_eq : Bytes → Bytes → Bool
bytes_eq [] [] = true
bytes_eq (x ∷ xs) (y ∷ ys) = nat_eq x y && bytes_eq xs ys
bytes_eq _ _ = false

pub bytes_eq_iff : (x y : Bytes) → (bytes_eq x y ≡ true) ↔ (x ≡ y)
bytes_eq_iff [] [] = ground arith
bytes_eq_iff [] (y ∷ ys) = ground arith
bytes_eq_iff (x ∷ xs) [] = ground arith
bytes_eq_iff (x ∷ xs) (y ∷ ys) = ground (arith, bytes_eq_iff xs ys)

instance abbrev pub Bytes_eq : Eq Bytes
Bytes_eq = record { equals = bytes_eq; equals_iff = bytes_eq_iff }
