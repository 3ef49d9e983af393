-- ===== src/Common/Decimal.antt =====
-- strconv.FormatUint and strconv.ParseUint in base 10 at 64 bits.
use Prim.Native.Nat.{ℕ, zero, suc, ◌+◌, ◌-◌, ◌*◌, ◌/◌, ◌%◌, ◌^◌, ◌<◌}
use mathlib.Core.Logic.{◌≢◌}
use mathlib.Core.List.{cons-ne-nil}
use ingress_nextgen.Common.Lists.{all}
use mathlib.Core.Bool.{true}
use mathlib.Core.Path.{◌≡◌, refl}
use mathlib.Core.Bool.{Bool, ◌&&◌}
use mathlib.Core.Option.{Option, none, some}
use mathlib.Core.List.{[], ◌∷◌}
use native.Mathlib.Omega.{arith}
use ingress_nextgen.Common.Tests.{if◌then◌else◌, leb, ltb}
use ingress_nextgen.Common.Bytes.{Bytes, bytes}

-- The digits of a number before those written already. A uint64 has at most twenty.
unfoldable pub digits : ℕ → ℕ → Bytes → Bytes
digits zero n out = out
digits (suc more) n out =
    let rest = digits more (n / 10) ((b'0' + n % 10) ∷ out) in
    if ltb n 10 then (b'0' + n) ∷ out else rest

-- strconv.FormatUint(n, 10), and "%d"
unfoldable pub format_uint : ℕ → Bytes
unfolding digits
format_uint n = digits 20 n []

abbrev pub is_digit : ℕ → Bool
is_digit c = leb b'0' c && leb c b'9'

-- The rest of a number after its value so far, with the two tests for a value that has no uint64.
unfoldable pub scan_digits : Bytes → ℕ → Option ℕ
scan_digits [] n = some n
scan_digits (c ∷ s) n =
    let m = n * 10 + (c - b'0') in
    let rest = scan_digits s m in
    if is_digit c then (if ltb m (2 ^ 64) then rest else none) else none

-- strconv.ParseUint(s, 10, 64); `none` is an error
unfoldable pub parse_uint : Bytes → Option ℕ
unfolding scan_digits
parse_uint [] = none
parse_uint (c ∷ s) = scan_digits (c ∷ s) 0

format_uint-sample : format_uint 1024 ≡ bytes "1024"
unfolding format_uint
format_uint-sample = refl

parse_uint-sample : parse_uint (bytes "18446744073709551616") ≡ none
unfolding parse_uint
parse_uint-sample = refl

scan_digits-digits :
    (k n : ℕ) (out : Bytes)
    → n < 10 ^ suc k
    → n < 2 ^ 64
    → scan_digits (digits (suc k) n out) 0 ≡ scan_digits out n
unfolding digits scan_digits
scan_digits-digits zero n out h u = ground arith
scan_digits-digits (suc k) n out h u =
    ground (arith, scan_digits-digits k (n / 10) ((b'0' + n % 10) ∷ out))

-- A print has a digit more than what stands behind it.
digits-ne-nil : (k n : ℕ) (out : Bytes) → digits (suc k) n out ≢ []
unfolding digits
digits-ne-nil zero n out h = ground arith
digits-ne-nil (suc k) n out h =
    ground (arith, digits-ne-nil k (n / 10) ((b'0' + n % 10) ∷ out), cons-ne-nil (b'0' + n) out)

parse_uint-scan_digits : (s : Bytes) → s ≢ [] → parse_uint s ≡ scan_digits s 0
unfolding parse_uint
parse_uint-scan_digits [] h = absurd (h refl)
parse_uint-scan_digits (c ∷ s) h = refl

pub format_uint-ne-nil : (n : ℕ) → format_uint n ≢ []
unfolding format_uint
format_uint-ne-nil n = digits-ne-nil 19 n []

pub parse_uint-format_uint : (n : ℕ) → n < 2 ^ 64 → parse_uint (format_uint n) ≡ some n
unfolding format_uint scan_digits
parse_uint-format_uint n h =
    rw (parse_uint-scan_digits _ (format_uint-ne-nil n), format_uint)
      (scan_digits-digits 19 n [] (omega (arith, h)) h)

-- A print consists of digits.
digits-all :
    (k n : ℕ) (out : Bytes) → all is_digit out ≡ true → all is_digit (digits k n out) ≡ true
unfolding digits
digits-all zero n out a = a
digits-all (suc k) n out a = ground (arith, digits-all k (n / 10) ((b'0' + n % 10) ∷ out))

pub format_uint-all_digits : (n : ℕ) → all is_digit (format_uint n) ≡ true
unfolding format_uint
format_uint-all_digits n = digits-all 20 n [] refl

-- An accepted number is a uint64.
scan_digits-lt : (s : Bytes) (n r : ℕ) → n < 2 ^ 64 → scan_digits s n ≡ some r → r < 2 ^ 64
unfolding scan_digits
scan_digits-lt [] n _ h e = ground arith
scan_digits-lt (c ∷ s) n r h e = ground (arith, scan_digits-lt s (n * 10 + (c - b'0')) r)

pub parse_uint-lt : (s : Bytes) {r : ℕ} → parse_uint s ≡ some r → r < 2 ^ 64
unfolding parse_uint
parse_uint-lt [] e = cc
parse_uint-lt (c ∷ s) e = scan_digits-lt (c ∷ s) 0 _ (omega arith) e
