-- ===== src/Buffers/Printed.antt =====
-- Printed sizes and buffers are read back.
use Prim.Native.Nat.{◌^◌}
use mathlib.Core.List.{cons-ne-nil}
use ingress_nextgen.Common.{
  Bool-cases, Option, [], all, ap, arith, if_elim, if◌then◌else◌, inl, inr, none, refl, some,
  string_eq, true, ℕ, ℕ_eq, ◌%◌, ◌*◌, ◌+++◌, ◌+◌, ◌/◌, ◌<◌, ◌==◌, ◌∙◌, ◌∷◌, ◌≡◌, ◌≢◌, ◌⊎◌,
}
use ingress_nextgen.Common.Bytes.{Bytes, Bytes_eq, bytes}
use ingress_nextgen.Common.Decimal.{
  format_uint, format_uint-all_digits, format_uint-ne-nil, is_digit, parse_uint,
  parse_uint-format_uint,
}
use ingress_nextgen.Common.Words.{
  but_last, but_last-snoc, fields, fields-pair, is_plain, last_byte, last_byte-snoc, to_lower,
  to_lower_plain, trim_space, trim_space-pair, trim_space_plain,
}
use ingress_nextgen.Buffers.Sizes.{
  buffers_of, bytes_to_size_string, gb, kb, mb, parse_proxy_buffers, parse_size_to_bytes,
  size_to_bytes, times,
}

all_plain :
    (s : Bytes) (u : ℕ)
    → all is_digit s ≡ true
    → is_plain u ≡ true
    → all is_plain (s +++ (u ∷ [])) ≡ true
all_plain [] u h p = ground arith
all_plain (c ∷ s) u h p = ground (arith, all_plain s u)

pub digits_plain : (s : Bytes) → all is_digit s ≡ true → all is_plain s ≡ true
digits_plain [] h = refl
digits_plain (c ∷ s) h = ground (arith, digits_plain s)

-- The reading of digits with a unit behind them, before the unit is looked at.
abbrev read_unit : ℕ → Option ℕ → ℕ
read_unit u number =
    if u == b'k' then times number kb else if u == b'm' then times number mb else times number gb

size_to_bytes-unit :
    (s : Bytes) (u : ℕ)
    → s ≢ []
    → (u ≡ b'k') ⊎ ((u ≡ b'm') ⊎ (u ≡ b'g'))
    → size_to_bytes (s +++ (u ∷ [])) ≡ read_unit u (parse_uint s)
size_to_bytes-unit [] u h q = absurd (h refl)
size_to_bytes-unit (c ∷ s) u h q = rw (last_byte-snoc c s u, but_last-snoc c s u) (ground arith)

parse_size_to_bytes-unit :
    (n u : ℕ)
    → n < 2 ^ 64
    → (u ≡ b'k') ⊎ ((u ≡ b'm') ⊎ (u ≡ b'g'))
    → parse_size_to_bytes (format_uint n +++ (u ∷ [])) ≡ read_unit u (parse_uint (format_uint n))
unfolding parse_size_to_bytes
parse_size_to_bytes-unit n u h q =
    let str = format_uint n +++ (u ∷ []) in
    let plain = all_plain (format_uint n) u (format_uint-all_digits n) (ground arith) in
    ap (λ s. size_to_bytes (to_lower s)) {y = str} (trim_space_plain str plain)
    ∙ ap size_to_bytes {y = str} (to_lower_plain str plain)
    ∙ size_to_bytes-unit (format_uint n) u (format_uint-ne-nil n) q

zero_size : parse_size_to_bytes (bytes "0k") ≡ 0
unfolding parse_size_to_bytes
zero_size = refl

read_unit-format_uint :
    (n u m : ℕ)
    → n < 2 ^ 64
    → read_unit u (some n) ≡ m
    → read_unit u (parse_uint (format_uint n)) ≡ m
read_unit-format_uint n u m h e = rw (parse_uint-format_uint n h) e

-- A printed number with a unit behind it.
parse_size_to_bytes-printed :
    (n u m : ℕ)
    → n < 2 ^ 64
    → (u ≡ b'k') ⊎ ((u ≡ b'm') ⊎ (u ≡ b'g'))
    → read_unit u (some n) ≡ m
    → parse_size_to_bytes (format_uint n +++ (u ∷ [])) ≡ m
parse_size_to_bytes-printed n u m h q e =
    parse_size_to_bytes-unit n u h q ∙ read_unit-format_uint n u m h e

-- A number of whole kilobytes below 2^64 is read back from its print as a size.
pub parse_size_to_bytes-bytes_to_size_string :
    (n : ℕ) → n < 2 ^ 64 → n % 1024 ≡ 0 → parse_size_to_bytes (bytes_to_size_string n) ≡ n
unfolding bytes_to_size_string
parse_size_to_bytes-bytes_to_size_string n h q = elim (Bool-cases (n == 0)) [
  | inl t ↦ rw t (zero_size ∙ (ground arith))
  | inr f ↦ elim (Bool-cases (n % gb == 0)) [
    | inl t ↦
        rw (f, t)
          (parse_size_to_bytes-printed (n / gb) b'g' n (ground arith) (inr (inr refl))
            (ground arith))
    | inr g ↦ elim (Bool-cases (n % mb == 0)) [
      | inl t ↦
          rw (f, g, t)
            (parse_size_to_bytes-printed (n / mb) b'm' n (ground arith) (inr (inl refl))
              (ground arith))
      | inr m ↦
          let kb_test : (n % kb == 0) ≡ true = ground arith in
          rw (f, g, m, q)
            (parse_size_to_bytes-printed (n / kb) b'k' n (ground arith) (inl refl) (ground arith))
    ]
  ]
]

-- A word that can stand in a text of several.
abbrev pub IsWord : Bytes → Type 0
IsWord s = (s ≢ []) × (all is_plain s ≡ true)

pub format_uint-IsWord : (n : ℕ) → IsWord (format_uint n)
format_uint-IsWord n =
    (format_uint-ne-nil n, digits_plain (format_uint n) (format_uint-all_digits n))

unit-IsWord : (n u : ℕ) → n < 2 ^ 64 → is_plain u ≡ true → IsWord (format_uint n +++ (u ∷ []))
unit-IsWord n u h p =
    (snoc-ne-nil (format_uint n), all_plain (format_uint n) u (format_uint-all_digits n) p)
  where
    snoc-ne-nil : (s : Bytes) → (s +++ (u ∷ [])) ≢ []
    snoc-ne-nil [] = cons-ne-nil u []
    snoc-ne-nil (c ∷ s) = cons-ne-nil c (s +++ (u ∷ []))

pub bytes_to_size_string-IsWord : (n : ℕ) → n < 2 ^ 64 → IsWord (bytes_to_size_string n)
unfolding bytes_to_size_string
bytes_to_size_string-IsWord n h =
    if_elim IsWord (n == 0) (cons-ne-nil b'0' (bytes "k"), refl)
      (if_elim IsWord (n % gb == 0) (unit-IsWord (n / gb) b'g' (omega arith) refl) (
        if_elim IsWord (n % mb == 0) (unit-IsWord (n / mb) b'm' (omega arith) refl) (
          if_elim IsWord (n % kb == 0) (unit-IsWord (n / kb) b'k' (omega arith) refl)
            (unit-IsWord ((n + 1023) % 2 ^ 64 / 1024) b'k' (omega arith) refl))))

-- What is read is a number of kilobytes in a uint64.
times_kilobytes :
    (o : Option ℕ) (m : ℕ)
    → (m ≡ kb) ⊎ ((m ≡ mb) ⊎ (m ≡ gb))
    → (times o m < 2 ^ 64) × (times o m % 1024 ≡ 0)
times_kilobytes none m e = omega arith
times_kilobytes (some n) m e = ground arith

abbrev pub IsKilobytes : ℕ → Type 0
IsKilobytes n = (n < 2 ^ 64) × (n % 1024 ≡ 0)

pub parse_size_to_bytes-IsKilobytes : (s : Bytes) → IsKilobytes (parse_size_to_bytes s)
unfolding parse_size_to_bytes
parse_size_to_bytes-IsKilobytes s = go (to_lower (trim_space s))
  where
    go : (t : Bytes) → IsKilobytes (size_to_bytes t)
    go [] = omega arith
    go (c ∷ t) =
        if_elim IsKilobytes (last_byte c t == b'k')
          (times_kilobytes (parse_uint (but_last c t)) kb (inl refl))
          (if_elim IsKilobytes (last_byte c t == b'm')
            (times_kilobytes (parse_uint (but_last c t)) mb (inr (inl refl)))
            (if_elim IsKilobytes (last_byte c t == b'g')
              (times_kilobytes (parse_uint (but_last c t)) gb (inr (inr refl)))
              (times_kilobytes (parse_uint (c ∷ t)) mb (inr (inl refl)))))

pub pair-ne-nil : (v w : Bytes) → (v +++ (b' ' ∷ w)) ≢ []
pair-ne-nil [] w = cons-ne-nil b' ' w
pair-ne-nil (c ∷ v) w = cons-ne-nil c (v +++ (b' ' ∷ w))

parse_proxy_buffers-fields :
    (s : Bytes) → s ≢ [] → parse_proxy_buffers s ≡ buffers_of (fields (trim_space s))
unfolding parse_proxy_buffers
parse_proxy_buffers-fields [] h = absurd (h refl)
parse_proxy_buffers-fields (c ∷ s) h = refl

-- Two words with a blank between them are the number and the size.
parse_proxy_buffers-pair :
    (v w : Bytes)
    → IsWord v
    → IsWord w
    → parse_proxy_buffers (v +++ (b' ' ∷ w)) ≡ buffers_of (v ∷ w ∷ [])
parse_proxy_buffers-pair v w (hv, pv) (hw, pw) =
    parse_proxy_buffers-fields (v +++ (b' ' ∷ w)) (pair-ne-nil v w)
    ∙ ap (λ s. buffers_of (fields s)) (trim_space-pair v (b' ' ∷ []) w hv hw pv pw)
    ∙ ap buffers_of (fields-pair v w hv hw pv pw)

buffers_of_read :
    (v w : Bytes) {n m : ℕ}
    → parse_uint v ≡ some n
    → parse_size_to_bytes w ≡ m
    → buffers_of (v ∷ w ∷ []) ≡ (n, m)
buffers_of_read v w e q =
    λ i. elim (e i) as (λ _. ℕ × ℕ) [ none ↦ (8, 4 * 1024) | some num ↦ (num, q i) ]

-- Printed buffers are read back.
pub parse_proxy_buffers-printed :
    (n m : ℕ)
    → n < 2 ^ 64
    → IsKilobytes m
    → parse_proxy_buffers (format_uint n +++ (b' ' ∷ bytes_to_size_string m)) ≡ (n, m)
parse_proxy_buffers-printed n m hn (hm, q) =
    parse_proxy_buffers-pair _ _ (format_uint-IsWord n) (bytes_to_size_string-IsWord m hm)
    ∙ buffers_of_read _ _ (parse_uint-format_uint n hn)
        (parse_size_to_bytes-bytes_to_size_string m hm q)
