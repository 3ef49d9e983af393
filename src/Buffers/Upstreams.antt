-- ===== src/Buffers/Upstreams.antt =====
-- The buffers of an Upstream after the balancing.
use Prim.Native.Nat.{suc, ◌^◌}
use mathlib.Core.Path.{subst}
use ingress_nextgen.Common.{
  ==_true, List, Option, [], all, ap, arith, false, if_given, if◌then◌else◌, inl, inr, ltb, none,
  not, refl, some, string_eq, suc, sym, true, ℕ, ℕ_eq, ◌%◌, ◌*◌, ◌+++◌, ◌-◌, ◌/◌, ◌<◌, ◌==◌, ◌∙◌,
  ◌∷◌, ◌≡◌, ◌≢◌, ◌≤◌, ◌⊎◌,
}
use ingress_nextgen.Common.Bytes.{Bytes, Bytes_eq, bytes}
use ingress_nextgen.Common.Decimal.{
  format_uint, format_uint-all_digits, format_uint-ne-nil, is_digit, parse_uint,
  parse_uint-format_uint,
}
use ingress_nextgen.Common.Words.{
  fields, fields-pair, is_white, to_lower-ne-nil, trim_space, trim_space-ne-nil,
}
use ingress_nextgen.Buffers.{
  ProxyFields, UpstreamBuffers, atoi, balance_proxies_for_upstreams, balance_proxy_values,
  balance_sizes, balance_upstream, buffers_struct, constrain, format_int, negsuc, or_default, pos,
  print_sizes, upstream_buffers, upstream_size, upstream_with, ℤ,
}
use ingress_nextgen.Buffers.Sizes.{
  Checked, bytes_to_size_string, checked, failed, gb, kb, mb, new_number_size_config,
  new_size_with_unit, number_size, number_size_config, parse_proxy_buffers,
}
use ingress_nextgen.Buffers.Printed.{
  IsWord, bytes_to_size_string-IsWord, format_uint-IsWord, pair-ne-nil,
}
use ingress_nextgen.Buffers.Rules.{
  Fits, balance_proxy_values-some, buffer_number_and_size-given, buffer_number_and_size-kilobytes,
  count, final, final-Fits, total_bounds,
}
use mathlib.Core.List.{cons-ne-nil}

-- The text is a size that NGINX takes: digits, and k or m, for this number of bytes.
unfoldable pub IsSize : ℕ → Bytes → Type 0
IsSize n s =
    (k : ℕ) × (((s ≡ format_uint k +++ bytes "k") × (n ≡ k * 1024))
      ⊎ ((s ≡ format_uint k +++ bytes "m") × (n ≡ k * (1024 * 1024))))

in_kilobytes : (n k : ℕ) → n ≡ k * 1024 → IsSize n (format_uint k +++ bytes "k")
unfolding IsSize
in_kilobytes n k e = (k, inl (refl, e))

in_megabytes : (n k : ℕ) → n ≡ k * (1024 * 1024) → IsSize n (format_uint k +++ bytes "m")
unfolding IsSize
in_megabytes n k e = (k, inr (refl, e))

-- Whole kilobytes below one gigabyte are printed as NGINX takes them.
bytes_to_size_string-IsSize :
    (n : ℕ) → n < 2 ^ 30 → n % 1024 ≡ 0 → IsSize n (bytes_to_size_string n)
unfolding bytes_to_size_string
bytes_to_size_string-IsSize n small kilobytes =
    if_given (IsSize n) (n == 0) (λ t. in_kilobytes n 0 (==_true n 0 t))
      (λ f.
        if_given (IsSize n) (n % gb == 0)
          (λ t. absurd (no_gigabytes n small (==_true (n % gb) 0 t) f))
          (λ g.
            if_given (IsSize n) (n % mb == 0)
              (λ t. in_megabytes n (n / mb) (whole_megabytes n (==_true (n % mb) 0 t)))
              (λ h.
                if_given (IsSize n) (n % kb == 0)
                  (λ t. in_kilobytes n (n / kb) (omega (arith, kilobytes)))
                  (λ k. absurd (uneven n kilobytes k)))))
  where
    no_gigabytes : (n : ℕ) → n < 2 ^ 30 → n % gb ≡ 0 → (n == 0) ≡ false → ⊥
    no_gigabytes n h e f = ground arith

    whole_megabytes : (n : ℕ) → n % mb ≡ 0 → n ≡ n / mb * (1024 * 1024)
    whole_megabytes n e = omega arith

    uneven : (n : ℕ) → n % 1024 ≡ 0 → (n % kb == 0) ≡ false → ⊥
    uneven n e f = ground arith

-- The rules on the fields of an Upstream.
unfoldable pub UpstreamFits : ProxyFields → Type 0
UpstreamFits up =
    (number buffer_size size busy : ℕ) × (text : Bytes) × (up.proxy_buffers
      ≡ some (record { number = pos number; size = text }))
    × IsSize buffer_size text
    × IsSize size up.proxy_buffer_size
    × IsSize busy up.proxy_busy_buffers_size
    × (0 < buffer_size)
    × Fits (number, buffer_size) size busy

atoi-format_uint : (n : ℕ) → n ≤ 1024 → atoi (format_uint n) ≡ some n
unfolding atoi
atoi-format_uint n h = rw (parse_uint-format_uint n (omega (arith, h))) (ground arith)

buffers_struct_read :
    (v s : Bytes) (old : UpstreamBuffers) {n : ℕ}
    → atoi v ≡ some n
    → n ≤ 1024
    → buffers_struct (v ∷ s ∷ []) old ≡ record { number = pos n; size = s }
buffers_struct_read v s old {n} e h =
    (λ i. elim (e i) as (λ _. UpstreamBuffers) [
      | none ↦ old
      | some num ↦ record {
        number = pos (if ltb (2 ^ 31 - 1) num then 2 ^ 31 - 1 else num);
        size = s;
      }
    ])
    ∙ ap (λ m. record { number = pos m; size = s })
        {x = if ltb (2 ^ 31 - 1) n then 2 ^ 31 - 1 else n} {y = n} (ground arith)

-- The printed buffers, as the struct.
buffers_struct-printed :
    (n : ℕ) (s : Bytes) (old : UpstreamBuffers)
    → n ≤ 1024
    → IsWord s
    → buffers_struct (fields (format_uint n +++ (b' ' ∷ s))) old
      ≡ record { number = pos n; size = s }
buffers_struct-printed n s old h (hs, ps) =
    let (hn, pn) = format_uint-IsWord n in
    ap (λ parts. buffers_struct parts old) (fields-pair (format_uint n) s hn hs pn ps)
    ∙ buffers_struct_read (format_uint n) s old (atoi-format_uint n h) h

-- A text that begins with a digit or a sign.
sign_or_digit : (s rest : Bytes) → s ≢ [] → all is_digit s ≡ true → trim_space (s +++ rest) ≢ []
unfolding is_white
sign_or_digit [] rest h d = absurd (h refl)
sign_or_digit (c ∷ s) rest h d = trim_space-ne-nil c (s +++ rest) (ground arith)

format_int-ne-nil : (n : ℤ) (rest : Bytes) → trim_space (format_int n +++ rest) ≢ []
unfolding format_int is_white
format_int-ne-nil (pos n) rest =
    sign_or_digit (format_uint n) rest (format_uint-ne-nil n) (format_uint-all_digits n)
format_int-ne-nil (negsuc n) rest = trim_space-ne-nil b'-' (format_uint (suc n) +++ rest) refl

default-ne-nil : bytes "8 4k" ≢ []
default-ne-nil = cons-ne-nil b'8' (bytes " 4k")

number_size-ne-nil :
    (str : Bytes) (parts : List Bytes) → or_default (number_size str parts true) (bytes "8 4k") ≢ []
number_size-ne-nil str [] = default-ne-nil
number_size-ne-nil str (number ∷ []) = default-ne-nil
number_size-ne-nil str (number ∷ size ∷ part ∷ parts) = default-ne-nil
number_size-ne-nil str (number ∷ size ∷ []) = go (parse_uint number) (new_size_with_unit size true)
  where
    go :
        (o : Option ℕ) (c : Checked)
        → or_default
            (elim o [
              | none ↦
                  failed (
                    bytes "invalid number value, could not parse into unsigned integer: "
                    +++ number)
              | some num ↦ elim c [
                | failed err ↦ failed (bytes "could not parse size with unit: " +++ size)
                | checked size' ↦
                    if not true then checked str else checked (format_uint num +++ (b' ' ∷ size'))
              ]
            ])
            (bytes "8 4k")
          ≢ []
    go none c = default-ne-nil
    go (some num) (failed err) = default-ne-nil
    go (some num) (checked size') = pair-ne-nil (format_uint num) size'

abbrev number_size_text : Bytes → Bytes
number_size_text t = or_default (number_size_config t true) (bytes "8 4k")

number_size_text-ne-nil : (t : Bytes) → t ≢ [] → number_size_text t ≢ []
number_size_text-ne-nil [] h = absurd (h refl)
number_size_text-ne-nil (c ∷ s) h = number_size-ne-nil (c ∷ s) (fields (c ∷ s))

-- The text that is balanced is never empty.
upstream_buffers-ne-nil : (old : UpstreamBuffers) → upstream_buffers old true ≢ []
unfolding upstream_buffers new_number_size_config
upstream_buffers-ne-nil old =
    number_size_text-ne-nil _ (to_lower-ne-nil _ (format_int-ne-nil old.number (b' ' ∷ old.size)))

balance_sizes-UpstreamFits :
    (up : ProxyFields) (old : UpstreamBuffers) (number buffer_size : ℕ) (pbs pbbs : Bytes)
    → buffer_size % 1024 ≡ 0
    → 0 < buffer_size
    → buffer_size * 1024 < 2 ^ 30
    → UpstreamFits (upstream_with up old (balance_sizes (number, buffer_size) pbs pbbs))
unfolding UpstreamFits balance_sizes constrain print_sizes
balance_sizes-UpstreamFits up old number buffer_size pbs pbbs kilobytes positive small =
    let below : buffer_size * 1024 < 2 ^ 64 = omega (arith, small) in
    let (fits, (_, kb_size), (_, kb_busy)) =
      final-Fits number buffer_size pbs pbbs kilobytes below in
    let bounds =
      total_bounds buffer_size (count number buffer_size pbs pbbs kilobytes below) fits.0 fits.1 in
    let busy_small : (final number buffer_size pbs pbbs kilobytes below).1 < 2 ^ 30 =
      omega (arith, small, fits.4, bounds.1) in
    let size_small : (final number buffer_size pbs pbbs kilobytes below).0 < 2 ^ 30 =
      omega (arith, busy_small, fits.2) in
    (
      count number buffer_size pbs pbbs kilobytes below,
      buffer_size,
      (final number buffer_size pbs pbbs kilobytes below).0,
      (final number buffer_size pbs pbbs kilobytes below).1,
      bytes_to_size_string buffer_size,
      ap some (
          buffers_struct-printed _ _ old fits.1
            (bytes_to_size_string-IsWord buffer_size (omega (arith, small)))),
      bytes_to_size_string-IsSize buffer_size (omega (arith, small)) kilobytes,
      bytes_to_size_string-IsSize _ size_small kb_size,
      bytes_to_size_string-IsSize _ busy_small kb_busy,
      positive,
      fits,
    )

upstream_with-UpstreamFits :
    (up : ProxyFields) (old : UpstreamBuffers) (pb pbs pbbs : Bytes)
    → pb ≢ []
    → 0 < (parse_proxy_buffers pb).1
    → (parse_proxy_buffers pb).1 * 1024 < 2 ^ 30
    → UpstreamFits (upstream_with up old (balance_proxy_values pb pbs pbbs true))
upstream_with-UpstreamFits up old pb pbs pbbs h positive small =
    let given = buffer_number_and_size-given pb pbs pbbs h in
    subst (λ b. UpstreamFits (upstream_with up old b))
      (sym (
        balance_proxy_values-some pb pbs pbbs (λ e. h e.0)
        ∙ ap (λ p. balance_sizes p pbs pbbs) given))
      (balance_sizes-UpstreamFits up old _ _ pbs pbbs
        (subst (λ p. p.1 % 1024 ≡ 0) given (buffer_number_and_size-kilobytes pb pbs pbbs)) positive
        small)

-- An upstream that sets proxy buffers whose size, as the code reads it after normalizing it, is
-- above 0 and below one megabyte, has after the automatic adjustment between 2 and 1024 buffers of a
-- size above 0, a proxy_busy_buffers_size that is at least proxy_buffer_size and a buffer and at most
-- all buffers but one, and all three sizes are digits with k or m behind them.
pub balance_proxies_for_upstreams-UpstreamFits :
    (up : ProxyFields) (old : UpstreamBuffers)
    → up.proxy_buffers ≡ some old
    → 0 < (parse_proxy_buffers (upstream_buffers old true)).1
    → (parse_proxy_buffers (upstream_buffers old true)).1 * 1024 < 2 ^ 30
    → UpstreamFits (balance_proxies_for_upstreams up true)
unfolding balance_proxies_for_upstreams
balance_proxies_for_upstreams-UpstreamFits up old e positive small =
    subst (λ o. UpstreamFits (balance_upstream up o true)) (sym e)
      (upstream_with-UpstreamFits up old (upstream_buffers old true)
        (upstream_size up.proxy_buffer_size true) (upstream_size up.proxy_busy_buffers_size true)
        (upstream_buffers-ne-nil old) positive small)
