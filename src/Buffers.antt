-- ===== src/Buffers.antt =====
-- The sizes of the proxy buffers (internal/validation/data_types.go): balancing the three directives
-- that must fit together. A uint64 is a number below 2^64; texts are ASCII.
pub mod Sizes
pub mod Printed
pub mod Rules
pub mod Upstreams
use Prim.Native.Nat.{zero, suc, ◌^◌}
use ingress_nextgen.Common.{
  Bool, List, Option, [], if◌then◌else◌, ltb, none, not, refl, some, string_eq, suc, true, ℕ, ℕ_eq,
  ◌%◌, ◌&&◌, ◌*◌, ◌+++◌, ◌+◌, ◌-◌, ◌==◌, ◌>>=◌, ◌||◌, ◌∷◌, ◌≡◌,
}
use ingress_nextgen.Common.Bytes.{Bytes, Bytes_eq, bytes}
use ingress_nextgen.Common.Decimal.{format_uint, parse_uint}
use ingress_nextgen.Common.Words.{fields}
use ingress_nextgen.Buffers.Sizes.{
  Checked, bytes_to_size_string, checked, failed, new_number_size_config, new_size_with_unit,
  parse_proxy_buffers, parse_size_to_bytes,
}

abbrev pub max_nginx_buffer_count : ℕ
max_nginx_buffer_count = 1024

abbrev pub min_nginx_buffer_count : ℕ
min_nginx_buffer_count = 2

abbrev adjusted : ℕ → ℕ → Bytes
adjusted n m =
    bytes "adjusted proxy_buffers number from "
    +++ (format_uint n +++ (bytes " to " +++ format_uint m))

unfoldable pub validate_buffer_constraints : ℕ → ℕ × List Bytes
unfolding format_uint
validate_buffer_constraints n =
    if ltb n min_nginx_buffer_count
    then (min_nginx_buffer_count, adjusted n min_nginx_buffer_count ∷ [])
    else if ltb max_nginx_buffer_count n
    then (max_nginx_buffer_count, adjusted n max_nginx_buffer_count ∷ [])
    else (n, [])

abbrev pub size_or : Bytes → ℕ → ℕ
size_or [] default_size = default_size
size_or (c ∷ s) default_size = parse_size_to_bytes (c ∷ s)

unfoldable pub parse_buffer_sizes : Bytes → Bytes → ℕ → ℕ × ℕ
unfolding parse_size_to_bytes
parse_buffer_sizes proxy_buffer_size proxy_busy_buffers default_size =
    (size_or proxy_buffer_size default_size, size_or proxy_busy_buffers default_size)

abbrev too_large : Bytes
too_large = bytes "adjusted proxy_buffer_size because it was too large for proxy_buffers"

abbrev busy_too_large : Bytes
busy_too_large = bytes "adjusted proxy_busy_buffers_size because it was too large"

unfoldable pub apply_buffer_size_constraints : ℕ → ℕ → ℕ → ℕ → ℕ × ℕ × List Bytes
apply_buffer_size_constraints size busy buffer_size max_allowed =
    let size' = if ltb max_allowed size then max_allowed else size in
    let busy' = if ltb max_allowed busy then max_allowed else busy in
    let min_busy = if ltb buffer_size size' then size' else buffer_size in
    (
      size',
      if ltb busy' min_busy then min_busy else busy',
      (if ltb max_allowed size then too_large ∷ [] else [])
          +++ (if ltb max_allowed busy then busy_too_large ∷ [] else []),
    )

-- The four results of BalanceProxyValues.
pub record Balanced : Type 0 where
  pub proxy_buffers : Bytes
  pub proxy_buffer_size : Bytes
  pub proxy_busy_buffers : Bytes
  pub modifications : List Bytes

-- The number and the size of the buffers, where proxy_buffers may be unset.
unfoldable pub buffer_number_and_size : Bytes → Bytes → Bytes → ℕ × ℕ
unfolding parse_proxy_buffers
buffer_number_and_size pb pbs pbbs =
    if pb == [] && (not (pbs == []) || not (pbbs == []))
    then (min_nginx_buffer_count, 4 * 1024)
    else parse_proxy_buffers pb

-- The end of BalanceProxyValues: the sizes as texts.
unfoldable pub print_sizes : ℕ → ℕ → List Bytes → ℕ × ℕ × List Bytes → Balanced
unfolding bytes_to_size_string
print_sizes buffer_number buffer_size number_mods (size, busy, mods) = record {
  proxy_buffers = format_uint buffer_number +++ (b' ' ∷ bytes_to_size_string buffer_size);
  proxy_buffer_size = bytes_to_size_string size;
  proxy_busy_buffers = bytes_to_size_string busy;
  modifications = number_mods +++ mods;
}

-- totalBufferSize and maxAllowedSize; the product and the difference are those of uint64.
abbrev pub max_allowed_size : ℕ → ℕ → ℕ
max_allowed_size buffer_number buffer_size =
    (buffer_size * buffer_number % 2 ^ 64 + 2 ^ 64 - buffer_size) % 2 ^ 64

unfoldable pub constrain : ℕ × List Bytes → ℕ → ℕ × ℕ → Balanced
unfolding apply_buffer_size_constraints print_sizes
constrain (buffer_number, number_mods) buffer_size (size, busy) =
    print_sizes buffer_number buffer_size number_mods (
      apply_buffer_size_constraints size busy buffer_size
        (max_allowed_size buffer_number buffer_size))

-- BalanceProxyValues from the number and the size of the buffers on.
unfoldable pub balance_sizes : ℕ × ℕ → Bytes → Bytes → Balanced
unfolding validate_buffer_constraints parse_buffer_sizes constrain
balance_sizes (number, buffer_size) pbs pbbs =
    constrain (validate_buffer_constraints number) buffer_size
      (parse_buffer_sizes pbs pbbs buffer_size)

unfoldable pub balance_proxy_values : Bytes → Bytes → Bytes → Bool → Balanced
unfolding buffer_number_and_size balance_sizes
balance_proxy_values pb pbs pbbs autoadjust =
    if not autoadjust
    then record {
      proxy_buffers = pb;
      proxy_buffer_size = pbs;
      proxy_busy_buffers = pbbs;
      modifications =
          bytes "auto adjust is turned off, no changes have been made to the proxy values" ∷ [];
    }
    else if pb == [] && (pbs == [] && pbbs == [])
    then record {
      proxy_buffers = pb;
      proxy_buffer_size = pbs;
      proxy_busy_buffers = pbbs;
      modifications = [];
    }
    else balance_sizes (buffer_number_and_size pb pbs pbbs) pbs pbbs

-- A Go int, as what is printed of it: a number, or the number after a minus sign less one.
pub data ℤ : Type 0 where
  pos negsuc : ℕ → ℤ

-- "%d"
unfoldable pub format_int : ℤ → Bytes
unfolding format_uint
format_int (pos n) = format_uint n
format_int (negsuc n) = b'-' ∷ format_uint (suc n)

-- strconv.Atoi on a text with no sign
unfoldable pub atoi : Bytes → Option ℕ
unfolding parse_uint
atoi s = parse_uint s >>= λ n. if ltb n (2 ^ 63) then some n else none

-- UpstreamBuffers, and the fields of an Upstream that the balancing reads and writes.
pub record UpstreamBuffers : Type 0 where
  pub number : ℤ
  pub size : Bytes

pub record ProxyFields : Type 0 where
  pub proxy_buffers : Option UpstreamBuffers
  pub proxy_buffer_size : Bytes
  pub proxy_busy_buffers_size : Bytes

abbrev pub or_default : Checked → Bytes → Bytes
or_default (failed err) default = default
or_default (checked s) default = s

-- The struct of a balanced proxy_buffers, which stays as it was where the text has no such form.
abbrev pub buffers_struct : List Bytes → UpstreamBuffers → UpstreamBuffers
buffers_struct (number ∷ size ∷ []) old = elim (atoi number) [
  | none ↦ old
  | some num ↦ record {
    number = pos (if ltb (2 ^ 31 - 1) num then 2 ^ 31 - 1 else num);
    size = size;
  }
]
buffers_struct parts old = old

-- The three values that BalanceProxiesForUpstreams balances.
unfoldable pub upstream_buffers : UpstreamBuffers → Bool → Bytes
unfolding new_number_size_config format_int
upstream_buffers old autoadjust =
    or_default (new_number_size_config (format_int old.number +++ (b' ' ∷ old.size)) autoadjust)
      (bytes "8 4k")

unfoldable pub upstream_size : Bytes → Bool → Bytes
unfolding new_size_with_unit
upstream_size size autoadjust = or_default (new_size_with_unit size autoadjust) (bytes "4k")

abbrev pub upstream_with : ProxyFields → UpstreamBuffers → Balanced → ProxyFields
upstream_with up old b = record {
  proxy_buffers = some (buffers_struct (fields b.proxy_buffers) old);
  proxy_buffer_size = b.proxy_buffer_size;
  proxy_busy_buffers_size = b.proxy_busy_buffers;
}

abbrev pub balance_upstream : ProxyFields → Option UpstreamBuffers → Bool → ProxyFields
balance_upstream up none autoadjust = up
balance_upstream up (some old) autoadjust =
    if not autoadjust
    then up
    else upstream_with up old (
        balance_proxy_values (upstream_buffers old autoadjust)
          (upstream_size up.proxy_buffer_size autoadjust)
          (upstream_size up.proxy_busy_buffers_size autoadjust) autoadjust)

unfoldable pub balance_proxies_for_upstreams : ProxyFields → Bool → ProxyFields
unfolding upstream_buffers upstream_size balance_proxy_values atoi fields
balance_proxies_for_upstreams up autoadjust = balance_upstream up up.proxy_buffers autoadjust

balanced-sample : balance_proxy_values (bytes "1 8k") (bytes "64k") [] true ≡ record {
  proxy_buffers = bytes "2 8k";
  proxy_buffer_size = bytes "8k";
  proxy_busy_buffers = bytes "8k";
  modifications =
      bytes "adjusted proxy_buffers number from 1 to 2"
      ∷ bytes "adjusted proxy_buffer_size because it was too large for proxy_buffers"
      ∷ [];
}
unfolding balance_proxy_values
balanced-sample = refl
