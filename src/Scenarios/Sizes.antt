-- ===== src/Scenarios/Sizes.antt =====
-- Proxy buffers at concrete inputs.
use Prim.Native.Nat.{◌^◌}
use ingress_nextgen.Common.{[], arith, refl, some, true, ◌*◌, ◌<◌, ◌≡◌}
use ingress_nextgen.Common.Bytes.{bytes}
use ingress_nextgen.Buffers.{
  ProxyFields, UpstreamBuffers, balance_proxies_for_upstreams, balance_proxy_values,
  buffer_number_and_size, pos, upstream_buffers,
}
use ingress_nextgen.Buffers.Sizes.{bytes_to_size_string, parse_proxy_buffers, parse_size_to_bytes}
use ingress_nextgen.Buffers.Printed.{parse_size_to_bytes-bytes_to_size_string}
use ingress_nextgen.Buffers.Rules.{
  IsBalanced, balance_proxy_values-IsBalanced, balance_proxy_values_idem,
}
use ingress_nextgen.Buffers.Upstreams.{UpstreamFits, balance_proxies_for_upstreams-UpstreamFits}

parse_size_to_bytes-bytes_to_size_string_example :
    parse_size_to_bytes (bytes_to_size_string 1572864) ≡ 1572864
parse_size_to_bytes-bytes_to_size_string_example =
    parse_size_to_bytes-bytes_to_size_string 1572864 (omega arith) (omega arith)

some_buffers : ¬ ((bytes "1 8k" ≡ []) × (bytes "64k" ≡ []) × (bytes "16k" ≡ []))
some_buffers h = cc (h.0)

small_buffers :
    (buffer_number_and_size (bytes "1 8k") (bytes "64k") (bytes "16k")).1 * 1024 < 2 ^ 64
unfolding buffer_number_and_size
small_buffers = omega arith

balance_proxy_values-IsBalanced_example :
    IsBalanced (balance_proxy_values (bytes "1 8k") (bytes "64k") (bytes "16k") true)
balance_proxy_values-IsBalanced_example =
    balance_proxy_values-IsBalanced (bytes "1 8k") (bytes "64k") (bytes "16k") some_buffers
      small_buffers

balance_proxy_values_idem_example :
    let b = balance_proxy_values (bytes "1 8k") (bytes "64k") (bytes "16k") true in
    balance_proxy_values b.proxy_buffers b.proxy_buffer_size b.proxy_busy_buffers true
    ≡ record b { modifications = [] }
balance_proxy_values_idem_example =
    balance_proxy_values_idem (bytes "1 8k") (bytes "64k") (bytes "16k") small_buffers some_buffers

abbrev few_buffers : UpstreamBuffers
few_buffers = record { number = pos 1; size = bytes "8k" }

abbrev unbalanced : ProxyFields
unbalanced = record {
  proxy_buffers = some few_buffers;
  proxy_buffer_size = bytes "64k";
  proxy_busy_buffers_size = bytes "16k";
}

few_buffers_small :
    (0 < (parse_proxy_buffers (upstream_buffers few_buffers true)).1)
    × ((parse_proxy_buffers (upstream_buffers few_buffers true)).1 * 1024 < 2 ^ 30)
unfolding parse_proxy_buffers upstream_buffers
few_buffers_small = (omega arith, omega arith)

balance_proxies_for_upstreams-UpstreamFits_example :
    UpstreamFits (balance_proxies_for_upstreams unbalanced true)
balance_proxies_for_upstreams-UpstreamFits_example =
    balance_proxies_for_upstreams-UpstreamFits unbalanced few_buffers refl few_buffers_small.0
      few_buffers_small.1
