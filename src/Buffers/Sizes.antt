-- ===== src/Buffers/Sizes.antt =====
-- Sizes with a unit (internal/validation/data_types.go): checking, reading and printing them.
use Prim.Native.Nat.{◌^◌}
use ingress_nextgen.Common.{
  Bool, List, Option, [], if◌then◌else◌, ltb, none, not, some, string_eq, ℕ, ℕ_eq, ◌%◌, ◌*◌, ◌+++◌,
  ◌+◌, ◌/◌, ◌==◌, ◌∷◌,
}
use ingress_nextgen.Common.Bytes.{Bytes, Bytes_eq, bytes}
use ingress_nextgen.Common.Decimal.{format_uint, is_digit, parse_uint}
use ingress_nextgen.Common.Words.{but_last, fields, last_byte, to_lower, trim_space}

-- SizeUnit
pub data SizeUnit : Type 0 where
  bad_unit size_kb size_mb size_gb : SizeUnit

-- SizeUnit.String
unfoldable pub unit_string : SizeUnit → Bytes
unit_string size_kb = bytes "k"
unit_string size_mb = bytes "m"
unit_string size_gb = bytes "g"
unit_string bad_unit = []

-- A text, or an error with its message.
pub data Checked : Type 0 where
  failed : Bytes → Checked
  checked : Bytes → Checked

-- NewSizeWithUnit on the trimmed text.
abbrev checked_size : Bytes → SizeUnit → Option ℕ → Bool → Checked
checked_size size_str unit parsed normalize =
    let err =
      failed (bytes "invalid size value, must be an integer larger than 0: " +++ size_str) in
    elim parsed [
      | none ↦ err
      | some num ↦
          if ltb num 1
          then err
          else if not normalize
          then checked size_str
          else checked (format_uint num +++ unit_string unit)
    ]

abbrev size_with_unit : Bytes → Bool → Checked
size_with_unit [] normalize = checked []
size_with_unit (c ∷ s) normalize =
    let size_str = c ∷ s in
    let last_char = last_byte c s in
    let num_str = but_last c s in
    if last_char == b'k'
    then checked_size size_str size_kb (parse_uint num_str) normalize
    else if last_char == b'm'
    then checked_size size_str size_mb (parse_uint num_str) normalize
    else if is_digit last_char
    then checked_size size_str size_mb (parse_uint size_str) normalize
    else checked_size size_str size_mb (parse_uint num_str) normalize

unfoldable pub new_size_with_unit : Bytes → Bool → Checked
unfolding unit_string to_lower trim_space parse_uint format_uint
new_size_with_unit size_str normalize = size_with_unit (to_lower (trim_space size_str)) normalize

abbrev pub number_size : Bytes → List Bytes → Bool → Checked
number_size size_str (number ∷ size ∷ []) normalize = elim (parse_uint number) [
  | none ↦ failed (bytes "invalid number value, could not parse into unsigned integer: " +++ number)
  | some num ↦ elim (new_size_with_unit size normalize) [
    | failed err ↦ failed (bytes "could not parse size with unit: " +++ size)
    | checked size' ↦
        if not normalize then checked size_str else checked (format_uint num +++ (b' ' ∷ size'))
  ]
]
number_size size_str parts normalize =
    failed (bytes "invalid size format, expected '<number> <size>', got: " +++ size_str)

abbrev pub number_size_config : Bytes → Bool → Checked
number_size_config [] normalize = checked []
number_size_config (c ∷ s) normalize = number_size (c ∷ s) (fields (c ∷ s)) normalize

unfoldable pub new_number_size_config : Bytes → Bool → Checked
unfolding new_size_with_unit fields
new_number_size_config size_str normalize =
    number_size_config (to_lower (trim_space size_str)) normalize

abbrev pub kb : ℕ
kb = 1024

abbrev pub mb : ℕ
mb = 1024 * 1024

abbrev pub gb : ℕ
gb = 1024 * 1024 * 1024

-- num * multiplier in uint64, or 0 where the number was refused
abbrev pub times : Option ℕ → ℕ → ℕ
times none multiplier = 0
times (some num) multiplier = num * multiplier % 2 ^ 64

abbrev pub size_to_bytes : Bytes → ℕ
size_to_bytes [] = 0
size_to_bytes (c ∷ s) =
    let last_char = last_byte c s in
    let num_str = but_last c s in
    if last_char == b'k'
    then times (parse_uint num_str) kb
    else if last_char == b'm'
    then times (parse_uint num_str) mb
    else if last_char == b'g'
    then times (parse_uint num_str) gb
    else times (parse_uint (c ∷ s)) mb

unfoldable pub parse_size_to_bytes : Bytes → ℕ
unfolding to_lower trim_space parse_uint
parse_size_to_bytes size_str = size_to_bytes (to_lower (trim_space size_str))

unfoldable pub bytes_to_size_string : ℕ → Bytes
unfolding format_uint
bytes_to_size_string n =
    if n == 0
    then bytes "0k"
    else if n % gb == 0
    then format_uint (n / gb) +++ bytes "g"
    else if n % mb == 0
    then format_uint (n / mb) +++ bytes "m"
    else if n % kb == 0
    then format_uint (n / kb) +++ bytes "k"
    else format_uint ((n + 1023) % 2 ^ 64 / 1024) +++ bytes "k"

abbrev pub buffers_of : List Bytes → ℕ × ℕ
buffers_of (number ∷ size ∷ []) = elim (parse_uint number) [
  | none ↦ (8, 4 * 1024)
  | some num ↦ (num, parse_size_to_bytes size)
]
buffers_of parts = (8, 4 * 1024)

unfoldable pub parse_proxy_buffers : Bytes → ℕ × ℕ
unfolding parse_size_to_bytes fields
parse_proxy_buffers [] = (8, 4 * 1024)
parse_proxy_buffers (c ∷ s) = buffers_of (fields (trim_space (c ∷ s)))
