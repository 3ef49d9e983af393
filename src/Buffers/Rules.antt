-- ===== src/Buffers/Rules.antt =====
-- The balanced values fit together as NGINX demands, and balancing them again changes nothing.
use Prim.Native.Nat.{◌^◌}
use mathlib.Core.Path.{subst}
use ingress_nextgen.Common.{
  List, Option, [], ap, arith, false, if_elim, none, not, refl, some, string_eq, sym, true, ℕ, ℕ_eq,
  ◌%◌, ◌&&◌, ◌*◌, ◌+◌, ◌/◌, ◌<◌, ◌==◌, ◌||◌, ◌∙◌, ◌∷◌, ◌≡◌, ◌≢◌, ◌≤◌,
}
use ingress_nextgen.Buffers.{
  Balanced, apply_buffer_size_constraints, balance_proxy_values, balance_sizes,
  buffer_number_and_size, constrain, max_allowed_size, parse_buffer_sizes, print_sizes, size_or,
  validate_buffer_constraints,
}
use ingress_nextgen.Buffers.Sizes.{
  buffers_of, bytes_to_size_string, parse_proxy_buffers, parse_size_to_bytes,
}
use ingress_nextgen.Buffers.Printed.{
  IsKilobytes, bytes_to_size_string-IsWord, pair-ne-nil, parse_proxy_buffers-printed,
  parse_size_to_bytes-IsKilobytes, parse_size_to_bytes-bytes_to_size_string,
}
use ingress_nextgen.Common.Bytes.{Bytes, Bytes_eq}
use ingress_nextgen.Common.Decimal.{format_uint, parse_uint}
use ingress_nextgen.Common.Words.{fields, trim_space}

-- NGINX's rules on a number of buffers, their size, proxy_buffer_size and proxy_busy_buffers_size.
abbrev pub Fits : ℕ × ℕ → ℕ → ℕ → Type 0
Fits (number, buffer_size) size busy =
    (2 ≤ number)
    × (number ≤ 1024)
    × (size ≤ busy)
    × (buffer_size ≤ busy)
    × (busy + buffer_size ≤ buffer_size * number)

-- The rules on the printed values, as the code itself reads them.
unfoldable pub IsBalanced : Balanced → Type 0
IsBalanced b =
    Fits (parse_proxy_buffers b.proxy_buffers) (parse_size_to_bytes b.proxy_buffer_size)
      (parse_size_to_bytes b.proxy_busy_buffers)

-- The two sizes under the largest that is allowed.
apply_buffer_size_constraints_lem :
    (size busy buffer_size max_allowed : ℕ)
    → buffer_size ≤ max_allowed
    → IsKilobytes size
    → IsKilobytes busy
    → IsKilobytes buffer_size
    → IsKilobytes max_allowed
    → let (size', busy', _) = apply_buffer_size_constraints size busy buffer_size max_allowed in
      (size' ≤ busy')
      × (buffer_size ≤ busy')
      × (busy' ≤ max_allowed)
      × IsKilobytes size'
      × IsKilobytes busy'
unfolding apply_buffer_size_constraints
apply_buffer_size_constraints_lem size busy buffer_size max_allowed h a b c d = ground arith

pub total_bounds : (s n : ℕ) → 2 ≤ n → n ≤ 1024 → (s + s ≤ s * n) × (s * n ≤ s * 1024)
total_bounds s n h k = grind arith

total_kilobytes : (s n : ℕ) → s % 1024 ≡ 0 → (s * n) % 1024 ≡ 0
total_kilobytes s n h =
    let k = s / 1024 in
    let e : s ≡ 1024 * k = omega (arith, h) in
    let q : s * n ≡ 1024 * (k * n) = ap (λ t. t * n) e ∙ (grind arith) in omega (arith, q)

pub validate_buffer_constraints-bounds :
    (n : ℕ) → let (m, _) = validate_buffer_constraints n in (2 ≤ m) × (m ≤ 1024)
unfolding validate_buffer_constraints
validate_buffer_constraints-bounds n = ground arith

-- Values that fit already are left as they are.
apply_buffer_size_constraints_fixed :
    (size busy buffer_size max_allowed : ℕ)
    → size ≤ busy
    → buffer_size ≤ busy
    → busy ≤ max_allowed
    → apply_buffer_size_constraints size busy buffer_size max_allowed ≡ (size, busy, [])
unfolding apply_buffer_size_constraints
apply_buffer_size_constraints_fixed size busy buffer_size max_allowed h k l = ground arith

validate_buffer_constraints_fixed :
    (n : ℕ) → 2 ≤ n → n ≤ 1024 → validate_buffer_constraints n ≡ (n, [])
unfolding validate_buffer_constraints
validate_buffer_constraints_fixed n h k = ground arith

parse_buffer_sizes-given :
    (s t : Bytes) (d : ℕ)
    → s ≢ []
    → t ≢ []
    → parse_buffer_sizes s t d ≡ (parse_size_to_bytes s, parse_size_to_bytes t)
unfolding parse_buffer_sizes
parse_buffer_sizes-given [] t d h k = absurd (h refl)
parse_buffer_sizes-given (c ∷ s) [] d h k = absurd (k refl)
parse_buffer_sizes-given (c ∷ s) (e ∷ t) d h k = refl

-- What a balancing of a number and a size gives, as long as no product leaves uint64.
module _ (number buffer_size : ℕ) (pbs pbbs : Bytes) (kilobytes : buffer_size % 1024 ≡ 0)
    (small : buffer_size * 1024 < 2 ^ 64) where
  abbrev pub count : ℕ
  count = (validate_buffer_constraints number).0

  abbrev asked : ℕ × ℕ
  asked = parse_buffer_sizes pbs pbbs buffer_size

  abbrev allowed : ℕ
  allowed = max_allowed_size count buffer_size

  abbrev pub final : ℕ × ℕ × List Bytes
  final = apply_buffer_size_constraints asked.0 asked.1 buffer_size allowed

  allowed_exact :
      (allowed + buffer_size ≡ buffer_size * count) × (buffer_size ≤ allowed) × IsKilobytes allowed
  allowed_exact =
      let (lo, hi) = validate_buffer_constraints-bounds number in
      let (least, most) = total_bounds buffer_size count lo hi in
      omega (arith, small, kilobytes, least, most, total_kilobytes buffer_size count kilobytes)

  asked-IsKilobytes : IsKilobytes asked.0 × IsKilobytes asked.1
  unfolding parse_buffer_sizes
  asked-IsKilobytes = (or_size pbs, or_size pbbs)
    where
      or_size : (s : Bytes) → IsKilobytes (size_or s buffer_size)
      or_size [] = omega (arith, small, kilobytes)
      or_size (c ∷ s) = parse_size_to_bytes-IsKilobytes (c ∷ s)

  -- The sizes, before they are printed.
  pub final-Fits :
      Fits (count, buffer_size) final.0 final.1 × IsKilobytes final.0 × IsKilobytes final.1
  final-Fits =
      let (exact, room, kb_allowed) = allowed_exact in
      let (kb_size, kb_busy) = asked-IsKilobytes in
      let (size_busy, buffer_busy, below, kb_size', kb_busy') =
        apply_buffer_size_constraints_lem asked.0 asked.1 buffer_size allowed room kb_size kb_busy
          (omega (arith, small, kilobytes)) kb_allowed in
      let (lo, hi) = validate_buffer_constraints-bounds number in
      ((lo, hi, size_busy, buffer_busy, omega (arith, exact, below)), kb_size', kb_busy')

  -- What the code reads in the results.
  pub read_back :
      let b = balance_sizes (number, buffer_size) pbs pbbs in
      (parse_proxy_buffers b.proxy_buffers ≡ (count, buffer_size))
      × (parse_size_to_bytes b.proxy_buffer_size ≡ final.0)
      × (parse_size_to_bytes b.proxy_busy_buffers ≡ final.1)
  unfolding balance_sizes constrain print_sizes
  read_back =
      let (_, (lt, kb_size), (lt', kb_busy)) = final-Fits in
      let (lo, hi) = validate_buffer_constraints-bounds number in
      (
        parse_proxy_buffers-printed count buffer_size (omega (arith, hi))
            (omega (arith, small, kilobytes)),
        parse_size_to_bytes-bytes_to_size_string final.0 lt kb_size,
        parse_size_to_bytes-bytes_to_size_string final.1 lt' kb_busy,
      )

  pub balance_sizes-IsBalanced : IsBalanced (balance_sizes (number, buffer_size) pbs pbbs)
  unfolding IsBalanced
  balance_sizes-IsBalanced =
      let (buffers, size, busy) = read_back in rw (buffers, size, busy) final-Fits.0

  -- A second balancing of the results.
  pub balance_sizes_idem :
      let b = balance_sizes (number, buffer_size) pbs pbbs in
      balance_sizes (count, buffer_size) b.proxy_buffer_size b.proxy_busy_buffers
      ≡ record b { modifications = [] }
  unfolding balance_sizes constrain print_sizes
  balance_sizes_idem =
      let (_, size, busy) = read_back in
      let ((lo, hi, size_busy, buffer_busy, _), (size_lt, _), (busy_lt, _)) = final-Fits in
      let (exact, _, _) = allowed_exact in
      let sizes =
        parse_buffer_sizes-given (bytes_to_size_string final.0) (bytes_to_size_string final.1)
          buffer_size (bytes_to_size_string-IsWord final.0 size_lt).0
          (bytes_to_size_string-IsWord final.1 busy_lt).0
        ∙ (λ i. (size i, busy i)) in
      (λ i. constrain (validate_buffer_constraints_fixed count lo hi i) buffer_size (sizes i))
      ∙ ap (print_sizes count buffer_size []) (
          apply_buffer_size_constraints_fixed final.0 final.1 buffer_size allowed size_busy
            buffer_busy (omega (arith, final-Fits.0, exact)))

pub buffer_number_and_size-kilobytes :
    (pb pbs pbbs : Bytes) → (buffer_number_and_size pb pbs pbbs).1 % 1024 ≡ 0
unfolding buffer_number_and_size parse_proxy_buffers
buffer_number_and_size-kilobytes pb pbs pbbs =
    if_elim (λ (p : ℕ × ℕ). p.1 % 1024 ≡ 0) (pb == [] && (not (pbs == []) || not (pbbs == []))) refl
      (go pb)
  where
    read : (parts : List Bytes) → (buffers_of parts).1 % 1024 ≡ 0
    read (number ∷ size ∷ []) = if_none (parse_uint number) (parse_size_to_bytes-IsKilobytes size).1
      where
        if_none :
            (o : Option ℕ)
            → parse_size_to_bytes size % 1024 ≡ 0
            → (elim o as (λ _. ℕ × ℕ) [
              | none ↦ (8, 4 * 1024)
              | some num ↦ (num, parse_size_to_bytes size)
            ]).1
                % 1024
              ≡ 0
        if_none none h = refl
        if_none (some num) h = h
    read _ = refl

    go : (s : Bytes) → (parse_proxy_buffers s).1 % 1024 ≡ 0
    go [] = refl
    go (c ∷ s) = read (fields (trim_space (c ∷ s)))

nil_test : (s : Bytes) → s ≢ [] → (s == []) ≡ false
nil_test [] h = absurd (h refl)
nil_test (c ∷ s) h = refl

pub balance_proxy_values-some :
    (pb pbs pbbs : Bytes)
    → ¬ ((pb ≡ []) × (pbs ≡ []) × (pbbs ≡ []))
    → balance_proxy_values pb pbs pbbs true
      ≡ balance_sizes (buffer_number_and_size pb pbs pbbs) pbs pbbs
unfolding balance_proxy_values
balance_proxy_values-some [] [] [] h = absurd (h (refl, refl, refl))
balance_proxy_values-some [] [] (c ∷ s) h = refl
balance_proxy_values-some [] (c ∷ s) pbbs h = refl
balance_proxy_values-some (c ∷ s) pbs pbbs h = refl

pub buffer_number_and_size-given :
    (pb pbs pbbs : Bytes) → pb ≢ [] → buffer_number_and_size pb pbs pbbs ≡ parse_proxy_buffers pb
unfolding buffer_number_and_size
buffer_number_and_size-given pb pbs pbbs h = rw (nil_test pb h) refl

-- With automatic adjustment, for values that are not all unset, and buffers of which 1024 together
-- stay below 2^64, the balanced values, as the code itself reads them, fit together: there are
-- between 2 and 1024 buffers, proxy_busy_buffers_size is at least proxy_buffer_size and a buffer,
-- and it is at most all buffers but one.
pub balance_proxy_values-IsBalanced :
    (pb pbs pbbs : Bytes)
    → ¬ ((pb ≡ []) × (pbs ≡ []) × (pbbs ≡ []))
    → (buffer_number_and_size pb pbs pbbs).1 * 1024 < 2 ^ 64
    → IsBalanced (balance_proxy_values pb pbs pbbs true)
balance_proxy_values-IsBalanced pb pbs pbbs h small =
    subst IsBalanced (sym (balance_proxy_values-some pb pbs pbbs h))
      (balance_sizes-IsBalanced _ _ pbs pbbs (buffer_number_and_size-kilobytes pb pbs pbbs) small)

-- The results, balanced again.
abbrev again : Balanced → Balanced
again b = balance_proxy_values b.proxy_buffers b.proxy_buffer_size b.proxy_busy_buffers true

again-balance_sizes :
    (number buffer_size : ℕ) (pbs pbbs : Bytes)
    → buffer_size % 1024 ≡ 0
    → buffer_size * 1024 < 2 ^ 64
    → let b = balance_sizes (number, buffer_size) pbs pbbs in
      again b ≡ record b { modifications = [] }
unfolding balance_sizes constrain print_sizes
again-balance_sizes number buffer_size pbs pbbs kilobytes small =
    let b = balance_sizes (number, buffer_size) pbs pbbs in
    let some_buffers =
      pair-ne-nil (format_uint (validate_buffer_constraints number).0)
        (bytes_to_size_string buffer_size) in
    balance_proxy_values-some b.proxy_buffers b.proxy_buffer_size b.proxy_busy_buffers
      (λ e. some_buffers e.0)
    ∙ ap (λ p. balance_sizes p b.proxy_buffer_size b.proxy_busy_buffers)
        (buffer_number_and_size-given b.proxy_buffers b.proxy_buffer_size b.proxy_busy_buffers
            some_buffers
          ∙ (read_back number buffer_size pbs pbbs kilobytes small).0)
    ∙ balance_sizes_idem number buffer_size pbs pbbs kilobytes small

-- With automatic adjustment, for values that are not all unset, and buffers of which 1024 together
-- stay below 2^64, balancing the balanced values again leaves them and reports no modification.
pub balance_proxy_values_idem :
    (pb pbs pbbs : Bytes)
    → (buffer_number_and_size pb pbs pbbs).1 * 1024 < 2 ^ 64
    → ¬ ((pb ≡ []) × (pbs ≡ []) × (pbbs ≡ []))
    → let b = balance_proxy_values pb pbs pbbs true in
      balance_proxy_values b.proxy_buffers b.proxy_buffer_size b.proxy_busy_buffers true
      ≡ record b { modifications = [] }
balance_proxy_values_idem pb pbs pbbs small h =
    subst (λ b. again b ≡ record b { modifications = [] })
      (sym (balance_proxy_values-some pb pbs pbbs h))
      (again-balance_sizes _ _ pbs pbbs (buffer_number_and_size-kilobytes pb pbs pbbs) small)
