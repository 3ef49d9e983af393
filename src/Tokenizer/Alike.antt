-- ===== src/Tokenizer/Alike.antt =====
-- Scans that look the same go on alike, byte by byte.
use ingress_nextgen.Common.{
  [], false, if_rel, not, string_eq, true, ℕ, ℕ_eq, ◌&&◌, ◌+++◌, ◌==◌, ◌||◌, ◌∷◌, ◌≡◌,
}
use ingress_nextgen.Common.Bytes.{Bytes, Bytes_eq}
use ingress_nextgen.Tokenizer.{
  ConfTokenizer, Parsed, accepted, after_quote, classify_after_quote, classify_outside_quote,
  in_quote, is_space, next, outside_quote, refused, run, unexpected_char, write, write_escaped,
}
use ingress_nextgen.Tokenizer.Blurred.{
  Alike, Same, blur, both, close_block-blur, fail, flush_statement-blur, flush_token-blur, kept,
  open_block-blur, through, write-blur,
}

classify_after_quote-blur :
    (z : ConfTokenizer) (char : ℕ)
    → Alike (classify_after_quote z char) (classify_after_quote (blur z) char)
unfolding classify_after_quote
classify_after_quote-blur z char = if_rel Alike (is_space char) (both _ _ (flush_token-blur z)) (
    if_rel Alike (char == b';') (flush_statement-blur z) (
      if_rel Alike (char == b'{') (open_block-blur z) (
        if_rel Alike (char == b')')
          (through (λ y. accepted (write y char)) (λ y. both _ _ (write-blur y char)) _ _
            (flush_token-blur z))
          (fail (unexpected_char char)))))

classify_outside_quote-blur :
    (z : ConfTokenizer) (char : ℕ)
    → Alike (classify_outside_quote z char) (classify_outside_quote (blur z) char)
unfolding classify_outside_quote blur
classify_outside_quote-blur z char = if_rel Alike (is_space char) (both _ _ (flush_token-blur z)) (
    if_rel Alike (char == b';') (flush_statement-blur z) (
      if_rel Alike (char == b'{') (open_block-blur z) (
        if_rel Alike (char == b'}' && z.in_token) (both _ _ (write-blur z char)) (
          if_rel Alike (char == b'}') (close_block-blur z) (
            if_rel Alike (char == b'#' && not z.in_token)
              (both _ _ (kept (record z { comment = true })))
              (if_rel Alike (char == b'\\')
                (both _ _ (kept (record z { escaped = true; in_token = true })))
                (if_rel Alike ((char == b'"' || char == b'\'') && not z.in_token)
                  (both _ _ (kept (record z { quote = char; in_token = true })))
                  (if_rel Alike (char == b'$')
                    (both _ _ (write-blur (record z { variable = true }) char))
                    (both _ _ (write-blur z char))))))))))

write_escaped-blur :
    (z : ConfTokenizer) (char : ℕ) → Same (write_escaped z char) (write_escaped (blur z) char)
unfolding write_escaped write blur
write_escaped-blur z char =
    if_rel Same (char == b'"' || (char == b'\'' || char == b'\\')) (write-blur z char) (
      if_rel Same (char == b't') (write-blur z b'\t') (
        if_rel Same (char == b'r') (write-blur z b'\r')
          (if_rel Same (char == b'n') (write-blur z b'\n') (write-blur (write z b'\\') char))))

in_quote-blur : (z : ConfTokenizer) (char : ℕ) → Same (in_quote z char) (in_quote (blur z) char)
unfolding in_quote blur
in_quote-blur z char = if_rel Same (char == b'\\') (kept (record z { escaped = true })) (
    if_rel Same (char == z.quote) (kept (record z { quote = 0; need_space = true }))
      (kept (record z { token = z.token +++ (char ∷ []) })))

next-blur : (z : ConfTokenizer) (char : ℕ) → Alike (next z char) (next (blur z) char)
unfolding next after_quote outside_quote blur
next-blur z char =
    if_rel Alike z.comment
      (both _ _ (if_rel Same (char == b'\n') (kept (record z { comment = false })) (kept z)))
      (if_rel Alike z.escaped (both _ _ (write_escaped-blur (record z { escaped = false }) char)) (
        if_rel Alike (not (z.quote == 0)) (both _ _ (in_quote-blur z char)) (
          if_rel Alike z.need_space
            (classify_after_quote-blur (record z { need_space = false }) char)
            (if_rel Alike (char == b'{' && z.variable) (both _ _ (write-blur z char))
              (classify_outside_quote-blur (record z { variable = false }) char)))))

accepted-injective : (x y : ConfTokenizer) → accepted (blur x) ≡ accepted (blur y) → Same x y
unfolding Same
accepted-injective x y e = cc

resume :
    (conf : Bytes) (p q : Parsed ConfTokenizer)
    → ((x x' : ConfTokenizer) → Same x x' → Alike (run x conf) (run x' conf))
    → Alike p q
    → Alike
        (elim p [ refused err ↦ refused err | accepted x ↦ run x conf ])
        (elim q [ refused err ↦ refused err | accepted x ↦ run x conf ])
unfolding Alike
resume conf (refused err) (refused err') more h = h
resume conf (refused err) (accepted x) more h = cc
resume conf (accepted x) (refused err) more h = cc
resume conf (accepted x) (accepted x') more h = more x x' (accepted-injective x x' h)

-- Scans that look the same end alike on the same rest.
pub run-Alike : (conf : Bytes) (z y : ConfTokenizer) → Same z y → Alike (run z conf) (run y conf)
unfolding run
run-Alike [] z y e = both z y e
run-Alike (char ∷ conf) z y e =
    resume conf (next z char) (next y char) (run-Alike conf)
      (through (λ x. next x char) (λ x. next-blur x char) z y e)

-- It is enough that they look the same after a byte.
pub run-next-Alike :
    (char : ℕ) (conf : Bytes) (z y : ConfTokenizer)
    → Alike (next z char) (next y char)
    → Alike (run z (char ∷ conf)) (run y (char ∷ conf))
unfolding run
run-next-Alike char conf z y h = resume conf (next z char) (next y char) (run-Alike conf) h
