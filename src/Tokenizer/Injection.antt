-- ===== src/Tokenizer/Injection.antt =====
-- Shape and values: a quoted value does not become syntax, whatever its bytes are.
use mathlib.Core.List.{append_assoc}
use ingress_nextgen.Common.{
  Bool, List, [], ap, arith, false, if_rel, if◌then◌else◌, length, map, not, refl, some, string_eq,
  sym, true, ℕ, ℕ_eq, ◌+++◌, ◌==◌, ◌>>=◌, ◌||◌, ◌∙◌, ◌∷◌, ◌≡◌, ◌≢◌,
}
use ingress_nextgen.Common.Bytes.{Bytes, Bytes_eq, bytes_eq_iff}
use ingress_nextgen.Common.Maps.{Map}
use ingress_nextgen.Tokenizer.Shape.{entries, last, shape, shape_loop, shape_named, shape_step}
use ingress_nextgen.Tokenizer.{
  ConfTokenizer, Parsed, Statement, accepted, after_quote, at_end, classify_after_quote,
  close_statement, end_in_block, end_in_statement, enter_block, finish, flush_statement,
  flush_token, is_space, next, open_block, open_brace, refused, run, start, tokenize,
  unexpected_char, write,
}
use ingress_nextgen.Tokenizer.Blurred.{
  Alike, Same, blur, blur_result, blur_statement, blur_words, both, close_statement-blur,
  enter_block-blur, fail, is_open, last-snoc, through, write-blur,
}
use ingress_nextgen.Tokenizer.Printed.{between, escape, inside, quoted, run-escape}
use ingress_nextgen.Tokenizer.Alike.{run-next-Alike}

last-cons : (w : Bytes) (ws : List Bytes) → (final : Bytes) × (last (w ∷ ws) ≡ some final)
last-cons w [] = (w, refl)
last-cons w (v ∷ ws) = last-cons v ws

shape_named-open :
    (m : Map ℕ Bool) (d : ℕ) (name final other : Bytes)
    → (final == open_brace) ≡ (other == open_brace)
    → shape_named m d name final ≡ shape_named m d name other
unfolding shape_named
shape_named-open m d name final other e = rw e

open_mark : (b : Bool) → ((if b then open_brace else []) == open_brace) ≡ b
open_mark true = refl
open_mark false = refl

-- What Shape writes for a statement is seen in the blurred statement.
shape_step-blur :
    (m : Map ℕ Bool) (s : Statement) → shape_step m (blur_statement s) ≡ shape_step m s
unfolding shape_step blur_statement blur_words
shape_step-blur m s = go s.words
  where
    go :
        (ws : List Bytes)
        → shape_step m (record { depth = s.depth; words = blur_words ws })
          ≡ shape_step m (record { depth = s.depth; words = ws })
    go [] = refl
    go (w ∷ ws) =
        let (final, e) = last-cons w ws in
        rw e (
          ap some (
            shape_named-open m s.depth w (if final == open_brace then open_brace else []) final
              (open_mark (final == open_brace))))

shape_loop-blur :
    (m : Map ℕ Bool) (ss : List Statement) → shape_loop m (map blur_statement ss) ≡ shape_loop m ss
unfolding shape_loop
shape_loop-blur m [] = refl
shape_loop-blur m (s ∷ ss) =
    rw (shape_step-blur m s)
      λ i. shape_step m s >>= λ x. shape_loop-blur x.0 ss i >>= λ rest. some (x.1 ∷ rest)

nil-blur : (ws : List Bytes) → (length (blur_words ws) == 0) ≡ (length ws == 0)
unfolding blur_words
nil-blur [] = refl
nil-blur (w ∷ ws) = ground arith

entries-blur : (p : Parsed ConfTokenizer) → entries (finish (blur_result p)) ≡ entries (finish p)
unfolding at_end blur
entries-blur (refused err) = refl
entries-blur (accepted z) =
    ap
      (λ b. entries (
        if not (z.quote == 0) || (z.escaped || (z.in_token || not b))
        then refused end_in_statement
        else if not (z.depth == 0)
        then refused end_in_block
        else accepted (map blur_statement z.statements)))
      (nil-blur z.words)
    ∙ if_rel (λ p q. entries p ≡ entries q)
        (not (z.quote == 0) || (z.escaped || (z.in_token || not (length z.words == 0)))) refl
        (if_rel (λ p q. entries p ≡ entries q) (not (z.depth == 0)) refl
          (λ i. shape_loop-blur [] z.statements i >>= λ shape. some (accepted shape)))

entries-Alike : (p q : Parsed ConfTokenizer) → Alike p q → entries (finish p) ≡ entries (finish q)
unfolding Alike
entries-Alike p q e = sym (entries-blur p) ∙ ap (λ r. entries (finish r)) e ∙ entries-blur q

run-append :
    (z : ConfTokenizer) (pre post : Bytes) {y : ConfTokenizer}
    → run z pre ≡ accepted y
    → run z (pre +++ post) ≡ run y post
unfolding run
run-append z [] post e = cc
run-append z (char ∷ pre) post {y} e = go (next z char) e (λ x k. run-append x pre post k)
  where
    go :
        (p : Parsed ConfTokenizer)
        → (elim p [ refused err ↦ refused err | accepted x ↦ run x pre ]) ≡ accepted y
        → ((x : ConfTokenizer) → run x pre ≡ accepted y → run x (pre +++ post) ≡ run y post)
        → (elim p [ refused err ↦ refused err | accepted x ↦ run x (pre +++ post) ]) ≡ run y post
    go (refused err) e more = cc
    go (accepted x) e more = more x e

module _ (ss : List Statement) (name : Bytes) (ws : List Bytes) (d : ℕ) where
  -- after the closing quote of v
  abbrev after : Bytes → ConfTokenizer
  after v = record (inside ss (name ∷ ws) d v) { quote = 0; need_space = true }

  run-value :
      (v post : Bytes) → run (between ss (name ∷ ws) d) (quoted v +++ post) ≡ run (after v) post
  unfolding run quoted
  run-value v post =
      ap (run (inside ss (name ∷ ws) d [])) (append_assoc (escape v) (b'"' ∷ []) post)
      ∙ run-escape ss (name ∷ ws) d (b'"' ∷ post) [] v

  flushed-Same :
      (v w : Bytes)
      → (v == open_brace) ≡ (w == open_brace)
      → Same
          (flush_token (record (after v) { need_space = false }))
          (flush_token (record (after w) { need_space = false }))
  unfolding Same blur blur_words flush_token
  flushed-Same v w e =
      λ i. record (between (map blur_statement ss) (blurred i) d) { need_space = false }
    where
      snoc_words :
          (u : Bytes)
          → blur_words ((name ∷ ws) +++ (u ∷ []))
            ≡ name ∷ (if u == open_brace then open_brace else []) ∷ []
      snoc_words u =
          ap (λ o. name ∷ (if is_open o then open_brace else []) ∷ []) (last-snoc (name ∷ ws) u)

      blurred : blur_words ((name ∷ ws) +++ (v ∷ [])) ≡ blur_words ((name ∷ ws) +++ (w ∷ []))
      blurred =
          snoc_words v ∙ ap (λ b. name ∷ (if b then open_brace else []) ∷ []) e ∙ sym (snoc_words w)

  next-Alike :
      (v w : Bytes) (char : ℕ)
      → (v == open_brace) ≡ (w == open_brace)
      → Alike (next (after v) char) (next (after w) char)
  unfolding next after_quote classify_after_quote flush_statement open_block blur blur_words
  next-Alike v w char e = if_rel Alike (is_space char) (both _ _ (flushed-Same v w e)) (
      if_rel Alike (char == b';')
        (through (λ y. close_statement y y.words) (λ y. close_statement-blur y y.words) _ _
          (flushed-Same v w e))
        (if_rel Alike (char == b'{')
          (through (λ y. enter_block y y.words) (λ y. enter_block-blur y y.words) _ _
            (flushed-Same v w e))
          (if_rel Alike (char == b')')
            (through (λ y. accepted (write y char)) (λ y. both _ _ (write-blur y char)) _ _
              (flushed-Same v w e))
            (fail (unexpected_char char)))))

  shape_after :
      (v w post : Bytes)
      → (v == open_brace) ≡ (w == open_brace)
      → entries (finish (run (after v) post)) ≡ entries (finish (run (after w) post))
  unfolding at_end run
  shape_after v w [] e = refl
  shape_after v w (char ∷ post) e =
      entries-Alike _ _ (run-next-Alike char post (after v) (after w) (next-Alike v w char e))

-- For a text that ends between two words of a statement that has its name, and two values other
-- than an opening brace, writing the one or the other in quotes there gives the same shape or the
-- same error, whatever the bytes of the values are and whatever follows.
pub shape-quoted :
    (pre post : Bytes) (ss : List Statement) (name : Bytes) (ws : List Bytes) (d : ℕ) (v w : Bytes)
    → run start pre ≡ accepted (between ss (name ∷ ws) d)
    → v ≢ open_brace
    → w ≢ open_brace
    → shape (pre +++ (quoted v +++ post)) ≡ shape (pre +++ (quoted w +++ post))
unfolding shape tokenize
shape-quoted pre post ss name ws d v w e hv hw =
    ap entries (ap finish (both_runs v))
    ∙ shape_after ss name ws d v w post (rw (ne v hv, ne w hw) refl)
    ∙ sym (ap entries (ap finish (both_runs w)))
  where
    both_runs :
        (u : Bytes) → run start (pre +++ (quoted u +++ post)) ≡ run (after ss name ws d u) post
    both_runs u = run-append start pre (quoted u +++ post) e ∙ run-value ss name ws d u post

    ne : (u : Bytes) → u ≢ open_brace → (u == open_brace) ≡ false
    ne u h = ground (arith, bytes_eq_iff u open_brace)
