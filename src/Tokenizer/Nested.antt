-- ===== src/Tokenizer/Nested.antt =====
-- The statements that the tokenizer returns, and their depths.
use mathlib.Core.Path.{subst}
use Prim.Native.Nat.{zero, suc}
use mathlib.Core.List.{append_assoc, append-nil}
use ingress_nextgen.Common.{
  List, [], arith, false, if_elim, not, refl, string_eq, suc, sym, true, zero, ℕ, ℕ_eq, ◌&&◌, ◌+++◌,
  ◌==◌, ◌||◌, ◌∙◌, ◌∷◌, ◌≡◌,
}
use ingress_nextgen.Common.Bytes.{Bytes, Bytes_eq}
use ingress_nextgen.Tokenizer.{
  ConfTokenizer, Parsed, Statement, TokenizeError, accepted, after_quote, at_end,
  classify_after_quote, classify_outside_quote, close_block, close_brace, close_statement,
  enter_block, finish, flush_statement, flush_token, in_quote, is_space, leave_block, next,
  open_block, open_brace, outside_quote, refused, run, start, tokenize, write, write_escaped,
}

-- The statements that may stand from depth d to the end of a configuration. A simple statement may
-- have any words, since a quoted brace is a word.
pub data Nested : ℕ → List Statement → Type 0 where
  finished : Nested 0 []
  simple :
      {d : ℕ} {ss : List Statement} (word : Bytes) (words : List Bytes)
      → Nested d ss
      → Nested d (record { depth = d; words = word ∷ words } ∷ ss)
  opens :
      {d : ℕ} {ss : List Statement} (word : Bytes) (words : List Bytes)
      → Nested (suc d) ss
      → Nested d (record { depth = d; words = (word ∷ words) +++ (open_brace ∷ []) } ∷ ss)
  closes :
      {d : ℕ} {ss : List Statement}
      → Nested d ss
      → Nested (suc d) (record { depth = d; words = close_brace ∷ [] } ∷ ss)

-- What stands so far leads from the top to the present depth.
unfoldable Leads : ConfTokenizer → Type 0
Leads z = (rest : List Statement) → Nested z.depth rest → Nested 0 (z.statements +++ rest)

unfoldable Led : Parsed ConfTokenizer → Type 0
unfolding Leads
Led (refused err) = Unit
Led (accepted z) = Leads z

-- Only the statements and the depth count.
keeps : (z y : ConfTokenizer) → y.statements ≡ z.statements → y.depth ≡ z.depth → Leads z → Leads y
unfolding Leads
keeps z y e k h =
    λ rest n. subst (λ ss. Nested 0 (ss +++ rest)) (sym e) (h rest (subst (λ d. Nested d rest) k n))

go_on : (z : ConfTokenizer) → Leads z → Led (accepted z)
unfolding Led
go_on z h = h

stop : (err : TokenizeError) → Led (refused err)
unfolding Led
stop err = tt

snoc :
    (ss : List Statement) (s : Statement) (rest : List Statement)
    → Nested 0 (ss +++ (s ∷ rest))
    → Nested 0 ((ss +++ (s ∷ [])) +++ rest)
snoc ss s rest h = subst (Nested 0) (sym (append_assoc ss (s ∷ []) rest)) h

flush_token-Leads : (z : ConfTokenizer) → Leads z → Leads (flush_token z)
unfolding flush_token
flush_token-Leads z h = if_elim Leads z.in_token (keeps z _ refl refl h) h

close_statement-Led : (z : ConfTokenizer) (ws : List Bytes) → Leads z → Led (close_statement z ws)
unfolding Led
close_statement-Led z [] h = tt
close_statement-Led z (w ∷ ws) h = λ rest n. snoc _ _ _ (h _ (simple w ws n))

enter_block-Led : (z : ConfTokenizer) (ws : List Bytes) → Leads z → Led (enter_block z ws)
unfolding Led
enter_block-Led z [] h = tt
enter_block-Led z (w ∷ ws) h = λ rest n. snoc _ _ _ (h _ (opens w ws n))

leave_block-Led :
    (z : ConfTokenizer) (ws : List Bytes) (d : ℕ) → z.depth ≡ d → Leads z → Led (leave_block z ws d)
unfolding Led
leave_block-Led z (w ∷ ws) d e h = tt
leave_block-Led z [] zero e h = tt
leave_block-Led z [] (suc d) e h = λ rest n. snoc z.statements _ rest (
    h _ (
      subst (λ k. Nested k (record { depth = d; words = close_brace ∷ [] } ∷ rest)) (sym e)
        (closes n)))

flush_statement-Led : (z : ConfTokenizer) → Leads z → Led (flush_statement z)
unfolding flush_statement
flush_statement-Led z h =
    close_statement-Led (flush_token z) (flush_token z).words (flush_token-Leads z h)

open_block-Led : (z : ConfTokenizer) → Leads z → Led (open_block z)
unfolding open_block
open_block-Led z h = enter_block-Led (flush_token z) (flush_token z).words (flush_token-Leads z h)

close_block-Led : (z : ConfTokenizer) → Leads z → Led (close_block z)
unfolding close_block
close_block-Led z h =
    leave_block-Led (flush_token z) (flush_token z).words (flush_token z).depth refl
      (flush_token-Leads z h)

write-Leads : (z : ConfTokenizer) (char : ℕ) → Leads z → Leads (write z char)
unfolding write
write-Leads z char h = keeps z _ refl refl h

classify_after_quote-Led :
    (z : ConfTokenizer) (char : ℕ) → Leads z → Led (classify_after_quote z char)
unfolding classify_after_quote
classify_after_quote-Led z char h = if_elim Led _ (go_on _ (flush_token-Leads _ h)) (
    if_elim Led _ (flush_statement-Led _ h) (
      if_elim Led _ (open_block-Led _ h)
        (if_elim Led _ (go_on _ (write-Leads _ char (flush_token-Leads _ h))) (stop _))))

classify_outside_quote-Led :
    (z : ConfTokenizer) (char : ℕ) → Leads z → Led (classify_outside_quote z char)
unfolding classify_outside_quote
classify_outside_quote-Led z char h =
    if_elim Led (is_space char) (go_on _ (flush_token-Leads z h)) (
      if_elim Led (char == b';') (flush_statement-Led z h) (
        if_elim Led (char == b'{') (open_block-Led z h) (
          if_elim Led (char == b'}' && z.in_token) (go_on _ (write-Leads z char h)) (
            if_elim Led (char == b'}') (close_block-Led z h) (
              if_elim Led (char == b'#' && not z.in_token)
                (go_on (record z { comment = true }) (keeps z _ refl refl h))
                (if_elim Led (char == b'\\')
                  (go_on (record z { escaped = true; in_token = true }) (keeps z _ refl refl h))
                  (if_elim Led ((char == b'"' || char == b'\'') && not z.in_token)
                    (go_on (record z { quote = char; in_token = true }) (keeps z _ refl refl h))
                    (if_elim Led (char == b'$')
                      (go_on _
                        (write-Leads (record z { variable = true }) char (keeps z _ refl refl h)))
                      (go_on _ (write-Leads z char h))))))))))

write_escaped-Leads : (z : ConfTokenizer) (char : ℕ) → Leads z → Leads (write_escaped z char)
unfolding write_escaped
write_escaped-Leads z char h =
    if_elim Leads (char == b'"' || (char == b'\'' || char == b'\\')) (write-Leads z char h) (
      if_elim Leads (char == b't') (write-Leads z b'\t' h) (
        if_elim Leads (char == b'r') (write-Leads z b'\r' h) (
          if_elim Leads (char == b'n') (write-Leads z b'\n' h)
            (write-Leads (write z b'\\') char (write-Leads z b'\\' h)))))

in_quote-Leads : (z : ConfTokenizer) (char : ℕ) → Leads z → Leads (in_quote z char)
unfolding in_quote
in_quote-Leads z char h =
    if_elim Leads (char == b'\\') (keeps z (record z { escaped = true }) refl refl h) (
      if_elim Leads (char == z.quote)
        (keeps z (record z { quote = 0; need_space = true }) refl refl h)
        (keeps z (record z { token = z.token +++ (char ∷ []) }) refl refl h))

next-Led : (z : ConfTokenizer) (char : ℕ) → Leads z → Led (next z char)
unfolding next after_quote outside_quote
next-Led z char h =
    if_elim Led z.comment
      (go_on _
        (if_elim Leads (char == b'\n') (keeps z (record z { comment = false }) refl refl h) h))
      (if_elim Led z.escaped
        (go_on _ (write_escaped-Leads _ char (keeps z (record z { escaped = false }) refl refl h)))
        (if_elim Led (not (z.quote == 0)) (go_on _ (in_quote-Leads z char h)) (
          if_elim Led z.need_space
            (classify_after_quote-Led _ char
              (keeps z (record z { need_space = false }) refl refl h))
            (if_elim Led (char == b'{' && z.variable) (go_on _ (write-Leads z char h)) (
              classify_outside_quote-Led _ char
                (keeps z (record z { variable = false }) refl refl h))))))

run-Led : (z : ConfTokenizer) (conf : Bytes) → Leads z → Led (run z conf)
unfolding run Led
run-Led z [] h = go_on z h
run-Led z (char ∷ conf) h = go (next z char) (next-Led z char h) (λ y k. run-Led y conf k)
  where
    go :
        (r : Parsed ConfTokenizer)
        → Led r
        → ((y : ConfTokenizer) → Leads y → Led (run y conf))
        → Led (elim r [ refused err ↦ refused err | accepted y ↦ run y conf ])
    go (refused err) k more = k
    go (accepted y) k more = more y k

at_end-accepted :
    (z : ConfTokenizer) {statements : List Statement}
    → at_end z ≡ accepted statements
    → (z.depth ≡ 0) × (z.statements ≡ statements)
unfolding at_end
at_end-accepted z q = ground arith

-- The depths of the statements of an accepted configuration begin at 0 and end at 0, one that a
-- brace ends is followed at the depth that the brace leads to, and every statement has a word. A
-- quoted brace is a word like any other.
pub tokenize-Nested :
    (conf : Bytes) {statements : List Statement}
    → tokenize conf ≡ accepted statements
    → Nested 0 statements
unfolding tokenize Led
tokenize-Nested conf {statements} e = go (run start conf) (run-Led start conf (λ rest n. n)) e
  where
    go : (r : Parsed ConfTokenizer) → Led r → finish r ≡ accepted statements → Nested 0 statements
    go (refused err) k q = cc
    go (accepted z) k q =
        let (depth_zero, same) = at_end-accepted z q in
        subst (Nested 0) (append-nil z.statements ∙ same)
          (k [] (subst (λ d. Nested d []) (sym depth_zero) finished))
