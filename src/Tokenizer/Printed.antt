-- ===== src/Tokenizer/Printed.antt =====
-- Printing statements so that the tokenizer reads them back: every word in double quotes, with a
-- backslash before a quote and before a backslash.
use mathlib.Core.List.{append_assoc, append-nil}
use ingress_nextgen.Common.{
  List, [], ap, arith, if◌then◌else◌, refl, string_eq, true, ℕ, ℕ_eq, ◌+++◌, ◌==◌, ◌||◌, ◌∙◌, ◌∷◌,
  ◌≡◌,
}
use ingress_nextgen.Common.Bytes.{Bytes, Bytes_eq}
use ingress_nextgen.Tokenizer.{
  ConfTokenizer, Statement, accepted, close_brace, open_brace, run, start, tokenize,
}
use ingress_nextgen.Tokenizer.Nested.{Nested, closes, finished, opens, simple}

unfoldable pub escape : Bytes → Bytes
escape [] = []
escape (c ∷ w) =
    let rest = escape w in if c == b'"' || c == b'\\' then b'\\' ∷ c ∷ rest else c ∷ rest

unfoldable pub quoted : Bytes → Bytes
unfolding escape
quoted w = b'"' ∷ (escape w +++ (b'"' ∷ []))

unfoldable pub print_words : List Bytes → Bytes
unfolding quoted
print_words [] = []
print_words (w ∷ ws) = quoted w +++ (b' ' ∷ print_words ws)

-- The configuration of statements that are properly nested.
unfoldable pub print : {d : ℕ} {ss : List Statement} → Nested d ss → Bytes
unfolding print_words
print finished = []
print (simple word words n) = print_words (word ∷ words) +++ (b';' ∷ print n)
print (opens word words n) = print_words (word ∷ words) +++ (b'{' ∷ print n)
print (closes n) = b'}' ∷ print n

-- Between two tokens, and inside a quoted run.
abbrev pub between : List Statement → List Bytes → ℕ → ConfTokenizer
between ss ws d = record start { statements = ss; words = ws; depth = d }

abbrev pub inside : List Statement → List Bytes → ℕ → Bytes → ConfTokenizer
inside ss ws d t = record start {
  statements = ss;
  words = ws;
  token = t;
  depth = d;
  in_token = true;
  quote = b'"';
}

module _ (ss : List Statement) (ws : List Bytes) (d : ℕ) (rest : Bytes) where
  pub run-escape :
      (t w : Bytes)
      → run (inside ss ws d t) (escape w +++ rest) ≡ run (inside ss ws d (t +++ w)) rest
  unfolding run escape
  run-escape t [] = rw append-nil
  run-escape t (c ∷ w) = ground (arith, run-escape (t +++ (c ∷ [])) w, append_assoc t (c ∷ []) w)

-- A quoted word is a word of the statement, whatever its bytes are.
pub run-quoted :
    (ss : List Statement) (ws : List Bytes) (d : ℕ) (w rest : Bytes)
    → run (between ss ws d) (quoted w +++ (b' ' ∷ rest)) ≡ run (between ss (ws +++ (w ∷ [])) d) rest
unfolding run quoted
run-quoted ss ws d w rest =
    ap (run (inside ss ws d [])) (append_assoc (escape w) (b'"' ∷ []) (b' ' ∷ rest))
    ∙ run-escape ss ws d (b'"' ∷ b' ' ∷ rest) [] w

pub run-print_words :
    (ss : List Statement) (vs : List Bytes) (d : ℕ) (ws : List Bytes) (rest : Bytes)
    → run (between ss vs d) (print_words ws +++ rest) ≡ run (between ss (vs +++ ws) d) rest
unfolding print_words
run-print_words ss vs d [] rest = rw append-nil
run-print_words ss vs d (w ∷ ws) rest =
    ap (run (between ss vs d)) (append_assoc (quoted w) (b' ' ∷ print_words ws) rest)
    ∙ run-quoted ss vs d w (print_words ws +++ rest)
    ∙ run-print_words ss (vs +++ (w ∷ [])) d ws rest
    ∙ ap (λ us. run (between ss us d) rest) (append_assoc vs (w ∷ []) ws)

run-print :
    {d : ℕ} {ss : List Statement} (before : List Statement) (n : Nested d ss)
    → run (between before [] d) (print n) ≡ accepted (between (before +++ ss) [] 0)
unfolding print run
run-print before finished = rw append-nil
run-print before (simple {d} {ss} word words n) =
    run-print_words before [] d (word ∷ words) (b';' ∷ print n)
    ∙ run-print (before +++ (record { depth = d; words = word ∷ words } ∷ [])) n
    ∙ ap (λ us. accepted (between us [] 0)) (append_assoc before _ ss)
run-print before (opens {d} {ss} word words n) =
    run-print_words before [] d (word ∷ words) (b'{' ∷ print n)
    ∙ run-print
        (before +++ (record { depth = d; words = (word ∷ words) +++ (open_brace ∷ []) } ∷ [])) n
    ∙ ap (λ us. accepted (between us [] 0)) (append_assoc before _ ss)
run-print before (closes {d} {ss} n) =
    run-print (before +++ (record { depth = d; words = close_brace ∷ [] } ∷ [])) n
    ∙ ap (λ us. accepted (between us [] 0)) (append_assoc before _ ss)

-- For statements that are properly nested, the tokenizer reads their print, each word in double
-- quotes with a backslash before a quote and before a backslash, back as these very statements,
-- whatever the bytes of the words are.
pub tokenize-print : {ss : List Statement} (n : Nested 0 ss) → tokenize (print n) ≡ accepted ss
unfolding tokenize
tokenize-print n = rw (tokenize, run-print [] n) refl
