-- ===== src/Tokenizer/Items.antt =====
-- A reader of configurations that are given as pieces, each of which ends with a semicolon or a brace,
-- and the tokenizer on their text, whether they are in order or not.
use Prim.Native.Nat.{zero, suc}
use mathlib.Core.List.{append-nil}
use ingress_nextgen.Common.{List, [], ap, arith, refl, suc, sym, zero, ℕ, ◌+++◌, ◌∙◌, ◌∷◌, ◌≡◌}
use ingress_nextgen.Common.Bytes.{Bytes}
use ingress_nextgen.Tokenizer.{
  Parsed, Statement, accepted, at_end, close_brace, end_in_block, end_in_statement, finish,
  open_brace, refused, run, tokenize, unexpected_close, unexpected_open, unexpected_semicolon,
}
use ingress_nextgen.Tokenizer.Printed.{between, print_words, run-print_words}

-- Words and what stands behind them: a semicolon, an opening or a closing brace.
pub data Piece : Type 0 where
  ends : List Bytes → Piece
  begins : List Bytes → Piece
  leaves : List Bytes → Piece

-- The pieces, and then words behind which nothing stands.
unfoldable pub print_pieces : List Piece → List Bytes → Bytes
unfolding print_words
print_pieces [] rest = print_words rest
print_pieces (ends words ∷ ps) rest = print_words words +++ (b';' ∷ print_pieces ps rest)
print_pieces (begins words ∷ ps) rest = print_words words +++ (b'{' ∷ print_pieces ps rest)
print_pieces (leaves words ∷ ps) rest = print_words words +++ (b'}' ∷ print_pieces ps rest)

-- Reading at a depth, behind some statements.
unfoldable pub read_pieces : ℕ → List Statement → List Piece → List Bytes → Parsed (List Statement)
read_pieces d before [] (w ∷ rest) = refused end_in_statement
read_pieces zero before [] [] = accepted before
read_pieces (suc d) before [] [] = refused end_in_block
read_pieces d before (ends [] ∷ ps) rest = refused unexpected_semicolon
read_pieces d before (ends (w ∷ words) ∷ ps) rest =
    read_pieces d (before +++ (record { depth = d; words = w ∷ words } ∷ [])) ps rest
read_pieces d before (begins [] ∷ ps) rest = refused unexpected_open
read_pieces d before (begins (w ∷ words) ∷ ps) rest =
    read_pieces (suc d)
      (before +++ (record { depth = d; words = (w ∷ words) +++ (open_brace ∷ []) } ∷ [])) ps rest
read_pieces d before (leaves (w ∷ words) ∷ ps) rest = refused unexpected_close
read_pieces zero before (leaves [] ∷ ps) rest = refused unexpected_close
read_pieces (suc d) before (leaves [] ∷ ps) rest =
    read_pieces d (before +++ (record { depth = d; words = close_brace ∷ [] } ∷ [])) ps rest

at_end-words :
    (d : ℕ) (before : List Statement) (w : Bytes) (ws : List Bytes)
    → at_end (between before (w ∷ ws) d) ≡ refused end_in_statement
unfolding at_end
at_end-words d before w ws = ground arith

run-print_pieces :
    (d : ℕ) (before : List Statement) (ps : List Piece) (rest : List Bytes)
    → finish (run (between before [] d) (print_pieces ps rest)) ≡ read_pieces d before ps rest
unfolding print_pieces read_pieces run at_end
run-print_pieces d before [] (w ∷ rest) =
    ap (λ t. finish (run (between before [] d) t)) (sym (append-nil (print_words (w ∷ rest))))
    ∙ ap finish (run-print_words before [] d (w ∷ rest) [])
    ∙ at_end-words d before w rest
run-print_pieces zero before [] [] = refl
run-print_pieces (suc d) before [] [] = ground arith
run-print_pieces d before (ends [] ∷ ps) rest = refl
run-print_pieces d before (ends (w ∷ words) ∷ ps) rest =
    ap finish (run-print_words before [] d (w ∷ words) (b';' ∷ print_pieces ps rest))
    ∙ run-print_pieces d (before +++ (record { depth = d; words = w ∷ words } ∷ [])) ps rest
run-print_pieces d before (begins [] ∷ ps) rest = refl
run-print_pieces d before (begins (w ∷ words) ∷ ps) rest =
    ap finish (run-print_words before [] d (w ∷ words) (b'{' ∷ print_pieces ps rest))
    ∙ run-print_pieces (suc d)
        (before +++ (record { depth = d; words = (w ∷ words) +++ (open_brace ∷ []) } ∷ [])) ps rest
run-print_pieces d before (leaves (w ∷ words) ∷ ps) rest =
    ap finish (run-print_words before [] d (w ∷ words) (b'}' ∷ print_pieces ps rest))
run-print_pieces zero before (leaves [] ∷ ps) rest = refl
run-print_pieces (suc d) before (leaves [] ∷ ps) rest =
    run-print_pieces d (before +++ (record { depth = d; words = close_brace ∷ [] } ∷ [])) ps rest

-- The tokenizer reads the text of any pieces, each word in double quotes with a backslash before a
-- quote and before a backslash, as the reader of pieces does: with the same statements at the same
-- depths, or with the same error, for a semicolon or an opening brace without words, a closing brace
-- behind words or outside every block, words at the end, and a block that is open at the end.
pub tokenize-print_pieces :
    (ps : List Piece) (rest : List Bytes)
    → tokenize (print_pieces ps rest) ≡ read_pieces 0 [] ps rest
unfolding tokenize
tokenize-print_pieces ps rest = run-print_pieces 0 [] ps rest
