-- ===== src/Scenarios/Configs.antt =====
-- NGINX configurations at concrete inputs: printing and reading statements, and a quoted value.
use ingress_nextgen.Common.{List, [], arith, length, refl, some, ◌+++◌, ◌∷◌, ◌≡◌}
use ingress_nextgen.Common.Bytes.{Bytes, bytes}
use ingress_nextgen.Tokenizer.{Statement, accepted, run, start, tokenize}
use ingress_nextgen.Tokenizer.Shape.{shape}
use ingress_nextgen.Tokenizer.Items.{
  begins, ends, leaves, print_pieces, read_pieces, tokenize-print_pieces,
}
use ingress_nextgen.Tokenizer.Nested.{Nested, closes, finished, opens, simple}
use ingress_nextgen.Tokenizer.Printed.{between, print, quoted, tokenize-print}
use ingress_nextgen.Tokenizer.Injection.{shape-quoted}
use ingress_nextgen.Tokenizer.Entries.{shape-tokenize}

-- server { add_header X "a;\" b"; }
abbrev header_words : List Bytes
header_words = bytes "X" ∷ bytes "a;\" b" ∷ []

abbrev header_statements : List Statement
header_statements =
    (record { depth = 0; words = bytes "server" ∷ bytes "{" ∷ [] })
    ∷ (record { depth = 1; words = bytes "add_header" ∷ header_words })
    ∷ (record { depth = 0; words = bytes "}" ∷ [] })
    ∷ []

abbrev header_nested : Nested 0 header_statements
header_nested =
    opens (bytes "server") [] (simple (bytes "add_header") header_words (closes finished))

tokenize-print_example : tokenize (print header_nested) ≡ accepted header_statements
tokenize-print_example = tokenize-print header_nested

abbrev header_conf : Bytes
header_conf = bytes "server {\n add_header X \"a;\\\" b\";\n}\n"

tokenize-header_conf : tokenize header_conf ≡ accepted header_statements
unfolding tokenize
tokenize-header_conf = refl

tokenize-print_pieces_example :
    tokenize (
      print_pieces
        (begins (bytes "server" ∷ []) ∷ ends (bytes "}" ∷ []) ∷ leaves [] ∷ leaves [] ∷ [])
        [])
    ≡ read_pieces 0 []
        (begins (bytes "server" ∷ []) ∷ ends (bytes "}" ∷ []) ∷ leaves [] ∷ leaves [] ∷ [])
        []
tokenize-print_pieces_example =
    tokenize-print_pieces
      (begins (bytes "server" ∷ []) ∷ ends (bytes "}" ∷ []) ∷ leaves [] ∷ leaves [] ∷ []) []

shape-tokenize_example :
    (entries : List Bytes) × (shape header_conf ≡ some (accepted entries))
    × (length entries ≡ length header_statements)
shape-tokenize_example = shape-tokenize header_conf tokenize-header_conf

abbrev before_value : Bytes
before_value = bytes "server {\n add_header X "

abbrev after_value : Bytes
after_value = bytes ";\n}\n"

run-before_value :
    run start before_value
    ≡ accepted (
        between
          ((record { depth = 0; words = bytes "server" ∷ bytes "{" ∷ [] }) ∷ [])
          (bytes "add_header" ∷ bytes "X" ∷ [])
          1)
unfolding run
run-before_value = refl

shape-quoted_example :
    shape (before_value +++ (quoted (bytes "\"; location / { return 500; } #") +++ after_value))
    ≡ shape (before_value +++ (quoted (bytes "value") +++ after_value))
shape-quoted_example =
    shape-quoted before_value after_value _ (bytes "add_header") (bytes "X" ∷ []) 1
      (bytes "\"; location / { return 500; } #") (bytes "value") run-before_value (ground arith)
      (ground arith)
