-- ===== src/Tokenizer.antt =====
-- The tokenizer of NGINX configurations (internal/nginxconf/tokenizer.go): the scan of a text byte by
-- byte into statements, and the shape of a configuration.
pub mod Shape
pub mod Nested
pub mod Entries
pub mod Injection
pub mod Alike
pub mod Blurred
pub mod Printed
pub mod Items
use mathlib.Core.List.{List}
use Prim.Native.Nat.{zero, suc}
use ingress_nextgen.Common.{
  Bool, List, [], false, if◌then◌else◌, length, not, string_eq, suc, true, zero, ℕ, ℕ_eq, ◌&&◌,
  ◌+++◌, ◌==◌, ◌||◌, ◌∷◌,
}
use ingress_nextgen.Common.Bytes.{Bytes, Bytes_eq, bytes}

-- An opening brace as a word: the last word of the statement that opens a block.
abbrev pub open_brace : Bytes
open_brace = bytes "{"

abbrev pub close_brace : Bytes
close_brace = bytes "}"

-- Statement; the depth is never below 0 in a statement.
pub record Statement : Type 0 where
  pub depth : ℕ
  pub words : List Bytes

-- The errors, one constructor for a message.
pub data TokenizeError : Type 0 where
  -- unexpected %q
  unexpected_char : ℕ → TokenizeError
  -- unexpected ";"
  unexpected_semicolon : TokenizeError
  -- unexpected "{"
  unexpected_open : TokenizeError
  -- unexpected "}"
  unexpected_close : TokenizeError
  -- unexpected end of file, expecting ";" or "}"
  end_in_statement : TokenizeError
  -- unexpected end of file, expecting "}"
  end_in_block : TokenizeError

-- A Go result with an error.
pub data Parsed {ℓ} (A : Type ℓ) : Type ℓ where
  refused : TokenizeError → Parsed A
  accepted : A → Parsed A

-- confTokenizer; `quote` is 0 outside a quoted run.
pub record ConfTokenizer : Type 0 where
  pub statements : List Statement
  pub words : List Bytes
  pub token : Bytes
  pub depth : ℕ
  pub in_token : Bool
  pub quote : ℕ
  pub escaped : Bool
  pub need_space : Bool
  pub comment : Bool
  pub variable : Bool

-- var z confTokenizer
abbrev pub start : ConfTokenizer
start = record {
  statements = [];
  words = [];
  token = [];
  depth = 0;
  in_token = false;
  quote = 0;
  escaped = false;
  need_space = false;
  comment = false;
  variable = false;
}

unfoldable pub is_space : ℕ → Bool
is_space char = char == b' ' || (char == b'\t' || (char == b'\r' || char == b'\n'))

unfoldable pub write : ConfTokenizer → ℕ → ConfTokenizer
write z char = record z { token = z.token +++ (char ∷ []); in_token = true }

unfoldable pub write_escaped : ConfTokenizer → ℕ → ConfTokenizer
unfolding write
write_escaped z char =
    if char == b'"' || (char == b'\'' || char == b'\\')
    then write z char
    else if char == b't'
    then write z b'\t'
    else if char == b'r'
    then write z b'\r'
    else if char == b'n'
    then write z b'\n'
    else write (write z b'\\') char

unfoldable pub flush_token : ConfTokenizer → ConfTokenizer
flush_token z =
    if z.in_token
    then record z { words = z.words +++ (z.token ∷ []); token = []; in_token = false }
    else z

-- The statement of the words, once the pending token is one of them.
abbrev pub close_statement : ConfTokenizer → List Bytes → Parsed ConfTokenizer
close_statement z [] = refused unexpected_semicolon
close_statement z (word ∷ words) = accepted (record z {
  statements = z.statements +++ (record { depth = z.depth; words = word ∷ words } ∷ []);
  words = [];
})

unfoldable pub flush_statement : ConfTokenizer → Parsed ConfTokenizer
unfolding flush_token
flush_statement z = let y = flush_token z in close_statement y y.words

abbrev pub enter_block : ConfTokenizer → List Bytes → Parsed ConfTokenizer
enter_block z [] = refused unexpected_open
enter_block z (word ∷ words) = accepted (record z {
  statements =
      z.statements
      +++ (record { depth = z.depth; words = (word ∷ words) +++ (open_brace ∷ []) } ∷ []);
  words = [];
  depth = suc z.depth;
})

unfoldable pub open_block : ConfTokenizer → Parsed ConfTokenizer
unfolding flush_token
open_block z = let y = flush_token z in enter_block y y.words

-- The depth goes below 0 only in the error.
abbrev pub leave_block : ConfTokenizer → List Bytes → ℕ → Parsed ConfTokenizer
leave_block z (word ∷ words) depth = refused unexpected_close
leave_block z [] zero = refused unexpected_close
leave_block z [] (suc depth) = accepted (record z {
  depth = depth;
  statements = z.statements +++ (record { depth = depth; words = close_brace ∷ [] } ∷ []);
})

unfoldable pub close_block : ConfTokenizer → Parsed ConfTokenizer
unfolding flush_token
close_block z = let y = flush_token z in leave_block y y.words y.depth

unfoldable pub in_quote : ConfTokenizer → ℕ → ConfTokenizer
in_quote z char =
    if char == b'\\'
    then record z { escaped = true }
    else if char == z.quote
    then record z { quote = 0; need_space = true }
    else record z { token = z.token +++ (char ∷ []) }

-- The switch of afterQuote, after the assignment.
unfoldable pub classify_after_quote : ConfTokenizer → ℕ → Parsed ConfTokenizer
unfolding is_space flush_token flush_statement open_block write
classify_after_quote z char =
    if is_space char
    then accepted (flush_token z)
    else if char == b';'
    then flush_statement z
    else if char == b'{'
    then open_block z
    else if char == b')'
    then accepted (write (flush_token z) char)
    else refused (unexpected_char char)

unfoldable pub after_quote : ConfTokenizer → ℕ → Parsed ConfTokenizer
unfolding classify_after_quote
after_quote z char = classify_after_quote (record z { need_space = false }) char

unfoldable pub classify_outside_quote : ConfTokenizer → ℕ → Parsed ConfTokenizer
unfolding is_space flush_token flush_statement open_block close_block write
classify_outside_quote z char =
    if is_space char
    then accepted (flush_token z)
    else if char == b';'
    then flush_statement z
    else if char == b'{'
    then open_block z
    else if char == b'}' && z.in_token
    then accepted (write z char)
    else if char == b'}'
    then close_block z
    else if char == b'#' && not z.in_token
    then accepted (record z { comment = true })
    else if char == b'\\'
    then accepted (record z { escaped = true; in_token = true })
    else if (char == b'"' || char == b'\'') && not z.in_token
    then accepted (record z { quote = char; in_token = true })
    else if char == b'$'
    then accepted (write (record z { variable = true }) char)
    else accepted (write z char)

unfoldable pub outside_quote : ConfTokenizer → ℕ → Parsed ConfTokenizer
unfolding classify_outside_quote write
outside_quote z char =
    if char == b'{' && z.variable
    then accepted (write z char)
    else classify_outside_quote (record z { variable = false }) char

unfoldable pub next : ConfTokenizer → ℕ → Parsed ConfTokenizer
unfolding write_escaped in_quote after_quote outside_quote
next z char =
    if z.comment
    then accepted (if char == b'\n' then record z { comment = false } else z)
    else if z.escaped
    then accepted (write_escaped (record z { escaped = false }) char)
    else if not (z.quote == 0)
    then accepted (in_quote z char)
    else if z.need_space
    then after_quote z char
    else outside_quote z char

-- The loop of Tokenize over the bytes.
unfoldable pub run : ConfTokenizer → Bytes → Parsed ConfTokenizer
unfolding next
run z [] = accepted z
run z (char ∷ conf) = elim (next z char) [ refused err ↦ refused err | accepted y ↦ run y conf ]

unfoldable pub at_end : ConfTokenizer → Parsed (List Statement)
at_end z =
    if not (z.quote == 0) || (z.escaped || (z.in_token || not (length z.words == 0)))
    then refused end_in_statement
    else if not (z.depth == 0)
    then refused end_in_block
    else accepted z.statements

abbrev pub finish : Parsed ConfTokenizer → Parsed (List Statement)
finish (refused err) = refused err
finish (accepted z) = at_end z

unfoldable pub tokenize : Bytes → Parsed (List Statement)
unfolding run at_end
tokenize conf = finish (run start conf)
