-- ===== src/Tokenizer/Shape.antt =====
-- The shape of a configuration (internal/nginxconf/tokenizer.go): the names of its statements and
-- their depths.
use Prim.Native.Nat.{suc}
use ingress_nextgen.Common.{
  Bool, List, Option, [], contains, false, if◌then◌else◌, map, none, refl, some, string_eq, suc,
  true, ℕ, ℕ_eq, ◌&&◌, ◌+++◌, ◌==◌, ◌>>=◌, ◌∷◌, ◌≡◌,
}
use ingress_nextgen.Common.Maps.{Map, insert, lookup, remove}
use ingress_nextgen.Common.Bytes.{Bytes, Bytes_eq, bytes}
use ingress_nextgen.Common.Decimal.{format_uint}
use ingress_nextgen.Tokenizer.{
  Parsed, Statement, accepted, close_brace, open_brace, refused, tokenize,
}

unfoldable pub data_blocks : List Bytes
data_blocks =
    bytes "map" ∷ bytes "geo" ∷ bytes "split_clients" ∷ bytes "types" ∷ bytes "charset_map" ∷ []

-- fmt.Sprintf("%d:%s", depth, name)
unfoldable pub shape_entry : ℕ → Bytes → Bytes
shape_entry depth name = format_uint depth +++ (b':' ∷ name)

abbrev pub head : List Bytes → Option Bytes
head [] = none
head (w ∷ ws) = some w

abbrev pub last : List Bytes → Option Bytes
last [] = none
last (w ∷ []) = some w
last (_ ∷ w ∷ ws) = last (w ∷ ws)

-- in_data_block[depth]: false where the map has no entry
abbrev is_set : Option Bool → Bool
is_set none = false
is_set (some b) = b

-- The body of the loop of Shape, after the statement's first and last words.
unfoldable pub shape_named : Map ℕ Bool → ℕ → Bytes → Bytes → Map ℕ Bool × Bytes
unfolding data_blocks shape_entry
shape_named in_data_block depth name final =
    if name == close_brace
    then (remove (suc depth) in_data_block, shape_entry depth close_brace)
    else if is_set (lookup depth in_data_block)
    then (in_data_block, shape_entry depth (bytes "<entry>"))
    else if final == open_brace && contains data_blocks name
    then (insert (suc depth) true in_data_block, shape_entry depth name)
    else (in_data_block, shape_entry depth name)

-- The depths at which a data block is open, and the entry of a statement; `none` where the code
-- would index an empty list of words.
unfoldable pub shape_step : Map ℕ Bool → Statement → Option (Map ℕ Bool × Bytes)
unfolding shape_named
shape_step in_data_block s = do
  name ← head s.words
  final ← last s.words
  some (shape_named in_data_block s.depth name final)

unfoldable pub shape_loop : Map ℕ Bool → List Statement → Option (List Bytes)
unfolding shape_step
shape_loop in_data_block [] = some []
shape_loop in_data_block (s ∷ ss) = do
  (blocks, entry) ← shape_step in_data_block s
  rest ← shape_loop blocks ss
  some (entry ∷ rest)

abbrev pub entries : Parsed (List Statement) → Option (Parsed (List Bytes))
entries (refused err) = some (refused err)
entries (accepted statements) = shape_loop [] statements >>= λ shape. some (accepted shape)

-- Shape; `none` is a panic of the code.
unfoldable pub shape : Bytes → Option (Parsed (List Bytes))
unfolding tokenize shape_loop format_uint lookup contains remove insert
shape conf = entries (tokenize conf)

data_block-shape :
    shape (bytes "map $a $b {\n default one;\n}\nserver {\n listen 80;\n}\n")
    ≡ some (
        accepted (map bytes ("0:map" ∷ "1:<entry>" ∷ "0:}" ∷ "0:server" ∷ "1:listen" ∷ "0:}" ∷ [])))
unfolding shape
data_block-shape = refl

escaped_quote-shape :
    shape (bytes "server {\n add_header X \"value\\\"; location / { return 500; } #\";\n}\n")
    ≡ some (accepted (map bytes ("0:server" ∷ "1:add_header" ∷ "0:}" ∷ [])))
unfolding shape
escaped_quote-shape = refl

-- A quoted brace as the last argument is taken for the start of a block: after it `listen` is an
-- entry, where it is a directive after any other value.
open_brace_value-shape :
    shape (bytes "geo $a \"{\";\nserver {\n listen 80;\n}\n")
    ≡ some (accepted (map bytes ("0:geo" ∷ "0:server" ∷ "1:<entry>" ∷ "0:}" ∷ [])))
unfolding shape
open_brace_value-shape = refl
