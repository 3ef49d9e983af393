-- ===== src/Tokenizer/Entries.antt =====
-- Shape indexes the first and the last word of each statement; no statement is empty.
use Prim.Native.Nat.{suc}
use ingress_nextgen.Common.{Bool, List, Option, [], ap, length, refl, some, suc, ℕ, ◌+++◌, ◌∷◌, ◌≡◌}
use ingress_nextgen.Common.Bytes.{Bytes}
use ingress_nextgen.Common.Maps.{Map}
use ingress_nextgen.Tokenizer.{Statement, accepted, close_brace, open_brace, tokenize}
use ingress_nextgen.Tokenizer.Shape.{entries, last, shape, shape_loop, shape_named, shape_step}
use ingress_nextgen.Tokenizer.Nested.{Nested, closes, finished, opens, simple, tokenize-Nested}

-- All entries, one for a statement.
abbrev Entries : List Statement → Option (List Bytes) → Type 0
Entries ss o = (shape : List Bytes) × (o ≡ some shape) × (length shape ≡ length ss)

last-cons : (w : Bytes) (ws : List Bytes) → (final : Bytes) × (last (w ∷ ws) ≡ some final)
last-cons w [] = (w, refl)
last-cons w (v ∷ ws) = last-cons v ws

shape_loop-cons :
    (m : Map ℕ Bool) (d : ℕ) (w : Bytes) (ws : List Bytes) (ss : List Statement)
    → ((m : Map ℕ Bool) → Entries ss (shape_loop m ss))
    → Entries
        (record { depth = d; words = w ∷ ws } ∷ ss)
        (shape_loop m (record { depth = d; words = w ∷ ws } ∷ ss))
unfolding shape_loop shape_step
shape_loop-cons m d w ws ss more =
    let (final, e) = last-cons w ws in
    let (m', entry) = shape_named m d w final in
    let (shape, q, len) = more m' in (entry ∷ shape, rw (e, q) refl, ap suc len)

shape_loop-Nested :
    {d : ℕ} {ss : List Statement} → Nested d ss → (m : Map ℕ Bool) → Entries ss (shape_loop m ss)
unfolding shape_loop
shape_loop-Nested finished m = ([], refl, refl)
shape_loop-Nested (simple {d} word words n) m =
    shape_loop-cons m d word words _ (shape_loop-Nested n)
shape_loop-Nested (opens {d} word words n) m =
    shape_loop-cons m d word (words +++ (open_brace ∷ [])) _ (shape_loop-Nested n)
shape_loop-Nested (closes {d} n) m = shape_loop-cons m d close_brace [] _ (shape_loop-Nested n)

-- Shape does not index out of range on any accepted configuration, and it returns one entry for
-- each statement.
pub shape-tokenize :
    (conf : Bytes) {statements : List Statement}
    → tokenize conf ≡ accepted statements
    → (entries : List Bytes) × (shape conf ≡ some (accepted entries))
      × (length entries ≡ length statements)
unfolding shape
shape-tokenize conf e =
    let (entries, q, len) = shape_loop-Nested (tokenize-Nested conf e) [] in
    (entries, rw (e, q) refl, len)
