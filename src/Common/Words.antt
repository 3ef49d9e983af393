-- ===== src/Common/Words.antt =====
-- strings.TrimSpace, strings.ToLower and strings.Fields on ASCII text, and the last byte of a text.
use Prim.Native.Nat.{ℕ, ◌+◌}
use mathlib.Core.Bool.{false}
use mathlib.Core.List.{append_assoc}
use mathlib.Core.List.{cons-ne-nil}
use mathlib.Core.Path.{◌≡◌, refl, ap, ◌∙◌, sym}
use mathlib.Core.Logic.{◌≢◌}
use mathlib.Core.Bool.{Bool, true, ◌&&◌, ◌||◌, not}
use mathlib.Core.List.{List, [], ◌∷◌, map, append-nil}
use native.Mathlib.Omega.{arith}
use ingress_nextgen.Common.Tests.{if◌then◌else◌, leb, string_eq, ℕ_eq, ◌==◌}
use ingress_nextgen.Common.Lists.{all, ◌+++◌}
use ingress_nextgen.Common.Bytes.{Bytes, Bytes_eq}

-- the ASCII bytes of unicode.IsSpace
unfoldable pub is_white : ℕ → Bool
is_white c = c == b' ' || (leb b'\t' c && leb c b'\r')

unfoldable pub trim_left : Bytes → Bytes
unfolding is_white
trim_left [] = []
trim_left (c ∷ s) = let rest = trim_left s in if is_white c then rest else c ∷ s

unfoldable pub trim_right : Bytes → Bytes
unfolding is_white
trim_right [] = []
trim_right (c ∷ s) = let rest = trim_right s in if is_white c && rest == [] then [] else c ∷ rest

unfoldable pub trim_space : Bytes → Bytes
unfolding trim_left trim_right
trim_space s = trim_right (trim_left s)

unfoldable pub lower : ℕ → ℕ
lower c = if leb b'A' c && leb c b'Z' then c + 32 else c

unfoldable pub to_lower : Bytes → Bytes
unfolding lower
to_lower s = map lower s

-- The word that a text begins with, empty where it begins with a space, and the later words.
abbrev add_word : Bytes → List Bytes → List Bytes
add_word [] ws = ws
add_word (c ∷ w) ws = (c ∷ w) ∷ ws

unfoldable pub split_words : Bytes → Bytes × List Bytes
unfolding is_white
split_words [] = ([], [])
split_words (c ∷ s) =
    let (word, words) = split_words s in
    if is_white c then ([], add_word word words) else (c ∷ word, words)

unfoldable pub fields : Bytes → List Bytes
unfolding split_words
fields s = let (word, words) = split_words s in add_word word words

-- The last byte of c ∷ s, and what stands before it.
abbrev pub last_byte : ℕ → Bytes → ℕ
last_byte c [] = c
last_byte c (d ∷ s) = last_byte d s

abbrev pub but_last : ℕ → Bytes → Bytes
but_last c [] = []
but_last c (d ∷ s) = c ∷ but_last d s

-- A byte that is neither white nor a capital.
abbrev pub is_plain : ℕ → Bool
is_plain c = leb b'0' c && not (leb b'A' c && leb c b'Z')

trim_left_plain : (s : Bytes) → all is_plain s ≡ true → trim_left s ≡ s
unfolding trim_left
trim_left_plain [] h = refl
trim_left_plain (c ∷ s) h = ground arith

trim_right_plain : (s : Bytes) → all is_plain s ≡ true → trim_right s ≡ s
unfolding trim_right
trim_right_plain [] h = refl
trim_right_plain (c ∷ s) h = ground (arith, trim_right_plain s)

pub trim_space_plain : (s : Bytes) → all is_plain s ≡ true → trim_space s ≡ s
unfolding trim_space
trim_space_plain s h = ap trim_right (trim_left_plain s h) ∙ trim_right_plain s h

pub to_lower_plain : (s : Bytes) → all is_plain s ≡ true → to_lower s ≡ s
unfolding to_lower
to_lower_plain [] h = refl
to_lower_plain (c ∷ s) h = ground (arith, to_lower_plain s)

split_words_plain :
    (s rest : Bytes)
    → all is_plain s ≡ true
    → split_words (s +++ rest) ≡ (s +++ (split_words rest).0, (split_words rest).1)
unfolding split_words
split_words_plain [] rest h = refl
split_words_plain (c ∷ s) rest h = ground (arith, split_words_plain s rest)

split_words_alone : (s : Bytes) → all is_plain s ≡ true → split_words s ≡ (s, [])
unfolding split_words
split_words_alone s h =
    ap split_words (sym (append-nil s))
    ∙ split_words_plain s [] h
    ∙ ap (λ u. (u, [])) (append-nil s)

-- Two plain words with a blank between them.
pub fields-pair :
    (v w : Bytes)
    → v ≢ []
    → w ≢ []
    → all is_plain v ≡ true
    → all is_plain w ≡ true
    → fields (v +++ (b' ' ∷ w)) ≡ v ∷ w ∷ []
unfolding fields split_words is_white
fields-pair [] w hv hw pv pw = absurd (hv refl)
fields-pair (c ∷ v) [] hv hw pv pw = absurd (hw refl)
fields-pair (c ∷ v) (d ∷ w) hv hw pv pw =
    ap (λ p. add_word p.0 p.1) (split_words_plain (c ∷ v) (b' ' ∷ d ∷ w) pv)
    ∙ ap (λ p. add_word (c ∷ (v +++ [])) (add_word p.0 p.1)) (split_words_alone (d ∷ w) pw)
    ∙ ap (λ u. (c ∷ u) ∷ (d ∷ w) ∷ []) (append-nil v)

pub last_byte-snoc : (c : ℕ) (s : Bytes) (d : ℕ) → last_byte c (s +++ (d ∷ [])) ≡ d
last_byte-snoc c [] d = refl
last_byte-snoc c (e ∷ s) d = last_byte-snoc e s d

pub but_last-snoc : (c : ℕ) (s : Bytes) (d : ℕ) → but_last c (s +++ (d ∷ [])) ≡ c ∷ s
but_last-snoc c [] d = refl
but_last-snoc c (e ∷ s) d = ap (λ t. c ∷ t) (but_last-snoc e s d)

trim_right-end : (s w : Bytes) → w ≢ [] → all is_plain w ≡ true → trim_right (s +++ w) ≡ s +++ w
unfolding trim_right
trim_right-end [] w h p = trim_right_plain w p
trim_right-end (c ∷ s) [] h p = absurd (h refl)
trim_right-end (c ∷ s) (d ∷ w) h p = rw (trim_right-end s (d ∷ w) h p, snoc-ne-nil s) (ground arith)
  where
    snoc-ne-nil : (t : Bytes) → ((t +++ (d ∷ w)) == []) ≡ false
    snoc-ne-nil [] = refl
    snoc-ne-nil (e ∷ t) = refl

-- A text between plain words has nothing to trim.
pub trim_space-pair :
    (v s w : Bytes)
    → v ≢ []
    → w ≢ []
    → all is_plain v ≡ true
    → all is_plain w ≡ true
    → trim_space (v +++ (s +++ w)) ≡ v +++ (s +++ w)
unfolding trim_space trim_left
trim_space-pair [] s w hv hw pv pw = absurd (hv refl)
trim_space-pair (c ∷ v) s w hv hw pv pw =
    ap trim_right {x = trim_left (c ∷ (v +++ (s +++ w)))} {y = c ∷ (v +++ (s +++ w))} (ground arith)
    ∙ ap trim_right (sym (append_assoc (c ∷ v) s w))
    ∙ trim_right-end ((c ∷ v) +++ s) w hw pw
    ∙ append_assoc (c ∷ v) s w

-- A text that begins with no white byte is not trimmed away.
pub trim_space-ne-nil : (c : ℕ) (s : Bytes) → is_white c ≡ false → trim_space (c ∷ s) ≢ []
unfolding trim_space trim_left trim_right
trim_space-ne-nil c s h = rw h (rw h (cons-ne-nil c (trim_right s)))

pub to_lower-ne-nil : (s : Bytes) → s ≢ [] → to_lower s ≢ []
unfolding to_lower
to_lower-ne-nil [] h = h
to_lower-ne-nil (c ∷ s) h = cons-ne-nil (lower c) (to_lower s)
