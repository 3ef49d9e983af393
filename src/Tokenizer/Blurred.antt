-- ===== src/Tokenizer/Blurred.antt =====
-- What Shape can see of a scan: of a statement its depth, its first word, and whether its last word
-- is a brace. Two scans that agree in this go on alike.
use ingress_nextgen.Common.{
  Bool, List, Option, [], ap, false, if_rel, if◌then◌else◌, map, none, refl, some, string_eq, suc,
  sym, true, zero, ℕ, ℕ_eq, ◌+++◌, ◌==◌, ◌∙◌, ◌∷◌, ◌≡◌,
}
use ingress_nextgen.Common.Bytes.{Bytes, Bytes_eq}
use ingress_nextgen.Tokenizer.Shape.{last}
use ingress_nextgen.Tokenizer.{
  ConfTokenizer, Parsed, Statement, TokenizeError, accepted, close_block, close_brace,
  close_statement, enter_block, flush_statement, flush_token, leave_block, open_block, open_brace,
  refused, write,
}

abbrev pub is_open : Option Bytes → Bool
is_open none = false
is_open (some final) = final == open_brace

abbrev ends_open : List Bytes → Bool
ends_open ws = is_open (last ws)

-- A word in place of the words after the first.
unfoldable pub blur_words : List Bytes → List Bytes
blur_words [] = []
blur_words (w ∷ ws) = w ∷ (if ends_open (w ∷ ws) then open_brace else []) ∷ []

unfoldable pub blur_statement : Statement → Statement
blur_statement s = record { depth = s.depth; words = blur_words s.words }

unfoldable pub blur : ConfTokenizer → ConfTokenizer
unfolding blur_words blur_statement
blur z = record z { statements = map blur_statement z.statements; words = blur_words z.words }

pub last-snoc : (ws : List Bytes) (t : Bytes) → last (ws +++ (t ∷ [])) ≡ some t
last-snoc [] t = refl
last-snoc (w ∷ []) t = refl
last-snoc (w ∷ v ∷ ws) t = last-snoc (v ∷ ws) t

blur_words_idem : (ws : List Bytes) → blur_words ws ≡ blur_words (blur_words ws)
unfolding blur_words
blur_words_idem [] = refl
blur_words_idem (w ∷ ws) = ap (λ b. w ∷ b ∷ []) (go (ends_open (w ∷ ws)))
  where
    go :
        (b : Bool)
        → (if b then open_brace else [])
          ≡ (if ((if b then open_brace else []) == open_brace) then open_brace else [])
    go true = refl
    go false = refl

blur_words-snoc :
    (ws : List Bytes) (t : Bytes)
    → blur_words (ws +++ (t ∷ [])) ≡ blur_words (blur_words ws +++ (t ∷ []))
unfolding blur_words
blur_words-snoc [] t = refl
blur_words-snoc (w ∷ ws) t =
    ap (λ o. w ∷ (if is_open o then open_brace else []) ∷ []) (last-snoc (w ∷ ws) t)

statements_idem :
    (ss : List Statement) → map blur_statement ss ≡ map blur_statement (map blur_statement ss)
unfolding blur_statement
statements_idem [] = refl
statements_idem (s ∷ ss) = cc (blur_words_idem s.words, statements_idem ss)

statements-snoc :
    (ss : List Statement) (d : ℕ) (ws vs : List Bytes)
    → blur_words ws ≡ blur_words vs
    → map blur_statement (ss +++ (record { depth = d; words = ws } ∷ []))
      ≡ map blur_statement (map blur_statement ss +++ (record { depth = d; words = vs } ∷ []))
unfolding blur_statement
statements-snoc [] d ws vs e = ap (λ us. record { depth = d; words = us } ∷ []) e
statements-snoc (s ∷ ss) d ws vs e = cc (blur_words_idem s.words, statements-snoc ss d ws vs e)

-- Two scans that look the same.
unfoldable pub Same : ConfTokenizer → ConfTokenizer → Type 0
Same z y = blur z ≡ blur y

-- The results of two steps that look the same.
abbrev pub blur_result : Parsed ConfTokenizer → Parsed ConfTokenizer
blur_result (refused err) = refused err
blur_result (accepted z) = accepted (blur z)

unfoldable pub Alike : Parsed ConfTokenizer → Parsed ConfTokenizer → Type 0
Alike p q = blur_result p ≡ blur_result q

pub both : (z y : ConfTokenizer) → Same z y → Alike (accepted z) (accepted y)
unfolding Alike Same
both z y e = ap accepted e

pub fail : (err : TokenizeError) → Alike (refused err) (refused err)
unfolding Alike
fail err = refl

-- A step that looks the same after blurring looks the same for all scans that do.
pub through :
    (step : ConfTokenizer → Parsed ConfTokenizer)
    → ((z : ConfTokenizer) → Alike (step z) (step (blur z)))
    → (z y : ConfTokenizer) → Same z y
    → Alike (step z) (step y)
unfolding Alike Same
through step h z y e = h z ∙ ap (λ x. blur_result (step x)) e ∙ sym (h y)

alike :
    (z : ConfTokenizer) (ss : List Statement) (ws : List Bytes)
    → map blur_statement z.statements ≡ map blur_statement ss
    → blur_words z.words ≡ blur_words ws
    → Same z (record z { statements = ss; words = ws })
unfolding Same blur
alike z ss ws e h = λ i. record z { statements = e i; words = h i }

-- A step that changes neither the statements nor the words may be made on either side.
pub kept : (z : ConfTokenizer) → Same z (blur z)
unfolding blur
kept z = alike z _ _ (statements_idem z.statements) (blur_words_idem z.words)

pub flush_token-blur : (z : ConfTokenizer) → Same (flush_token z) (flush_token (blur z))
unfolding flush_token blur
flush_token-blur z =
    if_rel Same z.in_token
      (alike (record z { words = z.words +++ (z.token ∷ []); token = []; in_token = false }) _ _
        (statements_idem z.statements) (blur_words-snoc z.words z.token))
      (kept z)

pub close_statement-blur :
    (z : ConfTokenizer) (ws : List Bytes)
    → Alike (close_statement z ws) (close_statement (blur z) (blur_words ws))
unfolding Alike blur blur_words
close_statement-blur z [] = refl
close_statement-blur z (w ∷ ws) = λ i. accepted (record z {
  statements =
      statements-snoc z.statements z.depth (w ∷ ws) (blur_words (w ∷ ws)) (blur_words_idem (w ∷ ws))
        i;
  words = [];
})

pub enter_block-blur :
    (z : ConfTokenizer) (ws : List Bytes)
    → Alike (enter_block z ws) (enter_block (blur z) (blur_words ws))
unfolding Alike blur
enter_block-blur z [] = refl
enter_block-blur z (w ∷ ws) = λ i. accepted (record z {
  statements =
      statements-snoc z.statements z.depth ((w ∷ ws) +++ (open_brace ∷ []))
        (blur_words (w ∷ ws) +++ (open_brace ∷ [])) (blur_words-snoc (w ∷ ws) open_brace) i;
  words = [];
  depth = suc z.depth;
})

leave_block-blur :
    (z : ConfTokenizer) (ws : List Bytes) (d : ℕ)
    → Alike (leave_block z ws d) (leave_block (blur z) (blur_words ws) d)
unfolding Alike blur blur_words
leave_block-blur z (w ∷ ws) d = refl
leave_block-blur z [] zero = refl
leave_block-blur z [] (suc d) = λ i. accepted (record z {
  statements = statements-snoc z.statements d (close_brace ∷ []) (close_brace ∷ []) refl i;
  words = blur_words_idem z.words i;
  depth = d;
})

pub flush_statement-blur :
    (z : ConfTokenizer) → Alike (flush_statement z) (flush_statement (blur z))
unfolding flush_statement blur blur_words
flush_statement-blur z =
    through (λ y. close_statement y y.words) (λ y. close_statement-blur y y.words) _ _
      (flush_token-blur z)

pub open_block-blur : (z : ConfTokenizer) → Alike (open_block z) (open_block (blur z))
unfolding open_block blur blur_words
open_block-blur z =
    through (λ y. enter_block y y.words) (λ y. enter_block-blur y y.words) _ _ (flush_token-blur z)

pub close_block-blur : (z : ConfTokenizer) → Alike (close_block z) (close_block (blur z))
unfolding close_block blur blur_words
close_block-blur z =
    through (λ y. leave_block y y.words y.depth) (λ y. leave_block-blur y y.words y.depth) _ _
      (flush_token-blur z)

pub write-blur : (z : ConfTokenizer) (char : ℕ) → Same (write z char) (write (blur z) char)
unfolding write blur
write-blur z char = kept (record z { token = z.token +++ (char ∷ []); in_token = true })
