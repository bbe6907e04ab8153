-- ===== src/Lexer/Laws/Numbers.antt =====
-- Numerals: integers, floats, and a numeral with a second dot.
use mathlib.Core.Path.{ap₂}
use arnel_lang.Prelude.{
  ℕ, zero, suc, ◌+◌, ◌<◌, ◌≡◌, refl, sym, ap, ◌∙◌, Bool, true, false, none, some, List, [], ◌∷◌,
  ◌++◌, ◌==◌, arith, length, All,
}
use arnel_lang.Prelude.Size.{add_size}
use arnel_lang.Ctype.{is_space, is_digit}
use arnel_lang.View.{make, null}
use arnel_lang.Token.{Token, l_integer}
use arnel_lang.Lexer.State.{Lexer, blank, skip}
use arnel_lang.Lexer.Number.{NumberEnd, stopped, second_dot, lex_num_loop, lex_num, finish_num}
use arnel_lang.Lexer.Next.{dispatch, next_raw}
use arnel_lang.Lexer.Laws.Trim.{text_of, next_raw-dispatch}

-- The column after `n` rounds of the loop.
abbrev pub columns : ℕ → ℕ → ℕ
columns zero col = col
columns (suc n) col = columns n (add_size col 1)

columns-suc : (n col : ℕ) → columns n (add_size col 1) ≡ add_size (columns n col) 1
columns-suc zero col = refl
columns-suc (suc n) col = columns-suc n (add_size col 1)

loop-digits :
    (ds rest : List ℕ) (is_float : Bool) (i col : ℕ)
    → All is_digit ds
    → lex_num_loop (ds ++ rest) is_float i col
      ≡ lex_num_loop rest is_float (i + length ds) (columns (length ds) col)
unfolding lex_num_loop
loop-digits [] rest f i col h = ap (λ k. lex_num_loop rest f k col) (omega arith)
loop-digits (d ∷ ds) rest f i col h =
    let e : i + 1 + length ds ≡ i + suc (length ds) = omega arith in
    rw (h.0, lex_num_loop) (rw e at (loop-digits ds rest f (i + 1) (add_size col 1) h.1))

loop-stop :
    (c : ℕ) (rest : List ℕ) (is_float : Bool) (i col : ℕ)
    → is_digit c ≡ false
    → (c == b'.') ≡ false
    → lex_num_loop (c ∷ rest) is_float i col ≡ some (stopped is_float i (add_size col 1))
unfolding lex_num_loop
loop-stop c rest f i col d p = rw (d, lex_num_loop) (rw p)

-- The first dot makes a float of the numeral, the second one ends the loop.
loop-dot :
    (rest : List ℕ) (i col : ℕ)
    → lex_num_loop (b'.' ∷ rest) false i col ≡ lex_num_loop rest true (i + 1) (add_size col 1)
unfolding lex_num_loop is_digit
loop-dot rest i col = refl

loop-second_dot :
    (rest : List ℕ) (i col : ℕ)
    → lex_num_loop (b'.' ∷ rest) true i col ≡ some (second_dot (add_size col 1))
unfolding lex_num_loop is_digit
loop-second_dot rest i col = refl

digit_cases : (d : ℕ) → is_digit d ≡ true → ((d == b'"') ≡ false) × (is_space d ≡ false)
unfolding is_digit is_space
digit_cases d h = ground arith

-- At a digit `__next_token` goes to `lex_num`.
next_raw-digit :
    (l : Lexer) (d : ℕ) (rest : List ℕ)
    → text_of l ≡ d ∷ rest
    → is_digit d ≡ true
    → 0 < l.text.len
    → next_raw l ≡ lex_num l (blank l none)
unfolding dispatch
next_raw-digit l d rest e h pos =
    let (quote, space) = digit_cases d h in rw (next_raw-dispatch l d rest e space pos, quote, h)

lex_num-loop :
    (l : Lexer) (tok : Token) (bs : List ℕ) (r : NumberEnd)
    → text_of l ≡ bs
    → lex_num_loop bs false 0 l.col ≡ some r
    → lex_num l tok ≡ some (finish_num l tok r)
unfolding lex_num
lex_num-loop l tok bs r e run =
    let run' : lex_num_loop (text_of l) false 0 l.col ≡ some r = rw (← e) at run in rw run'

-- A run of digits and a byte that is neither a digit nor a dot: an integer of those digits.
pub next_raw-integer :
    (l : Lexer) (d : ℕ) (ds : List ℕ) (c : ℕ) (rest : List ℕ)
    → text_of l ≡ d ∷ ds ++ c ∷ rest
    → 0 < l.text.len
    → All is_digit (d ∷ ds)
    → is_digit c ≡ false
    → (c == b'.') ≡ false
    → next_raw l
      ≡ some (
        record {
          lexeme = make l.text.chars (length (d ∷ ds));
          type = some l_integer;
          line = l.line;
          col = l.col;
        },
        skip (record l { col = columns (suc (length (d ∷ ds))) l.col }) (length (d ∷ ds)),
      )
next_raw-integer l d ds c rest e pos h nd np =
    let n = length (d ∷ ds) in
    let run : lex_num_loop (d ∷ ds ++ c ∷ rest) false 0 l.col
        ≡ some (stopped false n (columns (suc n) l.col)) =
      loop-digits (d ∷ ds) (c ∷ rest) false 0 l.col h
      ∙ loop-stop c rest false (0 + n) (columns n l.col) nd np
      ∙ ap₂ (λ i k. some (stopped false i k)) (omega arith) (sym (columns-suc n l.col)) in
    next_raw-digit l d (ds ++ c ∷ rest) e h.0 pos ∙ lex_num-loop l (blank l none) _ _ e run

-- A numeral with a second dot: the token has no type and no lexeme, and the text stays where it is.
pub next_raw-second_dot :
    (l : Lexer) (d : ℕ) (ds es : List ℕ) (rest : List ℕ)
    → text_of l ≡ d ∷ ds ++ (b'.' ∷ es ++ b'.' ∷ rest)
    → 0 < l.text.len
    → All is_digit (d ∷ ds)
    → All is_digit es
    → (r : Token × Lexer) × (next_raw l ≡ some r)
      × (r.0.type ≡ none)
      × (r.0.lexeme.chars ≡ null)
      × (r.1.text ≡ l.text)
next_raw-second_dot l d ds es rest e pos h k =
    let n = length (d ∷ ds) in
    let run =
      loop-digits (d ∷ ds) (b'.' ∷ es ++ b'.' ∷ rest) false 0 l.col h
      ∙ loop-dot (es ++ b'.' ∷ rest) (0 + n) (columns n l.col)
      ∙ loop-digits es (b'.' ∷ rest) true (0 + n + 1) (add_size (columns n l.col) 1) k
      ∙ loop-second_dot rest _ _ in
    (_, next_raw-digit l d _ e h.0 pos ∙ lex_num-loop l (blank l none) _ _ e run, refl, refl, refl)
