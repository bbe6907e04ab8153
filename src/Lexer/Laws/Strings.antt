-- ===== src/Lexer/Laws/Strings.antt =====
-- String literals.
use arnel_lang.Prelude.{
  ℕ, ◌<◌, ◌≡◌, refl, ap, ◌∙◌, Bool, not, none, some, List, [], ◌∷◌, ◌++◌, ◌==◌, arith, drop, length,
  All,
}
use arnel_lang.View.{make, advance}
use arnel_lang.Token.{Token, l_string}
use arnel_lang.Lexer.State.{Lexer, blank, skip}
use arnel_lang.Lexer.Next.{dispatch, next_raw, find_quote, lex_string}
use arnel_lang.Lexer.Laws.Trim.{text_of, next_raw-dispatch}
use arnel_lang.Ctype.{is_space}

abbrev pub is_not_quote : ℕ → Bool
is_not_quote c = not (c == b'"')

find_quote-append :
    (body rest : List ℕ)
    → All is_not_quote body
    → find_quote (body ++ b'"' ∷ rest) ≡ some (length body)
unfolding find_quote
find_quote-append [] rest h = refl
find_quote-append (c ∷ body) rest h = ground (arith, find_quote-append body rest h.1)

find_quote-none : (bs : List ℕ) → All is_not_quote bs → find_quote bs ≡ none
unfolding find_quote
find_quote-none [] h = refl
find_quote-none (c ∷ bs) h = ground (arith, find_quote-none bs h.1)

lex_string-found :
    (l : Lexer) (tok : Token) (i : ℕ)
    → find_quote (drop 1 (text_of l)) ≡ some i
    → lex_string l tok
      ≡ some (
        record tok { lexeme = make (advance l.text.chars 1) i; type = some l_string },
        skip (skip (skip l 1) i) 1,
      )
unfolding lex_string
lex_string-found l tok i e = rw e

next_raw-quote :
    (l : Lexer) (rest : List ℕ)
    → text_of l ≡ b'"' ∷ rest
    → 0 < l.text.len
    → next_raw l ≡ lex_string l (blank l none)
unfolding dispatch is_space
next_raw-quote l rest e pos = next_raw-dispatch l b'"' rest e refl pos

-- A quote, bytes that are no quote, and a quote: a string whose lexeme is the bytes between.
pub next_raw-string :
    (l : Lexer) (body rest : List ℕ)
    → text_of l ≡ b'"' ∷ body ++ b'"' ∷ rest
    → 0 < l.text.len
    → All is_not_quote body
    → next_raw l
      ≡ some (
        record {
          lexeme = make (advance l.text.chars 1) (length body);
          type = some l_string;
          line = l.line;
          col = l.col;
        },
        skip (skip (skip l 1) (length body)) 1,
      )
next_raw-string l body rest e pos h =
    next_raw-quote l _ e pos
    ∙ lex_string-found l (blank l none) (length body)
        (ap (λ b. find_quote (drop 1 b)) e ∙ find_quote-append body rest h)

-- A string that no quote closes: the read leaves the allocation, whatever the length of the text.
pub next_raw-open_string :
    (l : Lexer) (rest : List ℕ)
    → text_of l ≡ b'"' ∷ rest
    → 0 < l.text.len
    → All is_not_quote rest
    → next_raw l ≡ none
unfolding lex_string
next_raw-open_string l rest e pos h =
    next_raw-quote l rest e pos ∙ rw (ap (λ b. find_quote (drop 1 b)) e ∙ find_quote-none rest h)
