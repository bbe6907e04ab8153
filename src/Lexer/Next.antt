-- ===== src/Lexer/Next.antt =====
-- lexer.c: `__next_token`, which reads one token off the text.
use arnel_lang.Prelude.{
  ℕ, zero, suc, true, false, Option, none, some, List, [], ◌∷◌, ◌==◌, if◌then◌else◌, ◌>>=◌,
}
use arnel_lang.Ctype.{is_digit}
use arnel_lang.View.{make}
use arnel_lang.Token.{
  Token, TokenType, l_string, l_dog, l_percent, l_backslash, l_semicolon, l_rparen, l_lparen,
  l_rbrack, l_lbrack, l_tilda, l_backtick, l_rcurly, l_lcurly, l_colon, l_comma, l_dot, l_quot,
  l_less, l_eq_less, l_greater, l_eq_greater, l_bang, l_bang_eq, l_eq, l_eq2, l_question, l_qdot,
  l_star, l_mult_eq, l_div, l_div_eq, l_hat, l_hat_eq, l_ref, l_band, l_pipe, l_bor, l_bor_eq,
  l_plus, l_plus2, l_plus_eq, l_minus, l_minus2, l_arrow_r, l_minus_eq, l_eof,
}
use arnel_lang.Lexer.State.{Lexer, char_at, skip, trim_left, chop_one, blank}
use arnel_lang.Lexer.Number.{lex_num}
use arnel_lang.Lexer.Word.{lex_word}

-- The cases that the macro `one_char_token` writes.
unfoldable pub one_char_token : ℕ → Option TokenType
one_char_token c =
    if c == b'@'
    then some l_dog
    else if c == b'%'
    then some l_percent
    else if c == b'\\'
    then some l_backslash
    else if c == b';'
    then some l_semicolon
    else if c == b')'
    then some l_rparen
    else if c == b'('
    then some l_lparen
    else if c == b']'
    then some l_rbrack
    else if c == b'['
    then some l_lbrack
    else if c == b'~'
    then some l_tilda
    else if c == b'`'
    then some l_backtick
    else if c == b'}'
    then some l_rcurly
    else if c == b'{'
    then some l_lcurly
    else if c == b':'
    then some l_colon
    else if c == b','
    then some l_comma
    else if c == b'.'
    then some l_dot
    else if c == b'\''
    then some l_quot
    else none

-- The cases that `two_char_tokens` writes: the second byte, the token of one byte, that of two.
unfoldable pub two_char_tokens : ℕ → Option (ℕ × TokenType × TokenType)
two_char_tokens c =
    if c == b'<'
    then some (b'=', l_less, l_eq_less)
    else if c == b'>'
    then some (b'=', l_greater, l_eq_greater)
    else if c == b'!'
    then some (b'=', l_bang, l_bang_eq)
    else if c == b'='
    then some (b'=', l_eq, l_eq2)
    else if c == b'?'
    then some (b'.', l_question, l_qdot)
    else if c == b'*'
    then some (b'=', l_star, l_mult_eq)
    else if c == b'/'
    then some (b'=', l_div, l_div_eq)
    else if c == b'^'
    then some (b'=', l_hat, l_hat_eq)
    else none

-- The cases that `three_char_tokens` writes, and the `case '-'` that is written out: the token of
-- one byte, and that of two for each second byte, in the order of the tests.
unfoldable pub three_char_tokens : ℕ → Option (TokenType × List (ℕ × TokenType))
three_char_tokens c =
    if c == b'&'
    then some (l_ref, (b'&', l_band) ∷ (b'=', l_bang_eq) ∷ [])
    else if c == b'|'
    then some (l_pipe, (b'|', l_bor) ∷ (b'=', l_bor_eq) ∷ [])
    else if c == b'+'
    then some (l_plus, (b'+', l_plus2) ∷ (b'=', l_plus_eq) ∷ [])
    else if c == b'-'
    then some (l_minus, (b'-', l_minus2) ∷ (b'>', l_arrow_r) ∷ (b'=', l_minus_eq) ∷ [])
    else none

-- `if (cur(l) == t2) { chop; … } else if …`, at the byte `d` behind the first.
unfoldable pub choose_second : ℕ → TokenType → List (ℕ × TokenType) → Lexer → TokenType × Lexer
choose_second d single [] l = (single, l)
choose_second d single ((e, double) ∷ rest) l =
    if d == e then (double, chop_one l) else choose_second d single rest l

unfoldable pub lex_operator :
    TokenType → List (ℕ × TokenType) → Lexer → Token → Option (Token × Lexer)
lex_operator single doubles l tok =
    let l' = chop_one l in
    char_at l' 0 >>= λ d.
    let (t, l'') = choose_second d single doubles l' in some (record tok { type = some t }, l'')

-- The rounds of the loop that looks for the closing quote.
unfoldable pub find_quote : List ℕ → Option ℕ
find_quote [] = none
find_quote (c ∷ cs) = elim (c == b'"') [
  | true ↦ some zero
  | false ↦ find_quote cs >>= λ i. some (suc i)
]

unfoldable pub lex_string : Lexer → Token → Option (Token × Lexer)
lex_string l tok =
    let l' = skip l 1 in
    find_quote l'.text.chars.bytes >>= λ i.
    some (record tok { lexeme = make l'.text.chars i; type = some l_string }, skip (skip l' i) 1)

-- The `switch` on the first byte.
unfoldable pub dispatch : ℕ → Lexer → Option (Token × Lexer)
dispatch c l =
    if c == b'"'
    then lex_string l (blank l none)
    else if is_digit c
    then lex_num l (blank l none)
    else elim (one_char_token c) [
      | some t ↦ some (blank l (some t), chop_one l)
      | none ↦ elim (two_char_tokens c) [
        | some (second, single, double) ↦
            lex_operator single ((second, double) ∷ []) l (blank l none)
        | none ↦ elim (three_char_tokens c) [
          | some (single, doubles) ↦ lex_operator single doubles l (blank l none)
          | none ↦ lex_word l (blank l none)
        ]
      ]
    ]

-- `__next_token`
unfoldable pub next_raw : Lexer → Option (Token × Lexer)
next_raw l = trim_left l >>= λ l'.
    if l'.text.len == 0
    then some (blank l' (some l_eof), l')
    else (char_at l' 0 >>= λ c. dispatch c l')
