-- ===== src/Lexer/Laws/Operators.antt =====
-- Operators and punctuation: the longest spelling wins.
use arnel_lang.Prelude.{
  ℕ, ◌<◌, ◌≡◌, refl, ap, ◌∙◌, false, Option, none, some, List, [], ◌∷◌, Bool-cases, Option-cases,
  inl, inr, ◌==◌, ◌&&◌, arith, drop, if◌then◌else◌, ge→ltb,
}
use arnel_lang.Ctype.{is_space, is_digit}
use arnel_lang.View.{chopn}
use arnel_lang.Token.{
  Token, TokenType, l_dog, l_percent, l_backslash, l_semicolon, l_rparen, l_lparen, l_rbrack,
  l_lbrack, l_tilda, l_backtick, l_rcurly, l_lcurly, l_colon, l_comma, l_dot, l_quot, l_less,
  l_eq_less, l_greater, l_eq_greater, l_bang, l_bang_eq, l_eq, l_eq2, l_question, l_qdot, l_star,
  l_mult_eq, l_div, l_div_eq, l_hat, l_hat_eq, l_ref, l_band, l_band_eq, l_pipe, l_bor, l_bor_eq,
  l_plus, l_plus2, l_plus_eq, l_minus, l_minus2, l_arrow_r, l_minus_eq,
}
use arnel_lang.Lexer.State.{Lexer, blank, chop_one}
use arnel_lang.Lexer.Word.{lex_word}
use arnel_lang.Lexer.Next.{
  dispatch, next_raw, one_char_token, two_char_tokens, three_char_tokens, choose_second,
  lex_operator,
}
use arnel_lang.Lexer.Laws.Trim.{text_of, char_at-head, next_raw-dispatch}

-- The operators of two bytes, and those of one.
abbrev pub doubles : List (ℕ × ℕ × TokenType)
doubles =
    (b'<', b'=', l_eq_less)
    ∷ (b'>', b'=', l_eq_greater)
    ∷ (b'!', b'=', l_bang_eq)
    ∷ (b'=', b'=', l_eq2)
    ∷ (b'?', b'.', l_qdot)
    ∷ (b'*', b'=', l_mult_eq)
    ∷ (b'/', b'=', l_div_eq)
    ∷ (b'^', b'=', l_hat_eq)
    ∷ (b'&', b'&', l_band)
    ∷ (b'&', b'=', l_band_eq)
    ∷ (b'|', b'|', l_bor)
    ∷ (b'|', b'=', l_bor_eq)
    ∷ (b'+', b'+', l_plus2)
    ∷ (b'+', b'=', l_plus_eq)
    ∷ (b'-', b'-', l_minus2)
    ∷ (b'-', b'>', l_arrow_r)
    ∷ (b'-', b'=', l_minus_eq)
    ∷ []

abbrev pub singles : List (ℕ × TokenType)
singles =
    (b'<', l_less)
    ∷ (b'>', l_greater)
    ∷ (b'!', l_bang)
    ∷ (b'=', l_eq)
    ∷ (b'?', l_question)
    ∷ (b'*', l_star)
    ∷ (b'/', l_div)
    ∷ (b'^', l_hat)
    ∷ (b'&', l_ref)
    ∷ (b'|', l_pipe)
    ∷ (b'+', l_plus)
    ∷ (b'-', l_minus)
    ∷ (b'@', l_dog)
    ∷ (b'%', l_percent)
    ∷ (b'\\', l_backslash)
    ∷ (b';', l_semicolon)
    ∷ (b')', l_rparen)
    ∷ (b'(', l_lparen)
    ∷ (b']', l_rbrack)
    ∷ (b'[', l_lbrack)
    ∷ (b'~', l_tilda)
    ∷ (b'`', l_backtick)
    ∷ (b'}', l_rcurly)
    ∷ (b'{', l_lcurly)
    ∷ (b':', l_colon)
    ∷ (b',', l_comma)
    ∷ (b'.', l_dot)
    ∷ (b'\'', l_quot)
    ∷ []

abbrev pub find_single : ℕ → List (ℕ × TokenType) → Option (TokenType × ℕ)
find_single c [] = none
find_single c ((a, t) ∷ ops) = if c == a then some (t, 1) else find_single c ops

abbrev pub find_double : ℕ → ℕ → List (ℕ × ℕ × TokenType) → Option (TokenType × ℕ)
find_double c d [] = find_single c singles
find_double c d ((a, b, t) ∷ ops) = if c == a && d == b then some (t, 2) else find_double c d ops

-- The operator that begins with `c` and, if one of two bytes fits, goes on with `d`; and its length.
unfoldable pub munch : ℕ → ℕ → Option (TokenType × ℕ)
munch c d = find_double c d doubles

-- The same as the tables of the lexer give it.
choose : ℕ → TokenType → List (ℕ × TokenType) → TokenType × ℕ
choose d single [] = (single, 1)
choose d single ((e, double) ∷ rest) = if d == e then (double, 2) else choose d single rest

tables : ℕ → ℕ → Option (TokenType × ℕ)
tables c d = elim (one_char_token c) [
  | some t ↦ some (t, 1)
  | none ↦ elim (two_char_tokens c) [
    | some (second, single, double) ↦ some (choose d single ((second, double) ∷ []))
    | none ↦ elim (three_char_tokens c) [
      | some (single, doubles) ↦ some (choose d single doubles)
      | none ↦ none
    ]
  ]
]

tables-munch : (c d : ℕ) → (c == b'&' && d == b'=') ≡ false → tables c d ≡ munch c d
unfolding tables munch choose one_char_token two_char_tokens three_char_tokens
tables-munch c d h = ground arith

choose_second-choose :
    (d : ℕ) (single : TokenType) (ops : List (ℕ × TokenType)) (l : Lexer)
    → choose_second d single ops l
      ≡ ((choose d single ops).0, if (choose d single ops).1 == 2 then chop_one l else l)
unfolding choose_second choose
choose_second-choose d single [] l = refl
choose_second-choose d single ((e, t) ∷ ops) l = elim (Bool-cases (d == e)) [
  | inl h ↦ rw h
  | inr h ↦ rw h (choose_second-choose d single ops l)
]

-- The lexer behind an operator of `n` bytes.
abbrev pub after_operator : ℕ → Lexer → Lexer
after_operator n l = if n == 2 then chop_one (chop_one l) else chop_one l

abbrev pub read_as : Lexer → TokenType × ℕ → Option (Token × Lexer)
read_as l (t, n) = some (blank l (some t), after_operator n l)

text_of-chop_one : (l : Lexer) → 0 < l.text.len → text_of (chop_one l) ≡ drop 1 (text_of l)
unfolding chop_one chopn
text_of-chop_one l pos = rw (ge→ltb l.text.len 1 pos)

module _ (l : Lexer) (c d : ℕ) (rest : List ℕ) (e : text_of l ≡ c ∷ d ∷ rest)
    (pos : 0 < l.text.len) where
  lex_operator-choose :
      (single : TokenType) (ops : List (ℕ × TokenType))
      → lex_operator single ops l (blank l none) ≡ read_as l (choose d single ops)
  unfolding lex_operator
  lex_operator-choose single ops = rw (
    char_at-head (chop_one l) d rest (text_of-chop_one l pos ∙ ap (drop 1) e),
    choose_second-choose d single ops (chop_one l),
  )

  dispatch-tables :
      (c == b'"') ≡ false
      → is_digit c ≡ false
      → dispatch c l ≡ elim (tables c d) [ some r ↦ read_as l r | none ↦ lex_word l (blank l none) ]
  unfolding dispatch tables
  dispatch-tables nq nd = elim (Option-cases (one_char_token c)) [
    | inr (t, one) ↦ rw (nq, nd, one)
    | inl one ↦ elim (Option-cases (two_char_tokens c)) [
      | inr (r, two) ↦ rw (nq, nd, one, two) (lex_operator-choose r.1 ((r.0, r.2) ∷ []))
      | inl two ↦ elim (Option-cases (three_char_tokens c)) [
        | inr (r, three) ↦ rw (nq, nd, one, two, three) (lex_operator-choose r.0 r.1)
        | inl three ↦ rw (nq, nd, one, two, three)
      ]
    ]
  ]

munch_start :
    (c d : ℕ) (r : TokenType × ℕ)
    → munch c d ≡ some r
    → ((c == b'"') ≡ false) × (is_digit c ≡ false) × (is_space c ≡ false)
unfolding munch is_digit is_space
munch_start c d r h = ground arith

-- At an operator `__next_token` gives the longest one that the text begins with, at the lexer's
-- position, and stands behind it; `&=` apart.
pub next_raw-operator :
    (l : Lexer) (c d : ℕ) (rest : List ℕ) (r : TokenType × ℕ)
    → text_of l ≡ c ∷ d ∷ rest
    → 0 < l.text.len
    → munch c d ≡ some r
    → (c == b'&' && d == b'=') ≡ false
    → next_raw l ≡ some (blank l (some r.0), after_operator r.1 l)
next_raw-operator l c d rest r e pos m not_ref_eq =
    let (nq, nd, ns) = munch_start c d r m in
    rw (
      next_raw-dispatch l c (d ∷ rest) e ns pos,
      dispatch-tables l c d rest e pos nq nd,
      tables-munch c d not_ref_eq,
      m,
    )

-- `&=` is read as `!=`: its bytes are used up and the token has the type of `!=`.
pub next_raw-ref_eq :
    (l : Lexer) (rest : List ℕ)
    → text_of l ≡ b'&' ∷ b'=' ∷ rest
    → 0 < l.text.len
    → (munch b'&' b'=' ≡ some (l_band_eq, 2))
      × (next_raw l ≡ some (blank l (some l_bang_eq), after_operator 2 l))
unfolding munch tables choose one_char_token two_char_tokens three_char_tokens is_digit is_space
next_raw-ref_eq l rest e pos = (
  refl,
  next_raw-dispatch l b'&' (b'=' ∷ rest) e refl pos
      ∙ dispatch-tables l b'&' b'=' rest e pos refl refl,
)

munch-none : (c d : ℕ) → munch c d ≡ none → (c == b'&' && d == b'=') ≡ false
unfolding munch
munch-none c d h = ground arith

-- What is no operator is taken for a word.
pub dispatch-none :
    (l : Lexer) (c d : ℕ) (rest : List ℕ)
    → text_of l ≡ c ∷ d ∷ rest
    → 0 < l.text.len
    → (c == b'"') ≡ false
    → is_digit c ≡ false
    → munch c d ≡ none
    → dispatch c l ≡ lex_word l (blank l none)
dispatch-none l c d rest e pos nq nd m =
    rw (dispatch-tables l c d rest e pos nq nd, tables-munch c d (munch-none c d m), m)
