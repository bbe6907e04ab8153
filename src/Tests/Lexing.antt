-- ===== src/Tests/Lexing.antt =====
-- The lexer at concrete texts, among them the beginning of main.ar.
use Prim.Native.String.{String}
use arnel_lang.Prelude.{
  ℕ, zero, suc, ◌≡◌, refl, Option, none, some, List, [], ◌∷◌, ◌++◌, length, arith,
}
use arnel_lang.Prelude.Size.{add_size, sub_size}
use arnel_lang.Ctype.{is_digit, is_alnum, is_space}
use arnel_lang.View.{make, content, scan, chopn, chop_predicate, memcmp_eq, null}
use arnel_lang.Token.{
  Token, TokenType, l_export, l_ident, l_eq, l_lparen, l_rparen, l_colon, l_arrow_r, l_lcurly,
  l_string, l_bang_eq, l_band_eq, l_integer, l_eof, l_plus2,
}
use arnel_lang.Lexer.State.{Lexer, trim_left, trim_from, chop_one, blank, skip}
use arnel_lang.Lexer.Keyword.{codes, check_kw}
use arnel_lang.Lexer.Keyword.Spec.{keyword_of, check_kw-keyword_of}
use arnel_lang.Lexer.Number.{lex_num, lex_num_loop}
use arnel_lang.Lexer.Word.{lex_word, word_predicate}
use arnel_lang.Lexer.Next.{
  next_raw, dispatch, one_char_token, two_char_tokens, three_char_tokens, lex_operator,
  choose_second, lex_string, find_quote,
}
use arnel_lang.Lexer.Laws.Trim.{next_raw-space, step_space, text_of}
use arnel_lang.Lexer.Laws.Words.{
  next_raw-word, next_raw-unknown, after_word, is_word_start, is_word_char,
}
use arnel_lang.Lexer.Laws.Numbers.{next_raw-integer, next_raw-second_dot, columns}
use arnel_lang.Lexer.Laws.Strings.{next_raw-string, next_raw-open_string}
use arnel_lang.Lexer.Laws.Operators.{next_raw-operator, next_raw-ref_eq, munch, after_operator}

-- A text with a terminating zero byte behind it.
abbrev on_text : String → Lexer
on_text s = record {
  text = make (record { addr = 4096; bytes = codes s ++ 0 ∷ [] }) (length (codes s));
  toks = record { cap = 1; len = 0; slots = none ∷ [] };
  line = 0;
  col = 0;
}

-- The types and the lexemes of the first tokens.
tokens : ℕ → Lexer → List (Option TokenType × List ℕ)
tokens zero l = []
tokens (suc n) l = elim (next_raw l) [
  | none ↦ []
  | some (t, l') ↦ (t.type, content t.lexeme) ∷ tokens n l'
]

program : Unit {0}
unfolding add_size sub_size is_digit is_alnum is_space scan chopn chop_predicate memcmp_eq trim_left
    trim_from chop_one check_kw lex_num lex_num_loop lex_word word_predicate next_raw dispatch
    one_char_token two_char_tokens three_char_tokens lex_operator choose_second lex_string
    find_quote keyword_of is_word_start is_word_char munch
program = tt

tokens-main :
    tokens 9 (on_text "export main = (): int -> {")
    ≡ (some l_export, codes "export")
      ∷ (some l_ident, codes "main")
      ∷ (some l_eq, [])
      ∷ (some l_lparen, [])
      ∷ (some l_rparen, [])
      ∷ (some l_colon, [])
      ∷ (some l_ident, codes "int")
      ∷ (some l_arrow_r, [])
      ∷ (some l_lcurly, [])
      ∷ []
unfolding program tokens
tokens-main = refl

check_kw-keyword_of_example :
    check_kw (make (record { addr = 1; bytes = codes "export x" }) 6)
    ≡ some (keyword_of (codes "export"))
check_kw-keyword_of_example =
    check_kw-keyword_of {v = make (record { addr = 1; bytes = codes "export x" }) 6} (omega arith)
      (omega arith)

next_raw-word_example :
    next_raw (on_text "export x")
    ≡ some (
      record {
        lexeme = make (on_text "export x").text.chars 6;
        type = some (keyword_of (codes "export"));
        line = 0;
        col = 0;
      },
      after_word (on_text "export x") (codes "export") b' ',
    )
unfolding program
next_raw-word_example =
    next_raw-word (on_text "export x") (codes "export") b' ' (b'x' ∷ 0 ∷ []) refl (omega arith)
      (omega arith) (refl, (refl, (refl, (refl, (refl, (refl, tt)))))) refl

next_raw-space_example :
    (text_of (step_space (on_text " x") b'x') ≡ b'x' ∷ 0 ∷ [])
    × (next_raw (on_text " x") ≡ next_raw (step_space (on_text " x") b'x'))
unfolding program
next_raw-space_example = next_raw-space (on_text " x") b' ' b'x' (0 ∷ []) refl refl refl

next_raw-integer_example :
    next_raw (on_text "42;")
    ≡ some (
      record {
        lexeme = make (on_text "42;").text.chars 2;
        type = some l_integer;
        line = 0;
        col = 0;
      },
      skip (record (on_text "42;") { col = columns 3 0 }) 2,
    )
unfolding program
next_raw-integer_example =
    next_raw-integer (on_text "42;") b'4' (b'2' ∷ []) b';' (0 ∷ []) refl (omega arith)
      (refl, (refl, tt)) refl refl

next_raw-second_dot_example :
    (r : Token × Lexer) × (next_raw (on_text "1.2.3") ≡ some r)
    × (r.0.type ≡ none)
    × (r.0.lexeme.chars ≡ null)
    × (r.1.text ≡ (on_text "1.2.3").text)
unfolding program
next_raw-second_dot_example =
    next_raw-second_dot (on_text "1.2.3") b'1' [] (b'2' ∷ []) (b'3' ∷ 0 ∷ []) refl (omega arith)
      (refl, tt) (refl, tt)

next_raw-unknown_example :
    (r : Token × Lexer) × (next_raw (on_text "# x") ≡ some r)
    × (r.0.type ≡ some l_eof)
    × (text_of r.1 ≡ text_of (on_text "# x"))
    × (r.1.text.len ≡ 3)
unfolding program
next_raw-unknown_example =
    next_raw-unknown (on_text "# x") b'#' b' ' (b'x' ∷ 0 ∷ []) refl (omega arith) (omega arith) refl
      refl refl refl refl

next_raw-string_example :
    next_raw (on_text "\"hi\";")
    ≡ some (
      record {
        lexeme = make (record { addr = 4097; bytes = codes "hi\";" ++ 0 ∷ [] }) 2;
        type = some l_string;
        line = 0;
        col = 0;
      },
      skip (skip (skip (on_text "\"hi\";") 1) 2) 1,
    )
next_raw-string_example =
    next_raw-string (on_text "\"hi\";") (codes "hi") (b';' ∷ 0 ∷ []) refl (omega arith)
      (refl, (refl, tt))

next_raw-open_string_example : next_raw (on_text "\"hi") ≡ none
next_raw-open_string_example =
    next_raw-open_string (on_text "\"hi") (codes "hi" ++ 0 ∷ []) refl (omega arith)
      (refl, (refl, (refl, tt)))

next_raw-operator_example :
    next_raw (on_text "++x")
    ≡ some (blank (on_text "++x") (some l_plus2), after_operator 2 (on_text "++x"))
unfolding program
next_raw-operator_example =
    next_raw-operator (on_text "++x") b'+' b'+' (b'x' ∷ 0 ∷ []) (l_plus2, 2) refl (omega arith) refl
      refl

next_raw-ref_eq_example :
    (munch b'&' b'=' ≡ some (l_band_eq, 2))
    × (next_raw (on_text "&=")
        ≡ some (blank (on_text "&=") (some l_bang_eq), after_operator 2 (on_text "&=")))
next_raw-ref_eq_example = next_raw-ref_eq (on_text "&=") (0 ∷ []) refl (omega arith)
