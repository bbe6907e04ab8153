-- ===== src/Lexer/Number.antt =====
-- lexer.c: `lex_num`.
use arnel_lang.Prelude.{
  ℕ, ◌+◌, Bool, true, false, Option, none, some, List, [], ◌∷◌, ◌==◌, if◌then◌else◌, ◌>>=◌,
}
use arnel_lang.Prelude.Size.{add_size}
use arnel_lang.Ctype.{is_digit}
use arnel_lang.View.{make, null}
use arnel_lang.Token.{Token, l_float, l_integer}
use arnel_lang.Lexer.State.{Lexer, skip}

-- How the loop ends: by `break`, with `is_float`, `i` and `l->col`; or by `return` at a second dot.
pub data NumberEnd : Type 0 where
  stopped : Bool → ℕ → ℕ → NumberEnd
  second_dot : ℕ → NumberEnd

-- The loop, along the bytes at `l->text.chars + i`.
unfoldable pub lex_num_loop : List ℕ → Bool → ℕ → ℕ → Option NumberEnd
lex_num_loop [] is_float i col = none
lex_num_loop (c ∷ cs) is_float i col =
    let col' = add_size col 1 in
    elim (is_digit c) [
      | true ↦ lex_num_loop cs is_float (i + 1) col'
      | false ↦ elim (c == b'.') [
        | true ↦ elim is_float [
          | true ↦ some (second_dot col')
          | false ↦ lex_num_loop cs true (i + 1) col'
        ]
        | false ↦ some (stopped is_float i col')
      ]
    ]

-- `tok` is the token that `__next_token` has made.
abbrev pub finish_num : Lexer → Token → NumberEnd → Token × Lexer
finish_num l tok (stopped is_float i col) = (
  record tok {
    type = some (if is_float then l_float else l_integer);
    lexeme = make l.text.chars i;
  },
  skip (record l { col = col }) i,
)
finish_num l tok (second_dot col) =
    (record tok { lexeme = record tok.lexeme { chars = null } }, record l { col = col })

unfoldable pub lex_num : Lexer → Token → Option (Token × Lexer)
lex_num l tok = lex_num_loop l.text.chars.bytes false 0 l.col >>= λ e. some (finish_num l tok e)
