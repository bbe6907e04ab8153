-- ===== src/Lexer/State.antt =====
-- lexer.h: `struct lexer_t`; lexer.c: `lexer_init`, `cur`, `trim_left`.
use arnel_lang.Prelude.{
  ℕ, Bool, true, false, Option, none, some, List, [], ◌∷◌, ◌==◌, if◌then◌else◌, get_elem?,
}
use arnel_lang.Prelude.Size.{add_size, sub_size}
use arnel_lang.Ctype.{is_space}
use arnel_lang.View.{View, advance, chopn, no_view}
use arnel_lang.DynArray
use arnel_lang.DynArray.{DynArray}
use arnel_lang.Token.{Token, TokenType}

pub record Lexer : Type 0 where
  pub text : View
  pub toks : DynArray Token
  pub line : ℕ
  pub col : ℕ

-- `lexer_init`; `granted` says whether the allocation for the tokens succeeds.
unfoldable pub lexer_init : Bool → Lexer → View → Lexer
lexer_init granted l v = record l {
  toks = (DynArray.init granted l.toks 1).1;
  text = v;
  line = 0;
  col = 0;
}

-- `l->text.chars[i]`
abbrev pub char_at : Lexer → ℕ → Option ℕ
char_at l i = get_elem? l.text.chars.bytes i

-- `l->text.chars += n; l->text.len -= n;`
abbrev pub skip : Lexer → ℕ → Lexer
skip l n = record l {
  text = record { chars = advance l.text.chars n; len = sub_size l.text.len n };
}

-- The line and column after the byte `c` is met.
abbrev pub pass : ℕ → ℕ × ℕ → ℕ × ℕ
pass c (line, col) = if c == b'\n' then (add_size line 1, 0) else (line, add_size col 1)

abbrev pub at_position : Lexer → ℕ × ℕ → Lexer
at_position l p = record l { line = p.0; col = p.1 }

-- The loop of `trim_left`, along the bytes at `l->text.chars`. The byte that is looked at for a new
-- line is the one behind the space.
unfoldable pub trim_from : List ℕ → Lexer → Option Lexer
trim_from [] l = none
trim_from (c ∷ []) l = if is_space c then none else some l
trim_from (c ∷ d ∷ cs) l = elim (is_space c) [
  | true ↦ trim_from (d ∷ cs) (at_position (skip l 1) (pass d (l.line, l.col)))
  | false ↦ some l
]

unfoldable pub trim_left : Lexer → Option Lexer
unfolding trim_from is_space
trim_left l = trim_from l.text.chars.bytes l

-- `view_chopn(&l->text, 1); l->col++;`
unfoldable pub chop_one : Lexer → Lexer
unfolding chopn
chop_one l = record l { text = (chopn l.text 1).1; col = add_size l.col 1 }

-- A token as `__next_token` makes it: at the lexer's position, with no lexeme.
abbrev pub blank : Lexer → Option TokenType → Token
blank l t = record { lexeme = no_view; type = t; line = l.line; col = l.col }
