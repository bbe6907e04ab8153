-- ===== src/Lexer/Word.antt =====
-- lexer.c: `lex_word` and its predicate.
use arnel_lang.Prelude.{ℕ, ◌-◌, Bool, Option, some, not, ◌&&◌, ◌||◌, ◌==◌, if◌then◌else◌, ◌>>=◌}
use arnel_lang.Ctype.{is_alnum}
use arnel_lang.View.{make, chop_predicate}
use arnel_lang.Token.{Token, l_eof}
use arnel_lang.Lexer.State.{Lexer, pass, at_position}
use arnel_lang.Lexer.Keyword.{check_kw}

-- `__chop_predicate_word`; the static `lexer` is the state that the predicate changes.
unfoldable pub word_predicate : ℕ → ℕ × ℕ → Bool × (ℕ × ℕ)
unfolding is_alnum
word_predicate c p = (is_alnum c || c == b'_', pass c p)

-- The version of the other build, in which `ARNEL_DEBUG_BUILD` is not defined.
unfoldable pub word_predicate_release : ℕ → Bool
unfolding is_alnum
word_predicate_release c = not (is_alnum c) && not (not (c == b'_'))

unfoldable pub lex_word : Lexer → Token → Option (Token × Lexer)
lex_word l tok = chop_predicate word_predicate l.text (l.line, l.col) >>= λ r.
    let l' = at_position (record l { text = r.1 }) r.2 in
    let lexeme = make l.text.chars (l'.text.chars.addr - l.text.chars.addr) in
    if lexeme.len == 0
    then some (record tok { lexeme = lexeme; type = some l_eof }, l')
    else (check_kw lexeme >>= λ t. some (record tok { lexeme = lexeme; type = some t }, l'))
