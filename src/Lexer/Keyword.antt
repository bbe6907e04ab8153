-- ===== src/Lexer/Keyword.antt =====
-- lexer.c: `ident_check_kw` and `check_kw`, which tell keywords from identifiers.
pub mod Spec
use Prim.Native.Char.{code}
use Prim.Native.String
use Prim.Native.String.{String}
use arnel_lang.Prelude.{
  ℕ, ◌+◌, ◌-◌, Bool, Option, none, some, List, [], ◌∷◌, ltb, ◌==◌, if◌then◌else◌, ◌>>=◌, length,
  get_elem?, drop,
}
use arnel_lang.View.{View, memcmp_eq}
use arnel_lang.Token.{
  TokenType, l_ident, l_const, l_else, l_export, l_if, l_nothing, l_return, l_true, l_var, l_void,
  l_while, l_false, l_for,
}

-- The bytes of an ASCII literal.
abbrev pub codes : String → List ℕ
codes String.[] = []
codes (String.◌∷◌ c s) = code c ∷ codes s

-- `wlen = strlen(word)`
unfoldable pub ident_check_kw : View → List ℕ → ℕ → TokenType → Option TokenType
ident_check_kw v word len ifmatch =
    if v.len == len + length word
    then (memcmp_eq (drop len v.chars.bytes) word (v.len - len) >>= λ eq.
        some (if eq then ifmatch else l_ident))
    else some l_ident

-- `if (t->lexeme.len > 1) switch (t->lexeme.chars[1]) { … } else t->type = L_IDENT`
unfoldable pub switch_second : View → (ℕ → Option TokenType) → Option TokenType
switch_second v cases = if ltb 1 v.len then (get_elem? v.chars.bytes 1 >>= cases) else some l_ident

unfoldable pub check_kw : View → Option TokenType
unfolding ident_check_kw switch_second
check_kw v = get_elem? v.chars.bytes 0 >>= λ c.
    if c == b'c'
    then switch_second v
        (λ d. if d == b'o' then ident_check_kw v (codes "nst") 2 l_const else some l_ident)
    else if c == b'e'
    then switch_second v (λ d.
      if d == b'l'
      then ident_check_kw v (codes "se") 2 l_else
      else if d == b'x'
      then ident_check_kw v (codes "port") 2 l_export
      else some l_ident)
    else if c == b'i'
    then (if v.len == 2
        then (get_elem? v.chars.bytes 1 >>= λ d. some (if d == b'f' then l_if else l_ident))
        else some l_ident)
    else if c == b'n'
    then ident_check_kw v (codes "othing") 1 l_nothing
    else if c == b'r'
    then ident_check_kw v (codes "eturn") 1 l_return
    else if c == b't'
    then ident_check_kw v (codes "rue") 1 l_true
    else if c == b'v'
    then switch_second v (λ d.
      if d == b'a'
      then ident_check_kw v (codes "r") 2 l_var
      else if d == b'o'
      then ident_check_kw v (codes "id") 2 l_void
      else some l_ident)
    else if c == b'w'
    then ident_check_kw v (codes "hile") 1 l_while
    else if c == b'f'
    then switch_second v (λ d.
      if d == b'a'
      then ident_check_kw v (codes "lse") 2 l_false
      else if d == b'o'
      then ident_check_kw v (codes "r") 2 l_for
      else some l_ident)
    else some l_ident
