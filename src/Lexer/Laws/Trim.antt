-- ===== src/Lexer/Laws/Trim.antt =====
-- White space before a token, and the shape of a successful read.
use arnel_lang.Prelude.{
  ℕ, ◌-◌, ◌<◌, ◌≡◌, refl, true, false, Option, some, List, [], ◌∷◌, ◌==◌, ◌>>=◌, arith, drop,
  if◌then◌else◌, get_elem?, sym, ap,
}
use arnel_lang.Ctype.{is_space}
use arnel_lang.View.{content}
use arnel_lang.Token.{Token, TokenType, l_eof}
use arnel_lang.Lexer.State.{Lexer, trim_from, trim_left, skip, pass, at_position, char_at, blank}
use mathlib.Core.Path.{subst}
use arnel_lang.Lexer.Next.{next_raw, dispatch}

-- The token `r.0` has type `t` and lexeme `bs`, and `n` bytes of the text of `l` are used up.
pub record Reads (l : Lexer) (n : ℕ) (t : TokenType) (bs : List ℕ) (r : Token × Lexer)
    : Type 0 where
  pub type : r.0.type ≡ some t
  pub lexeme : content r.0.lexeme ≡ bs
  pub rest : r.1.text.chars.bytes ≡ drop n l.text.chars.bytes
  pub left : r.1.text.len ≡ l.text.len - n
  pub toks : r.1.toks ≡ l.toks

abbrev pub text_of : Lexer → List ℕ
text_of l = l.text.chars.bytes

trim_from-none :
    (l : Lexer) (c : ℕ) (cs : List ℕ) → is_space c ≡ false → trim_from (c ∷ cs) l ≡ some l
unfolding trim_from
trim_from-none l c [] s = rw s
trim_from-none l c (d ∷ cs) s = rw (s, trim_from)

trim_from-space :
    (l : Lexer) (c d : ℕ) (cs : List ℕ)
    → is_space c ≡ true
    → is_space d ≡ false
    → trim_from (c ∷ d ∷ cs) l ≡ some (at_position (skip l 1) (pass d (l.line, l.col)))
unfolding trim_from
trim_from-space l c d cs s n = rw (s, trim_from) (trim_from-none _ d cs n)

pub char_at-head : (l : Lexer) (c : ℕ) (cs : List ℕ) → text_of l ≡ c ∷ cs → char_at l 0 ≡ some c
char_at-head l c cs e = subst (λ b. get_elem? b 0 ≡ some c) (sym e) refl

after_trim : (l : Lexer) → Option (Token × Lexer)
after_trim l =
    if l.text.len == 0 then some (blank l (some l_eof), l) else (char_at l 0 >>= λ c. dispatch c l)

after_trim-dispatch :
    (l : Lexer) (c : ℕ) (cs : List ℕ)
    → text_of l ≡ c ∷ cs
    → 0 < l.text.len
    → after_trim l ≡ dispatch c l
unfolding after_trim
after_trim-dispatch l c cs e pos = rw (char_at-head l c cs e) (ground arith)

-- At a byte that is no space `__next_token` goes by that byte.
pub next_raw-dispatch :
    (l : Lexer) (c : ℕ) (cs : List ℕ)
    → text_of l ≡ c ∷ cs
    → is_space c ≡ false
    → 0 < l.text.len
    → next_raw l ≡ dispatch c l
unfolding next_raw trim_left after_trim
next_raw-dispatch l c cs e s pos =
    subst (λ b. (trim_from b l >>= after_trim) ≡ dispatch c l) (sym e)
      (rw (trim_from-none l c cs s) (after_trim-dispatch l c cs e pos))

abbrev pub step_space : Lexer → ℕ → Lexer
step_space l d = at_position (skip l 1) (pass d (l.line, l.col))

-- One space is skipped: the read goes on behind it.
pub next_raw-space :
    (l : Lexer) (c d : ℕ) (cs : List ℕ)
    → text_of l ≡ c ∷ d ∷ cs
    → is_space c ≡ true
    → is_space d ≡ false
    → (text_of (step_space l d) ≡ d ∷ cs) × (next_raw l ≡ next_raw (step_space l d))
unfolding next_raw trim_left
next_raw-space l c d cs e s n =
    let moved : text_of (step_space l d) ≡ d ∷ cs = ap (drop 1) e in
    (
      moved,
      rw (
        subst (λ b. trim_from b l ≡ some (step_space l d)) (sym e) (trim_from-space l c d cs s n),
        subst (λ b. trim_from b (step_space l d) ≡ some (step_space l d)) (sym moved)
            (trim_from-none (step_space l d) d cs n),
      ),
    )
