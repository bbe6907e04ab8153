-- ===== src/Lexer/Laws/Words.antt =====
-- Words: identifiers and keywords.
use arnel_lang.Prelude.{
  ℕ, ◌+◌, ◌-◌, ◌<◌, ◌≤◌, ◌≡◌, refl, ◌∙◌, Bool, true, false, none, some, List, [], ◌∷◌, ◌++◌, ◌==◌,
  ◌||◌, arith, take, length, All, take-length-append,
}
use arnel_lang.Prelude.Size.{size_mod, sub_size-eq, sub_size}
use arnel_lang.Ctype.{is_space, is_digit, is_alpha, is_alnum}
use arnel_lang.View.{make, scan, chop_predicate, advance}
use arnel_lang.View.Laws.{IsValid}
use arnel_lang.Token.{Token, l_eof}
use arnel_lang.Lexer.State.{Lexer, pass, blank, at_position}
use arnel_lang.Lexer.Word.{word_predicate, lex_word}
use arnel_lang.Lexer.Keyword.{check_kw}
use arnel_lang.Lexer.Keyword.Spec.{keyword_of, check_kw-keyword_of}
use arnel_lang.Lexer.Next.{one_char_token, two_char_tokens, three_char_tokens, dispatch, next_raw}
use arnel_lang.Lexer.Laws.Trim.{text_of, next_raw-dispatch}
use arnel_lang.Lexer.Laws.Operators.{munch, dispatch-none}

-- A byte of a word, and one that can begin a word.
unfoldable pub is_word_char : ℕ → Bool
unfolding is_alnum
is_word_char c = is_alnum c || c == b'_'

unfoldable pub is_word_start : ℕ → Bool
unfolding is_alpha
is_word_start c = is_alpha c || c == b'_'

-- The position behind the bytes of `w`.
abbrev pub pass_all : List ℕ → ℕ × ℕ → ℕ × ℕ
pass_all [] p = p
pass_all (c ∷ w) p = pass_all w (pass c p)

scan-word :
    (w : List ℕ) (c : ℕ) (rest : List ℕ) (p : ℕ × ℕ)
    → All is_word_char w
    → is_word_char c ≡ false
    → scan word_predicate (w ++ c ∷ rest) p ≡ some (length w, pass c (pass_all w p))
unfolding scan word_predicate is_word_char
scan-word [] c rest p h n = rw (n, scan)
scan-word (x ∷ w) c rest p h n = rw (h.0, scan) (rw (scan-word w c rest (pass x p) h.1 n))

word_start_cases :
    (c : ℕ)
    → is_word_start c ≡ true
    → ((c == b'"') ≡ false) × (is_digit c ≡ false) × (is_space c ≡ false) × (is_word_char c ≡ true)
unfolding is_word_start is_word_char is_digit is_space
word_start_cases c h = ground arith

word_start_tables :
    (c : ℕ)
    → is_word_start c ≡ true
    → (one_char_token c ≡ none) × (two_char_tokens c ≡ none) × (three_char_tokens c ≡ none)
unfolding is_word_start one_char_token two_char_tokens three_char_tokens
word_start_tables c h = (ground arith, ground arith, ground arith)

dispatch-word :
    (c : ℕ) (l : Lexer) → is_word_start c ≡ true → dispatch c l ≡ lex_word l (blank l none)
unfolding dispatch
dispatch-word c l h =
    let (quote, digit, _, _) = word_start_cases c h in
    let (one, two, three) = word_start_tables c h in rw (quote, digit, one, two, three)

-- A word as the language spells it.
abbrev pub IsWord : List ℕ → Type 0
IsWord [] = ⊥
IsWord (c ∷ w) = (is_word_start c ≡ true) × All is_word_char w

-- The lexer behind the word `w`, at the byte `c`. The predicate has passed over `c` too.
abbrev pub after_word : Lexer → List ℕ → ℕ → Lexer
after_word l w c =
    at_position
      (record l {
        text = record {
          chars = advance l.text.chars (length w);
          len = sub_size l.text.len (length w);
        };
      })
      (pass c (pass_all w (l.line, l.col)))

module _ (l : Lexer) (w : List ℕ) (c : ℕ) (rest : List ℕ) (e : text_of l ≡ w ++ c ∷ rest) where
  word_content : take (length w) (text_of l) ≡ w
  word_content = rw e (take-length-append w (c ∷ rest))

  lex_word_lem :
      (tok : Token)
      → IsValid l.text
      → length w ≤ l.text.len
      → 0 < length w
      → All is_word_char w
      → is_word_char c ≡ false
      → lex_word l tok
        ≡ some (
          record tok { lexeme = make l.text.chars (length w); type = some (keyword_of w) },
          after_word l w c,
        )
  unfolding lex_word chop_predicate
  lex_word_lem tok valid fits pos h n =
      let scanned : scan word_predicate (text_of l) (l.line, l.col)
          ≡ some (length w, pass c (pass_all w (l.line, l.col))) =
        rw e (scan-word w c rest (l.line, l.col) h n) in
      let distance : l.text.chars.addr + length w - l.text.chars.addr ≡ length w = omega arith in
      let kw : check_kw (make l.text.chars (length w)) ≡ some (keyword_of w) = rw word_content at (
        check_kw-keyword_of {v = make l.text.chars (length w)}
          (record { readable = omega (arith, valid.readable); word = omega (arith, valid.word) })
          pos) in
      let nonempty : (length w == 0) ≡ false = ground arith in rw (scanned, distance, nonempty, kw)

-- A word and a byte that is none of a word: `__next_token` gives the word, as the keyword that it
-- spells or as an identifier, at the lexer's position, and stands behind it.
pub next_raw-word :
    (l : Lexer) (w : List ℕ) (c : ℕ) (rest : List ℕ) (e : text_of l ≡ w ++ c ∷ rest)
    → IsValid l.text
    → length w ≤ l.text.len
    → IsWord w
    → is_word_char c ≡ false
    → next_raw l
      ≡ some (
        record {
          lexeme = make l.text.chars (length w);
          type = some (keyword_of w);
          line = l.line;
          col = l.col;
        },
        after_word l w c,
      )
next_raw-word l [] c rest e valid fits h n = absurd h
next_raw-word l (d ∷ v) c rest e valid fits h n =
    let (_, _, space, start) = word_start_cases d h.0 in
    rw (next_raw-dispatch l d (v ++ c ∷ rest) e space (omega arith), dispatch-word d l h.0)
      (lex_word_lem l (d ∷ v) c rest e (blank l none) valid fits (omega arith) (start, h.1) n)

-- A byte that begins no token, such as `#`: the token says that the input has ended, and the text
-- stays where it is.
pub next_raw-unknown :
    (l : Lexer) (c d : ℕ) (rest : List ℕ)
    → text_of l ≡ c ∷ d ∷ rest
    → 0 < l.text.len
    → l.text.len < size_mod
    → is_space c ≡ false
    → is_digit c ≡ false
    → is_word_char c ≡ false
    → (c == b'"') ≡ false
    → munch c d ≡ none
    → (r : Token × Lexer) × (next_raw l ≡ some r)
      × (r.0.type ≡ some l_eof)
      × (text_of r.1 ≡ text_of l)
      × (r.1.text.len ≡ l.text.len)
unfolding lex_word chop_predicate
next_raw-unknown l c d rest e pos small ns nd nw nq m =
    let scanned : scan word_predicate (text_of l) (l.line, l.col)
        ≡ some (0, pass c (l.line, l.col)) =
      rw e (scan-word [] c (d ∷ rest) (l.line, l.col) tt nw) in
    let distance : l.text.chars.addr + 0 - l.text.chars.addr ≡ 0 = omega arith in
    (
      (
        record (blank l none) { lexeme = make l.text.chars 0; type = some l_eof },
        after_word l [] c,
      ),
      next_raw-dispatch l c (d ∷ rest) e ns pos
          ∙ dispatch-none l c d rest e pos nq nd m
          ∙ rw (scanned, distance),
      refl,
      refl,
      sub_size-eq l.text.len 0 (omega arith) small ∙ omega arith,
    )
