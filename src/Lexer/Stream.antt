-- ===== src/Lexer/Stream.antt =====
-- lexer.c: the tokens that look-ahead and reading deliver.
use arnel_lang.Prelude.{
  ℕ, ◌≡◌, refl, sym, ap, ◌∙◌, false, Option, none, some, List, [], ◌∷◌, ◌==◌, if◌then◌else◌, ◌>>=◌,
  arith, Bool-cases, Option-cases, inl, inr,
}
use mathlib.Core.Option.{some-injective}
use arnel_lang.Ctype.{is_space, is_digit}
use arnel_lang.View.{chop_predicate}
use arnel_lang.DynArray.{DynArray}
use arnel_lang.Token.{Token, TokenType, l_eof}
use arnel_lang.Lexer.State.{
  Lexer, trim_from, trim_left, chop_one, blank, skip, at_position, pass, char_at,
}
use arnel_lang.Lexer.Number.{stopped, second_dot, lex_num, lex_num_loop}
use arnel_lang.Lexer.Word.{lex_word, word_predicate}
use arnel_lang.Lexer.Next.{
  next_raw, dispatch, one_char_token, two_char_tokens, three_char_tokens, lex_operator,
  choose_second, lex_string, find_quote,
}

bind_none {ℓ κ} :
    {A : Type ℓ} {B : Type κ} {m : Option A} (f : A → Option B) → m ≡ none → (m >>= f) ≡ none
bind_none f e = ap (λ o. o >>= f) e

bind_some {ℓ κ} :
    {A : Type ℓ} {B : Type κ} {m : Option A} (f : A → Option B) {a : A}
    → m ≡ some a
    → (m >>= f) ≡ f a
bind_some f e = ap (λ o. o >>= f) e

module _ (q : DynArray Token) where
  abbrev with_toks : Lexer → Lexer
  with_toks l = record l { toks = q }

  abbrev framed : Option (Token × Lexer) → Option (Token × Lexer)
  framed o = elim o [ none ↦ none | some r ↦ some (r.0, with_toks r.1) ]

  trim_from-frame :
      (cs : List ℕ) (l : Lexer)
      → trim_from cs (with_toks l) ≡ (trim_from cs l >>= λ l'. some (with_toks l'))
  unfolding trim_from
  trim_from-frame [] l = refl
  trim_from-frame (c ∷ []) l = ground arith
  trim_from-frame (c ∷ d ∷ cs) l =
      let rest = trim_from-frame (d ∷ cs) (at_position (skip l 1) (pass d (l.line, l.col))) in
      elim (Bool-cases (is_space c)) [
        | inl e ↦ rw (e, trim_from) rest
        | inr e ↦ rw (e, trim_from) refl
      ]

  lex_num-frame : (l : Lexer) (tok : Token) → lex_num (with_toks l) tok ≡ framed (lex_num l tok)
  unfolding lex_num
  lex_num-frame l tok = elim (Option-cases (lex_num_loop l.text.chars.bytes false 0 l.col)) [
    | inl e ↦ rw e refl
    | inr (stopped f i c, e) ↦ rw e refl
    | inr (second_dot c, e) ↦ rw e refl
  ]

  lex_word-frame : (l : Lexer) (tok : Token) → lex_word (with_toks l) tok ≡ framed (lex_word l tok)
  unfolding lex_word
  lex_word-frame l tok =
      elim (Option-cases (chop_predicate word_predicate l.text (l.line, l.col))) [
        | inl e ↦ rw e refl
        | inr (r, e) ↦ rw (e, ◌>>=◌) (ground arith)
      ]

  lex_string-frame :
      (l : Lexer) (tok : Token) → lex_string (with_toks l) tok ≡ framed (lex_string l tok)
  unfolding lex_string
  lex_string-frame l tok = elim (Option-cases (find_quote (skip l 1).text.chars.bytes)) [
    | inl e ↦ rw e refl
    | inr (i, e) ↦ rw e refl
  ]

  choose_second-frame :
      (d : ℕ) (single : TokenType) (doubles : List (ℕ × TokenType)) (l : Lexer)
      → choose_second d single doubles (with_toks l)
        ≡ ((choose_second d single doubles l).0, with_toks (choose_second d single doubles l).1)
  unfolding choose_second chop_one
  choose_second-frame d single [] l = refl
  choose_second-frame d single ((e, double) ∷ rest) l = elim (Bool-cases (d == e)) [
    | inl k ↦ rw k refl
    | inr k ↦ rw k (choose_second-frame d single rest l)
  ]

  lex_operator-frame :
      (single : TokenType) (doubles : List (ℕ × TokenType)) (l : Lexer) (tok : Token)
      → lex_operator single doubles (with_toks l) tok ≡ framed (lex_operator single doubles l tok)
  unfolding lex_operator chop_one
  lex_operator-frame single doubles l tok = elim (Option-cases (char_at (chop_one l) 0)) [
    | inl e ↦ rw e refl
    | inr (d, e) ↦
        rw (e, ◌>>=◌)
          (ap (λ r. some (record tok { type = some r.0 }, r.1))
            (choose_second-frame d single doubles (chop_one l)))
  ]

  one_char-frame :
      (t : TokenType) (l : Lexer)
      → ◌≡◌ {A = Option (Token × Lexer)}
          (some (blank (with_toks l) (some t), chop_one (with_toks l)))
          (some (blank l (some t), with_toks (chop_one l)))
  unfolding chop_one
  one_char-frame t l = refl

  dispatch-frame : (c : ℕ) (l : Lexer) → dispatch c (with_toks l) ≡ framed (dispatch c l)
  unfolding dispatch
  dispatch-frame c l = elim (Bool-cases (c == b'"')) [
    | inl e ↦ rw e (lex_string-frame l (blank l none))
    | inr e ↦ elim (Bool-cases (is_digit c)) [
      | inl f ↦ rw (e, f) (lex_num-frame l (blank l none))
      | inr f ↦ elim (Option-cases (one_char_token c)) [
        | inr (t, g) ↦ rw (e, f, g) (one_char-frame t l)
        | inl g ↦ elim (Option-cases (two_char_tokens c)) [
          | inr (r, h) ↦ rw (e, f, g, h) (lex_operator-frame r.1 ((r.0, r.2) ∷ []) l (blank l none))
          | inl h ↦ elim (Option-cases (three_char_tokens c)) [
            | inr (r, k) ↦ rw (e, f, g, h, k) (lex_operator-frame r.0 r.1 l (blank l none))
            | inl k ↦ rw (e, f, g, h, k) (lex_word-frame l (blank l none))
          ]
        ]
      ]
    ]
  ]

  after_trim-frame :
      (l : Lexer)
      → (if l.text.len == 0
          then some (blank l (some l_eof), with_toks l)
          else (char_at l 0 >>= λ c. dispatch c (with_toks l)))
        ≡ framed (
            if l.text.len == 0
            then some (blank l (some l_eof), l)
            else (char_at l 0 >>= λ c. dispatch c l))
  after_trim-frame l = elim (Bool-cases (l.text.len == 0)) [
    | inl e ↦ rw e refl
    | inr e ↦ elim (Option-cases (char_at l 0)) [
      | inl f ↦ rw (e, f) refl
      | inr (c, f) ↦ rw (e, f) (dispatch-frame c l)
    ]
  ]

  pub next_raw-frame : (l : Lexer) → next_raw (with_toks l) ≡ framed (next_raw l)
  unfolding next_raw trim_left
  next_raw-frame l = elim (Option-cases (trim_from l.text.chars.bytes l)) [
    | inl e ↦
        let fr = trim_from-frame l.text.chars.bytes l in
        bind_none _ (fr ∙ rw e refl) ∙ sym (ap framed (bind_none _ e))
    | inr (l', e) ↦
        let fr = trim_from-frame l.text.chars.bytes l in
        bind_some _ {a = with_toks l'} (fr ∙ rw e refl)
        ∙ after_trim-frame l'
        ∙ sym (ap framed (bind_some _ e))
  ]

abbrev pub with_queue : DynArray Token → Lexer → Lexer
with_queue q l = record l { toks = q }

-- Reading leaves the queue alone and does not look at it.
pub next_raw-queue :
    (l l' : Lexer) (t : Token) (q : DynArray Token)
    → next_raw l ≡ some (t, l')
    → next_raw (with_queue q l) ≡ some (t, with_queue q l')
next_raw-queue l l' t q e = next_raw-frame q l ∙ ap (framed q) e

pub next_raw-toks : (l l' : Lexer) (t : Token) → next_raw l ≡ some (t, l') → l'.toks ≡ l.toks
next_raw-toks l l' t e =
    let same = sym e ∙ next_raw-queue l l' t l.toks e in
    ap (λ r. r.1.toks) (some-injective _ _ same)

-- The tokens that the text begins with.
pub data Yields : Lexer → List Token → Type 0 where
  nothing : (l : Lexer) → Yields l []
  more :
      {l l' : Lexer} {t : Token} {ts : List Token}
      → next_raw l ≡ some (t, l')
      → Yields l' ts
      → Yields l (t ∷ ts)

pub Yields-queue :
    {l : Lexer} {ts : List Token} → Yields l ts → (q : DynArray Token) → Yields (with_queue q l) ts
Yields-queue (nothing l) q = nothing (with_queue q l)
Yields-queue (more {l} {l'} {t} e rest) q = more (next_raw-queue l l' t q e) (Yields-queue rest q)
