-- ===== src/Lexer/Source.antt =====
-- lexer.c: the lexer delivers the tokens of its text to the parser.
use arnel_lang.Prelude.{
  ℕ, suc, ◌+◌, ◌-◌, ◌<◌, ◌≤◌, ◌≡◌, refl, sym, ap, ◌∙◌, true, false, Option, some, List, [], ◌∷◌,
  ◌++◌, ◌==◌, ◌>>=◌, length, arith, get_elem?, length-append,
}
use mathlib.Core.Path.{subst}
use arnel_lang.DynArray.Laws.{Holds}
use arnel_lang.DynArray.Remove.{last_read, remove-Holds}
use arnel_lang.Token.{Token}
use arnel_lang.Parser.Source.{Source}
use arnel_lang.Lexer.State.{Lexer}
use arnel_lang.Lexer.Queue.{next_token, peek_token}
use arnel_lang.Lexer.Stream.{next_raw-toks, Yields, Yields-queue}
use arnel_lang.Lexer.Refill.{
  get_elem?-map-some, get_elem?-append_left, get_elem?-length, Yields-inverse, fill_lem,
}

-- The tokens `ts` are those in the queue, and then the ones that the text begins with.
pub record Delivers (l : Lexer) (ts : List Token) : Type 0 where
  pub queue : List Token
  pub rest : List Token
  pub holds : Holds l.toks queue
  pub some_cap : 0 < l.toks.cap
  pub small_cap : l.toks.cap ≤ 4
  pub yields : Yields l rest
  pub whole : ts ≡ queue ++ rest

-- A lexer delivers a list of tokens if they are those in its queue, whose array has one to four slots,
-- and then the ones that `__next_token` reads in turn. `peek_token` at the first or the second of them
-- returns it, and the lexer delivers the same list afterwards.
pub peek_token-Delivers :
    (l : Lexer) (k : ℕ) (t : Token) (ts : List Token)
    → Delivers l ts
    → k < 2
    → get_elem? ts k ≡ some t
    → (l' : Lexer) × (peek_token l (suc k) ≡ some (t, l')) × Delivers l' ts
unfolding peek_token
peek_token-Delivers l k t ts d few h =
    let inside = get_elem?-length ts k t h in
    let total : length ts ≡ length d.queue + length d.rest =
      ap length d.whole ∙ length-append d.queue d.rest in
    let (l', queue, rest, run, holds, pos, small, y, same, enough) =
      fill_lem (suc (suc k)) (suc k) l d.queue d.rest d.holds d.some_cap d.small_cap d.yields
        (omega arith) (omega arith) (omega arith) (omega arith) in
    let item : get_elem? queue k ≡ some t =
      sym (get_elem?-append_left queue rest k (omega arith))
      ∙ ap (λ xs. get_elem? xs k) (same ∙ sym d.whole)
      ∙ h in
    let slot : get_elem? l'.toks.slots k ≡ some (some t) =
      ap (λ xs. get_elem? xs k) holds.slots ∙ get_elem?-map-some queue holds.spare k t item in
    let place : suc k - 1 ≡ k = omega arith in
    (
      l',
      rw (run, place, slot) refl,
      record {
        queue = queue;
        rest = rest;
        holds = holds;
        some_cap = pos;
        small_cap = small;
        yields = y;
        whole = d.whole ∙ sym same;
      },
    )

-- A read behind the array of tokens does no harm where it gives `y`.
module _ (y : Option Token) where
  last_lem :
      (spare : List (Option Token)) → (z : Option Token) × (last_read (some y) spare ≡ some z)
  last_lem [] = (y, refl)
  last_lem (s ∷ spare) = (s, refl)

  next_from :
      (l : Lexer) (t : Token) (ts queue rest : List Token)
      → Holds l.toks queue
      → 0 < l.toks.cap
      → l.toks.cap ≤ 4
      → Yields l rest
      → t ∷ ts ≡ queue ++ rest
      → (l' : Lexer) × (next_token (some y) l ≡ some (t, l')) × Delivers l' ts
  unfolding next_token
  next_from l t ts [] rest holds pos small ys whole =
      let (l', e, ys') = Yields-inverse l t ts (subst (Yields l) (sym whole) ys) in
      let same = next_raw-toks l l' t e in
      let empty : (l.toks.len == 0) ≡ true = (let a = holds.len in ground arith) in
      (
        l',
        rw empty e,
        record {
          queue = [];
          rest = ts;
          holds = subst (λ q. Holds q []) (sym same) holds;
          some_cap = subst (λ q. 0 < q.cap) (sym same) pos;
          small_cap = subst (λ q. q.cap ≤ 4) (sym same) small;
          yields = ys';
          whole = refl;
        },
      )
  next_from l t ts (x ∷ xs) rest holds pos small ys whole =
      let full : (l.toks.len == 0) ≡ false = (let a = holds.len in ground arith) in
      let (z, readable) = last_lem holds.spare in
      let (da, run, holds', kept) = remove-Holds (some y) l.toks [] xs x holds z readable in
      let first : x ≡ t = cc in
      (
        record l { toks = da },
        rw (full, run, ◌>>=◌) (ap (λ k. some (k, record l { toks = da })) first),
        record {
          queue = xs;
          rest = rest;
          holds = holds';
          some_cap = omega arith;
          small_cap = omega arith;
          yields = Yields-queue ys da;
          whole = cc;
        },
      )

  -- `next_token` on a lexer that delivers a list of tokens returns the first of them, and the lexer
  -- delivers the others afterwards. A read one slot behind the array of tokens gives some item.
  pub next_token-Delivers :
      (l : Lexer) (t : Token) (ts : List Token)
      → Delivers l (t ∷ ts)
      → (l' : Lexer) × (next_token (some y) l ≡ some (t, l')) × Delivers l' ts
  next_token-Delivers l t ts d =
      next_from l t ts d.queue d.rest d.holds d.some_cap d.small_cap d.yields d.whole

-- The lexer as the parser uses it.
abbrev pub lexer_source : Option Token → Source
lexer_source y = record {
  State = Lexer;
  next = next_token (some y);
  peek = peek_token;
  Delivers = Delivers;
  next-Delivers = next_token-Delivers y;
  peek-Delivers = peek_token-Delivers;
}
