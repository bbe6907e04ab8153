-- ===== src/Lexer/Queue.antt =====
-- lexer.c: `next_token`, `push_token` and `peek_token`, which look ahead through an array of tokens.
-- The allocation of a longer array succeeds.
use arnel_lang.Prelude.{
  ℕ, zero, suc, ◌-◌, true, false, Option, none, some, ◌==◌, ltb, if◌then◌else◌, ◌>>=◌, get_elem?,
}
use arnel_lang.DynArray
use arnel_lang.DynArray.{DynArray}
use arnel_lang.Token.{Token}
use arnel_lang.Lexer.State.{Lexer}
use arnel_lang.Lexer.Next.{next_raw}

-- What the read behind the array in `tokens_remove` gives.
module _ (behind : Option (Option Token)) where
  -- The outer `none` is a fault; a NULL result of `tokens_remove` leaves `tok` unset, a fault too.
  unfoldable pub next_token : Lexer → Option (Token × Lexer)
  next_token l =
      if l.toks.len == 0
      then next_raw l
      else (DynArray.remove behind l.toks 0 >>= λ r.
          r.0 >>= λ tok. some (tok, record l { toks = r.1 }))

unfoldable pub push_token : Lexer → Token → Option Lexer
push_token l tok = DynArray.append true l.toks tok >>= λ r. some (record l { toks = r.1 })

-- The loop of `peek_token`, with its rounds bounded by the fuel.
unfoldable pub fill : ℕ → Lexer → ℕ → Option Lexer
fill zero l lookahead = none
fill (suc fuel) l lookahead = elim (ltb l.toks.len lookahead) [
  | true ↦ next_raw l >>= λ r. push_token r.1 r.0 >>= λ l'. fill fuel l' lookahead
  | false ↦ some l
]

-- `lookahead` rounds are enough, as each adds a token.
unfoldable pub peek_token : Lexer → ℕ → Option (Token × Lexer)
peek_token l lookahead = fill (suc lookahead) l lookahead >>= λ l'.
    get_elem? l'.toks.slots (lookahead - 1) >>= λ s. s >>= λ tok. some (tok, l')
