-- ===== src/Parser/Source.antt =====
-- What the parser wants of its lexer: `next_token` and `peek_token`.
use arnel_lang.Prelude.{ℕ, suc, ◌<◌, ◌≡◌, Option, some, List, ◌∷◌, get_elem?}
use arnel_lang.Token.{Token}

-- `Delivers s ts`: the tokens that follow in the state `s` begin with `ts`. `peek s 1` looks at the
-- first of them; the parser looks at most at the second.
pub record Source : Type 1 where
  pub State : Type 0
  pub next : State → Option (Token × State)
  pub peek : State → ℕ → Option (Token × State)
  pub Delivers : State → List Token → Type 0
  pub next-Delivers :
      (s : State) (t : Token) (ts : List Token)
      → Delivers s (t ∷ ts)
      → (s' : State) × (next s ≡ some (t, s')) × Delivers s' ts
  pub peek-Delivers :
      (s : State) (k : ℕ) (t : Token) (ts : List Token)
      → Delivers s ts
      → k < 2
      → get_elem? ts k ≡ some t
      → (s' : State) × (peek s (suc k) ≡ some (t, s')) × Delivers s' ts
