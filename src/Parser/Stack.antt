-- ===== src/Parser/Stack.antt =====
-- parser.c: `asts_t` with `put_ast`, `pop_ast` and `peek_ast`.
--
-- `items` are the pointers below `len`, the last one first. Allocations succeed; a write behind the
-- `cap` slots of an allocation is a fault.
use arnel_lang.Prelude.{ℕ, Option, none, some, List, [], ◌∷◌, ltb, ◌==◌, if◌then◌else◌, length}
use arnel_lang.Prelude.Size.{mul_size}
use arnel_lang.Parser.Result.{Result, ok, fault}

pub record Stack {ℓ} (A : Type ℓ) : Type ℓ where
  pub cap : ℕ
  pub items : List A

module _ {ℓ} {A : Type ℓ} where
  abbrev pub with_cap : ℕ → Stack A
  with_cap n = record { cap = n; items = [] }

  -- `if (s->len == s->cap) s->stack = realloc(s->stack, (s->cap*=2)*sizeof(void*));`
  abbrev pub widen : Stack A → Stack A
  widen s = if length s.items == s.cap then record s { cap = mul_size s.cap 2 } else s

  -- `put_ast`
  unfoldable pub put : Stack A → A → Result (Stack A)
  put s n =
      let s' = widen s in
      if ltb (length s'.items) s'.cap then ok (record s' { items = n ∷ s'.items }) else fault

  -- `pop_ast`; NULL from an empty stack.
  abbrev pub pop : Stack A → Option A × Stack A
  pop s = elim s.items [ [] ↦ (none, s) | x ∷ xs ↦ (some x, record s { items = xs }) ]

  -- `peek_ast`
  abbrev pub peek : Stack A → Option A
  peek s = elim s.items [ [] ↦ none | x ∷ _ ↦ some x ]
