-- ===== src/Parser/Whole.antt =====
-- A program: declarations up to the end of the input.
use arnel_lang.Prelude.{
  ℕ, zero, suc, ◌+◌, ◌<◌, ◌≤◌, ◌≡◌, refl, sym, ap, ◌∙◌, none, some, List, [], ◌∷◌, ◌++◌, length,
  arith, length-append, map,
}
use mathlib.Core.Path.{subst}
use mathlib.Core.List.{append_assoc, append-nil}
use arnel_lang.Token.{Token, l_eof}
use arnel_lang.Types.{TypeSystem}
use arnel_lang.Parser.Result.{ok, or_fault}
use arnel_lang.Parser.Stack
use arnel_lang.Parser.Stack.{Stack}
use arnel_lang.Parser.Source.{Source}
use arnel_lang.Parser.State.{Symbol, Stmt, decl, Parser, put_statement, init}
use arnel_lang.Parser.Machine.{bind_lem, next_lem}
use arnel_lang.Parser.Program.{in_order, parse_top_level, parse_loop, parse}
use arnel_lang.Parser.TopLevel.{IsDeclaration, declaration, within}
use arnel_lang.Parser.Listing.{parts, parse_top_level-IsDeclaration}

module _ (strtol : List ℕ → ℕ) where
  -- The symbols of a program in their order, and the table of types behind it.
  pub data IsProgram (types' : TypeSystem) : TypeSystem → List Token → List Symbol → Type 0 where
    ended :
        {types : TypeSystem} {ts : List Token} {symbols : List Symbol} (t : Token)
        → ts ≡ t ∷ []
        → t.type ≡ some l_eof
        → symbols ≡ []
        → types' ≡ types
        → IsProgram types' types ts symbols
    declared :
        {types : TypeSystem} {ts : List Token} {symbols : List Symbol} (us ws : List Token)
        (symbol : Symbol) (more : TypeSystem) (others : List Symbol)
        → ts ≡ us ++ ws
        → IsDeclaration strtol types us symbol more
        → IsProgram types' more ws others
        → symbols ≡ symbol ∷ others
        → IsProgram types' types ts symbols

  declaration_size :
      (types : TypeSystem) (ts : List Token) (symbol : Symbol) (types' : TypeSystem)
      → IsDeclaration strtol types ts symbol types'
      → 0 < length ts
  declaration_size types ts symbol types'
        (declaration fs name eq tys arrow left us right semi after id nodes shape flagged ne ee
          typed ae le body re se few made) =
      omega (arith, ap length shape ∙ parts fs tys us name eq arrow left right semi)

  program_size :
      (types' types : TypeSystem) (ts : List Token) (symbols : List Symbol)
      → IsProgram types' types ts symbols
      → 0 < length ts
  program_size types' types ts symbols (ended t shape e none_left kept) =
      omega (arith, ap length shape)
  program_size types' types ts symbols (declared us ws symbol more others shape first rest made) =
      let size = program_size types' more ws others rest in
      omega (arith, ap length shape, length-append us ws)

-- The symbols as nodes, on top of the ones before.
abbrev pub pushed : List Symbol → List Stmt → List Stmt
pushed [] items = items
pushed (symbol ∷ symbols) items = pushed symbols (decl symbol ∷ items)

in_order-pushed :
    (symbols : List Symbol) (items out : List Stmt)
    → in_order (pushed symbols items) out ≡ in_order items (map decl symbols ++ out)
in_order-pushed [] items out = refl
in_order-pushed (symbol ∷ symbols) items out = in_order-pushed symbols (decl symbol ∷ items) out

module _ (S : Source) (strtol : List ℕ → ℕ) where
  -- The parser `p` with these nodes in its block.
  abbrev with_block : Parser S → List Stmt → Parser S
  with_block p items = record p { block = record p.block { items = items } }

  put_statement_lem :
      (p : Parser S) (n : Stmt)
      → length p.block.items < p.block.cap
      → put_statement S p n ≡ ok (with_block p (n ∷ p.block.items))
  unfolding Stack.put
  put_statement_lem p n h = ground arith

  end_run :
      (fuel : ℕ) (p : Parser S) (types : TypeSystem) (tok : Token) (s s₁ : S.State)
      → S.next s ≡ some (tok, s₁)
      → tok.type ≡ some l_eof
      → parse_loop S strtol (suc fuel) (within S strtol p none types [] s)
        ≡ ok (within S strtol p none types [] s₁)
  unfolding parse_loop parse_top_level
  end_run fuel p types tok s s₁ next₁ e =
      bind_lem _
        (bind_lem _ (next_lem S (within S strtol p none types [] s) tok s₁ next₁)
          (bind_lem _ (ap or_fault e) refl))
        refl

  declared_run :
      (fuel : ℕ) (p : Parser S) (types types' : TypeSystem) (symbol now : Symbol) (s s₁ : S.State)
      → parse_top_level S strtol fuel (within S strtol p none types [] s)
        ≡ ok (some symbol, within S strtol p (some now) types' [] s₁)
      → length p.block.items < p.block.cap
      → parse_loop S strtol (suc fuel) (within S strtol p none types [] s)
        ≡ parse_loop S strtol fuel
            (within S strtol (with_block p (decl symbol ∷ p.block.items)) none types' [] s₁)
  unfolding parse_loop
  declared_run fuel p types types' symbol now s s₁ first room =
      bind_lem _ first (
        bind_lem _ (put_statement_lem (within S strtol p none types' [] s₁) (decl symbol) room)
          refl)

  loop_run :
      (fuel : ℕ) (p : Parser S) (types types' : TypeSystem) (ts : List Token)
      (symbols : List Symbol) (rest : List Token) (s : S.State)
      → IsProgram strtol types' types ts symbols
      → 12 ≤ p.values.cap
      → 12 ≤ p.operators.cap
      → length p.block.items + length symbols ≤ p.block.cap
      → length ts ≤ fuel
      → S.Delivers s (ts ++ rest)
      → (s' : S.State) × S.Delivers s' rest
        × (parse_loop S strtol fuel (within S strtol p none types [] s)
            ≡ ok (within S strtol (with_block p (pushed symbols p.block.items)) none types' [] s'))
  loop_run zero p types types' ts symbols rest s program room room_op few enough h =
      let size = program_size strtol types' types ts symbols program in absurd (omega arith)
  loop_run (suc fuel) p types types' ts symbols rest s (ended t shape e none_left kept) room room_op
        few enough h =
      let (s₁, next₁, h₁) =
        S.next-Delivers s t rest (subst (λ k. S.Delivers s (k ++ rest)) shape h) in
      (
        s₁,
        h₁,
        end_run fuel p types t s s₁ next₁ e
            ∙ ap (λ k. ok (within S strtol p none k [] s₁)) (sym kept)
            ∙ ap
                (λ k.
                  ok (within S strtol (with_block p (pushed k p.block.items)) none types' [] s₁))
                (sym none_left),
      )
  loop_run (suc fuel) p types types' ts symbols rest s
        (declared us ws symbol more others shape first program made) room room_op few enough h =
      let h₀ = subst (S.Delivers s) (ap (λ k. k ++ rest) shape ∙ append_assoc us ws rest) h in
      let size : length ts ≡ length us + length ws = ap length shape ∙ length-append us ws in
      let count : length symbols ≡ 1 + length others = omega (arith, ap length made) in
      let here = declaration_size strtol types us symbol more first in
      let there = program_size strtol types' more ws others program in
      let (now, s₁, h₁, run) =
        parse_top_level-IsDeclaration S strtol p fuel types us symbol more (ws ++ rest) s first room
          room_op (omega arith) h₀ in
      let (s₂, h₂, run₂) =
        loop_run fuel (with_block p (decl symbol ∷ p.block.items)) more types' ws others rest s₁
          program room room_op (omega arith) (omega arith) h₁ in
      (
        s₂,
        h₂,
        declared_run fuel p types more symbol now s s₁ run (omega arith)
            ∙ run₂
            ∙ ap
                (λ k.
                  ok (within S strtol (with_block p (pushed k p.block.items)) none types' [] s₂))
                (sym made),
      )

-- `parse` on a program of at most twelve declarations, with a fresh parser and as many rounds as the
-- program has tokens, the end of the input among them: it returns a root whose children are the
-- declarations' symbols in their order, each with the flags, the name, the type and the body that the
-- grammar gives it, and the types are those the grammar leaves. In the grammar a type is a name, or an
-- empty list of parameters and a name; a body and each block in it have at most nine nodes, and their
-- statements use neither calls nor parenthesised operands.
pub parse-IsProgram :
    (S : Source) (strtol : List ℕ → ℕ) (fuel : ℕ) (types types' : TypeSystem) (ts : List Token)
    (symbols : List Symbol) (rest : List Token) (s : S.State)
    → IsProgram strtol types' types ts symbols
    → length symbols ≤ 12
    → length ts ≤ fuel
    → S.Delivers s (ts ++ rest)
    → (q : Parser S) × S.Delivers q.source rest
      × (q.types ≡ types')
      × (parse S strtol fuel (init S s types) ≡ ok (map decl symbols, q))
unfolding parse
parse-IsProgram S strtol fuel types types' ts symbols rest s program few enough h =
    let (s', h', run) =
      loop_run S strtol fuel (init S s types) types types' ts symbols rest s program (omega arith)
        (omega arith) (omega arith) enough h in
    let q =
      within S strtol (with_block S strtol (init S s types) (pushed symbols [])) none types' []
        s' in
    (
      q,
      h',
      refl,
      bind_lem _ run
          (ap (λ k. ok (k, q)) (in_order-pushed symbols [] [] ∙ append-nil (map decl symbols))),
    )
