-- ===== src/Parser/Body.antt =====
-- The body of a function or of a block: a list of statements.
use arnel_lang.Prelude.{
  ℕ, suc, ◌+◌, ◌<◌, ◌≡◌, refl, sym, ap, ◌∙◌, true, some, List, [], ◌∷◌, ◌++◌, length, arith,
  length-append,
}
use mathlib.Core.Path.{subst}
use mathlib.Core.List.{append_assoc, append-nil}
use arnel_lang.Token.{Token, l_rcurly}
use arnel_lang.Ast.{Ast, block, expr_to_void, cond, else_clause, absent, node, Nodes, nil, cons}
use arnel_lang.Parser.Node.{to_nodes}
use arnel_lang.Parser.Result.{ok}
use arnel_lang.Parser.Source.{Source}
use arnel_lang.Parser.State.{Parser}
use arnel_lang.Parser.Step.{parse_statements}
use arnel_lang.Parser.Machine.{at, Consumes, Consumes-nil, Consumes-append}
use arnel_lang.Parser.Blocks.{
  is_clear, else-Consumes, semicolon_cond, semicolon_while, semicolon_else,
}
use arnel_lang.Parser.Braces.{block_items, block_of, inner, block-Consumes, end_lem}
use arnel_lang.Parser.Declarations.{local-Consumes}
use arnel_lang.Parser.Grammar.{
  IsStatement, returns, expression, assigns, local, declares, conditional, alternative, loops,
  block_values, listed, block_tree, IsBlock, braces, IsBody, nothing, more,
}
use arnel_lang.Parser.Forms.{
  fits, tight, reshape, cond-Consumes, loop-Consumes, assigns-Consumes, returns-Consumes,
  expression-Consumes, declares-Consumes,
}

statement_clear :
    (strtol : List ℕ → ℕ) (ts : List Token) (nodes vs : List Ast)
    → IsStatement strtol ts nodes
    → is_clear (nodes ++ vs) ≡ true
statement_clear strtol ts nodes vs (returns r us semi a shape re h se made) = rw made refl
statement_clear strtol ts nodes vs (expression us semi a shape h se made) = rw made refl
statement_clear strtol ts nodes vs (assigns x e us semi a shape xe ee h se made) = rw made refl
statement_clear strtol ts nodes vs (local v x semi shape ve xe se made) = rw made refl
statement_clear strtol ts nodes vs (declares v x e o semi a shape ve xe ee oe se made) =
    rw made refl
statement_clear strtol ts nodes vs
      (conditional i lp us rp bs semi a b shape ie le h re body se made) =
    rw made refl
statement_clear strtol ts nodes vs
      (alternative i lp us rp bs el cs semi a b c shape ie le h re body ele other se made) =
    rw made refl
statement_clear strtol ts nodes vs (loops w lp us rp bs semi a b shape we le h re body se made) =
    rw made refl

listed-to_nodes : (values : List Ast) (rest : Nodes) → to_nodes values rest ≡ listed values rest
unfolding listed
listed-to_nodes [] rest = refl
listed-to_nodes (a ∷ values) rest = listed-to_nodes values (cons (node a) rest)

block_values_lem :
    (top : Ast) (items : List Ast) → block_items (top ∷ items) ≡ block_values (top ∷ items)
unfolding block_values
block_values_lem expr_to_void items = refl
block_values_lem _ items = refl

-- The parser's block is that of the grammar.
block_tree_lem : (n : Ast) (ns : List Ast) → block_of (n ∷ ns) ≡ block_tree (n ∷ ns)
block_tree_lem n ns =
    ap block
      (listed-to_nodes (block_items (n ∷ ns)) nil ∙ ap (λ k. listed k nil) (block_values_lem n ns))

module _ (S : Source) (strtol : List ℕ → ℕ) where
  mutual
    statement-Consumes :
        (p : Parser S) (ts : List Token) (nodes vs : List Ast)
        → IsStatement strtol ts nodes
        → is_clear vs ≡ true
        → length nodes + length vs + 2 < p.values.cap
        → 4 < p.operators.cap
        → Consumes S strtol p vs [] ts (nodes ++ vs) []
    statement-Consumes p ts nodes vs (returns r us semi a shape re h se made) clear room room_op =
        reshape S strtol p vs ts _ nodes _ shape made (
          returns-Consumes S strtol p vs r us semi a re h se (fits S strtol nodes vs p room)
            room_op)
    statement-Consumes p ts nodes vs (expression us semi a shape h se made) clear room room_op =
        reshape S strtol p vs ts _ nodes _ shape made
          (expression-Consumes S strtol p vs us semi a h se (fits S strtol nodes vs p room) room_op)
    statement-Consumes p ts nodes vs (assigns x e us semi a shape xe ee h se made) clear room
          room_op =
        reshape S strtol p vs ts _ nodes _ shape made (
          assigns-Consumes S strtol p vs x e us semi a xe ee h se (fits S strtol nodes vs p room)
            room_op)
    statement-Consumes p ts nodes vs (local v x semi shape ve xe se made) clear room room_op =
        reshape S strtol p vs ts _ nodes _ shape made
          (local-Consumes S strtol p vs v x semi ve xe se (tight S strtol nodes vs p room))
    statement-Consumes p ts nodes vs (declares v x e o semi a shape ve xe ee oe se made) clear room
          room_op =
        reshape S strtol p vs ts _ nodes _ shape made (
          declares-Consumes S strtol p vs v x e o semi a ve xe ee oe se
            (fits S strtol nodes vs p room) room_op)
    statement-Consumes p ts nodes vs
          (conditional i lp us rp bs semi a b shape ie le h re body se made) clear room room_op =
        reshape S strtol p vs ts _ nodes _ shape made (
          cond-Consumes S strtol p vs i lp us rp a (bs ++ semi ∷ []) _ _ ie le h re clear
            (fits S strtol nodes vs p room) room_op
            (Consumes-append S strtol p vs _ bs (b ∷ vs) _ (semi ∷ []) _ _
              (braced-Consumes p bs (b ∷ []) vs _ body (tight S strtol nodes vs p room))
              (semicolon_cond S strtol p vs b (node a) absent absent semi se
                (tight S strtol nodes vs p room))))
    statement-Consumes p ts nodes vs
          (alternative i lp us rp bs el cs semi a b c shape ie le h re body ele other se made) clear
          room room_op =
        let conditional = cond (node a) absent absent ∷ [] in
        let spare = fits S strtol nodes vs p room in
        reshape S strtol p vs ts _ nodes _ shape made (
          cond-Consumes S strtol p vs i lp us rp a (bs ++ ((el ∷ []) ++ (cs ++ semi ∷ []))) _ _ ie
            le h re clear spare room_op
            (Consumes-append S strtol p vs conditional bs (b ∷ vs) conditional
              ((el ∷ []) ++ (cs ++ semi ∷ [])) _ _
              (braced-Consumes p bs (b ∷ []) vs conditional body (omega arith))
              (Consumes-append S strtol p (b ∷ vs) conditional (el ∷ []) (b ∷ vs)
                (else_clause ∷ conditional) (cs ++ semi ∷ []) _ _
                (else-Consumes S strtol p (b ∷ vs) conditional el ele (omega arith))
                (Consumes-append S strtol p (b ∷ vs) (else_clause ∷ conditional) cs (c ∷ b ∷ vs) _
                  (semi ∷ []) _ _
                  (braced-Consumes p cs (c ∷ []) (b ∷ vs) (else_clause ∷ conditional) other
                    (omega arith))
                  (semicolon_else S strtol p vs b c (node a) absent absent semi se
                    (omega arith))))))
    statement-Consumes p ts nodes vs (loops w lp us rp bs semi a b shape we le h re body se made)
          clear room room_op =
        reshape S strtol p vs ts _ nodes _ shape made (
          loop-Consumes S strtol p vs w lp us rp a (bs ++ semi ∷ []) _ _ we le h re clear
            (fits S strtol nodes vs p room) room_op
            (Consumes-append S strtol p vs _ bs (b ∷ vs) _ (semi ∷ []) _ _
              (braced-Consumes p bs (b ∷ []) vs _ body (tight S strtol nodes vs p room))
              (semicolon_while S strtol p vs b (node a) absent semi se
                (tight S strtol nodes vs p room))))

    braced-Consumes :
        (p : Parser S) (ts : List Token) (nodes vs os : List Ast)
        → IsBlock strtol ts nodes
        → length vs < p.values.cap
        → Consumes S strtol p vs os ts (nodes ++ vs) os
    braced-Consumes p ts nodes vs os (braces left us right n ns shape le body re few made) room =
        subst (λ k. Consumes S strtol p vs os k (nodes ++ vs) os) (sym shape)
          (subst (λ k. Consumes S strtol p vs os ((left ∷ []) ++ (us ++ right ∷ [])) (k ++ vs) os)
            (sym (made ∙ ap (λ k. k ∷ []) (sym (block_tree_lem n ns))))
            (block-Consumes S strtol p vs os left us right n ns le re
              (subst (λ k. Consumes S strtol (inner S strtol p) [] [] us k []) (append-nil (n ∷ ns))
                (body-Consumes (inner S strtol p) us (n ∷ ns) [] body refl (omega arith)
                  (omega arith)))
              room))

    pub body-Consumes :
        (p : Parser S) (ts : List Token) (nodes vs : List Ast)
        → IsBody strtol ts nodes
        → is_clear vs ≡ true
        → length nodes + length vs + 2 < p.values.cap
        → 4 < p.operators.cap
        → Consumes S strtol p vs [] ts (nodes ++ vs) []
    body-Consumes p ts nodes vs (nothing shape made) clear room room_op =
        reshape S strtol p vs ts [] nodes [] shape made (Consumes-nil S strtol p vs [])
    body-Consumes p ts nodes vs (more us ws ns ms shape first rest made) clear room room_op =
        subst (λ k. Consumes S strtol p vs [] k (nodes ++ vs) []) (sym shape)
          (subst (λ k. Consumes S strtol p vs [] (us ++ ws) k [])
            (sym (ap (λ k. k ++ vs) made ∙ append_assoc ms ns vs))
            (Consumes-append S strtol p vs [] us (ns ++ vs) [] ws (ms ++ (ns ++ vs)) []
              (statement-Consumes p us ns vs first clear
                (omega (arith, length-append ms ns, ap length made)) room_op)
              (body-Consumes p ws ms (ns ++ vs) rest (statement_clear strtol us ns vs first)
                (omega (arith, length-append ms ns, length-append ns vs, ap length made)) room_op)))

-- The tokens of a list of statements and the brace behind them. A statement is a return, an
-- assignment, an expression, a declaration with or without an operand as its value, a condition with
-- one block or two, or a loop; an expression combines literals and names by `+`, `-`, `*`, `/`, with no
-- `*` or `/` behind a `+` or `-`, and at most one comparison, and a block is a list of at least one statement, and of at most nine nodes, in its own braces. With one
-- round for each token and one for the brace the loop over statements ends at the brace, and the
-- values are the nodes that the grammar gives to the statements, above what was there. The stacks
-- have room for them, and no name is at the top of the values before.
pub parse_statements-IsBody :
    (S : Source) (strtol : List ℕ → ℕ) (p : Parser S) (vs : List Ast) (ts : List Token)
    (nodes : List Ast) (close : Token) (rest : List Token) (s : S.State) (fuel : ℕ)
    → IsBody strtol ts nodes
    → close.type ≡ some l_rcurly
    → S.Delivers s (ts ++ close ∷ rest)
    → is_clear vs ≡ true
    → length nodes + length vs + 2 < p.values.cap
    → 4 < p.operators.cap
    → (s' : S.State) × S.Delivers s' (close ∷ rest)
      × (parse_statements S strtol (length ts + suc fuel) (at S strtol p vs [] s)
          ≡ ok (at S strtol p (nodes ++ vs) [] s'))
parse_statements-IsBody S strtol p vs ts nodes close rest s fuel body ce h clear room room_op =
    let (s₁, h₁, spare, run) =
      body-Consumes S strtol p ts nodes vs body clear room room_op (close ∷ rest) s h in
    let (s₂, peek₂, h₂) = S.peek-Delivers s₁ 0 close (close ∷ rest) h₁ (omega arith) refl in
    (
      s₂,
      h₂,
      run (suc fuel)
          ∙ ap (λ n. parse_statements S strtol n (at S strtol p (nodes ++ vs) [] s₁))
              (later spare fuel)
          ∙ end_lem S strtol p (at S strtol p (nodes ++ vs) [] s₁) close (spare + fuel) s₂ ce peek₂,
    )
  where
    later : (a b : ℕ) → a + suc b ≡ suc (a + b)
    later a b = omega arith
