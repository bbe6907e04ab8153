-- ===== src/Parser/Forms.antt =====
-- The forms of statements, each from its first token to its semicolon.
use arnel_lang.Prelude.{ℕ, ◌+◌, ◌<◌, ◌≡◌, refl, sym, true, some, List, [], ◌∷◌, ◌++◌, length, arith}
use mathlib.Core.Path.{subst}
use arnel_lang.Token.{
  Token, l_ident, l_return, l_semicolon, l_eq, l_if, l_while, l_var, l_lparen, l_rparen,
}
use arnel_lang.Ast.{
  Ast, ident, ret, assignment, decl_assignment, cond, while, open_paren, expr_to_void, absent, node,
}
use arnel_lang.Parser.Source.{Source}
use arnel_lang.Parser.Node.{prec}
use arnel_lang.Parser.State.{Parser}
use arnel_lang.Parser.Reading.{operand_of, operand_at, Reads}
use arnel_lang.Parser.Machine.{Consumes, Consumes-append}
use arnel_lang.Parser.Sums.{operand-Consumes, expr-Consumes}
use arnel_lang.Parser.Statements.{
  reads_voided, semicolon_return, semicolon_expr, semicolon_assignment, semicolon-Consumes,
  return-Consumes, eq-Consumes,
}
use arnel_lang.Parser.Blocks.{
  is_clear, if-Consumes, while-Consumes, lparen-Consumes, rparen_cond, rparen_while,
}
use arnel_lang.Parser.Declarations.{var-Consumes, semicolon_decl}

module _ (S : Source) (strtol : List ℕ → ℕ) where
  -- The tokens of the first list are worked off in place of those of the second.
  pub reshape :
      (p : Parser S) (vs : List Ast) (ts us : List Token) (nodes ms : List Ast)
      → ts ≡ us
      → nodes ≡ ms
      → Consumes S strtol p vs [] us (ms ++ vs) []
      → Consumes S strtol p vs [] ts (nodes ++ vs) []
  reshape p vs ts us nodes ms shape made run =
      subst (λ k. Consumes S strtol p vs [] k (nodes ++ vs) []) (sym shape)
        (subst (λ k. Consumes S strtol p vs [] us (k ++ vs) []) (sym made) run)

  pub fits :
      (nodes vs : List Ast) (p : Parser S)
      → length nodes + length vs + 2 < p.values.cap
      → length vs + 2 < p.values.cap
  fits nodes vs p h = omega arith

  pub tight :
      (nodes vs : List Ast) (p : Parser S)
      → length nodes + length vs + 2 < p.values.cap
      → length vs < p.values.cap
  tight nodes vs p h = omega arith

  pub value-Consumes :
      (p : Parser S) (vs os : List Ast) (x : Token)
      → x.type ≡ some l_ident
      → length vs < p.values.cap
      → Consumes S strtol p vs os (x ∷ []) (ident x.lexeme ∷ vs) os
  unfolding operand_at
  value-Consumes p vs os x xe room =
      operand-Consumes S strtol p vs os x (ident x.lexeme) (rw xe refl) room

  -- The test of a condition, in front of the tokens `ws`
  pub cond-Consumes :
      (p : Parser S) (vs : List Ast) (i lp : Token) (us : List Token) (rp : Token) (a : Ast)
      (ws : List Token) (vs' os' : List Ast)
      → i.type ≡ some l_if
      → lp.type ≡ some l_lparen
      → Reads strtol us a
      → rp.type ≡ some l_rparen
      → is_clear vs ≡ true
      → length vs + 2 < p.values.cap
      → 4 < p.operators.cap
      → Consumes S strtol p vs (cond (node a) absent absent ∷ []) ws vs' os'
      → Consumes S strtol p vs [] ((i ∷ []) ++ ((lp ∷ []) ++ (us ++ ((rp ∷ []) ++ ws)))) vs' os'
  unfolding prec
  cond-Consumes p vs i lp us rp a ws vs' os' ie le h re clear room room_op run =
      let os = cond absent absent absent ∷ [] in
      let (vs₁, os₁, test, waits) =
        expr-Consumes S strtol p us vs (open_paren ∷ os) a h (ground arith) room (omega arith) in
      Consumes-append S strtol p vs [] (i ∷ []) vs os ((lp ∷ []) ++ (us ++ ((rp ∷ []) ++ ws))) vs'
        os' (if-Consumes S strtol p vs [] i ie (omega arith))
        (Consumes-append S strtol p vs os (lp ∷ []) vs (open_paren ∷ os) (us ++ ((rp ∷ []) ++ ws))
          vs' os' (lparen-Consumes S strtol p vs os lp le clear (omega arith))
          (Consumes-append S strtol p vs (open_paren ∷ os) us vs₁ os₁ ((rp ∷ []) ++ ws) vs' os' test
            (Consumes-append S strtol p vs₁ os₁ (rp ∷ []) vs (cond (node a) absent absent ∷ []) ws
              vs' os'
              (rparen_cond S strtol p vs [] a absent absent absent vs₁ os₁ rp re waits
                (omega arith))
              run)))

  -- The test of a loop, in front of the tokens `ws`
  pub loop-Consumes :
      (p : Parser S) (vs : List Ast) (w lp : Token) (us : List Token) (rp : Token) (a : Ast)
      (ws : List Token) (vs' os' : List Ast)
      → w.type ≡ some l_while
      → lp.type ≡ some l_lparen
      → Reads strtol us a
      → rp.type ≡ some l_rparen
      → is_clear vs ≡ true
      → length vs + 2 < p.values.cap
      → 4 < p.operators.cap
      → Consumes S strtol p vs (while (node a) absent ∷ []) ws vs' os'
      → Consumes S strtol p vs [] ((w ∷ []) ++ ((lp ∷ []) ++ (us ++ ((rp ∷ []) ++ ws)))) vs' os'
  unfolding prec
  loop-Consumes p vs w lp us rp a ws vs' os' we le h re clear room room_op run =
      let os = while absent absent ∷ [] in
      let (vs₁, os₁, test, waits) =
        expr-Consumes S strtol p us vs (open_paren ∷ os) a h (ground arith) room (omega arith) in
      Consumes-append S strtol p vs [] (w ∷ []) vs os ((lp ∷ []) ++ (us ++ ((rp ∷ []) ++ ws))) vs'
        os' (while-Consumes S strtol p vs [] w we (omega arith))
        (Consumes-append S strtol p vs os (lp ∷ []) vs (open_paren ∷ os) (us ++ ((rp ∷ []) ++ ws))
          vs' os' (lparen-Consumes S strtol p vs os lp le clear (omega arith))
          (Consumes-append S strtol p vs (open_paren ∷ os) us vs₁ os₁ ((rp ∷ []) ++ ws) vs' os' test
            (Consumes-append S strtol p vs₁ os₁ (rp ∷ []) vs (while (node a) absent ∷ []) ws vs' os'
              (rparen_while S strtol p vs [] a absent absent vs₁ os₁ rp re waits (omega arith))
              run)))

  pub assigns-Consumes :
      (p : Parser S) (vs : List Ast) (x e : Token) (us : List Token) (semi : Token) (a : Ast)
      → x.type ≡ some l_ident
      → e.type ≡ some l_eq
      → Reads strtol us a
      → semi.type ≡ some l_semicolon
      → length vs + 2 < p.values.cap
      → 4 < p.operators.cap
      → Consumes S strtol p vs []
          ((x ∷ []) ++ ((e ∷ []) ++ (us ++ semi ∷ [])))
          (expr_to_void ∷ assignment (node (ident x.lexeme)) (node a) ∷ vs)
          []
  unfolding prec
  assigns-Consumes p vs x e us semi a xe ee h se room room_op =
      let target = ident x.lexeme in
      let os = assignment (node target) absent ∷ [] in
      let (vs₁, os₁, run, waits) =
        expr-Consumes S strtol p us vs os a h (ground arith) room (omega arith) in
      Consumes-append S strtol p vs [] (x ∷ []) (target ∷ vs) [] ((e ∷ []) ++ (us ++ semi ∷ [])) _ _
        (value-Consumes p vs [] x xe (omega arith))
        (Consumes-append S strtol p (target ∷ vs) [] (e ∷ []) vs os (us ++ semi ∷ []) _ _
          (eq-Consumes S strtol p vs [] target e ee (omega arith))
          (Consumes-append S strtol p vs os us vs₁ os₁ (semi ∷ []) _ _ run (
            semicolon-Consumes S strtol p vs₁ os₁ semi
              (expr_to_void ∷ assignment (node target) (node a) ∷ vs) [] se
              (λ s. semicolon_assignment S strtol p vs target a vs₁ os₁ s waits (omega arith)))))

  pub returns-Consumes :
      (p : Parser S) (vs : List Ast) (r : Token) (us : List Token) (semi : Token) (a : Ast)
      → r.type ≡ some l_return
      → Reads strtol us a
      → semi.type ≡ some l_semicolon
      → length vs + 2 < p.values.cap
      → 4 < p.operators.cap
      → Consumes S strtol p vs [] ((r ∷ []) ++ (us ++ semi ∷ [])) (ret (node a) ∷ vs) []
  unfolding prec
  returns-Consumes p vs r us semi a re h se room room_op =
      let (vs₁, os₁, run, waits) =
        expr-Consumes S strtol p us vs (ret absent ∷ []) a h (ground arith) room (omega arith) in
      Consumes-append S strtol p vs [] (r ∷ []) vs (ret absent ∷ []) (us ++ semi ∷ []) _ _
        (return-Consumes S strtol p vs [] r re (omega arith))
        (Consumes-append S strtol p vs (ret absent ∷ []) us vs₁ os₁ (semi ∷ []) _ _ run (
          semicolon-Consumes S strtol p vs₁ os₁ semi (ret (node a) ∷ vs) [] se
            (λ s. semicolon_return S strtol p vs a vs₁ os₁ s waits (omega arith))))

  pub expression-Consumes :
      (p : Parser S) (vs : List Ast) (us : List Token) (semi : Token) (a : Ast)
      → Reads strtol us a
      → semi.type ≡ some l_semicolon
      → length vs + 2 < p.values.cap
      → 4 < p.operators.cap
      → Consumes S strtol p vs [] (us ++ semi ∷ []) (expr_to_void ∷ a ∷ vs) []
  expression-Consumes p vs us semi a h se room room_op =
      let (vs₁, os₁, run, waits) = expr-Consumes S strtol p us vs [] a h refl room (omega arith) in
      Consumes-append S strtol p vs [] us vs₁ os₁ (semi ∷ []) _ _ run (
        semicolon-Consumes S strtol p vs₁ os₁ semi (expr_to_void ∷ a ∷ vs) [] se (λ s.
          semicolon_expr S strtol p vs a vs₁ os₁ s waits (reads_voided strtol us a h)
            (omega arith)))

  pub declares-Consumes :
      (p : Parser S) (vs : List Ast) (v x e o semi : Token) (a : Ast)
      → v.type ≡ some l_var
      → x.type ≡ some l_ident
      → e.type ≡ some l_eq
      → operand_of strtol o ≡ some a
      → semi.type ≡ some l_semicolon
      → length vs + 2 < p.values.cap
      → 4 < p.operators.cap
      → Consumes S strtol p vs []
          ((v ∷ x ∷ e ∷ []) ++ ((o ∷ []) ++ semi ∷ []))
          (decl_assignment x.lexeme (node a) ∷ vs)
          []
  declares-Consumes p vs v x e o semi a ve xe ee oe se room room_op =
      let os = decl_assignment x.lexeme absent ∷ [] in
      Consumes-append S strtol p vs [] (v ∷ x ∷ e ∷ []) vs os ((o ∷ []) ++ semi ∷ []) _ _
        (var-Consumes S strtol p vs [] v x e ve xe ee (omega arith))
        (Consumes-append S strtol p vs os (o ∷ []) (a ∷ vs) os (semi ∷ []) _ _
          (operand-Consumes S strtol p vs os o a oe (omega arith))
          (semicolon_decl S strtol p vs x a semi se (omega arith)))
