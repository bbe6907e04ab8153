-- ===== src/Parser/Blocks.antt =====
-- The parts of conditions and loops.
use arnel_lang.Prelude.{ℕ, ◌+◌, ◌<◌, ◌≡◌, refl, ◌∙◌, Bool, true, false, some, List, [], ◌∷◌, length}
use arnel_lang.Token.{Token, l_if, l_else, l_while, l_lparen, l_rparen, l_semicolon}
use arnel_lang.Ast.{Ast, ident, cond, else_clause, while, open_paren, Child, absent, node}
use arnel_lang.Parser.Result.{ok}
use arnel_lang.Parser.Source.{Source}
use arnel_lang.Parser.Node.{prec, ready, set_branches}
use arnel_lang.Parser.State.{Parser}
use arnel_lang.Parser.Expr.{is_paren, parse_lparen, parse_rparen}
use arnel_lang.Parser.Step.{is_statement, close_statement, close_loop, parse_semicolon, parse_case}
use arnel_lang.Parser.Machine.{
  bind_lem, at, put_value_lem, put_operator_lem, Consumes, token-Consumes,
}
use arnel_lang.Parser.Sums.{Waits}
use arnel_lang.Parser.Statements.{reduce_end, reduce-Waits, semicolon-Consumes}

-- A parenthesis behind these values opens no call.
abbrev pub is_clear : List Ast → Bool
is_clear [] = true
is_clear (top ∷ _) = elim top [ ident _ ↦ false | _ ↦ true ]

module _ (S : Source) (strtol : List ℕ → ℕ) (p : Parser S) where
  pub if-Consumes :
      (vs os : List Ast) (tok : Token)
      → tok.type ≡ some l_if
      → length os < p.operators.cap
      → Consumes S strtol p vs os (tok ∷ []) vs (cond absent absent absent ∷ os)
  unfolding parse_case
  if-Consumes vs os tok e room =
      token-Consumes S strtol p vs os tok l_if vs (cond absent absent absent ∷ os) e refl
        (λ k s. put_operator_lem S strtol p vs os s (cond absent absent absent) room)

  pub while-Consumes :
      (vs os : List Ast) (tok : Token)
      → tok.type ≡ some l_while
      → length os < p.operators.cap
      → Consumes S strtol p vs os (tok ∷ []) vs (while absent absent ∷ os)
  unfolding parse_case
  while-Consumes vs os tok e room =
      token-Consumes S strtol p vs os tok l_while vs (while absent absent ∷ os) e refl
        (λ k s. put_operator_lem S strtol p vs os s (while absent absent) room)

  pub else-Consumes :
      (vs os : List Ast) (tok : Token)
      → tok.type ≡ some l_else
      → length os < p.operators.cap
      → Consumes S strtol p vs os (tok ∷ []) vs (else_clause ∷ os)
  unfolding parse_case
  else-Consumes vs os tok e room =
      token-Consumes S strtol p vs os tok l_else vs (else_clause ∷ os) e refl
        (λ k s. put_operator_lem S strtol p vs os s else_clause room)

  lparen_run :
      (vs os : List Ast) (s : S.State)
      → is_clear vs ≡ true
      → length os < p.operators.cap
      → parse_lparen S (at S strtol p vs os s) ≡ ok (at S strtol p vs (open_paren ∷ os) s)
  unfolding parse_lparen
  lparen_run [] os s clear room = put_operator_lem S strtol p [] os s open_paren room
  lparen_run (ident name ∷ vs) os s clear room = cc
  lparen_run (top ∷ vs) os s clear room =
      put_operator_lem S strtol p (top ∷ vs) os s open_paren room

  pub lparen-Consumes :
      (vs os : List Ast) (tok : Token)
      → tok.type ≡ some l_lparen
      → is_clear vs ≡ true
      → length os < p.operators.cap
      → Consumes S strtol p vs os (tok ∷ []) vs (open_paren ∷ os)
  unfolding parse_case
  lparen-Consumes vs os tok e clear room =
      token-Consumes S strtol p vs os tok l_lparen vs (open_paren ∷ os) e refl
        (λ k s. lparen_run vs os s clear room)

  -- The parenthesis that closes the test of a condition or a loop
  pub rparen_cond :
      (vs os : List Ast) (a : Ast) (x y z : Child) (vs₁ os₁ : List Ast) (tok : Token)
      → tok.type ≡ some l_rparen
      → Waits S strtol p vs (open_paren ∷ cond x y z ∷ os) a vs₁ os₁
      → length vs + 1 < p.values.cap
      → Consumes S strtol p vs₁ os₁ (tok ∷ []) vs (cond (node a) y z ∷ os)
  unfolding parse_case parse_rparen
  rparen_cond vs os a x y z vs₁ os₁ tok e waits room =
      token-Consumes S strtol p vs₁ os₁ tok l_rparen vs (cond (node a) y z ∷ os) e refl (λ k s.
        bind_lem _
          (reduce-Waits S strtol p is_paren vs (open_paren ∷ cond x y z ∷ os) a vs₁ os₁ s waits
              (λ op. refl) room
            ∙ reduce_end S strtol p is_paren (a ∷ vs) (open_paren ∷ cond x y z ∷ os) s refl)
          refl)

  pub rparen_while :
      (vs os : List Ast) (a : Ast) (x y : Child) (vs₁ os₁ : List Ast) (tok : Token)
      → tok.type ≡ some l_rparen
      → Waits S strtol p vs (open_paren ∷ while x y ∷ os) a vs₁ os₁
      → length vs + 1 < p.values.cap
      → Consumes S strtol p vs₁ os₁ (tok ∷ []) vs (while (node a) y ∷ os)
  unfolding parse_case parse_rparen
  rparen_while vs os a x y vs₁ os₁ tok e waits room =
      token-Consumes S strtol p vs₁ os₁ tok l_rparen vs (while (node a) y ∷ os) e refl (λ k s.
        bind_lem _
          (reduce-Waits S strtol p is_paren vs (open_paren ∷ while x y ∷ os) a vs₁ os₁ s waits
              (λ op. refl) room
            ∙ reduce_end S strtol p is_paren (a ∷ vs) (open_paren ∷ while x y ∷ os) s refl)
          refl)

  -- The semicolon behind the last block of a condition or a loop
  pub semicolon_cond :
      (vs : List Ast) (b : Ast) (test x y : Child) (tok : Token)
      → tok.type ≡ some l_semicolon
      → length vs < p.values.cap
      → Consumes S strtol p (b ∷ vs) (cond test x y ∷ []) (tok ∷ []) (cond test (node b) y ∷ vs) []
  unfolding parse_semicolon close_loop close_statement prec ready
  semicolon_cond vs b test x y tok e room =
      semicolon-Consumes S strtol p (b ∷ vs) (cond test x y ∷ []) tok (cond test (node b) y ∷ vs) []
        e
        (λ s. bind_lem _ (reduce_end S strtol p is_statement (b ∷ vs) (cond test x y ∷ []) s refl) (
          bind_lem _
            (bind_lem _ (put_value_lem S strtol p vs [] s (cond test (node b) y) room) refl) refl))

  pub semicolon_while :
      (vs : List Ast) (b : Ast) (test x : Child) (tok : Token)
      → tok.type ≡ some l_semicolon
      → length vs < p.values.cap
      → Consumes S strtol p (b ∷ vs) (while test x ∷ []) (tok ∷ []) (while test (node b) ∷ vs) []
  unfolding parse_semicolon close_loop close_statement prec ready
  semicolon_while vs b test x tok e room =
      semicolon-Consumes S strtol p (b ∷ vs) (while test x ∷ []) tok (while test (node b) ∷ vs) [] e
        (λ s. bind_lem _ (reduce_end S strtol p is_statement (b ∷ vs) (while test x ∷ []) s refl) (
          bind_lem _ (bind_lem _ (put_value_lem S strtol p vs [] s (while test (node b)) room) refl)
            refl))

  pub semicolon_else :
      (vs : List Ast) (b c : Ast) (test x y : Child) (tok : Token)
      → tok.type ≡ some l_semicolon
      → length vs < p.values.cap
      → Consumes S strtol p
          (c ∷ b ∷ vs)
          (else_clause ∷ cond test x y ∷ [])
          (tok ∷ [])
          (cond test (node b) (node c) ∷ vs)
          []
  unfolding parse_semicolon close_loop close_statement prec ready set_branches
  semicolon_else vs b c test x y tok e room =
      semicolon-Consumes S strtol p (c ∷ b ∷ vs) (else_clause ∷ cond test x y ∷ []) tok
        (cond test (node b) (node c) ∷ vs) [] e
        (λ s.
          bind_lem _
            (reduce_end S strtol p is_statement (c ∷ b ∷ vs) (else_clause ∷ cond test x y ∷ []) s
              refl)
            (bind_lem _
              (bind_lem _ (put_value_lem S strtol p vs [] s (cond test (node b) (node c)) room)
                refl)
              refl))
