-- ===== src/Parser/Statements.antt =====
-- Statements: returns, assignments and expressions, up to their semicolons.
use arnel_lang.Prelude.{
  ℕ, ◌+◌, ◌<◌, ◌≡◌, refl, sym, ◌∙◌, Bool, true, false, some, List, [], ◌∷◌, length, arith,
  >>=-eq-some,
}
use mathlib.Core.Path.{subst}
use mathlib.Core.Option.{some-injective}
use arnel_lang.Token.{Token, TokenType, l_ident, l_return, l_semicolon, l_eq, l_integer}
use arnel_lang.Ast.{
  BinOp, Ast, binary, ret, assignment, decl_local, decl_assignment, expr_to_void, absent, node,
}
use arnel_lang.Parser.Result.{ok}
use arnel_lang.Parser.Source.{Source}
use arnel_lang.Parser.Node.{prec, ready}
use arnel_lang.Parser.State.{Parser}
use arnel_lang.Parser.Expr.{apply_operator, sub_expr, reduce_loop, reduce}
use arnel_lang.Parser.Step.{
  is_statement, close_statement, close_loop, void_expr, parse_semicolon, parse_case,
}
use arnel_lang.Parser.Reading.{
  operand_of, operand_at, fold_sum, read_sum, Reads, sum, comparison, operator_after,
}
use arnel_lang.Parser.Machine.{
  bind_lem, at, put_value_lem, put_operator_lem, Consumes, token-Consumes,
}
use arnel_lang.Parser.Sums.{Pending, done, waiting, sub_binary, Waits, one, two}

-- The loop over the operators ends above these.
abbrev pub is_stopped : (Ast → Bool) → List Ast → Bool
is_stopped stop [] = true
is_stopped stop (top ∷ _) = stop top

module _ (S : Source) (strtol : List ℕ → ℕ) (p : Parser S) (stop : Ast → Bool) where
  pub reduce_step :
      (vs vs' os : List Ast) (op : Ast) (s : S.State)
      → stop op ≡ false
      → sub_expr S (at S strtol p vs (op ∷ os) s) ≡ ok (at S strtol p vs' os s)
      → reduce S stop (at S strtol p vs (op ∷ os) s) ≡ reduce S stop (at S strtol p vs' os s)
  unfolding reduce reduce_loop
  reduce_step vs vs' os op s going e = rw going (bind_lem _ e refl)

  pub reduce_end :
      (vs os : List Ast) (s : S.State)
      → is_stopped stop os ≡ true
      → reduce S stop (at S strtol p vs os s) ≡ ok (at S strtol p vs os s)
  unfolding reduce reduce_loop
  reduce_end vs [] s h = refl
  reduce_end vs (top ∷ os) s h = rw h refl

  reduce-Pending :
      (vs os : List Ast) (a : Ast) (vs₁ os₁ : List Ast) (s : S.State)
      → Pending vs os a vs₁ os₁
      → ((op : BinOp) → stop (binary op absent absent) ≡ false)
      → length vs < p.values.cap
      → reduce S stop (at S strtol p vs₁ os₁ s) ≡ reduce S stop (at S strtol p (a ∷ vs) os s)
  reduce-Pending vs os _ _ _ s (done a) going room = refl
  reduce-Pending vs os _ _ _ s (waiting op r l e) going room =
      reduce_step (r ∷ l ∷ vs) (binary op (node r) (node l) ∷ vs) os (binary op absent absent) s
        (going op) (sub_binary S strtol p vs os op r l s room)

  pub reduce-Waits :
      (vs os : List Ast) (a : Ast) (vs₁ os₁ : List Ast) (s : S.State)
      → Waits S strtol p vs os a vs₁ os₁
      → ((op : BinOp) → stop (binary op absent absent) ≡ false)
      → length vs + 1 < p.values.cap
      → reduce S stop (at S strtol p vs₁ os₁ s) ≡ reduce S stop (at S strtol p (a ∷ vs) os s)
  reduce-Waits vs os _ _ _ s (one a vs₁ os₁ pending) going room =
      reduce-Pending vs os a vs₁ os₁ s pending going (omega arith)
  reduce-Waits vs os _ _ _ s (two op r l vs₁ os₁ e pending) going room =
      reduce-Pending (l ∷ vs) (binary op absent absent ∷ os) r vs₁ os₁ s pending going (omega arith)
      ∙ reduce_step (r ∷ l ∷ vs) (binary op (node r) (node l) ∷ vs) os (binary op absent absent) s
          (going op) (sub_binary S strtol p vs os op r l s (omega arith))

pub binary_going : (op : BinOp) → is_statement (binary op absent absent) ≡ false
unfolding prec
binary_going op = ground arith

-- A node that is voided at the end of its statement.
abbrev pub is_voided : Ast → Bool
is_voided a = elim a [ decl_local _ ↦ false | decl_assignment _ _ ↦ false | _ ↦ true ]

module _ (strtol : List ℕ → ℕ) where
  operand_voided :
      (t : TokenType) (tok : Token) (a : Ast)
      → operand_at strtol t tok ≡ some a
      → is_voided a ≡ true
  unfolding operand_at
  operand_voided l_integer tok a h = subst (λ n. is_voided n ≡ true) (some-injective _ _ h) refl
  operand_voided l_ident tok a h = subst (λ n. is_voided n ≡ true) (some-injective _ _ h) refl
  operand_voided _ tok a h = cc

  fold_voided :
      (ts : List Token) (acc a : Ast)
      → is_voided acc ≡ true
      → fold_sum strtol acc ts ≡ some a
      → is_voided a ≡ true
  unfolding fold_sum
  fold_voided [] acc a v h = subst (λ n. is_voided n ≡ true) (some-injective _ _ h) v
  fold_voided (o ∷ []) acc a v h = cc
  fold_voided (o ∷ b ∷ ts) acc a v h =
      let (op, _, h₁) = >>=-eq-some (operator_after acc o) _ h in
      let (n, _, h₂) = >>=-eq-some (operand_of strtol b) _ h₁ in
      fold_voided ts (binary op (node n) (node acc)) a refl h₂

  sum_voided : (ts : List Token) (a : Ast) → read_sum strtol ts ≡ some a → is_voided a ≡ true
  unfolding read_sum
  sum_voided [] a h = cc
  sum_voided (t ∷ ts) a h =
      let (n, e, h₁) = >>=-eq-some (operand_of strtol t) _ h in
      let (k, _, ke) = >>=-eq-some t.type _ e in fold_voided ts n a (operand_voided k t n ke) h₁

  pub reads_voided : (ts : List Token) (a : Ast) → Reads strtol ts a → is_voided a ≡ true
  reads_voided ts a (sum h) = sum_voided ts a h
  reads_voided ts a (comparison us c ws op l r shape he hl hr tree) =
      subst (λ n. is_voided n ≡ true) (sym tree) refl

module _ (S : Source) (strtol : List ℕ → ℕ) (p : Parser S) where
  -- The first semicolon behind a return's value.
  pub semicolon_return :
      (vs : List Ast) (a : Ast) (vs₁ os₁ : List Ast) (s : S.State)
      → Waits S strtol p vs (ret absent ∷ []) a vs₁ os₁
      → length vs + 1 < p.values.cap
      → parse_semicolon S strtol (at S strtol p vs₁ os₁ s)
        ≡ ok (at S strtol p (ret (node a) ∷ vs) [] s)
  unfolding parse_semicolon close_loop close_statement prec ready
  semicolon_return vs a vs₁ os₁ s waits room =
      bind_lem _
        (reduce-Waits S strtol p is_statement vs (ret absent ∷ []) a vs₁ os₁ s waits binary_going
            room
          ∙ reduce_end S strtol p is_statement (a ∷ vs) (ret absent ∷ []) s refl)
        (bind_lem _
          (bind_lem _ (put_value_lem S strtol p vs [] s (ret (node a)) (omega arith)) refl) refl)

  void-voided :
      (vs : List Ast) (a : Ast) (s : S.State)
      → is_voided a ≡ true
      → length vs + 1 < p.values.cap
      → void_expr S strtol (at S strtol p (a ∷ vs) [] s)
        ≡ ok (at S strtol p (expr_to_void ∷ a ∷ vs) [] s)
  unfolding void_expr
  void-voided vs (decl_local _) s v room = cc
  void-voided vs (decl_assignment _ _) s v room = cc
  void-voided vs a s v room = put_value_lem S strtol p (a ∷ vs) [] s expr_to_void (omega arith)

  -- The semicolon behind an expression that stands alone.
  pub semicolon_expr :
      (vs : List Ast) (a : Ast) (vs₁ os₁ : List Ast) (s : S.State)
      → Waits S strtol p vs [] a vs₁ os₁
      → is_voided a ≡ true
      → length vs + 1 < p.values.cap
      → parse_semicolon S strtol (at S strtol p vs₁ os₁ s)
        ≡ ok (at S strtol p (expr_to_void ∷ a ∷ vs) [] s)
  unfolding parse_semicolon
  semicolon_expr vs a vs₁ os₁ s waits v room =
      bind_lem _
        (reduce-Waits S strtol p is_statement vs [] a vs₁ os₁ s waits binary_going room
          ∙ reduce_end S strtol p is_statement (a ∷ vs) [] s refl)
        (void-voided vs a s v room)

  -- The semicolon behind an assignment's value.
  pub semicolon_assignment :
      (vs : List Ast) (target a : Ast) (vs₁ os₁ : List Ast) (s : S.State)
      → Waits S strtol p vs (assignment (node target) absent ∷ []) a vs₁ os₁
      → length vs + 1 < p.values.cap
      → parse_semicolon S strtol (at S strtol p vs₁ os₁ s)
        ≡ ok (at S strtol p (expr_to_void ∷ assignment (node target) (node a) ∷ vs) [] s)
  unfolding parse_semicolon sub_expr apply_operator prec
  semicolon_assignment vs target a vs₁ os₁ s waits room =
      bind_lem _
        (reduce-Waits S strtol p is_statement vs (assignment (node target) absent ∷ []) a vs₁ os₁ s
            waits binary_going room
          ∙ reduce_step S strtol p is_statement (a ∷ vs) (assignment (node target) (node a) ∷ vs) []
              (assignment (node target) absent) s refl
              (put_value_lem S strtol p vs [] s (assignment (node target) (node a)) (omega arith))
          ∙ reduce_end S strtol p is_statement (assignment (node target) (node a) ∷ vs) [] s refl)
        (void-voided vs (assignment (node target) (node a)) s refl room)

  pub semicolon-Consumes :
      (vs os : List Ast) (tok : Token) (vs' os' : List Ast)
      → tok.type ≡ some l_semicolon
      → ((s : S.State)
          → parse_semicolon S strtol (at S strtol p vs os s) ≡ ok (at S strtol p vs' os' s))
      → Consumes S strtol p vs os (tok ∷ []) vs' os'
  unfolding parse_case
  semicolon-Consumes vs os tok vs' os' e run =
      token-Consumes S strtol p vs os tok l_semicolon vs' os' e refl (λ k s. run s)

  -- `return` in front of a value
  pub return-Consumes :
      (vs os : List Ast) (tok : Token)
      → tok.type ≡ some l_return
      → length os < p.operators.cap
      → Consumes S strtol p vs os (tok ∷ []) vs (ret absent ∷ os)
  unfolding parse_case
  return-Consumes vs os tok e room =
      token-Consumes S strtol p vs os tok l_return vs (ret absent ∷ os) e refl
        (λ k s. put_operator_lem S strtol p vs os s (ret absent) room)

  -- `=` behind a target
  pub eq-Consumes :
      (vs os : List Ast) (target : Ast) (tok : Token)
      → tok.type ≡ some l_eq
      → length os < p.operators.cap
      → Consumes S strtol p (target ∷ vs) os (tok ∷ []) vs (assignment (node target) absent ∷ os)
  unfolding parse_case
  eq-Consumes vs os target tok e room =
      token-Consumes S strtol p (target ∷ vs) os tok l_eq vs (assignment (node target) absent ∷ os)
        e refl (λ k s. put_operator_lem S strtol p vs os s (assignment (node target) absent) room)
