-- ===== src/Parser/Expr.antt =====
-- parser.c: `sub_expr`, and the cases of `__parse` for operators, parentheses and literals.
use arnel_lang.Prelude.{ℕ, zero, suc, Bool, true, false, List, [], ◌∷◌, leb, if◌then◌else◌, length}
use arnel_lang.Token.{Token}
use arnel_lang.Ast.{
  BinOp, Ast, str_literal, binary, ret, call, call_finished, ident, decl_assignment, cond,
  assignment, while, open_paren, Child, absent, nil,
}
use arnel_lang.Parser.Result.{Result, ok, panic, out_of_fuel, ◌>>=◌, or_fault}
use arnel_lang.Parser.Stack
use arnel_lang.Parser.Stack.{Stack, with_cap}
use arnel_lang.Parser.Source.{Source}
use arnel_lang.Parser.Node.{prec, binary_prec, to_nodes, call_name}
use arnel_lang.Parser.State.{
  Parser, string, put_value, put_operator, put_statement, pop_value, pop_operator,
}

abbrev pub is_paren : Ast → Bool
is_paren n = elim n [ open_paren ↦ true | _ ↦ false ]

abbrev pub is_call : Ast → Bool
is_call n = elim n [ call _ ↦ true | _ ↦ false ]

module _ (S : Source) where
  -- The `switch` of `sub_expr`: the operator with its operands taken from the values.
  unfoldable pub apply_operator : Ast → Parser S → Result (Ast × Parser S)
  apply_operator (binary op _ _) p =
      let (first, p₁) = pop_value S p in
      let (second, p₂) = pop_value S p₁ in ok (binary op first second, p₂)
  apply_operator (assignment target _) p =
      let (value, p₁) = pop_value S p in ok (assignment target value, p₁)
  apply_operator (decl_assignment name _) p =
      let (value, p₁) = pop_value S p in ok (decl_assignment name value, p₁)
  apply_operator (ret _) p = let (value, p₁) = pop_value S p in ok (ret value, p₁)
  apply_operator _ p = panic

  unfoldable pub sub_expr : Parser S → Result (Parser S)
  sub_expr p =
      let (top, p₁) = pop_operator S p in
      or_fault top >>= λ prev. apply_operator prev p₁ >>= λ r. put_value S r.1 r.0

  -- `while (p->operators.len != 0 && !stop(peekop(p))) sub_expr(p);`
  unfoldable pub reduce_loop : ℕ → (Ast → Bool) → Parser S → Result (Parser S)
  reduce_loop zero stop p = out_of_fuel
  reduce_loop (suc fuel) stop p = elim p.operators.items [
    | [] ↦ ok p
    | op ∷ _ ↦ elim (stop op) [ true ↦ ok p | false ↦ sub_expr p >>= reduce_loop fuel stop ]
  ]

  -- Each round takes an operator away.
  unfoldable pub reduce : (Ast → Bool) → Parser S → Result (Parser S)
  reduce stop p = reduce_loop (suc (length p.operators.items)) stop p

  -- `BINARY`
  unfoldable pub parse_binary : BinOp → Parser S → Result (Parser S)
  parse_binary op p =
      (elim p.operators.items [
        | [] ↦ ok p
        | top ∷ _ ↦ if leb (binary_prec op) (prec top) then sub_expr p else ok p
      ])
      >>= λ p₁. put_operator S p₁ (binary op absent absent)

  -- `case L_LPAREN`
  unfoldable pub parse_lparen : Parser S → Result (Parser S)
  parse_lparen p =
      (elim p.values.items [
        | [] ↦ ok p
        | top ∷ rest ↦ elim top [
          | ident name ↦
              put_operator S (record p { values = record p.values { items = call name ∷ rest } })
                (call name)
          | _ ↦ ok p
        ]
      ])
      >>= λ p₁. put_operator S p₁ open_paren

  -- `while (p->values.len != 0 && peekval(p)->t != A_CALL) put_ast(args, popval(p));`
  unfoldable pub take_args : List Ast → Stack Ast → Result (Stack Ast × List Ast)
  take_args [] args = ok (args, [])
  take_args (v ∷ values) args = elim (is_call v) [
    | true ↦ ok (args, v ∷ values)
    | false ↦ Stack.put args v >>= take_args values
  ]

  -- `case A_CALL` behind the closing parenthesis
  unfoldable pub finish_call : Parser S → Result (Parser S)
  finish_call p =
      let (_, p₁) = pop_operator S p in
      take_args p₁.values.items (with_cap 0) >>= λ r.
      let p₂ : Parser S = record p₁ { values = record p₁.values { items = r.1 } } in
      let s = Stack.pop p₂.values in
      or_fault s.0 >>= λ old_node. or_fault (call_name old_node) >>= λ name.
      put_value S (record p₂ { values = s.1 }) (call_finished name (to_nodes r.0.items nil))

  -- `peekop(p)->children[0].node = popval(p);`, with `n` the operator that it makes
  abbrev pub replace_operator : (Child → Ast) → Parser S → List Ast → Parser S
  replace_operator n p rest =
      let (v, p₁) = pop_value S p in
      record p₁ { operators = record p₁.operators { items = n v ∷ rest } }

  -- `case L_RPAREN`
  unfoldable pub parse_rparen : Parser S → Result (Parser S)
  parse_rparen p = reduce is_paren p >>= λ p₁.
      let (_, p₂) = pop_operator S p₁ in
      elim p₂.operators.items [
        | [] ↦ ok p₂
        | top ∷ rest ↦ elim top [
          | cond _ yes_child no_child ↦
              ok (replace_operator (λ v. cond v yes_child no_child) p₂ rest)
          | while _ body ↦ ok (replace_operator (λ v. while v body) p₂ rest)
          | call _ ↦ finish_call p₂
          | _ ↦ ok p₂
        ]
      ]

  -- `case L_STRING`
  abbrev pub parse_string : Token → Parser S → Result (Parser S)
  parse_string tok p =
      let n = str_literal tok.lexeme.len tok.lexeme.chars in
      put_value S p n >>= λ p₁. put_statement S p₁ (string n)
