-- ===== src/Parser/Step.antt =====
-- parser.c: `__parse`, which works off one token or one block.
--
-- `strtol` is what the C library makes of the digits at a pointer, in base 10.
use arnel_lang.Prelude.{
  ℕ, zero, suc, Bool, true, false, Option, none, some, List, [], ◌∷◌, ◌==◌, if◌then◌else◌, length,
}
use arnel_lang.Token.{
  Token, TokenType, l_else, l_semicolon, l_lcurly, l_rcurly, l_while, l_var, l_eq, l_if, l_return,
  l_ident, l_rparen, l_lparen, l_string, l_integer, l_plus, l_star, l_eq2, l_bang_eq, l_minus,
  l_div,
}
use arnel_lang.Ast.{
  BinOp, plus, minus, mul, div, eq, neq, Ast, int_literal, ret, ident, decl_local, decl_assignment,
  cond, else_clause, assignment, while, block, expr_to_void, absent, nil,
}
use arnel_lang.Parser.Result.{Result, ok, panic, out_of_fuel, ◌>>=◌, or_fault}
use arnel_lang.Parser.Stack
use arnel_lang.Parser.Stack.{Stack, with_cap}
use arnel_lang.Parser.Source.{Source}
use arnel_lang.Parser.Prec
use arnel_lang.Parser.Node.{prec, is_open_statement, to_nodes, set_branches}
use arnel_lang.Parser.State.{
  Parser, next, peek, type_of, put_value, put_operator, pop_value, pop_operator,
}
use arnel_lang.Parser.Expr.{reduce, parse_binary, parse_lparen, parse_rparen, parse_string}

abbrev pub is_statement : Ast → Bool
is_statement n = prec n == Prec.stmt

abbrev pub is_eq : TokenType → Bool
is_eq t = elim t [ l_eq ↦ true | _ ↦ false ]

abbrev pub is_ident : TokenType → Bool
is_ident t = elim t [ l_ident ↦ true | _ ↦ false ]

abbrev pub is_rcurly : TokenType → Bool
is_rcurly t = elim t [ l_rcurly ↦ true | _ ↦ false ]

-- The first list, or the second if the node voids an expression.
abbrev pub unless_void : Ast → List Ast → List Ast → List Ast
unless_void top items popped = elim top [ expr_to_void ↦ popped | _ ↦ items ]

-- `BINARY`'s type for each token of an operator
unfoldable pub binary_op : TokenType → Option BinOp
binary_op l_plus = some plus
binary_op l_star = some mul
binary_op l_eq2 = some eq
binary_op l_bang_eq = some neq
binary_op l_minus = some minus
binary_op l_div = some div
binary_op _ = none

module _ (S : Source) (strtol : List ℕ → ℕ) where
  -- The `switch` in the `do` loop of `case L_SEMICOLON` on the operator at the top, above `rest`: the
  -- parser behind it, or none for `goto out`.
  unfoldable pub close_statement : Ast → List Ast → Parser S → Result (Option (Parser S))
  close_statement (cond test _ no_child) rest p =
      let (v, p₁) = pop_value S p in
      put_value S (record p₁ { operators = record p₁.operators { items = rest } })
        (cond test v no_child)
      >>= λ p₂. ok (some p₂)
  close_statement else_clause rest p =
      let p₁ : Parser S = record p { operators = record p.operators { items = rest } } in
      let (top, p₂) = pop_operator S p₁ in
      or_fault top >>= λ conditional.
      let (no_child, p₃) = pop_value S p₂ in
      let (yes_child, p₄) = pop_value S p₃ in
      or_fault (set_branches conditional yes_child no_child) >>= λ n.
      put_value S p₄ n >>= λ p₅. ok (some p₅)
  close_statement (ret _) rest p =
      let (v, p₁) = pop_value S p in
      put_value S (record p₁ { operators = record p₁.operators { items = rest } }) (ret v) >>= λ p₂.
      ok (some p₂)
  close_statement (while test _) rest p =
      let (v, p₁) = pop_value S p in
      put_value S (record p₁ { operators = record p₁.operators { items = rest } }) (while test v)
      >>= λ p₂. ok (some p₂)
  close_statement _ rest p = ok none

  -- The `do` loop; its test holds before the first round as well.
  unfoldable pub close_loop : ℕ → Parser S → Result (Parser S)
  close_loop zero p = out_of_fuel
  close_loop (suc fuel) p = elim p.operators.items [
    | [] ↦ ok p
    | top ∷ rest ↦ elim (is_open_statement top) [
      | false ↦ ok p
      | true ↦
          close_statement top rest p >>= λ o. elim o [ none ↦ ok p | some p₁ ↦ close_loop fuel p₁ ]
    ]
  ]

  -- The `else` branch of `case L_SEMICOLON`
  unfoldable pub void_expr : Parser S → Result (Parser S)
  void_expr p = or_fault (Stack.peek p.values) >>= λ top. elim top [
    | decl_local _ ↦ ok p
    | decl_assignment _ _ ↦ ok p
    | _ ↦ put_value S p expr_to_void
  ]

  -- `case L_SEMICOLON`
  unfoldable pub parse_semicolon : Parser S → Result (Parser S)
  parse_semicolon p = reduce S is_statement p >>= λ p₁. elim p₁.operators.items [
    | [] ↦ void_expr p₁
    | top ∷ _ ↦
        if is_open_statement top
        then close_loop (suc (length p₁.operators.items)) p₁
        else void_expr p₁
  ]

  -- `case L_VAR`
  unfoldable pub parse_var : Parser S → Result (Parser S)
  parse_var p = do
    (id, p₁) ← peek S p 2
    t ← type_of id
    (_, p₂) ← (if is_ident t then next S p₁ else panic)
    (tok, p₃) ← peek S p₂ 2
    u ← type_of tok
    if is_eq u
        then (next S p₃ >>= λ r. put_operator S r.1 (decl_assignment id.lexeme absent))
        else put_value S p₃ (decl_local id.lexeme)

  -- `case L_LCURLY`; `statements` is its loop.
  unfoldable pub parse_block : (Parser S → Result (Parser S)) → Parser S → Result (Parser S)
  parse_block statements p = do
    (_, p₁) ← next S (record p { values = with_cap 12; operators = with_cap 12 })
    p₂ ← statements p₁
    top ← or_fault (Stack.peek p₂.values)
    let nodes = unless_void top p₂.values.items (Stack.pop p₂.values).1.items
    put_value S (record p₂ { values = p.values; operators = p.operators })
        (block (to_nodes nodes nil))

  -- The cases of `__parse` on the token `tok`, up to the label `out`.
  unfoldable pub parse_case :
      (Parser S → Result (Parser S)) → TokenType → Token → Parser S → Result (Parser S)
  parse_case statements l_else tok p = put_operator S p else_clause
  parse_case statements l_semicolon tok p = parse_semicolon p
  parse_case statements l_lcurly tok p = parse_block statements p
  parse_case statements l_while tok p = put_operator S p (while absent absent)
  parse_case statements l_var tok p = parse_var p
  parse_case statements l_eq tok p =
      let (target, p₁) = pop_value S p in put_operator S p₁ (assignment target absent)
  parse_case statements l_if tok p = put_operator S p (cond absent absent absent)
  parse_case statements l_return tok p = put_operator S p (ret absent)
  parse_case statements l_ident tok p = put_value S p (ident tok.lexeme)
  parse_case statements l_rparen tok p = parse_rparen S p
  parse_case statements l_lparen tok p = parse_lparen S p
  parse_case statements l_string tok p = parse_string S tok p
  parse_case statements l_integer tok p =
      put_value S p (int_literal (strtol tok.lexeme.chars.bytes))
  parse_case statements t tok p = elim (binary_op t) [ none ↦ ok p | some op ↦ parse_binary S op p ]

  -- `__parse`
  unfoldable pub parse_step : (Parser S → Result (Parser S)) → Parser S → Result (Parser S)
  parse_step statements p = do
    (tok, p₁) ← peek S p 1
    t ← type_of tok
    p₂ ← parse_case statements t tok p₁
    (_, p₃) ← next S p₂
    ok p₃

  -- `while (peek_token(p->l, 1)->type != L_RCURLY) __parse(p);`
  unfoldable pub parse_statements : ℕ → Parser S → Result (Parser S)
  parse_statements zero p = out_of_fuel
  parse_statements (suc fuel) p = do
    (tok, p₁) ← peek S p 1
    t ← type_of tok
    elim (is_rcurly t) [
      | true ↦ ok p₁
      | false ↦ parse_step (parse_statements fuel) p₁ >>= parse_statements fuel
    ]
