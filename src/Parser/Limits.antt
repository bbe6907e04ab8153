-- ===== src/Parser/Limits.antt =====
-- Inputs that the parser does not read the way a reader of the language would.
use arnel_lang.Prelude.{
  ℕ, suc, ◌+◌, ◌<◌, ◌≡◌, refl, ap, ◌∙◌, true, some, List, [], ◌∷◌, length, arith, leb,
}
use arnel_lang.Token.{Token, l_eof, l_var, l_ident, l_eq, l_semicolon, l_rcurly}
use arnel_lang.Ast.{BinOp, Ast, binary, decl_assignment, expr_to_void, absent, node}
use arnel_lang.Parser.Prec
use arnel_lang.Parser.Result.{Result, ok, out_of_fuel}
use arnel_lang.Parser.Source.{Source}
use arnel_lang.Parser.Node.{prec, binary_prec}
use arnel_lang.Parser.State.{Parser}
use arnel_lang.Parser.Expr.{apply_operator, sub_expr, parse_binary}
use arnel_lang.Parser.Step.{
  binary_op, is_statement, parse_case, parse_statements, parse_semicolon, void_expr,
}
use arnel_lang.Parser.Reading.{operand_of, operator_of, operator_cases}
use arnel_lang.Parser.Machine.{
  bind_lem, at, put_value_lem, put_operator_lem, Consumes, Consumes-append, token-Consumes,
  token_run,
}
use arnel_lang.Parser.Braces.{end_lem}
use arnel_lang.Parser.Statements.{reduce_step, reduce_end, binary_going, semicolon-Consumes}
use arnel_lang.Parser.Sums.{operand-Consumes, binary_case, binary_plain, sub_binary}
use arnel_lang.Parser.Declarations.{var-Consumes}

-- Tokens that end the input.
pub data IsEnd : List Token → Type 0 where
  stop : IsEnd []
  again : {t : Token} {ts : List Token} → t.type ≡ some l_eof → IsEnd ts → IsEnd (t ∷ ts)

module _ (S : Source) (strtol : List ℕ → ℕ) (p : Parser S) where
  ends :
      (vs os : List Ast) (t : Token) (k : Parser S → Result (Parser S)) (s : S.State)
      → parse_case S strtol k l_eof t (at S strtol p vs os s) ≡ ok (at S strtol p vs os s)
  unfolding parse_case binary_op
  ends vs os t k s = refl

  -- Inside a body the end of the input does not stop the loop over statements: as many rounds as the
  -- lexer delivers end tokens are used up by them, and the loop is not done.
  pub parse_statements-IsEnd :
      (vs os : List Ast) (ts : List Token) (s : S.State)
      → IsEnd ts
      → S.Delivers s ts
      → parse_statements S strtol (length ts) (at S strtol p vs os s) ≡ out_of_fuel
  unfolding parse_statements
  parse_statements-IsEnd vs os [] s stop h = refl
  parse_statements-IsEnd vs os (t ∷ ts) s (again e more) h =
      let (s₁, peek₁, h₁) = S.peek-Delivers s 0 t (t ∷ ts) h (omega arith) refl in
      let (s₂, peek₂, h₂) = S.peek-Delivers s₁ 0 t (t ∷ ts) h₁ (omega arith) refl in
      let (s₃, next₃, h₃) = S.next-Delivers s₂ t ts h₂ in
      token_run S strtol p vs os t l_eof vs os s s₁ s₂ s₃ (length ts) e refl (ends vs os t) peek₁
        peek₂ next₃
      ∙ ap (λ k. parse_statements S strtol k (at S strtol p vs os s₃)) (omega arith)
      ∙ parse_statements-IsEnd vs os ts s₃ more h₃

  -- `=` of a declaration binds more tightly than every operator.
  sum_run :
      (vs : List Ast) (x : Token) (a : Ast) (op : BinOp) (s : S.State)
      → binary_prec op ≡ Prec.term
      → length vs < p.values.cap
      → 0 < p.operators.cap
      → parse_binary S op (at S strtol p (a ∷ vs) (decl_assignment x.lexeme absent ∷ []) s)
        ≡ ok (
            at S strtol p (decl_assignment x.lexeme (node a) ∷ vs) (binary op absent absent ∷ []) s)
  unfolding parse_binary sub_expr apply_operator prec
  sum_run vs x a op s pe room room_op =
      let binds : leb (binary_prec op) (prec (decl_assignment x.lexeme absent)) ≡ true =
        ground arith in
      rw binds (
        bind_lem _ (put_value_lem S strtol p vs [] s (decl_assignment x.lexeme (node a)) room) (
          put_operator_lem S strtol p (decl_assignment x.lexeme (node a) ∷ vs) [] s
            (binary op absent absent) room_op))

  sum_case :
      (vs : List Ast) (x o : Token) (a : Ast) (op : BinOp)
      → operator_of Prec.term o ≡ some op
      → length vs < p.values.cap
      → 0 < p.operators.cap
      → Consumes S strtol p
          (a ∷ vs)
          (decl_assignment x.lexeme absent ∷ [])
          (o ∷ [])
          (decl_assignment x.lexeme (node a) ∷ vs)
          (binary op absent absent ∷ [])
  sum_case vs x o a op oe room room_op =
      let (t, te, be, pe) = operator_cases Prec.term o op oe in
      let os = decl_assignment x.lexeme absent ∷ [] in
      token-Consumes S strtol p (a ∷ vs) os o t _ _ te (binary_plain S strtol t op be) (λ k s.
        binary_case S strtol t op k o (at S strtol p (a ∷ vs) os s) be
        ∙ sum_run vs x a op s pe room room_op)

  sum_end :
      (vs : List Ast) (l r : Ast) (op : BinOp) (semi : Token)
      → semi.type ≡ some l_semicolon
      → length vs + 1 < p.values.cap
      → Consumes S strtol p
          (r ∷ l ∷ vs)
          (binary op absent absent ∷ [])
          (semi ∷ [])
          (expr_to_void ∷ binary op (node r) (node l) ∷ vs)
          []
  unfolding parse_semicolon void_expr
  sum_end vs l r op semi se room =
      let made = binary op (node r) (node l) in
      semicolon-Consumes S strtol p (r ∷ l ∷ vs) (binary op absent absent ∷ []) semi _ _ se (λ s.
        bind_lem _
          (reduce_step S strtol p is_statement (r ∷ l ∷ vs) (made ∷ vs) [] (binary op absent absent)
              s (binary_going op) (sub_binary S strtol p vs [] op r l s (omega arith))
            ∙ reduce_end S strtol p is_statement (made ∷ vs) [] s refl)
          (put_value_lem S strtol p (made ∷ vs) [] s expr_to_void (omega arith)))

-- `var x = a + b;`, and likewise with `-`, `*` and `/`: the declaration takes the first operand alone,
-- and the operator stands above the declaration, with the second operand as its other side.
pub parse_statements-declaration :
    (S : Source) (strtol : List ℕ → ℕ) (p : Parser S) (vs : List Ast)
    (v x e m o n semi close : Token) (a b : Ast) (op : BinOp) (rest : List Token) (s : S.State)
    (fuel : ℕ)
    → v.type ≡ some l_var
    → x.type ≡ some l_ident
    → e.type ≡ some l_eq
    → operand_of strtol m ≡ some a
    → operator_of Prec.term o ≡ some op
    → operand_of strtol n ≡ some b
    → semi.type ≡ some l_semicolon
    → close.type ≡ some l_rcurly
    → S.Delivers s (v ∷ x ∷ e ∷ m ∷ o ∷ n ∷ semi ∷ close ∷ rest)
    → length vs + 2 < p.values.cap
    → 0 < p.operators.cap
    → (s' : S.State) × S.Delivers s' (close ∷ rest)
      × (parse_statements S strtol (7 + suc fuel) (at S strtol p vs [] s)
          ≡ ok (
              at S strtol p
                (expr_to_void ∷ binary op (node b) (node (decl_assignment x.lexeme (node a))) ∷ vs)
                []
                s'))
parse_statements-declaration S strtol p vs v x e m o n semi close a b op rest s fuel ve xe ee me oe
      ne se ce h room room_op =
    let decl = decl_assignment x.lexeme (node a) in
    let os = decl_assignment x.lexeme absent ∷ [] in
    let made = expr_to_void ∷ binary op (node b) (node decl) ∷ vs in
    let (s₁, h₁, spare, run) =
      Consumes-append S strtol p vs [] (v ∷ x ∷ e ∷ []) vs os (m ∷ o ∷ n ∷ semi ∷ []) _ _
        (var-Consumes S strtol p vs [] v x e ve xe ee (omega arith))
        (Consumes-append S strtol p vs os (m ∷ []) (a ∷ vs) os (o ∷ n ∷ semi ∷ []) _ _
          (operand-Consumes S strtol p vs os m a me (omega arith))
          (Consumes-append S strtol p (a ∷ vs) os (o ∷ []) (decl ∷ vs)
            (binary op absent absent ∷ []) (n ∷ semi ∷ []) _ _
            (sum_case S strtol p vs x o a op oe (omega arith) room_op)
            (Consumes-append S strtol p (decl ∷ vs) (binary op absent absent ∷ []) (n ∷ [])
              (b ∷ decl ∷ vs) _ (semi ∷ []) _ _
              (operand-Consumes S strtol p (decl ∷ vs) (binary op absent absent ∷ []) n b ne
                (omega arith))
              (sum_end S strtol p vs decl b op semi se (omega arith)))))
        (close ∷ rest) s h in
    let (s₂, peek₂, h₂) = S.peek-Delivers s₁ 0 close (close ∷ rest) h₁ (omega arith) refl in
    (
      s₂,
      h₂,
      run (suc fuel)
          ∙ ap (λ k. parse_statements S strtol k (at S strtol p made [] s₁)) (later spare fuel)
          ∙ end_lem S strtol p (at S strtol p made [] s₁) close (spare + fuel) s₂ ce peek₂,
    )
  where
    later : (i j : ℕ) → i + suc j ≡ suc (i + j)
    later i j = omega arith
