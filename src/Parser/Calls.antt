-- ===== src/Parser/Calls.antt =====
-- Calls: a name, and its arguments in parentheses.
use arnel_lang.Prelude.{
  ℕ, suc, ◌+◌, ◌<◌, ◌≡◌, refl, ap, ◌∙◌, false, some, List, [], ◌∷◌, length, arith, >>=-eq-some,
}
use mathlib.Core.Path.{subst}
use mathlib.Core.Option.{some-injective}
use arnel_lang.Prelude.Size.{mul_size}
use arnel_lang.View.{View}
use arnel_lang.Token.{Token, TokenType, l_ident, l_lparen, l_rparen, l_integer}
use arnel_lang.Ast.{Ast, ident, call, call_finished, open_paren, nil}
use arnel_lang.Parser.Result.{Result, ok, fault, or_fault}
use arnel_lang.Parser.Stack
use arnel_lang.Parser.Stack.{Stack, with_cap}
use arnel_lang.Parser.Source.{Source}
use arnel_lang.Parser.Node.{call_name}
use arnel_lang.Parser.State.{Parser}
use arnel_lang.Parser.Expr.{is_paren, is_call, parse_lparen, parse_rparen, take_args, finish_call}
use arnel_lang.Parser.Step.{parse_case, parse_step, parse_statements}
use arnel_lang.Parser.Reading.{operand_of, operand_at}
use arnel_lang.Parser.Machine.{
  bind_fault, bind_lem, peek_lem, at, put_value_lem, put_operator_lem, Consumes, Consumes-append,
  token-Consumes,
}
use arnel_lang.Parser.Statements.{reduce_end}
use arnel_lang.Parser.Forms.{value-Consumes}
use arnel_lang.Parser.Sums.{operand-Consumes}

module _ (S : Source) (strtol : List ℕ → ℕ) (p : Parser S) where
  opened :
      (vs os : List Ast) (name : View) (s : S.State)
      → length os + 1 < p.operators.cap
      → parse_lparen S (at S strtol p (ident name ∷ vs) os s)
        ≡ ok (at S strtol p (call name ∷ vs) (open_paren ∷ call name ∷ os) s)
  unfolding parse_lparen
  opened vs os name s room =
      bind_lem _ (put_operator_lem S strtol p (call name ∷ vs) os s (call name) (omega arith))
        (put_operator_lem S strtol p (call name ∷ vs) (call name ∷ os) s open_paren (omega arith))

  -- The parenthesis behind a name makes it a call.
  pub open-Consumes :
      (vs os : List Ast) (name : View) (tok : Token)
      → tok.type ≡ some l_lparen
      → length os + 1 < p.operators.cap
      → Consumes S strtol p
          (ident name ∷ vs)
          os
          (tok ∷ [])
          (call name ∷ vs)
          (open_paren ∷ call name ∷ os)
  unfolding parse_case
  open-Consumes vs os name tok e room =
      token-Consumes S strtol p (ident name ∷ vs) os tok l_lparen (call name ∷ vs)
        (open_paren ∷ call name ∷ os) e refl (λ k s. opened vs os name s room)

  finished :
      (vs os : List Ast) (name : View) (s : S.State)
      → length vs < p.values.cap
      → parse_rparen S (at S strtol p (call name ∷ vs) (open_paren ∷ call name ∷ os) s)
        ≡ ok (at S strtol p (call_finished name nil ∷ vs) os s)
  unfolding parse_rparen finish_call take_args call_name
  finished vs os name s room =
      bind_lem _
        (reduce_end S strtol p is_paren (call name ∷ vs) (open_paren ∷ call name ∷ os) s refl)
        (put_value_lem S strtol p vs os s (call_finished name nil) room)

  -- A call without arguments becomes one value, above what was there.
  pub empty_call-Consumes :
      (vs os : List Ast) (f left right : Token)
      → f.type ≡ some l_ident
      → left.type ≡ some l_lparen
      → right.type ≡ some l_rparen
      → length vs < p.values.cap
      → length os + 1 < p.operators.cap
      → Consumes S strtol p vs os (f ∷ left ∷ right ∷ []) (call_finished f.lexeme nil ∷ vs) os
  unfolding parse_case
  empty_call-Consumes vs os f left right fe le re room room_op =
      Consumes-append S strtol p vs os (f ∷ []) (ident f.lexeme ∷ vs) os (left ∷ right ∷ []) _ _
        (value-Consumes S strtol p vs os f fe room)
        (Consumes-append S strtol p _ _ (left ∷ []) (call f.lexeme ∷ vs)
          (open_paren ∷ call f.lexeme ∷ os) (right ∷ []) _ _
          (open-Consumes vs os f.lexeme left le room_op)
          (token-Consumes S strtol p _ _ right l_rparen _ _ re refl
            (λ k s. finished vs os f.lexeme s room)))

  put_nowhere : (a : Ast) → Stack.put (with_cap 0) a ≡ fault
  unfolding Stack.put mul_size
  put_nowhere a = refl

  no_room :
      (v : Ast) (vs : List Ast) → is_call v ≡ false → take_args S (v ∷ vs) (with_cap 0) ≡ fault
  unfolding take_args
  no_room v vs plain = rw (take_args, plain) (bind_fault (take_args S vs) (put_nowhere v))

  overrun :
      (v : Ast) (vs os : List Ast) (name : View) (s : S.State)
      → is_call v ≡ false
      → parse_rparen S (at S strtol p (v ∷ vs) (open_paren ∷ call name ∷ os) s) ≡ fault
  unfolding parse_rparen finish_call
  overrun v vs os name s plain =
      bind_lem _ (reduce_end S strtol p is_paren (v ∷ vs) (open_paren ∷ call name ∷ os) s refl)
        (bind_fault _ (no_room v vs plain))

  -- The step at the parenthesis behind an argument
  closing :
      (v : Ast) (vs os : List Ast) (name : View) (tok : Token) (k : Parser S → Result (Parser S))
      (s s₁ : S.State)
      → is_call v ≡ false
      → tok.type ≡ some l_rparen
      → S.peek s 1 ≡ some (tok, s₁)
      → parse_step S strtol k (at S strtol p (v ∷ vs) (open_paren ∷ call name ∷ os) s) ≡ fault
  unfolding parse_step parse_case
  closing v vs os name tok k s s₁ plain e peek₁ =
      bind_lem _
        (peek_lem S (at S strtol p (v ∷ vs) (open_paren ∷ call name ∷ os) s) 1 tok s₁ peek₁)
        (bind_lem _ (ap or_fault e) (bind_fault _ (overrun v vs os name s₁ plain)))

operand_is_no_call :
    (strtol : List ℕ → ℕ) (t : TokenType) (tok : Token) (a : Ast)
    → operand_at strtol t tok ≡ some a
    → is_call a ≡ false
unfolding operand_at
operand_is_no_call strtol l_integer tok a h =
    subst (λ n. is_call n ≡ false) (some-injective _ _ h) refl
operand_is_no_call strtol l_ident tok a h =
    subst (λ n. is_call n ≡ false) (some-injective _ _ h) refl
operand_is_no_call strtol _ tok a h = cc

-- A call with one literal or name as its argument, where the stacks have room for it: at its closing
-- parenthesis the parser writes behind the end of an allocation, since the stack of arguments starts
-- with room for none and twice none is none.
pub parse_statements-call :
    (S : Source) (strtol : List ℕ → ℕ) (p : Parser S) (vs os : List Ast) (f left x right : Token)
    (a : Ast) (rest : List Token) (s : S.State) (fuel : ℕ)
    → f.type ≡ some l_ident
    → left.type ≡ some l_lparen
    → operand_of strtol x ≡ some a
    → right.type ≡ some l_rparen
    → S.Delivers s (f ∷ left ∷ x ∷ right ∷ rest)
    → length vs + 1 < p.values.cap
    → length os + 1 < p.operators.cap
    → parse_statements S strtol (3 + suc fuel) (at S strtol p vs os s) ≡ fault
unfolding parse_statements
parse_statements-call S strtol p vs os f left x right a rest s fuel fe le xe re h room room_op =
    let name = f.lexeme in
    let ops = open_paren ∷ call name ∷ os in
    let (t, te, ae) = >>=-eq-some x.type _ xe in
    let (s₁, h₁, spare, run) =
      Consumes-append S strtol p vs os (f ∷ []) (ident name ∷ vs) os (left ∷ x ∷ []) _ _
        (value-Consumes S strtol p vs os f fe (omega arith))
        (Consumes-append S strtol p _ _ (left ∷ []) (call name ∷ vs) ops (x ∷ []) _ _
          (open-Consumes S strtol p vs os name left le room_op)
          (operand-Consumes S strtol p (call name ∷ vs) ops x a xe (omega arith)))
        (right ∷ rest) s h in
    let (s₂, peek₂, h₂) = S.peek-Delivers s₁ 0 right (right ∷ rest) h₁ (omega arith) refl in
    let (s₃, peek₃, h₃) = S.peek-Delivers s₂ 0 right (right ∷ rest) h₂ (omega arith) refl in
    let q = at S strtol p (a ∷ call name ∷ vs) ops in
    run (suc fuel)
    ∙ ap (λ n. parse_statements S strtol n (q s₁)) (later spare fuel)
    ∙ bind_lem _ (peek_lem S (q s₁) 1 right s₂ peek₂) (
        bind_lem _ (ap or_fault re) (
          bind_fault (parse_statements S strtol (spare + fuel)) (
            closing S strtol p a (call name ∷ vs) os name right
              (parse_statements S strtol (spare + fuel)) s₂ s₃ (operand_is_no_call strtol t x a ae)
              re peek₃)))
  where
    later : (a b : ℕ) → a + suc b ≡ suc (a + b)
    later a b = omega arith
