-- ===== src/Parser/Sums.antt =====
-- Operands and operators without parentheses, by their tokens.
use arnel_lang.Prelude.{
  ℕ, ◌+◌, ◌<◌, ◌≤◌, ◌≡◌, refl, sym, ap, ◌∙◌, Bool, true, false, some, List, [], ◌∷◌, ltb, leb,
  length, arith, >>=-eq-some,
}
use mathlib.Core.Path.{subst}
use mathlib.Core.Option.{some-injective}
use arnel_lang.Token.{
  Token, TokenType, l_ident, l_integer, l_plus, l_star, l_eq2, l_bang_eq, l_minus, l_div, l_rcurly,
}
use arnel_lang.Ast.{BinOp, Ast, binary, absent, node}
use arnel_lang.Parser.Prec
use arnel_lang.Parser.Result.{Result, ok}
use arnel_lang.Parser.Source.{Source}
use arnel_lang.Parser.Node.{prec, binary_prec}
use arnel_lang.Parser.State.{Parser, put_value}
use arnel_lang.Parser.Expr.{apply_operator, sub_expr, parse_binary}
use arnel_lang.Parser.Step.{binary_op, is_rcurly, parse_case}
use arnel_lang.Parser.Reading.{
  operator_of, operator_after, operator_after_lem, operator_cases, operand_at, operand_of, fold_sum,
  read_sum, Reads, sum, comparison,
}
use arnel_lang.Parser.Machine.{
  bind_lem, at, put_value_lem, put_operator_lem, Consumes, Consumes-nil, Consumes-append,
  token-Consumes,
}

-- An operator at the precedence `level` does not bind the operators below it.
abbrev pub is_low : ℕ → List Ast → Bool
is_low level [] = true
is_low level (top ∷ _) = ltb (prec top) level

lower : (os : List Ast) → is_low Prec.comparison os ≡ true → is_low Prec.term os ≡ true
lower [] h = refl
lower (top ∷ os) h = ground arith

-- The value `tree` has been read on top of `vs` and `os`; its last operator may still wait.
pub data Pending (vs os : List Ast) : Ast → List Ast → List Ast → Type 0 where
  done : (tree : Ast) → Pending vs os tree (tree ∷ vs) os
  waiting :
      (op : BinOp) (r l : Ast)
      → binary_prec op ≡ Prec.term
      → Pending vs os (binary op (node r) (node l)) (r ∷ l ∷ vs) (binary op absent absent ∷ os)

module _ (S : Source) (strtol : List ℕ → ℕ) where
  pub binary_case :
      (t : TokenType) (op : BinOp) (k : Parser S → Result (Parser S)) (tok : Token) (p : Parser S)
      → binary_op t ≡ some op
      → parse_case S strtol k t tok p ≡ parse_binary S op p
  unfolding parse_case binary_op
  binary_case l_plus op k tok p h = ap (λ o. parse_binary S o p) (some-injective _ _ h)
  binary_case l_star op k tok p h = ap (λ o. parse_binary S o p) (some-injective _ _ h)
  binary_case l_eq2 op k tok p h = ap (λ o. parse_binary S o p) (some-injective _ _ h)
  binary_case l_bang_eq op k tok p h = ap (λ o. parse_binary S o p) (some-injective _ _ h)
  binary_case l_minus op k tok p h = ap (λ o. parse_binary S o p) (some-injective _ _ h)
  binary_case l_div op k tok p h = ap (λ o. parse_binary S o p) (some-injective _ _ h)
  binary_case _ op k tok p h = cc

  pub binary_plain : (t : TokenType) (op : BinOp) → binary_op t ≡ some op → is_rcurly t ≡ false
  unfolding binary_op
  binary_plain l_rcurly op h = cc
  binary_plain _ op h = refl

  operand_case :
      (t : TokenType) (tok : Token) (a : Ast)
      → operand_at strtol t tok ≡ some a
      → (is_rcurly t ≡ false)
        × ((k : Parser S → Result (Parser S)) (p : Parser S)
            → parse_case S strtol k t tok p ≡ put_value S p a)
  unfolding parse_case operand_at
  operand_case l_integer tok a h = (refl, (λ k p. ap (put_value S p) (some-injective _ _ h)))
  operand_case l_ident tok a h = (refl, (λ k p. ap (put_value S p) (some-injective _ _ h)))
  operand_case _ tok a h = cc

  module _ (p : Parser S) where
    pub sub_binary :
        (vs os : List Ast) (op : BinOp) (r l : Ast) (s : S.State)
        → length vs < p.values.cap
        → sub_expr S (at S strtol p (r ∷ l ∷ vs) (binary op absent absent ∷ os) s)
          ≡ ok (at S strtol p (binary op (node r) (node l) ∷ vs) os s)
    unfolding sub_expr apply_operator
    sub_binary vs os op r l s room =
        put_value_lem S strtol p vs os s (binary op (node r) (node l)) room

    -- An operator ends what waits at its precedence or above.
    parse_binary-Pending :
        (vs os : List Ast) (tree : Ast) (vs₁ os₁ : List Ast) (op : BinOp) (s : S.State)
        → Pending vs os tree vs₁ os₁
        → binary_prec op ≤ Prec.term
        → is_low (binary_prec op) os ≡ true
        → length vs < p.values.cap
        → length os < p.operators.cap
        → parse_binary S op (at S strtol p vs₁ os₁ s)
          ≡ ok (at S strtol p (tree ∷ vs) (binary op absent absent ∷ os) s)
    unfolding parse_binary prec
    parse_binary-Pending vs [] _ _ _ op s (done tree) at_most low room room_op =
        put_operator_lem S strtol p (tree ∷ vs) [] s (binary op absent absent) room_op
    parse_binary-Pending vs (top ∷ os) _ _ _ op s (done tree) at_most low room room_op =
        let no_reduction : leb (binary_prec op) (prec top) ≡ false = ground arith in
        rw no_reduction
          (put_operator_lem S strtol p (tree ∷ vs) (top ∷ os) s (binary op absent absent) room_op)
    parse_binary-Pending vs os _ _ _ op s (waiting op' r l e) at_most low room room_op =
        let reduction : leb (binary_prec op) (prec (binary op' absent absent)) ≡ true =
          ground arith in
        rw reduction (
          bind_lem _ (sub_binary vs os op' r l s room) (
            put_operator_lem S strtol p (binary op' (node r) (node l) ∷ vs) os s
              (binary op absent absent) room_op))

    operator-Consumes :
        (vs os : List Ast) (tree : Ast) (vs₁ os₁ : List Ast) (level : ℕ) (tok : Token) (op : BinOp)
        → Pending vs os tree vs₁ os₁
        → operator_of level tok ≡ some op
        → level ≤ Prec.term
        → is_low level os ≡ true
        → length vs < p.values.cap
        → length os < p.operators.cap
        → Consumes S strtol p vs₁ os₁ (tok ∷ []) (tree ∷ vs) (binary op absent absent ∷ os)
    operator-Consumes vs os tree vs₁ os₁ level tok op pending h at_most low room room_op =
        let (t, te, be, pe) = operator_cases level tok op h in
        let low' : is_low (binary_prec op) os ≡ true = ap (λ k. is_low k os) pe ∙ low in
        token-Consumes S strtol p vs₁ os₁ tok t (tree ∷ vs) (binary op absent absent ∷ os) te
          (binary_plain t op be)
          (λ k s.
            binary_case t op k tok (at S strtol p vs₁ os₁ s) be
            ∙ parse_binary-Pending vs os tree vs₁ os₁ op s pending (omega arith) low' room room_op)

    pub operand-Consumes :
        (vs os : List Ast) (tok : Token) (a : Ast)
        → operand_of strtol tok ≡ some a
        → length vs < p.values.cap
        → Consumes S strtol p vs os (tok ∷ []) (a ∷ vs) os
    operand-Consumes vs os tok a h room =
        let (t, e, he) = >>=-eq-some tok.type _ h in
        let (plain, same) = operand_case t tok a he in
        token-Consumes S strtol p vs os tok t (a ∷ vs) os e plain
          (λ k s. same k (at S strtol p vs os s) ∙ put_value_lem S strtol p vs os s a room)

    -- The rest of a sum leaves its tree, with the last operator waiting.
    fold-Consumes :
        (ts : List Token) (vs os : List Ast) (acc : Ast) (vs₁ os₁ : List Ast) (a : Ast)
        → Pending vs os acc vs₁ os₁
        → fold_sum strtol acc ts ≡ some a
        → is_low Prec.term os ≡ true
        → length vs + 1 < p.values.cap
        → length os < p.operators.cap
        → (vs₂ : List Ast) × (os₂ : List Ast) × Consumes S strtol p vs₁ os₁ ts vs₂ os₂
          × Pending vs os a vs₂ os₂
    unfolding fold_sum
    fold-Consumes [] vs os acc vs₁ os₁ a pending h low room room_op = (
      vs₁,
      os₁,
      Consumes-nil S strtol p vs₁ os₁,
      subst (λ n. Pending vs os n vs₁ os₁) (some-injective _ _ h) pending,
    )
    fold-Consumes (o ∷ []) vs os acc vs₁ os₁ a pending h low room room_op = cc
    fold-Consumes (o ∷ b ∷ ts) vs os acc vs₁ os₁ a pending h low room room_op =
        let (op, after, h₁) = >>=-eq-some (operator_after acc o) _ h in
        let oe = operator_after_lem acc o op after in
        let (n, be, h₂) = >>=-eq-some (operand_of strtol b) _ h₁ in
        let (t, _, _, pe) = operator_cases Prec.term o op oe in
        let first =
          operator-Consumes vs os acc vs₁ os₁ Prec.term o op pending oe (omega arith) low
            (omega arith) room_op in
        let second =
          operand-Consumes (acc ∷ vs) (binary op absent absent ∷ os) b n be (omega arith) in
        let (vs₂, os₂, third, pending₂) =
          fold-Consumes ts vs os (binary op (node n) (node acc)) (n ∷ acc ∷ vs)
            (binary op absent absent ∷ os) a (waiting op n acc pe) h₂ low room room_op in
        (
          vs₂,
          os₂,
          Consumes-append S strtol p vs₁ os₁ (o ∷ []) _ _ (b ∷ ts) vs₂ os₂ first
              (Consumes-append S strtol p _ _ (b ∷ []) _ _ ts vs₂ os₂ second third),
          pending₂,
        )

    -- A sum leaves its tree above what was there, with the last operator waiting.
    pub sum-Consumes :
        (ts : List Token) (vs os : List Ast) (a : Ast)
        → read_sum strtol ts ≡ some a
        → is_low Prec.term os ≡ true
        → length vs + 1 < p.values.cap
        → length os < p.operators.cap
        → (vs₂ : List Ast) × (os₂ : List Ast) × Consumes S strtol p vs os ts vs₂ os₂
          × Pending vs os a vs₂ os₂
    unfolding read_sum
    sum-Consumes [] vs os a h low room room_op = cc
    sum-Consumes (t ∷ ts) vs os a h low room room_op =
        let (n, e, h₁) = >>=-eq-some (operand_of strtol t) _ h in
        let (vs₂, os₂, run, pending) =
          fold-Consumes ts vs os n (n ∷ vs) os a (done n) h₁ low room room_op in
        (
          vs₂,
          os₂,
          Consumes-append S strtol p vs os (t ∷ []) (n ∷ vs) os ts vs₂ os₂
              (operand-Consumes vs os t n e (omega arith)) run,
          pending,
        )

    -- An expression's tree, and what still waits: the last operator, and below it a comparison.
    pub data Waits (vs os : List Ast) : Ast → List Ast → List Ast → Type 0 where
      one : (a : Ast) (vs₁ os₁ : List Ast) → Pending vs os a vs₁ os₁ → Waits vs os a vs₁ os₁
      two :
          (op : BinOp) (r l : Ast) (vs₁ os₁ : List Ast)
          → binary_prec op ≡ Prec.comparison
          → Pending (l ∷ vs) (binary op absent absent ∷ os) r vs₁ os₁
          → Waits vs os (binary op (node r) (node l)) vs₁ os₁

    pub expr-Consumes :
        (ts : List Token) (vs os : List Ast) (a : Ast)
        → Reads strtol ts a
        → is_low Prec.comparison os ≡ true
        → length vs + 2 < p.values.cap
        → length os + 1 < p.operators.cap
        → (vs₂ : List Ast) × (os₂ : List Ast) × Consumes S strtol p vs os ts vs₂ os₂
          × Waits vs os a vs₂ os₂
    unfolding prec
    expr-Consumes ts vs os a (sum h) low room room_op =
        let (vs₂, os₂, run, pending) =
          sum-Consumes ts vs os a h (lower os low) (omega arith) (omega arith) in
        (vs₂, os₂, run, one a vs₂ os₂ pending)
    expr-Consumes ts vs os a (comparison us c ws op l r shape he hl hr tree) low room room_op =
        let (_, _, _, pe) = operator_cases Prec.comparison c op he in
        let (vs₁, os₁, first, pending₁) =
          sum-Consumes us vs os l hl (lower os low) (omega arith) (omega arith) in
        let middle =
          operator-Consumes vs os l vs₁ os₁ Prec.comparison c op pending₁ he (omega arith) low
            (omega arith) (omega arith) in
        let (vs₂, os₂, last, pending₂) =
          sum-Consumes ws (l ∷ vs) (binary op absent absent ∷ os) r hr (ground arith) (omega arith)
            (omega arith) in
        (
          vs₂,
          os₂,
          subst (λ k. Consumes S strtol p vs os k vs₂ os₂) (sym shape)
              (Consumes-append S strtol p vs os us vs₁ os₁ (c ∷ ws) vs₂ os₂ first
                (Consumes-append S strtol p vs₁ os₁ (c ∷ []) _ _ ws vs₂ os₂ middle last)),
          subst (λ k. Waits vs os k vs₂ os₂) (sym tree) (two op r l vs₂ os₂ pe pending₂),
        )
