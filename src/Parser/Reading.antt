-- ===== src/Parser/Reading.antt =====
-- What expressions without parentheses mean, read off their tokens from left to right.
use arnel_lang.Prelude.{
  ℕ, ◌≡◌, Bool, true, false, Option, none, some, List, [], ◌∷◌, ◌++◌, ◌==◌, if◌then◌else◌, ◌>>=◌,
  refl, sym, ap, ◌∙◌, Bool-cases, ==_iff, inl, inr, >>=-eq-some,
}
use mathlib.Core.Option.{some-injective}
use arnel_lang.Token.{
  Token, TokenType, l_ident, l_integer, l_plus, l_minus, l_star, l_div, l_eq2, l_bang_eq,
}
use arnel_lang.Ast.{BinOp, plus, mul, minus, div, eq, neq, Ast, int_literal, binary, ident, node}
use arnel_lang.Parser.Prec
use arnel_lang.Parser.Node.{binary_prec}
use arnel_lang.Parser.Step.{binary_op}

-- The operators of the language.
unfoldable pub sign : TokenType → Option BinOp
sign l_plus = some plus
sign l_minus = some minus
sign l_star = some mul
sign l_div = some div
sign l_eq2 = some eq
sign l_bang_eq = some neq
sign _ = none

-- Comparisons bind less than the others.
unfoldable pub level_of : BinOp → ℕ
level_of eq = Prec.comparison
level_of neq = Prec.comparison
level_of _ = Prec.term

-- The operator that a token stands for, at the precedence `level`.
abbrev pub operator_of : ℕ → Token → Option BinOp
operator_of level tok = (tok.type >>= sign) >>= λ op. if level_of op == level then some op else none

sign-binary_op : (t : TokenType) (op : BinOp) → sign t ≡ some op → binary_op t ≡ some op
unfolding sign binary_op
sign-binary_op l_plus op e = e
sign-binary_op l_minus op e = e
sign-binary_op l_star op e = e
sign-binary_op l_div op e = e
sign-binary_op l_eq2 op e = e
sign-binary_op l_bang_eq op e = e
sign-binary_op _ op e = cc

level_of-binary_prec : (op : BinOp) → level_of op ≡ binary_prec op
unfolding level_of
level_of-binary_prec plus = refl
level_of-binary_prec minus = refl
level_of-binary_prec mul = refl
level_of-binary_prec div = refl
level_of-binary_prec eq = refl
level_of-binary_prec neq = refl

-- What such a token is to the parser.
pub operator_cases :
    (level : ℕ) (tok : Token) (op : BinOp)
    → operator_of level tok ≡ some op
    → (t : TokenType) × (tok.type ≡ some t) × (binary_op t ≡ some op) × (binary_prec op ≡ level)
operator_cases level tok op h =
    let (op', e, last) = >>=-eq-some (tok.type >>= sign) _ h in
    let (t, te, be) = >>=-eq-some tok.type sign e in
    elim (Bool-cases (level_of op' == level)) [
      | inl k ↦
          let same : op' ≡ op = some-injective _ _ (sym (rw k refl) ∙ last) in
          (
            t,
            te,
            sign-binary_op t op (be ∙ ap some same),
            ap binary_prec (sym same) ∙ sym (level_of-binary_prec op') ∙ (==_iff _ _).0 k,
          )
      | inr k ↦ let no_value : none ≡ some op = sym (rw k refl) ∙ last in absurd cc
    ]

-- A `*` or `/` behind a `+` or `-`. prec_t lets the former bind more, so this is left out.
abbrev pub is_mixed : BinOp → Ast → Bool
is_mixed op acc = elim op [
  | mul ↦ elim acc [ binary o _ _ ↦ elim o [ plus ↦ true | minus ↦ true | _ ↦ false ] | _ ↦ false ]
  | div ↦ elim acc [ binary o _ _ ↦ elim o [ plus ↦ true | minus ↦ true | _ ↦ false ] | _ ↦ false ]
  | _ ↦ false
]

-- The operator that continues a sum.
abbrev pub operator_after : Ast → Token → Option BinOp
operator_after acc tok =
    operator_of Prec.term tok >>= λ op. if is_mixed op acc then none else some op

pub operator_after_lem :
    (acc : Ast) (tok : Token) (op : BinOp)
    → operator_after acc tok ≡ some op
    → operator_of Prec.term tok ≡ some op
operator_after_lem acc tok op h =
    let (op', e, last) = >>=-eq-some (operator_of Prec.term tok) _ h in
    elim (Bool-cases (is_mixed op' acc)) [
      | inl k ↦ let no_value : none ≡ some op = sym (rw k refl) ∙ last in absurd cc
      | inr k ↦ e ∙ sym (rw k refl) ∙ last
    ]

module _ (strtol : List ℕ → ℕ) where
  -- The tree of a literal or a name.
  unfoldable pub operand_at : TokenType → Token → Option Ast
  operand_at l_integer tok = some (int_literal (strtol tok.lexeme.chars.bytes))
  operand_at l_ident tok = some (ident tok.lexeme)
  operand_at _ tok = none

  abbrev pub operand_of : Token → Option Ast
  operand_of tok = tok.type >>= λ t. operand_at t tok

  -- Operands with `+`, `-`, `*` or `/` between them, from left to right, with no `*` or `/`
  -- behind a `+` or `-`; the left operand of a node is its second child.
  unfoldable pub fold_sum : Ast → List Token → Option Ast
  fold_sum acc [] = some acc
  fold_sum acc (o ∷ []) = none
  fold_sum acc (o ∷ b ∷ ts) = operator_after acc o >>= λ op.
      operand_of b >>= λ n. fold_sum (binary op (node n) (node acc)) ts

  unfoldable pub read_sum : List Token → Option Ast
  read_sum [] = none
  read_sum (t ∷ ts) = operand_of t >>= λ a. fold_sum a ts

  -- A sum, or two sums with a comparison between them.
  pub data Reads (ts : List Token) (a : Ast) : Type 0 where
    sum : read_sum ts ≡ some a → Reads ts a
    comparison :
        (us : List Token) (c : Token) (vs : List Token) (op : BinOp) (l r : Ast)
        → ts ≡ us ++ c ∷ vs
        → operator_of Prec.comparison c ≡ some op
        → read_sum us ≡ some l
        → read_sum vs ≡ some r
        → a ≡ binary op (node r) (node l)
        → Reads ts a
