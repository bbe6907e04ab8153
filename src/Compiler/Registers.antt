-- ===== src/Compiler/Registers.antt =====
-- What the lines of a straight piece of code do to the temporaries, and what an expression of the
-- language means.
--
-- qbe is not part of this repository: what its instructions compute is a parameter.
use arnel_lang.Prelude.{
  ℕ, ◌+◌, ◌≡◌, refl, Option, none, some, List, [], ◌∷◌, ◌++◌, ◌==◌, if◌then◌else◌, ◌>>=◌,
  Option-cases, inl, inr,
}
use arnel_lang.View.{content}
use arnel_lang.Ast.{BinOp, Ast, int_literal, binary, ident, Child, absent, node}
use arnel_lang.Compiler.Code.{Val, Line, operation, copy}

abbrev pub Registers : Type 0
Registers = ℕ → ℕ

abbrev pub update : Registers → ℕ → ℕ → Registers
update regs i n j = if j == i then n else regs j

abbrev pub operand : Val → Registers → ℕ
operand v regs = if v.imm then v.val else regs v.val

module _ (eval_op : BinOp → ℕ → ℕ → ℕ) where
  -- Lines that leave the straight path are not run here.
  unfoldable pub exec_line : Line → Registers → Option Registers
  exec_line (operation d op a b) regs =
      some (update regs d (eval_op op (operand a regs) (operand b regs)))
  exec_line (copy d v) regs = some (update regs d (operand v regs))
  exec_line _ regs = none

  unfoldable pub exec : List Line → Registers → Option Registers
  exec [] regs = some regs
  exec (line ∷ lines) regs = exec_line line regs >>= exec lines

  pub exec-append :
      (xs ys : List Line) (regs : Registers) → exec (xs ++ ys) regs ≡ (exec xs regs >>= exec ys)
  unfolding exec
  exec-append [] ys regs = refl
  exec-append (x ∷ xs) ys regs = elim (Option-cases (exec_line x regs)) [
    | inl e ↦ rw e
    | inr (r, e) ↦ rw e (exec-append xs ys r)
  ]

  -- The value of an expression of literals, names and binary operators; the left operand is the
  -- second child.
  module _ (env : List ℕ → Option ℕ) where
    unfoldable mutual
      pub eval : Ast → Option ℕ
      eval (int_literal n) = some n
      eval (ident name) = env (content name)
      eval (binary op right left) =
          eval_child right >>= λ b. eval_child left >>= λ a. some (eval_op op a b)
      eval _ = none

      pub eval_child : Child → Option ℕ
      eval_child absent = none
      eval_child (node a) = eval a

-- The number of nodes of an expression.
unfoldable mutual
  pub size : Ast → ℕ
  size (binary op right left) = size_child right + size_child left + 1
  size _ = 1

  pub size_child : Child → ℕ
  size_child absent = 0
  size_child (node a) = size a
