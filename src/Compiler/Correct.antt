-- ===== src/Compiler/Correct.antt =====
-- The code of an expression computes its value.
use arnel_lang.Prelude.{
  ℕ, ◌+◌, ◌<◌, ◌≤◌, ◌≡◌, refl, ap, ◌∙◌, false, Option, some, List, [], ◌∷◌, ◌++◌, ◌==◌, ◌>>=◌,
  arith, ==_refl, >>=-eq-some,
}
use mathlib.Core.Path.{ap₂, subst}
use mathlib.Core.Option.{some-injective}
use mathlib.Core.List.{append_assoc}
use arnel_lang.Prelude.Size.{size_mod, add_size-eq}
use arnel_lang.View.{content}
use arnel_lang.Ast.{BinOp, Ast, int_literal, binary, ident, Child, absent, node}
use arnel_lang.Compiler.Locals.{Locals}
use arnel_lang.Compiler.Code.{Val, as_l, literal, Line, operation}
use arnel_lang.Compiler.State.{Comp, emit, push_temp, release}
use arnel_lang.Compiler.Expr.{C, comp_expr, comp_child, finish_binary}
use arnel_lang.Compiler.Registers.{
  Registers, update, operand, exec_line, exec, exec-append, eval, eval_child, size, size_child,
}
use arnel_lang.Compiler.Computes.{
  Agrees, temps_after, Computes, Correct, literal-Correct, ident-Correct, release_both,
  release-output, release-locals, operand-keeps,
}

module _ (L : Locals) (symbols : List ℕ → Option (List ℕ)) (eval_op : BinOp → ℕ → ℕ → ℕ) where
  module _ (op : BinOp) (c : C L symbols) (regs : Registers) (b : ℕ) (v : Val) (c₁ : C L symbols)
      (right : Computes L symbols eval_op c regs b v c₁) (a : ℕ) (w : Val) (c₂ : C L symbols)
      (left : Computes L symbols eval_op c₁ right.after a w c₂)
      (small : c.temps_stack + 2 < size_mod) where
    abbrev released : C L symbols
    released = release L w (release L v c₂)

    freed : released.temps_stack ≡ c.temps_stack
    freed =
        release_both L symbols eval_op c.temps_stack v w c₂
          (left.temps ∙ ap (temps_after L symbols eval_op w) right.temps) small

    right_value : operand v left.after ≡ b
    right_value =
        operand-keeps L symbols eval_op c.temps_stack v right.after left.after right.operand_in
          (λ i h. left.keeps i (rw right.temps h))
        ∙ right.value

    abbrev result_line : Line
    result_line = operation released.temps_stack op w v

    abbrev result : Registers
    result =
        update left.after released.temps_stack
          (eval_op op (operand w left.after) (operand v left.after))

    result_keeps : (i : ℕ) → i < c.temps_stack → result i ≡ regs i
    result_keeps i h =
        let other : (i == released.temps_stack) ≡ false = ground (arith, freed) in
        let in_use : i < c₁.temps_stack = ground (arith, right.temps) in
        rw other (left.keeps i in_use ∙ right.keeps i h)

    result_runs : exec eval_op ((right.code ++ left.code) ++ result_line ∷ []) regs ≡ some result
    unfolding exec exec_line
    result_runs = rw (
      exec-append eval_op (right.code ++ left.code) (result_line ∷ []) regs,
      exec-append eval_op right.code left.code regs,
      right.runs,
      ◌>>=◌,
      left.runs,
    )

    result_printed :
        released.output ++ result_line ∷ []
        ≡ c.output ++ ((right.code ++ left.code) ++ result_line ∷ [])
    result_printed =
        ap (λ o. o ++ result_line ∷ [])
          (release-output L symbols eval_op w (release L v c₂)
            ∙ release-output L symbols eval_op v c₂
            ∙ left.printed
            ∙ ap (λ o. o ++ left.code) right.printed)
        ∙ simp append_assoc

    -- The operation on two operands that have been computed.
    binary-Correct :
        c₁.locals ≡ c.locals
        → c₂.locals ≡ c₁.locals
        → Correct L symbols eval_op (finish_binary L symbols op v w c₂) c regs (eval_op op a b)
    binary-Correct same₁ same₂ = (
      as_l released.temps_stack,
      push_temp L (emit L result_line released),
      refl,
      record {
        code = (right.code ++ left.code) ++ result_line ∷ [];
        printed = result_printed;
        after = result;
        runs = result_runs;
        value = rw (==_refl released.temps_stack) (ap₂ (eval_op op) left.value right_value);
        keeps = result_keeps;
        temps = add_size-eq released.temps_stack 1 (omega (arith, freed)) ∙ ap (λ k. k + 1) freed;
        operand_in = λ _. omega (arith, freed);
      },
      release-locals L symbols eval_op w (release L v c₂)
          ∙ release-locals L symbols eval_op v c₂
          ∙ same₂
          ∙ same₁,
    )

  Agrees-after :
      (env : List ℕ → Option ℕ) (c : C L symbols) (regs : Registers) (n : ℕ) (v : Val)
      (c₁ : C L symbols)
      → Agrees L symbols eval_op env c regs
      → (r : Computes L symbols eval_op c regs n v c₁) → c₁.locals ≡ c.locals
      → Agrees L symbols eval_op env c₁ r.after
  Agrees-after env c regs n v c₁ agrees r same name m e =
      let (a, found, low, holds) = agrees name m e in
      (
        a,
        ap (λ l. L.get l name) same ∙ found,
        (let t = r.temps in ground arith),
        r.keeps a low ∙ holds,
      )

  module _ (env : List ℕ → Option ℕ) where
    -- The two operands are computed one after the other, the second on what the first leaves.
    join-Correct :
        (op : BinOp) (right left : Child) (c : C L symbols) (regs : Registers) (a b : ℕ)
        → Agrees L symbols eval_op env c regs
        → c.temps_stack + size (binary op right left) + 1 < size_mod
        → Correct L symbols eval_op (comp_child L symbols right c) c regs b
        → ((c₁ : C L symbols) (regs₁ : Registers)
            → Agrees L symbols eval_op env c₁ regs₁
            → c₁.temps_stack + size_child left + 1 < size_mod
            → Correct L symbols eval_op (comp_child L symbols left c₁) c₁ regs₁ a)
        → Correct L symbols eval_op
            (comp_expr L symbols (binary op right left) c)
            c
            regs
            (eval_op op a b)
    unfolding comp_expr size
    join-Correct op right left c regs a b agrees small (v, c₁, run₁, r₁, same₁) second =
        let t : c₁.temps_stack ≤ c.temps_stack + 1 = rw r₁.temps (ground arith) in
        let (w, c₂, run₂, r₂, same₂) =
          second c₁ r₁.after (Agrees-after env c regs b v c₁ agrees r₁ same₁) (omega arith) in
        rw (run₁, ◌>>=◌, run₂)
          (binary-Correct op c regs b v c₁ r₁ a w c₂ r₂ (omega arith) same₁ same₂)

    mutual
      unfolding eval comp_expr size

      expr-Correct :
          (e : Ast) (c : C L symbols) (regs : Registers) (n : ℕ)
          → eval eval_op env e ≡ some n
          → Agrees L symbols eval_op env c regs
          → c.temps_stack + size e + 1 < size_mod
          → Correct L symbols eval_op (comp_expr L symbols e c) c regs n
      expr-Correct (int_literal m) c regs n h agrees small =
          subst (λ k. Correct L symbols eval_op (some (literal m, c)) c regs k)
            (some-injective _ _ h) (literal-Correct L symbols eval_op m c regs)
      expr-Correct (ident name) c regs n h agrees small =
          let (a, found, low, holds) = agrees (content name) n h in
          rw found (ident-Correct L symbols eval_op c regs n a low holds (omega arith))
      expr-Correct (binary op right left) c regs n h agrees small =
          let (b, hb, rest) = >>=-eq-some (eval_child eval_op env right) _ h in
          let (a, ha, last) = >>=-eq-some (eval_child eval_op env left) _ rest in
          subst
            (λ k. Correct L symbols eval_op (comp_expr L symbols (binary op right left) c) c regs k)
            (some-injective _ _ last)
            (join-Correct op right left c regs a b agrees small
              (child-Correct right c regs b hb agrees (omega arith))
              (λ c₁ regs₁ ok low. child-Correct left c₁ regs₁ a ha ok low))
      expr-Correct _ c regs n h agrees small = cc

      child-Correct :
          (e : Child) (c : C L symbols) (regs : Registers) (n : ℕ)
          → eval_child eval_op env e ≡ some n
          → Agrees L symbols eval_op env c regs
          → c.temps_stack + size_child e + 1 < size_mod
          → Correct L symbols eval_op (comp_child L symbols e c) c regs n
      child-Correct absent c regs n h agrees small = cc
      child-Correct (node e) c regs n h agrees small = expr-Correct e c regs n h agrees small

-- The code of an expression of literals, names and binary operators, in a state whose locals hold the
-- values of the names: if the expression has a value and the temporaries it can need do not wrap
-- around, code generation succeeds, and running the printed lines gives the returned operand that
-- value. The temporaries in use and the locals stay as they are, and the next free temporary moves by
-- one exactly if the operand is not an immediate.
pub any_expr-Correct :
    (L : Locals) (symbols : List ℕ → Option (List ℕ)) (eval_op : BinOp → ℕ → ℕ → ℕ)
    (env : List ℕ → Option ℕ) (e : Ast) (c : Comp L) (regs : Registers) (n : ℕ)
    → eval eval_op env e ≡ some n
    → Agrees L symbols eval_op env c regs
    → c.temps_stack + size e + 1 < size_mod
    → Correct L symbols eval_op (comp_expr L symbols e c) c regs n
any_expr-Correct L symbols eval_op env e c regs n h agrees small =
    expr-Correct L symbols eval_op env e c regs n h agrees small
