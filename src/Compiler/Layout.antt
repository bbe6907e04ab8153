-- ===== src/Compiler/Layout.antt =====
-- Where the names in scope are, and what is stored there.
use arnel_lang.Prelude.{
  ℕ, ◌≢◌, ◌+◌, ◌<◌, ◌≡◌, refl, sym, ap, ◌∙◌, Bool, true, ◌&&◌, Option, none, some, List, [], ◌++◌,
  if◌then◌else◌, arith, Bool-cases, inl, inr,
}
use mathlib.Core.Option.{some-injective}
use mathlib.Core.List.{append_cancel_left}
use arnel_lang.Prelude.Size.{size_mod}
use arnel_lang.View.{content}
use arnel_lang.Ast.{BinOp, Ast, int_literal, binary, ident, Child, absent, node}
use arnel_lang.Compiler.Locals.{Locals}
use arnel_lang.Compiler.Code.{Val, Line}
use arnel_lang.Compiler.State.{Comp}
use arnel_lang.Compiler.Expr.{comp_expr, comp_child}
use arnel_lang.Compiler.Registers.{Registers, operand, exec, eval, eval_child, size, size_child}
use arnel_lang.Compiler.Computes.{Agrees, temps_after}
use arnel_lang.Compiler.Correct.{any_expr-Correct}
use arnel_lang.Compiler.Meaning.{Env, Scoping, is_readable, is_readable_child}

both_true : (a b : Bool) → (a && b) ≡ true → (a ≡ true) × (b ≡ true)
both_true a b h = ground arith

-- The values of the names in scope.
abbrev within : Scoping → Env → Env
within scope env x = if scope x then env x else none

module _ (eval_op : BinOp → ℕ → ℕ → ℕ) (scope : Scoping) (env : Env) where
  mutual
    unfolding eval is_readable

    eval-within :
        (e : Ast)
        → is_readable scope e ≡ true
        → eval eval_op (within scope env) e ≡ eval eval_op env e
    eval-within (int_literal n) h = refl
    eval-within (ident name) h = rw h refl
    eval-within (binary op right left) h =
        let (hr, hl) = both_true _ _ h in
        rw (eval_child-within right hr, eval_child-within left hl) refl
    eval-within _ h = cc

    eval_child-within :
        (e : Child)
        → is_readable_child scope e ≡ true
        → eval_child eval_op (within scope env) e ≡ eval_child eval_op env e
    eval_child-within absent h = cc
    eval_child-within (node e) h = eval-within e h

  mutual
    unfolding eval is_readable

    readable_value :
        (e : Ast)
        → is_readable scope e ≡ true
        → ((x : List ℕ) → scope x ≡ true → (n : ℕ) × (env x ≡ some n))
        → (n : ℕ) × (eval eval_op env e ≡ some n)
    readable_value (int_literal n) h total = (n, refl)
    readable_value (ident name) h total = total (content name) h
    readable_value (binary op right left) h total =
        let (hr, hl) = both_true _ _ h in
        let (b, eb) = readable_child_value right hr total in
        let (a, ea) = readable_child_value left hl total in (eval_op op a b, rw (eb, ea) refl)
    readable_value _ h total = cc

    readable_child_value :
        (e : Child)
        → is_readable_child scope e ≡ true
        → ((x : List ℕ) → scope x ≡ true → (n : ℕ) × (env x ≡ some n))
        → (n : ℕ) × (eval_child eval_op env e ≡ some n)
    readable_child_value absent h total = cc
    readable_child_value (node e) h total = readable_value e h total

module _ (L : Locals) where
  -- Every name in scope has a temporary in use, and no two have the same.
  pub record Laid (scope : Scoping) (c : Comp L) : Type 0 where
    pub placed :
        (x : List ℕ) → scope x ≡ true → (a : ℕ) × (L.get c.locals x ≡ some a) × (a < c.temps_stack)
    pub solid : (x : List ℕ) → scope x ≡ true → x ≢ []
    pub apart :
        (x y : List ℕ) (a : ℕ)
        → scope x ≡ true
        → scope y ≡ true
        → L.get c.locals x ≡ some a
        → L.get c.locals y ≡ some a
        → x ≡ y

  -- The temporary of a name in scope holds its value.
  abbrev pub Stored : Scoping → Env → L.Map → Registers → Type 0
  Stored scope env locals regs =
      (x : List ℕ) (n a : ℕ)
      → scope x ≡ true
      → env x ≡ some n
      → L.get locals x ≡ some a
      → regs a ≡ n

  -- Writing above the temporaries of the names in scope changes nothing of them.
  pub Stored-keeps :
      (scope : Scoping) (env : Env) (c : Comp L) (regs after : Registers)
      → Laid scope c
      → Stored scope env c.locals regs
      → ((i : ℕ) → i < c.temps_stack → after i ≡ regs i)
      → Stored scope env c.locals after
  Stored-keeps scope env c regs after laid stored keeps x n a inside value found =
      let (b, found', low) = laid.placed x inside in
      let same : b ≡ a = some-injective _ _ (sym found' ∙ found) in
      keeps a (omega arith) ∙ stored x n a inside value found

  module _ (symbols : List ℕ → Option (List ℕ)) (eval_op : BinOp → ℕ → ℕ → ℕ) where
    -- The code of an expression, whatever the names' values are.
    pub record Valued (scope : Scoping) (e : Child) (c : Comp L) (v : Val) (c' : Comp L)
        : Type 0 where
      pub made : comp_child L symbols e c ≡ some (v, c')
      pub lines : List Line
      pub printed : c'.output ≡ c.output ++ lines
      pub same : c'.locals ≡ c.locals
      pub temps : c'.temps_stack ≡ temps_after L symbols eval_op v c.temps_stack
      pub computes :
          (env : Env) (regs : Registers) (n : ℕ)
          → Stored scope env c.locals regs
          → eval_child eval_op env e ≡ some n
          → (after : Registers) × (exec eval_op lines regs ≡ some after)
            × (operand v after ≡ n)
            × ((i : ℕ) → i < c.temps_stack → after i ≡ regs i)

    agreed :
        (scope : Scoping) (env : Env) (c : Comp L) (regs : Registers)
        → Laid scope c
        → Stored scope env c.locals regs
        → Agrees L symbols eval_op (within scope env) c regs
    agreed scope env c regs laid stored x n e = elim (Bool-cases (scope x)) [
      | inl h ↦
          let (a, found, low) = laid.placed x h in
          (a, found, low, stored x n a h (sym (rw h refl) ∙ e) found)
      | inr h ↦ let nothing : none ≡ some n = sym (rw h refl) ∙ e in absurd cc
    ]

    computed :
        (scope : Scoping) (a : Ast) (c : Comp L) (v : Val) (c' : Comp L) (lines : List Line)
        → Laid scope c
        → is_readable scope a ≡ true
        → c.temps_stack + size a + 1 < size_mod
        → comp_expr L symbols a c ≡ some (v, c')
        → c'.output ≡ c.output ++ lines
        → (env : Env) (regs : Registers) (n : ℕ) → Stored scope env c.locals regs
        → eval eval_op env a ≡ some n
        → (after : Registers) × (exec eval_op lines regs ≡ some after)
          × (operand v after ≡ n)
          × ((i : ℕ) → i < c.temps_stack → after i ≡ regs i)
    computed scope a c v c' lines laid readable small made printed env regs n stored value =
        let (w, d, run, r, _) =
          any_expr-Correct L symbols eval_op (within scope env) a c regs n
            (eval-within eval_op scope env a readable ∙ value) (agreed scope env c regs laid stored)
            small in
        let pair : (w, d) ≡ (v, c') = some-injective _ _ (sym run ∙ made) in
        let code : r.code ≡ lines =
          append_cancel_left c.output r.code lines
            (sym r.printed ∙ ap (λ q. q.1.output) pair ∙ printed) in
        (
          r.after,
          ap (λ k. exec eval_op k regs) (sym code) ∙ r.runs,
          ap (λ q. operand q.0 r.after) (sym pair) ∙ r.value,
          r.keeps,
        )

    pub child-Valued :
        (scope : Scoping) (e : Child) (c : Comp L)
        → Laid scope c
        → is_readable_child scope e ≡ true
        → c.temps_stack + size_child e + 1 < size_mod
        → (v : Val) × (c' : Comp L) × Valued scope e c v c'
    unfolding is_readable comp_expr size eval
    child-Valued scope absent c laid readable small = cc
    child-Valued scope (node a) c laid readable small =
        let total = λ (x : List ℕ) (h : scope x ≡ true). zero_here x h in
        let (n, value) = readable_value eval_op scope zeros a readable total in
        let (v, c', run, r, same) =
          any_expr-Correct L symbols eval_op (within scope zeros) a c (λ _. 0) n
            (eval-within eval_op scope zeros a readable ∙ value)
            (agreed scope zeros c (λ _. 0) laid (λ x m b inside e found. some-injective _ _ e))
            small in
        (
          v,
          c',
          record {
            made = run;
            lines = r.code;
            printed = r.printed;
            same = same;
            temps = r.temps;
            computes = computed scope a c v c' r.code laid readable small run r.printed;
          },
        )
      where
        zeros : Env
        zeros x = some 0

        zero_here : (x : List ℕ) → scope x ≡ true → (n : ℕ) × (zeros x ≡ some n)
        zero_here x h = (0, refl)
