-- ===== src/Compiler/Branches.antt =====
-- The code of a branch: a block, and a copy of its value.
use arnel_lang.Prelude.{
  ℕ, ◌+◌, ◌-◌, ◌<◌, ◌≤◌, ◌≡◌, refl, sym, ap, ◌∙◌, Bool, true, false, Option, some, List, [], ◌∷◌,
  ◌++◌, ◌>>=◌, arith, Bool-cases, inl, inr,
}
use mathlib.Core.List.{append_assoc}
use arnel_lang.Prelude.Size.{size_mod, sub_size, sub_size-eq}
use arnel_lang.Ast.{BinOp, Child}
use arnel_lang.Compiler.Locals.{Locals}
use arnel_lang.Compiler.Code.{Val, Line, copy}
use arnel_lang.Compiler.State.{Comp, emit, release}
use arnel_lang.Compiler.Expr.{is_ret, copy_result}
use arnel_lang.Compiler.Registers.{Registers, update, operand, exec, exec_line, eval_child}
use arnel_lang.Compiler.Computes.{release-output, release-locals}
use arnel_lang.Compiler.Meaning.{Env, Scoping}
use arnel_lang.Compiler.Layout.{Laid, Stored, Stored-keeps, Valued}
use arnel_lang.Compiler.Simple.{update_other}
use arnel_lang.Compiler.Simulation.{
  Compiled, Simulates, Simulates-append, exec-Simulates, Stored-narrow,
}
use arnel_lang.Compiler.Branching.{Tests}
use mathlib.Core.Path.{subst}
use mathlib.Core.Option.{some-injective}

module _ (L : Locals) (symbols : List ℕ → Option (List ℕ)) (eval_op : BinOp → ℕ → ℕ → ℕ)
    (truth : ℕ → Bool) where
  -- Code generation for a branch leads from `c` to `d`; its lines run as `m` says.
  pub record Branch (scope : Scoping) (w : ℕ) (m : Env → Option Env) (c d : Comp L) : Type 0 where
    pub lines : List Line
    pub printed : d.output ≡ c.output ++ lines
    pub kept : (x : List ℕ) → scope x ≡ true → L.get d.locals x ≡ L.get c.locals x
    pub room : (n : ℕ) → L.Room c.locals (w + n) → L.Room d.locals n
    pub grows : c.temps_stack ≤ d.temps_stack
    pub bound : d.temps_stack ≤ c.temps_stack + w
    pub correct : Simulates L eval_op truth lines scope c.locals scope d.locals m

  copy_result-emit :
      (v : Val) (c : Comp L)
      → is_ret L symbols v ≡ false
      → copy_result L symbols v c ≡ emit L (copy c.temps_stack v) c
  copy_result-emit v c e = rw e refl

  given_back :
      (i : Val) (c' : Comp L) (k w : ℕ)
      → k ≤ c'.temps_stack
      → (i.imm ≡ false → k + 1 ≤ c'.temps_stack)
      → c'.temps_stack ≤ k + w
      → k + w < size_mod
      → (k ≤ (release L i c').temps_stack) × ((release L i c').temps_stack ≤ k + w)
  given_back i c' k w grows busy bound small = elim (Bool-cases i.imm) [
    | inl e ↦ rw e (grows, bound)
    | inr e ↦
        let b = busy e in
        let s : sub_size c'.temps_stack 1 ≡ c'.temps_stack - 1 =
          sub_size-eq c'.temps_stack 1 (omega arith) (omega arith) in
        rw e (omega arith, omega arith)
  ]

  -- A copy to a temporary above those of the names in scope
  copy-Simulates :
      (scope : Scoping) (c : Comp L) (l : L.Map) (t : ℕ) (v : Val)
      → Laid L scope c
      → ((x : List ℕ) → scope x ≡ true → L.get l x ≡ L.get c.locals x)
      → c.temps_stack ≤ t
      → Simulates L eval_op truth (copy t v ∷ []) scope l scope l some
  unfolding exec exec_line
  copy-Simulates scope c l t v laid kept above =
      exec-Simulates L eval_op truth (copy t v ∷ []) scope l scope l some (λ regs env env' stored e.
        let low =
          Stored-narrow L eval_op truth scope scope env c.locals l regs (λ x h. h) kept stored in
        let after : Registers = update regs t (operand v regs) in
        (
          after,
          refl,
          subst (λ k. Stored L scope k l after) (some-injective _ _ e)
              (Stored-narrow L eval_op truth scope scope env l c.locals after (λ x h. h)
                (λ x h. sym (kept x h))
                (Stored-keeps L scope env c regs after laid low
                  (λ i h. update_other regs t (operand v regs) i (λ p. absurd (omega arith))))),
        ))

  pub Compiled-Branch :
      (scope : Scoping) (w : ℕ) (result : Option (Val × Comp L)) (m : Env → Option Env) (c : Comp L)
      (i : Val) (c' : Comp L)
      → Laid L scope c
      → c.temps_stack + w < size_mod
      → Compiled L eval_op truth symbols true scope scope w result m c i c'
      → Branch scope w m c (copy_result L symbols i (release L i c'))
  Compiled-Branch scope w result m c i c' laid small r =
      let f : Comp L = release L i c' in
      let (grows, bound) = given_back i c' c.temps_stack w r.grows (r.busy refl) r.bound small in
      let same : f.locals ≡ c'.locals = release-locals L symbols eval_op i c' in
      let kept : (x : List ℕ) → scope x ≡ true → L.get f.locals x ≡ L.get c.locals x =
        λ x h. ap (λ l. L.get l x) same ∙ r.kept x h in
      subst (Branch scope w m c) (sym (copy_result-emit i f r.no_return)) (record {
        lines = r.lines ++ copy f.temps_stack i ∷ [];
        printed =
            ap (λ o. o ++ copy f.temps_stack i ∷ [])
              (release-output L symbols eval_op i c' ∙ r.printed)
            ∙ append_assoc c.output r.lines (copy f.temps_stack i ∷ []);
        kept = kept;
        room = λ n h. subst (λ l. L.Room l n) (sym same) (r.room n h);
        grows = grows;
        bound = bound;
        correct =
            subst
              (λ l.
                Simulates L eval_op truth (r.lines ++ copy f.temps_stack i ∷ []) scope c.locals
                  scope l m)
              (sym same)
              (λ code rest regs env env' labelled ends stored value.
                Simulates-append L eval_op truth r.lines (copy f.temps_stack i ∷ []) scope c.locals
                  scope c'.locals scope c'.locals m some r.correct
                  (copy-Simulates scope c c'.locals f.temps_stack i laid r.kept grows) code rest
                  regs env env' labelled ends stored (ap (λ o. o >>= some) value));
      })

  pub Valued-Tests :
      (scope : Scoping) (e : Child) (c : Comp L) (v : Val) (c' : Comp L)
      → Laid L scope c
      → (r : Valued L symbols eval_op scope e c v c')
      → Tests L eval_op truth r.lines v scope c.locals (λ env. eval_child eval_op env e)
  Valued-Tests scope e c v c' laid r env regs n stored value =
      let (after, run, result, keeps) = r.computes env regs n stored value in
      (after, run, result, Stored-keeps L scope env c regs after laid stored keeps)
