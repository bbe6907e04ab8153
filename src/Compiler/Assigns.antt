-- ===== src/Compiler/Assigns.antt =====
-- The code of an assignment to a name in scope.
use arnel_lang.Prelude.{
  ℕ, ◌+◌, ◌<◌, ◌≡◌, refl, sym, ap, ◌∙◌, Bool, true, Option, some, List, [], ◌∷◌, ◌++◌, arith,
  >>=-eq-some, Bool-cases, inl, inr,
}
use mathlib.Core.Path.{subst}
use mathlib.Core.Option.{some-injective}
use mathlib.Core.List.{append_assoc}
use arnel_lang.Prelude.Size.{size_mod, add_size-eq}
use arnel_lang.View.{View, content}
use arnel_lang.Ast.{BinOp, ident, assignment, Child, node}
use arnel_lang.Compiler.Locals.{Locals}
use arnel_lang.Compiler.Code.{Val, as_l, Line, copy}
use arnel_lang.Compiler.State.{Comp, emit, push_temp, release}
use arnel_lang.Compiler.Expr.{comp_expr, comp_child, comp_target, finish_assignment}
use arnel_lang.Compiler.Registers.{eval_child, size_child}
use arnel_lang.Compiler.Meaning.{Scoping, is_readable_child, meaning}
use arnel_lang.Compiler.Layout.{Laid, Stored, child-Valued}
use arnel_lang.Compiler.Leaves.{freed_temps, freed-output, freed-locals, Stored-assign}
use arnel_lang.Compiler.Simple.{copied}
use arnel_lang.Compiler.Simulation.{Compiles, exec-Simulates, Laid-kept}

module _ (L : Locals) (symbols : List ℕ → Option (List ℕ)) (eval_op : BinOp → ℕ → ℕ → ℕ)
    (truth : ℕ → Bool) (rounds : ℕ) where
  release-emit :
      (line : Line) (v : Val) (c : Comp L)
      → release L v (emit L line c) ≡ emit L line (release L v c)
  release-emit line v c = elim (Bool-cases v.imm) [ inl e ↦ rw e refl | inr e ↦ rw e refl ]

  assignment-made :
      (x : View) (e : Child) (c : Comp L) (at : ℕ) (v : Val) (c' : Comp L)
      → L.get c.locals (content x) ≡ some at
      → comp_child L symbols e (push_temp L c) ≡ some (v, c')
      → comp_expr L symbols (assignment (node (ident x)) e) c ≡ finish_assignment L symbols at v c'
  unfolding comp_expr comp_target
  assignment-made x e c at v c' found made = rw (found, made) refl

  pub assigns-Compiles :
      (scope : Scoping) (x : View) (e : Child) (c : Comp L)
      → Laid L scope c
      → scope (content x) ≡ true
      → is_readable_child scope e ≡ true
      → c.temps_stack + size_child e + 3 < size_mod
      → Compiles L eval_op truth symbols true scope scope
          (size_child e + 2)
          (comp_expr L symbols (assignment (node (ident x)) e) c)
          (meaning eval_op truth rounds (assignment (node (ident x)) e))
          c
  unfolding meaning
  assigns-Compiles scope x e c laid inside readable small =
      let (at, found, low) = laid.placed (content x) inside in
      let pushed : Comp L = push_temp L c in
      let next : pushed.temps_stack ≡ c.temps_stack + 1 =
        add_size-eq c.temps_stack 1 (omega arith) in
      let laid' = Laid-kept L eval_op truth scope c pushed laid (λ y h. refl) (omega arith) in
      let (v, c', r) = child-Valued L symbols eval_op scope e pushed laid' readable (omega arith) in
      let t = freed_temps L symbols eval_op scope e pushed v c' r (omega arith) in
      let freed : Comp L = release L v c' in
      let d : Comp L = emit L (copy at v) freed in
      let same : d.locals ≡ c.locals = freed-locals L symbols eval_op scope e pushed v c' r in
      (
        as_l at,
        d,
        record {
          made =
              assignment-made x e c at v c' found r.made
              ∙ ap (λ k. some (as_l at, k)) (release-emit (copy at v) v c');
          lines = r.lines ++ copy at v ∷ [];
          printed =
              ap (λ o. o ++ copy at v ∷ []) (freed-output L symbols eval_op scope e pushed v c' r)
              ∙ append_assoc c.output r.lines (copy at v ∷ []);
          laid =
              Laid-kept L eval_op truth scope c d laid (λ y h. ap (λ l. L.get l y) same)
                (omega arith);
          kept = λ y h. ap (λ l. L.get l y) same;
          room = λ n h.
              subst (λ l. L.Room l n) (sym same)
                (L.room_less c.locals n (size_child e + 2 + n) (omega arith) h);
          wider = λ y h. h;
          grows = omega arith;
          busy = λ _ h. omega arith;
          bound = omega arith;
          no_return = refl;
          correct =
              exec-Simulates L eval_op truth (r.lines ++ copy at v ∷ []) scope c.locals scope
                d.locals (meaning eval_op truth rounds (assignment (node (ident x)) e))
                (λ regs env env' stored value.
                  let (n, en, last) = >>=-eq-some (eval_child eval_op env e) _ value in
                  let (after, run, result, keeps) =
                    copied L symbols eval_op truth rounds scope e pushed v c' at r env regs n stored
                      en in
                  (
                    after,
                    run,
                    subst (λ l. Stored L scope env' l after) (sym same)
                        (subst (λ k. Stored L scope k c.locals after) (some-injective _ _ last)
                          (Stored-assign L scope (content x) c env n at regs after laid inside found
                            stored (λ i h ne. keeps i (omega arith) ne) result)),
                  ));
        },
      )
