-- ===== src/Compiler/Simple.antt =====
-- The code of expressions, declarations and assignments.
use arnel_lang.Prelude.{
  ℕ, ◌+◌, ◌<◌, ◌≤◌, ◌≡◌, refl, sym, ap, ◌∙◌, Bool, true, false, Option, none, some, List, [], ◌∷◌,
  ◌++◌, ◌>>=◌, ◌==◌, arith, >>=-eq-some, ==_refl, ◌≢◌, Bool-cases, inl, inr,
}
use mathlib.Core.Path.{subst}
use mathlib.Core.Option.{some-injective}
use mathlib.Core.List.{append_assoc, append-nil}
use arnel_lang.Prelude.Size.{size_mod, add_size, add_size-eq}
use arnel_lang.View.{View, content}
use arnel_lang.Ast.{
  BinOp, Ast, int_literal, binary, ident, decl_local, decl_assignment, Child, node,
}
use arnel_lang.Compiler.Locals.{Locals}
use arnel_lang.Compiler.Code.{Val, as_l, copy}
use arnel_lang.Compiler.State.{Comp, emit, push_temp, release}
use arnel_lang.Compiler.Expr.{comp_expr, finish_decl_assignment}
use arnel_lang.Compiler.Registers.{
  Registers, update, operand, exec, exec_line, exec-append, eval, eval_child, size, size_child,
}
use arnel_lang.Compiler.Computes.{temps_after}
use arnel_lang.Compiler.Meaning.{
  Env, Scoping, with_name, is_readable, is_readable_child, meaning, with_name_wider,
}
use arnel_lang.Compiler.Layout.{Laid, Stored, Stored-keeps, Valued, child-Valued}
use arnel_lang.Compiler.Leaves.{
  readable_operand, freed_temps, freed-output, freed-locals, declare_kept, Laid-declare,
  Stored-declare,
}
use arnel_lang.Compiler.Simulation.{Compiles, exec-Simulates, Laid-kept}

pub update_other : (regs : Registers) (k n i : ℕ) → i ≢ k → update regs k n i ≡ regs i
update_other regs k n i ne = elim (Bool-cases (i == k)) [
  | inl e ↦ let same : i ≡ k = ground arith in absurd (ne same)
  | inr e ↦ rw e refl
]

module _ (L : Locals) (symbols : List ℕ → Option (List ℕ)) (eval_op : BinOp → ℕ → ℕ → ℕ) (v : Val)
    (k : ℕ) where
  pub after_grows : k ≤ temps_after L symbols eval_op v k
  after_grows = ground arith

  pub after_busy : v.imm ≡ false → k + 1 ≤ temps_after L symbols eval_op v k
  after_busy e = ground arith

  pub after_bound : temps_after L symbols eval_op v k ≤ k + 1
  after_bound = ground arith

module _ (L : Locals) (symbols : List ℕ → Option (List ℕ)) (eval_op : BinOp → ℕ → ℕ → ℕ)
    (truth : ℕ → Bool) (rounds : ℕ) where
  meaning-readable :
      (scope : Scoping) (a : Ast) (env env' : Env)
      → is_readable scope a ≡ true
      → meaning eval_op truth rounds a env ≡ some env'
      → (n : ℕ) × (eval eval_op env a ≡ some n) × (env' ≡ env)
  unfolding meaning is_readable eval
  meaning-readable scope (int_literal n) env env' h e = (n, refl, sym (some-injective _ _ e))
  meaning-readable scope (ident name) env env' h e =
      let (n, value, last) = >>=-eq-some (eval eval_op env (ident name)) _ e in
      (n, value, sym (some-injective _ _ last))
  meaning-readable scope (binary op right left) env env' h e =
      let (n, value, last) = >>=-eq-some (eval eval_op env (binary op right left)) _ e in
      (n, value, sym (some-injective _ _ last))
  meaning-readable scope _ env env' h e = cc

  pub value-Compiles :
      (scope : Scoping) (a : Ast) (c : Comp L)
      → Laid L scope c
      → is_readable scope a ≡ true
      → c.temps_stack + size a + 2 < size_mod
      → Compiles L eval_op truth symbols true scope scope
          (size a + 1)
          (comp_expr L symbols a c)
          (meaning eval_op truth rounds a)
          c
  unfolding comp_expr is_readable size eval
  value-Compiles scope a c laid readable small =
      let (v, c', r) =
        child-Valued L symbols eval_op scope (node a) c laid readable (omega arith) in
      let grown : c.temps_stack ≤ c'.temps_stack =
        omega (arith, r.temps, after_grows L symbols eval_op v c.temps_stack) in
      (
        v,
        c',
        record {
          made = r.made;
          lines = r.lines;
          printed = r.printed;
          laid =
              Laid-kept L eval_op truth scope c c' laid (λ x h. ap (λ l. L.get l x) r.same) grown;
          kept = λ x h. ap (λ l. L.get l x) r.same;
          room = λ n h.
              subst (λ l. L.Room l n) (sym r.same)
                (L.room_less c.locals n (size a + 1 + n) (omega arith) h);
          wider = λ x h. h;
          grows = grown;
          busy = λ _ e. omega (arith, r.temps, after_busy L symbols eval_op v c.temps_stack e);
          bound = omega (arith, r.temps, after_bound L symbols eval_op v c.temps_stack);
          no_return = readable_operand L symbols eval_op scope a c v c' readable r.made;
          correct =
              exec-Simulates L eval_op truth r.lines scope c.locals scope c'.locals
                (meaning eval_op truth rounds a)
                (λ regs env env' stored value.
                  let (n, e, same) = meaning-readable scope a env env' readable value in
                  let (after, run, _, keeps) = r.computes env regs n stored e in
                  (
                    after,
                    run,
                    subst (λ l. Stored L scope env' l after) (sym r.same)
                        (subst (λ k. Stored L scope k c.locals after) (sym same)
                          (Stored-keeps L scope env c regs after laid stored keeps)),
                  ));
        },
      )

  finish_run :
      (x : View) (v : Val) (c' : Comp L) (l : L.Map)
      → (let freed = release L v c' in L.set freed.locals (content x) freed.temps_stack ≡ some l)
      → (let freed = release L v c' in
          finish_decl_assignment L symbols x v c'
          ≡ some (
            as_l freed.temps_stack,
            emit L (copy freed.temps_stack v) (record (push_temp L freed) { locals = l }),
          ))
  finish_run x v c' l e =
      let freed : Comp L = release L v c' in
      ap
        (λ o. o >>= λ k. some (
          as_l freed.temps_stack,
          emit L (copy freed.temps_stack v) (record (push_temp L freed) { locals = k }),
        ))
        e

  -- The lines of a value, and a copy of it
  pub copied :
      (scope : Scoping) (e : Child) (c : Comp L) (v : Val) (c' : Comp L) (at : ℕ)
      → (r : Valued L symbols eval_op scope e c v c') → (env : Env) (regs : Registers) (n : ℕ)
      → Stored L scope env c.locals regs
      → eval_child eval_op env e ≡ some n
      → (after : Registers) × (exec eval_op (r.lines ++ copy at v ∷ []) regs ≡ some after)
        × (after at ≡ n)
        × ((i : ℕ) → i < c.temps_stack → i ≢ at → after i ≡ regs i)
  unfolding exec exec_line
  copied scope e c v c' at r env regs n stored value =
      let (after, run, result, keeps) = r.computes env regs n stored value in
      (
        update after at (operand v after),
        exec-append eval_op r.lines (copy at v ∷ []) regs
            ∙ ap (λ o. o >>= exec eval_op (copy at v ∷ [])) run,
        rw (==_refl at) result,
        (λ i low ne. update_other after at (operand v after) i ne ∙ keeps i low),
      )

  pub local-Compiles :
      (scope : Scoping) (x : View) (c : Comp L)
      → Laid L scope c
      → content x ≢ []
      → L.Room c.locals 1
      → scope (content x) ≡ false
      → c.temps_stack + 2 < size_mod
      → Compiles L eval_op truth symbols true scope
          (with_name scope (content x))
          1
          (comp_expr L symbols (decl_local x) c)
          (meaning eval_op truth rounds (decl_local x))
          c
  unfolding comp_expr meaning exec
  local-Compiles scope x c laid filled room fresh small =
      let next : add_size c.temps_stack 1 ≡ c.temps_stack + 1 =
        add_size-eq c.temps_stack 1 (omega arith) in
      let (l, set_at) = L.set_some c.locals (content x) c.temps_stack filled room in
      let d : Comp L = record (push_temp L c) { locals = l } in
      (
        as_l d.temps_stack,
        d,
        record {
          made =
              ap (λ o. o >>= λ k. some (as_l d.temps_stack, record (push_temp L c) { locals = k }))
                set_at;
          lines = [];
          printed = sym (append-nil c.output);
          laid = Laid-declare L scope (content x) c d laid filled room fresh set_at next;
          kept = declare_kept L scope (content x) c d laid filled room fresh set_at next;
          room = λ n h.
              L.set-Room c.locals l (content x) c.temps_stack n filled set_at
                (subst (L.Room c.locals) (omega arith) h);
          wider = with_name_wider scope (content x);
          grows = omega arith;
          busy = λ _ e. omega arith;
          bound = omega arith;
          no_return = refl;
          correct =
              exec-Simulates L eval_op truth [] scope c.locals (with_name scope (content x))
                d.locals (meaning eval_op truth rounds (decl_local x))
                (λ regs env env' stored value. (
                  regs,
                  refl,
                  subst (λ k. Stored L (with_name scope (content x)) k d.locals regs)
                      (some-injective _ _ value)
                      (Stored-declare L scope (content x) c d laid filled room fresh set_at next env
                        none regs regs stored (λ i h. refl) (λ n e. cc)),
                ));
        },
      )

  pub declares-Compiles :
      (scope : Scoping) (x : View) (e : Child) (c : Comp L)
      → Laid L scope c
      → content x ≢ []
      → L.Room c.locals 1
      → scope (content x) ≡ false
      → is_readable_child scope e ≡ true
      → c.temps_stack + size_child e + 2 < size_mod
      → Compiles L eval_op truth symbols true scope
          (with_name scope (content x))
          (size_child e + 2)
          (comp_expr L symbols (decl_assignment x e) c)
          (meaning eval_op truth rounds (decl_assignment x e))
          c
  unfolding comp_expr meaning
  declares-Compiles scope x e c laid filled room fresh readable small =
      let (v, c', r) = child-Valued L symbols eval_op scope e c laid readable (omega arith) in
      let freed : Comp L = release L v c' in
      let t = freed_temps L symbols eval_op scope e c v c' r (omega arith) in
      let same = freed-locals L symbols eval_op scope e c v c' r in
      let (l, set_at) = L.set_some c.locals (content x) c.temps_stack filled room in
      let d : Comp L =
        emit L (copy freed.temps_stack v) (record (push_temp L freed) { locals = l }) in
      let next : d.temps_stack ≡ c.temps_stack + 1 =
        add_size-eq freed.temps_stack 1 (omega arith) ∙ ap (λ k. k + 1) t in
      let set_freed : L.set freed.locals (content x) freed.temps_stack ≡ some l =
        ap (λ k. L.set k (content x) freed.temps_stack) same
        ∙ ap (L.set c.locals (content x)) t
        ∙ set_at in
      (
        as_l freed.temps_stack,
        d,
        record {
          made =
              ap (λ o. o >>= λ q. finish_decl_assignment L symbols x q.0 q.1) r.made
              ∙ finish_run x v c' l set_freed;
          lines = r.lines ++ copy freed.temps_stack v ∷ [];
          printed =
              ap (λ o. o ++ copy freed.temps_stack v ∷ [])
                (freed-output L symbols eval_op scope e c v c' r)
              ∙ append_assoc c.output r.lines (copy freed.temps_stack v ∷ []);
          laid = Laid-declare L scope (content x) c d laid filled room fresh set_at next;
          kept = declare_kept L scope (content x) c d laid filled room fresh set_at next;
          room = λ n h.
              L.set-Room c.locals l (content x) c.temps_stack n filled set_at
                (L.room_less c.locals (n + 1) (size_child e + 2 + n) (omega arith) h);
          wider = with_name_wider scope (content x);
          grows = omega arith;
          busy = λ _ h. omega arith;
          bound = omega arith;
          no_return = refl;
          correct =
              exec-Simulates L eval_op truth (r.lines ++ copy freed.temps_stack v ∷ []) scope
                c.locals (with_name scope (content x)) d.locals
                (meaning eval_op truth rounds (decl_assignment x e))
                (λ regs env env' stored value.
                  let (n, en, last) = >>=-eq-some (eval_child eval_op env e) _ value in
                  let (after, run, result, keeps) =
                    copied scope e c v c' freed.temps_stack r env regs n stored en in
                  (
                    after,
                    run,
                    subst (λ k. Stored L (with_name scope (content x)) k d.locals after)
                        (some-injective _ _ last)
                        (Stored-declare L scope (content x) c d laid filled room fresh set_at next
                          env (some n) regs after stored
                          (λ i h. keeps i h (λ p. absurd (omega arith)))
                          (λ m q. sym (ap after t) ∙ result ∙ some-injective _ _ q)),
                  ));
        },
      )
