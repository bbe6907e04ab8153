-- ===== src/Compiler/Sequence.antt =====
-- The code of one node behind another.
use arnel_lang.Prelude.{
  ℕ, ◌+◌, ◌-◌, ◌<◌, ◌≡◌, refl, ap, ◌∙◌, Bool, true, false, Option, some, List, ◌++◌, ◌>>=◌,
  >>=-eq-some, arith,
}
use mathlib.Core.List.{append_assoc}
use mathlib.Core.Path.{subst}
use mathlib.Core.Option.{some-injective}
use arnel_lang.Prelude.Size.{size_mod, sub_size, sub_size-eq}
use arnel_lang.Ast.{BinOp, Ast, ret, ident, binary, assignment, Child}
use arnel_lang.View.{content}
use arnel_lang.Compiler.Locals.{Locals}
use arnel_lang.Compiler.Code.{Val, as_l, literal, ret_val, return}
use arnel_lang.Compiler.State.{Comp, emit, push_temp, pop_temp}
use arnel_lang.Compiler.Expr.{comp_expr, comp_child, comp_target, finish_ret}
use arnel_lang.Compiler.Meaning.{Env, Scoping}
use arnel_lang.Compiler.Scoping.{is_taken}
use arnel_lang.Compiler.Layout.{Laid}
use arnel_lang.Compiler.Simulation.{Compiled, Simulates-append, Stored-narrow, Laid-kept}

module _ (L : Locals) (symbols : List ℕ → Option (List ℕ)) (eval_op : BinOp → ℕ → ℕ → ℕ)
    (truth : ℕ → Bool) where
  pub ret-made :
      (e : Child) (c : Comp L) (v : Val) (d : Comp L)
      → comp_child L symbols e c ≡ some (v, d)
      → comp_expr L symbols (ret e) c
        ≡ some (ret_val, record (emit L (return v) d) { temps_stack = 0 })
  unfolding comp_expr
  ret-made e c v d h = ap (λ o. o >>= λ r. finish_ret L symbols r.0 r.1) h

  -- The value of a node that is voided is in a temporary.
  pub taken_busy :
      (a : Ast) (c : Comp L) (v : Val) (c' : Comp L)
      → is_taken a ≡ true
      → comp_expr L symbols a c ≡ some (v, c')
      → v.imm ≡ false
  unfolding comp_expr
  taken_busy (ident name) c v c' h e =
      let (_, _, last) = >>=-eq-some (L.get c.locals (content name)) _ e in
      subst (λ r. r.0.imm ≡ false) (some-injective _ _ last) refl
  taken_busy (binary op right left) c v c' h e =
      let (r, _, rest) = >>=-eq-some (comp_child L symbols right c) _ e in
      let (_, _, last) = >>=-eq-some (comp_child L symbols left r.1) _ rest in
      subst (λ r. r.0.imm ≡ false) (some-injective _ _ last) refl
  taken_busy (assignment target value) c v c' h e =
      let (_, _, rest) = >>=-eq-some (comp_target L symbols target (push_temp L c)) _ e in
      let (_, _, last) = >>=-eq-some (comp_child L symbols value (push_temp L c)) _ rest in
      subst (λ r. r.0.imm ≡ false) (some-injective _ _ last) refl
  taken_busy _ c v c' h e = cc

  -- Behind a node that voids it, the value's temporary is free again; no operand is left.
  pub voided-Compiled :
      (scope : Scoping) (w : ℕ) (result : Option (Val × Comp L)) (m : Env → Option Env) (c : Comp L)
      (v : Val) (c' : Comp L)
      → Laid L scope c
      → v.imm ≡ false
      → c.temps_stack + w < size_mod
      → Compiled L eval_op truth symbols true scope scope w result m c v c'
      → Compiled L eval_op truth symbols true scope scope w
          (some (literal 0, pop_temp L c'))
          m
          c
          (literal 0)
          (pop_temp L c')
  voided-Compiled scope w result m c v c' laid taken small r =
      let b = r.busy refl taken in
      let s : sub_size c'.temps_stack 1 ≡ c'.temps_stack - 1 =
        sub_size-eq c'.temps_stack 1 (omega arith) (omega (arith, r.bound)) in
      record {
        made = refl;
        lines = r.lines;
        printed = r.printed;
        laid = Laid-kept L eval_op truth scope c (pop_temp L c') laid r.kept (omega arith);
        kept = r.kept;
        room = r.room;
        wider = r.wider;
        grows = omega arith;
        busy = λ _ h. cc;
        bound = omega (arith, r.bound);
        no_return = refl;
        correct = r.correct;
      }

  pub append-Compiled :
      (solid solid' : Bool) (s₀ s₁ s₂ : Scoping) (w u : ℕ)
      (first second result : Option (Val × Comp L)) (m₁ m₂ : Env → Option Env) (c : Comp L)
      (v : Val) (d : Comp L) (v' : Val) (d' : Comp L)
      → Compiled L eval_op truth symbols solid s₀ s₁ w first m₁ c v d
      → Compiled L eval_op truth symbols solid' s₁ s₂ u second m₂ d v' d'
      → result ≡ some (v', d')
      → Compiled L eval_op truth symbols solid' s₀ s₂ (w + u) result (λ env. m₁ env >>= m₂) c v' d'
  append-Compiled solid solid' s₀ s₁ s₂ w u first second result m₁ m₂ c v d v' d' r q made =
      record {
        made = made;
        lines = r.lines ++ q.lines;
        printed =
            q.printed ∙ ap (λ o. o ++ q.lines) r.printed ∙ append_assoc c.output r.lines q.lines;
        laid = q.laid;
        kept = λ x h. q.kept x (r.wider x h) ∙ r.kept x h;
        room = λ n h. q.room n (r.room (u + n) (subst (L.Room c.locals) (omega arith) h));
        wider = λ x h. q.wider x (r.wider x h);
        grows = omega (arith, r.grows, q.grows);
        busy = λ e h. let b = q.busy e h in omega (arith, r.grows);
        bound = omega (arith, r.bound, q.bound);
        no_return = q.no_return;
        correct =
            Simulates-append L eval_op truth r.lines q.lines s₀ c.locals s₁ d.locals s₂ d'.locals m₁
              m₂ r.correct q.correct;
      }

  -- What a node declares goes out of scope.
  pub narrow-Compiled :
      (solid solid' : Bool) (scope after : Scoping) (w : ℕ) (result : Option (Val × Comp L))
      (m m' : Env → Option Env) (c : Comp L) (v : Val) (d : Comp L)
      → Laid L scope c
      → ((env env' : Env) → m' env ≡ some env' → m env ≡ some env')
      → (solid' ≡ true → solid ≡ true)
      → Compiled L eval_op truth symbols solid scope after w result m c v d
      → Compiled L eval_op truth symbols solid' scope scope w result m' c v d
  narrow-Compiled solid solid' scope after w result m m' c v d laid same as_solid r = record {
    made = r.made;
    lines = r.lines;
    printed = r.printed;
    laid = Laid-kept L eval_op truth scope c d laid r.kept r.grows;
    kept = r.kept;
    room = r.room;
    wider = λ x h. h;
    grows = r.grows;
    busy = λ e h. r.busy (as_solid e) h;
    bound = r.bound;
    no_return = r.no_return;
    correct = λ code rest regs env env' labelled ends stored value.
        let (last, run, stored') =
          r.correct code rest regs env env' labelled ends stored (same env env' value) in
        (
          last,
          run,
          Stored-narrow L eval_op truth scope after env' d.locals d.locals last r.wider
              (λ x h. refl) stored',
        );
  }

  -- Solid code may stand for code of which that is not known.
  pub weak-Compiled :
      (solid : Bool) (scope after : Scoping) (w : ℕ) (result : Option (Val × Comp L))
      (m : Env → Option Env) (c : Comp L) (v : Val) (d : Comp L)
      → Compiled L eval_op truth symbols true scope after w result m c v d
      → Compiled L eval_op truth symbols solid scope after w result m c v d
  weak-Compiled solid scope after w result m c v d r = record {
    made = r.made;
    lines = r.lines;
    printed = r.printed;
    laid = r.laid;
    kept = r.kept;
    room = r.room;
    wider = r.wider;
    grows = r.grows;
    busy = λ e h. r.busy refl h;
    bound = r.bound;
    no_return = r.no_return;
    correct = r.correct;
  }

  -- Behind a node that voids it, the block's operand is not in use any more.
  pub ended-Compiled :
      (scope : Scoping) (w : ℕ) (result : Option (Val × Comp L)) (m : Env → Option Env) (c : Comp L)
      (d : Comp L)
      → Compiled L eval_op truth symbols true scope scope w
          (some (literal 0, pop_temp L d))
          m
          c
          (literal 0)
          (pop_temp L d)
      → result ≡ some (as_l d.temps_stack, pop_temp L d)
      → Compiled L eval_op truth symbols false scope scope w result m c
          (as_l d.temps_stack)
          (pop_temp L d)
  ended-Compiled scope w result m c d r made = record {
    made = made;
    lines = r.lines;
    printed = r.printed;
    laid = r.laid;
    kept = r.kept;
    room = r.room;
    wider = r.wider;
    grows = r.grows;
    busy = λ e h. cc;
    bound = r.bound;
    no_return = refl;
    correct = r.correct;
  }

  pub bind_some :
      (m : Env → Option Env) (env env' : Env) → (m env >>= some) ≡ some env' → m env ≡ some env'
  bind_some m env env' e = let (env₁, first, last) = >>=-eq-some (m env) some e in first ∙ last
