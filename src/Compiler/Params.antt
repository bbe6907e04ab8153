-- ===== src/Compiler/Params.antt =====
-- The nodes that declare a function's parameters, and nodes in a row.
use arnel_lang.Prelude.{
  ℕ, suc, ◌+◌, ◌<◌, ◌≡◌, ◌≢◌, refl, ◌∙◌, false, some, List, [], ◌∷◌, ◌++◌, length, map, arith,
}
use mathlib.Core.Option.{some-injective}
use mathlib.Core.Path.{subst}
use arnel_lang.Prelude.Size.{size_mod, add_size, add_size-eq}
use arnel_lang.View.{View, content}
use arnel_lang.Ast.{Ast, decl_local}
use arnel_lang.Parser.Result.{ok, ◌>>=◌, or_fault}
use arnel_lang.Compiler.Locals.{Locals}
use arnel_lang.Compiler.State.{Comp, push_temp}
use arnel_lang.Compiler.Expr.{comp_expr}
use arnel_lang.Compiler.Scope.{Scope, link_name}
use arnel_lang.Compiler.Unit.{comp_nodes}
use arnel_lang.Compiler.Registers.{Registers}
use arnel_lang.Compiler.Meaning.{Env, Scoping, assign, with_name}
use arnel_lang.Compiler.Layout.{Laid, Stored}
use arnel_lang.Compiler.Leaves.{Laid-declare, Stored-declare}

-- Names that are not in scope yet, and the scope with all of them.
pub data IsParams : Scoping → List View → Scoping → Type 0 where
  nothing : {scope : Scoping} → IsParams scope [] scope
  param :
      {scope after : Scoping} (x : View) (xs : List View)
      → content x ≢ []
      → scope (content x) ≡ false
      → IsParams (with_name scope (content x)) xs after
      → IsParams scope (x ∷ xs) after

-- The parameters' values are in the temporaries from the `k`th on.
unfoldable pub bind_params : List View → ℕ → Registers → Env → Env
bind_params [] k regs env = env
bind_params (x ∷ xs) k regs env =
    bind_params xs (k + 1) regs (assign env (content x) (some (regs k)))

module _ (L : Locals) (new_locals : L.Map) (symbols : Scope) where
  pub comp_nodes-append :
      (first second : List Ast) (c : Comp L)
      → comp_nodes L new_locals symbols (first ++ second) c
        ≡ (comp_nodes L new_locals symbols first c >>= comp_nodes L new_locals symbols second)
  unfolding comp_nodes
  comp_nodes-append [] second c = refl
  comp_nodes-append (a ∷ first) second c =
      elim (or_fault (comp_expr L (link_name symbols) a c))
        as (λ r. (r >>= λ q. comp_nodes L new_locals symbols (first ++ second) q.1) ≡ (
          (r >>= λ q. comp_nodes L new_locals symbols first q.1)
          >>= comp_nodes L new_locals symbols second)) [
            | ok q ↦ comp_nodes-append first second q.1
            | _ ↦ refl
          ]

  param-made :
      (x : View) (xs : List View) (c : Comp L) (l : L.Map)
      → L.set c.locals (content x) c.temps_stack ≡ some l
      → comp_nodes L new_locals symbols (map decl_local (x ∷ xs)) c
        ≡ comp_nodes L new_locals symbols
            (map decl_local xs)
            (record (push_temp L c) { locals = l })
  unfolding comp_nodes comp_expr
  param-made x xs c l e = rw e refl

  -- What the declarations of the parameters lead to
  pub record Bound (xs : List View) (scope after : Scoping) (c d : Comp L) : Type 0 where
    pub made : comp_nodes L new_locals symbols (map decl_local xs) c ≡ ok d
    pub printed : d.output ≡ c.output
    pub ids : d.ids ≡ c.ids
    pub temps : d.temps_stack ≡ c.temps_stack + length xs
    pub laid : Laid L after d
    pub room : (n : ℕ) → L.Room c.locals (length xs + n) → L.Room d.locals n
    pub stored :
        (env : Env) (regs : Registers)
        → Stored L scope env c.locals regs
        → Stored L after (bind_params xs c.temps_stack regs env) d.locals regs

  pub params-Bound :
      (xs : List View) (scope after : Scoping) (c : Comp L)
      → IsParams scope xs after
      → Laid L scope c
      → L.Room c.locals (length xs)
      → c.temps_stack + length xs < size_mod
      → (d : Comp L) × Bound xs scope after c d
  unfolding comp_nodes bind_params comp_expr
  params-Bound [] scope after c nothing laid space small = (
    c,
    record {
      made = refl;
      printed = refl;
      ids = refl;
      temps = omega arith;
      laid = laid;
      room = λ n h. L.room_less c.locals n (0 + n) (omega arith) h;
      stored = λ env regs h. h;
    },
  )
  params-Bound (x ∷ xs) scope after c (param y ys filled fresh others) laid space small =
      let one = L.room_less c.locals 1 (suc (length xs)) (omega arith) space in
      let (l, set_at) = L.set_some c.locals (content x) c.temps_stack filled one in
      let next : add_size c.temps_stack 1 ≡ c.temps_stack + 1 =
        add_size-eq c.temps_stack 1 (omega arith) in
      let e : Comp L = record (push_temp L c) { locals = l } in
      let laid' = Laid-declare L scope (content x) c e laid filled one fresh set_at next in
      let rest : (n : ℕ) → L.Room c.locals (suc (length xs) + n) → L.Room l (length xs + n) = λ n h.
        L.set-Room c.locals l (content x) c.temps_stack (length xs + n) filled set_at
          (L.room_less c.locals (length xs + n + 1) (suc (length xs) + n) (omega arith) h) in
      let first =
        L.set-Room c.locals l (content x) c.temps_stack (length xs) filled set_at
          (L.room_less c.locals (length xs + 1) (suc (length xs)) (omega arith) space) in
      let (d, r) =
        params-Bound xs (with_name scope (content x)) after e others laid' first (omega arith) in
      (
        d,
        record {
          made = param-made x xs c l set_at ∙ r.made;
          printed = r.printed;
          ids = r.ids;
          temps = omega (arith, r.temps);
          laid = r.laid;
          room = λ n h. r.room n (rest n h);
          stored = λ env regs h.
              subst
                (λ k.
                  Stored L after
                    (bind_params xs k regs (assign env (content x) (some (regs c.temps_stack))))
                    d.locals regs)
                next
                (r.stored (assign env (content x) (some (regs c.temps_stack))) regs (
                  Stored-declare L scope (content x) c e laid filled one fresh set_at next env
                    (some (regs c.temps_stack)) regs regs h (λ i k. refl)
                    (λ n p. some-injective _ _ p)));
        },
      )
