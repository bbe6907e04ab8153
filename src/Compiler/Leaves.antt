-- ===== src/Compiler/Leaves.antt =====
-- Statements without parts of their own: expressions, declarations and assignments.
use arnel_lang.Prelude.{
  ℕ, ◌+◌, ◌<◌, ◌≡◌, refl, sym, ap, ◌∙◌, true, false, Option, some, List, [], ◌++◌, arith,
  >>=-eq-some, ◌≢◌, inl, inr,
}
use mathlib.Core.Path.{subst}
use mathlib.Core.Option.{some-injective}
use arnel_lang.Prelude.Size.{size_mod, sub_size-eq}
use arnel_lang.View.{content}
use arnel_lang.Ast.{BinOp, Ast, int_literal, binary, ident, Child, absent, node}
use arnel_lang.Compiler.Locals.{Locals}
use arnel_lang.Compiler.Code.{Val}
use arnel_lang.Compiler.State.{Comp, release}
use arnel_lang.Compiler.Expr.{comp_expr, comp_child, is_ret}
use arnel_lang.Compiler.Registers.{Registers}
use arnel_lang.Compiler.Computes.{release-output, release-locals}
use arnel_lang.Compiler.Meaning.{
  Env, Scoping, assign, with_name, is_readable, is_readable_child, with_name_cases, assign_self,
  assign_ne, fresh_ne,
}
use arnel_lang.Compiler.Names.{name_discrete}
use arnel_lang.Compiler.Layout.{Laid, Stored, Valued}

module _ (L : Locals) (symbols : List ℕ → Option (List ℕ)) (eval_op : BinOp → ℕ → ℕ → ℕ) where
  -- The operand of an expression is no return's.
  pub readable_operand :
      (scope : Scoping) (a : Ast) (c : Comp L) (v : Val) (c' : Comp L)
      → is_readable scope a ≡ true
      → comp_expr L symbols a c ≡ some (v, c')
      → is_ret L symbols v ≡ false
  unfolding is_readable comp_expr
  readable_operand scope (int_literal n) c v c' h e =
      subst (λ r. is_ret L symbols r.0 ≡ false) (some-injective _ _ e) refl
  readable_operand scope (ident name) c v c' h e =
      let (arg, _, last) = >>=-eq-some (L.get c.locals (content name)) _ e in
      subst (λ r. is_ret L symbols r.0 ≡ false) (some-injective _ _ last) refl
  readable_operand scope (binary op right left) c v c' h e =
      let (r, _, rest) = >>=-eq-some (comp_child L symbols right c) _ e in
      let (q, _, last) = >>=-eq-some (comp_child L symbols left r.1) _ rest in
      subst (λ r. is_ret L symbols r.0 ≡ false) (some-injective _ _ last) refl
  readable_operand scope _ c v c' h e = cc

  pub readable_child_operand :
      (scope : Scoping) (a : Child) (c : Comp L) (v : Val) (c' : Comp L)
      → is_readable_child scope a ≡ true
      → comp_child L symbols a c ≡ some (v, c')
      → is_ret L symbols v ≡ false
  unfolding is_readable comp_expr
  readable_child_operand scope absent c v c' h e = cc
  readable_child_operand scope (node a) c v c' h e = readable_operand scope a c v c' h e

  -- The operand of an expression given back, as many temporaries are in use as before.
  pub freed_temps :
      (scope : Scoping) (e : Child) (c : Comp L) (v : Val) (c' : Comp L)
      → Valued L symbols eval_op scope e c v c'
      → c.temps_stack + 2 < size_mod
      → (release L v c').temps_stack ≡ c.temps_stack
  freed_temps scope e c v c' r small =
      let t = r.temps in ground (arith, sub_size-eq c'.temps_stack 1)

  pub freed-output :
      (scope : Scoping) (e : Child) (c : Comp L) (v : Val) (c' : Comp L)
      → (r : Valued L symbols eval_op scope e c v c')
      → (release L v c').output ≡ c.output ++ r.lines
  freed-output scope e c v c' r = release-output L symbols eval_op v c' ∙ r.printed

  pub freed-locals :
      (scope : Scoping) (e : Child) (c : Comp L) (v : Val) (c' : Comp L)
      → Valued L symbols eval_op scope e c v c'
      → (release L v c').locals ≡ c.locals
  freed-locals scope e c v c' r = release-locals L symbols eval_op v c' ∙ r.same

module _ (L : Locals) where
  -- A name that is declared gets the next temporary.
  module _ (scope : Scoping) (name : List ℕ) (c d : Comp L) (laid : Laid L scope c)
      (filled : name ≢ []) (room : L.Room c.locals 1) (fresh : scope name ≡ false)
      (same : L.set c.locals name c.temps_stack ≡ some d.locals)
      (next : d.temps_stack ≡ c.temps_stack + 1) where
    placed_here : (x : List ℕ) → x ≡ name → L.get d.locals x ≡ some c.temps_stack
    placed_here x p =
        ap (L.get d.locals) p ∙ L.get-set_self c.locals d.locals name c.temps_stack filled room same

    placed_before : (x : List ℕ) → scope x ≡ true → x ≢ name → L.get d.locals x ≡ L.get c.locals x
    placed_before x h ne =
        L.get-set_ne c.locals d.locals name c.temps_stack x filled room same (laid.solid x h) ne

    pub declare_kept : (x : List ℕ) → scope x ≡ true → L.get d.locals x ≡ L.get c.locals x
    declare_kept x h = placed_before x h (fresh_ne scope name x fresh h)

    declare_placed :
        (x : List ℕ)
        → with_name scope name x ≡ true
        → (a : ℕ) × (L.get d.locals x ≡ some a) × (a < d.temps_stack)
    declare_placed x h = elim (with_name_cases scope name x h) [
      | inl p ↦ (c.temps_stack, placed_here x p, omega arith)
      | inr (ne, k) ↦
          let (a, found, low) = laid.placed x k in (a, placed_before x k ne ∙ found, omega arith)
    ]

    old_below :
        (x : List ℕ) (a : ℕ)
        → x ≢ name
        → scope x ≡ true
        → L.get d.locals x ≡ some a
        → a < c.temps_stack
    old_below x a ne h e =
        let (b, found, low) = laid.placed x h in
        let same_place : b ≡ a = some-injective _ _ (sym found ∙ sym (placed_before x h ne) ∙ e) in
        omega arith

    new_at : (x : List ℕ) (a : ℕ) → x ≡ name → L.get d.locals x ≡ some a → a ≡ c.temps_stack
    new_at x a p e = some-injective _ _ (sym e ∙ placed_here x p)

    declare_apart :
        (x y : List ℕ) (a : ℕ)
        → with_name scope name x ≡ true
        → with_name scope name y ≡ true
        → L.get d.locals x ≡ some a
        → L.get d.locals y ≡ some a
        → x ≡ y
    declare_apart x y a h k e f = elim (with_name_cases scope name x h) [
      | inl p ↦ elim (with_name_cases scope name y k) [
        | inl q ↦ p ∙ sym q
        | inr (ne, j) ↦
            let low = old_below y a ne j f in let high = new_at x a p e in absurd (omega arith)
      ]
      | inr (ne, j) ↦ elim (with_name_cases scope name y k) [
        | inl q ↦
            let low = old_below x a ne j e in let high = new_at y a q f in absurd (omega arith)
        | inr (ne', j') ↦
            laid.apart x y a j j' (sym (placed_before x j ne) ∙ e)
              (sym (placed_before y j' ne') ∙ f)
      ]
    ]

    declare_solid : (x : List ℕ) → with_name scope name x ≡ true → x ≢ []
    declare_solid x h = elim (with_name_cases scope name x h) [
      | inl p ↦ λ e. filled (sym p ∙ e)
      | inr (ne, k) ↦ laid.solid x k
    ]

    pub Laid-declare : Laid L (with_name scope name) d
    Laid-declare = record { placed = declare_placed; solid = declare_solid; apart = declare_apart }

    pub Stored-declare :
        (env : Env) (v : Option ℕ) (regs after : Registers)
        → Stored L scope env c.locals regs
        → ((i : ℕ) → i < c.temps_stack → after i ≡ regs i)
        → ((n : ℕ) → v ≡ some n → after c.temps_stack ≡ n)
        → Stored L (with_name scope name) (assign env name v) d.locals after
    Stored-declare env v regs after stored keeps value x n a h e found =
        elim (with_name_cases scope name x h) [
          | inl p ↦ ap after (new_at x a p found) ∙ value n (sym (assign_self env name x v p) ∙ e)
          | inr (ne, j) ↦
              keeps a (old_below x a ne j found)
              ∙ stored x n a j (sym (assign_ne env name x v ne) ∙ e)
                  (sym (placed_before x j ne) ∙ found)
        ]

  -- A name that is assigned keeps its temporary.
  pub Stored-assign :
      (scope : Scoping) (name : List ℕ) (c : Comp L) (env : Env) (n at : ℕ) (regs after : Registers)
      → Laid L scope c
      → scope name ≡ true
      → L.get c.locals name ≡ some at
      → Stored L scope env c.locals regs
      → ((i : ℕ) → i < c.temps_stack → i ≢ at → after i ≡ regs i)
      → after at ≡ n
      → Stored L scope (assign env name (some n)) c.locals after
  Stored-assign scope name c env n at regs after laid inside here stored keeps value x m a h e
        found =
      elim (name_discrete x name) [
        | yes p ↦
            let same : a ≡ at = some-injective _ _ (sym found ∙ ap (L.get c.locals) p ∙ here) in
            ap after same ∙ value ∙ some-injective _ _ (sym (assign_self env name x (some n) p) ∙ e)
        | no p ↦
            let (b, found', low) = laid.placed x h in
            let same : b ≡ a = some-injective _ _ (sym found' ∙ found) in
            let other =
              λ (q : a ≡ at). p (laid.apart x name at h inside (found ∙ ap some q) here) in
            keeps a (omega arith) other
            ∙ stored x m a h (sym (assign_ne env name x (some n) p) ∙ e) found
      ]
