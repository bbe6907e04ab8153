-- ===== src/Compiler/Finishes.antt =====
-- The end of the code of an operation, an assignment, a return, a call and a conditional prints no
-- label.
use arnel_lang.Prelude.{ℕ, ◌+◌, ◌≡◌, refl, sym, Option, none, some, List, ◌>>=◌, >>=-eq-some, arith}
use mathlib.Core.Path.{subst}
use mathlib.Core.Option.{some-injective}
use arnel_lang.View.{View, content}
use arnel_lang.Ast.{BinOp, Nodes}
use arnel_lang.Compiler.Locals.{Locals}
use arnel_lang.Compiler.Code.{
  Val, as_l, literal, Label, start, loop, breac, iftr, iffl, out, Line, operation, copy, return,
  label, jnz, jmp,
}
use arnel_lang.Compiler.Code as Code
use arnel_lang.Compiler.State.{Comp, emit, push_temp, release}
use arnel_lang.Compiler.Expr.{
  comp_args, finish_binary, finish_assignment, finish_decl_assignment, finish_ret,
}
use arnel_lang.Compiler.Jumps.{find}
use arnel_lang.Compiler.Numbering.{
  Grows, same-Grows, Grows-trans, Grows-lower, quiet-Grows, copy-Grows, release-Grows, Grows-step,
}

module _ (L : Locals) (symbols : List ℕ → Option (List ℕ)) where
  pub ended :
      {A : Type 0} (base n : ℕ) (c : Comp L) (x r : A × Comp L)
      → some x ≡ some r
      → Grows L base n c x.1
      → Grows L base n c r.1
  ended base n c x r e g = subst (λ q. Grows L base n c q.1) (some-injective _ _ e) g

  -- The call's line, behind its arguments
  pub call-Grows :
      (found : Option (List ℕ)) (args : Nodes) (n : ℕ) (c : Comp L) (r : Val × Comp L)
      → (elim found as (λ _. Option (Val × Comp L)) [
        | none ↦ none
        | some sym ↦ comp_args L symbols args c >>= λ q.
            let d = q.1 in
            some (as_l d.temps_stack, push_temp L (emit L (Code.call d.temps_stack sym q.0) d))
      ])
        ≡ some r
      → ((q : List Val × Comp L) → comp_args L symbols args c ≡ some q → Grows L c.ids n c q.1)
      → Grows L c.ids n c r.1
  unfolding find
  call-Grows none args n c r e grown = cc
  call-Grows (some sym) args n c r e grown =
      let ((vs, d), first, last) = >>=-eq-some (comp_args L symbols args c) _ e in
      let g = grown (vs, d) first in
      let f : Comp L = emit L (Code.call d.temps_stack sym vs) d in
      let h =
        Grows-step L c.ids n c d f g (
          quiet-Grows L c.ids d (Code.call d.temps_stack sym vs) g.sound (λ l p. cc) (λ l. refl)) in
      ended c.ids n c (as_l d.temps_stack, push_temp L f) r last
        (Grows-step L c.ids n c f (push_temp L f) h
          (same-Grows L c.ids f (push_temp L f) h.sound refl refl))

  module _ (base n : ℕ) (c d : Comp L) (g : Grows L base n c d) (v : Val) (r : Val × Comp L) where
    pub finish_binary-Grows :
        (op : BinOp) (u : Val) → finish_binary L symbols op v u d ≡ some r → Grows L base n c r.1
    unfolding find
    finish_binary-Grows op u e =
        let d₁ : Comp L = release L v d in
        let g₁ = Grows-step L base n c d d₁ g (release-Grows L base v d g.sound) in
        let d₂ : Comp L = release L u d₁ in
        let g₂ = Grows-step L base n c d₁ d₂ g₁ (release-Grows L base u d₁ g₁.sound) in
        let line = operation d₂.temps_stack op u v in
        let d₃ : Comp L = emit L line d₂ in
        let g₃ =
          Grows-step L base n c d₂ d₃ g₂
            (quiet-Grows L base d₂ line g₂.sound (λ l p. cc) (λ l. refl)) in
        ended base n c (as_l d₂.temps_stack, push_temp L d₃) r e
          (Grows-step L base n c d₃ (push_temp L d₃) g₃
            (same-Grows L base d₃ (push_temp L d₃) g₃.sound refl refl))

    pub finish_assignment-Grows :
        (at : ℕ) → finish_assignment L symbols at v d ≡ some r → Grows L base n c r.1
    finish_assignment-Grows at e =
        let f : Comp L = emit L (copy at v) d in
        let k = Grows-step L base n c d f g (copy-Grows L base at v d g.sound) in
        ended base n c (as_l at, release L v f) r e
          (Grows-step L base n c f (release L v f) k (release-Grows L base v f k.sound))

    pub finish_decl_assignment-Grows :
        (name : View) → finish_decl_assignment L symbols name v d ≡ some r → Grows L base n c r.1
    finish_decl_assignment-Grows name e =
        let f : Comp L = release L v d in
        let (l, _, last) = >>=-eq-some (L.set f.locals (content name) f.temps_stack) _ e in
        let h = Grows-step L base n c d f g (release-Grows L base v d g.sound) in
        let p : Comp L = record (push_temp L f) { locals = l } in
        let k = Grows-step L base n c f p h (same-Grows L base f p h.sound refl refl) in
        ended base n c (as_l f.temps_stack, emit L (copy f.temps_stack v) p) r last
          (Grows-step L base n c p (emit L (copy f.temps_stack v) p) k
            (copy-Grows L base f.temps_stack v p k.sound))

    pub finish_ret-Grows : finish_ret L symbols v d ≡ some r → Grows L base n c r.1
    unfolding find
    finish_ret-Grows e =
        let f : Comp L = emit L (return v) d in
        let k =
          Grows-step L base n c d f g
            (quiet-Grows L base d (return v) g.sound (λ l p. cc) (λ l. refl)) in
        let p : Comp L = record f { temps_stack = 0 } in
        ended base n c (Code.ret_val, p) r e
          (Grows-step L base n c f p k (same-Grows L base f p k.sound refl refl))

  -- The test, the jump with three numbers, the first branch and the rest
  pub four-Grows :
      (k m n : ℕ) (c c₁ c₂ c₃ d : Comp L)
      → Grows L c.ids k c c₁
      → Grows L c.ids 3 c₁ c₂
      → Grows L c₂.ids m c₂ c₃
      → Grows L c.ids n c₃ d
      → Grows L c.ids (k + m + n + 3) c d
  four-Grows k m n c c₁ c₂ c₃ d test jump first second =
      let front = Grows-trans L c.ids k 3 c c₁ c₂ test jump in
      let middle =
        Grows-trans L c.ids (k + 3) m c c₂ c₃ front
          (Grows-lower L c₂.ids c.ids m m c₂ c₃ front.ids (omega arith) first) in
      Grows-lower L c.ids c.ids (k + 3 + m + n) (k + m + n + 3) c d (omega arith) (omega arith)
        (Grows-trans L c.ids (k + 3 + m) n c c₃ d middle second)
