-- ===== src/Compiler/Loops.antt =====
-- The code of loops. The temporary of a loop's test stays in use.
use arnel_lang.Prelude.{
  ℕ, ◌+◌, ◌<◌, ◌≤◌, ◌≡◌, refl, sym, ap, ◌∙◌, Bool, true, false, Option, some, List, [], ◌∷◌, ◌++◌,
  arith,
}
use mathlib.Core.List.{append_assoc}
use mathlib.Core.Path.{subst}
use arnel_lang.Prelude.Size.{size_mod}
use arnel_lang.Ast.{BinOp, while, block, Child, absent, node, Nodes}
use arnel_lang.Compiler.Locals.{Locals}
use arnel_lang.Compiler.Code.{Val, Line, Label, start, loop, breac, label, jmp, jnz}
use arnel_lang.Compiler.State.{Comp, emit, next_id}
use arnel_lang.Compiler.Expr.{comp_expr, comp_child, comp_block}
use arnel_lang.Compiler.Registers.{eval_child, size_child}
use arnel_lang.Compiler.Simple.{after_grows, after_busy, after_bound}
use arnel_lang.Compiler.Meaning.{Scoping, is_readable, is_readable_child, meaning, meaning_nodes}
use arnel_lang.Compiler.Layout.{Laid, child-Valued}
use arnel_lang.Compiler.Scoping.{is_held, held_taken}
use arnel_lang.Compiler.Sequence.{taken_busy}
use arnel_lang.Compiler.Looping.{loop_lines, loop-Simulates}
use arnel_lang.Compiler.Branches.{Valued-Tests}
use arnel_lang.Compiler.Simulation.{Compiles, Simulates, Laid-kept}
use arnel_lang.Compiler.Conditionals.{printed_jump, BlockCompiles}

module _ (L : Locals) (symbols : List ℕ → Option (List ℕ)) (eval_op : BinOp → ℕ → ℕ → ℕ)
    (truth : ℕ → Bool) (rounds : ℕ) where
  loop-made :
      (test : Child) (ns : Nodes) (c : Comp L) (v : Val) (c₀ : Comp L) (i : Val) (c' : Comp L)
      → comp_child L symbols test
          (emit L (label record { name = start; id = c.ids }) (next_id L (next_id L (next_id L c))))
        ≡ some (v, c₀)
      → (let c₁ = next_id L c in
          let inner : Label = record { name = loop; id = c₁.ids } in
          let end : Label = record { name = breac; id = (next_id L c₁).ids } in
          comp_block L symbols ns (emit L (label inner) (emit L (jnz v inner end) c₀))
          ≡ some (i, c'))
      → comp_expr L symbols (while test (node (block ns))) c
        ≡ some (
          i,
          emit L
              (label record { name = breac; id = (next_id L (next_id L c)).ids })
              (emit L (jmp record { name = start; id = c.ids }) c'),
        )
  unfolding comp_expr
  loop-made test ns c v c₀ i c' tested made = rw (tested, made) refl

  held_busy :
      (scope : Scoping) (e : Child) (c : Comp L) (v : Val) (d : Comp L)
      → is_held e ≡ true
      → is_readable_child scope e ≡ true
      → comp_child L symbols e c ≡ some (v, d)
      → v.imm ≡ false
  unfolding comp_expr is_readable
  held_busy scope absent c v d h readable e = cc
  held_busy scope (node a) c v d h readable e =
      taken_busy L symbols eval_op truth a c v d (held_taken scope a h readable) e

  printed_loop :
      (o : List Line) (h : Line) (tl : List Line) (j k : Line) (bl : List Line) (j' k' : Line)
      → (((((((o ++ h ∷ []) ++ tl) ++ j ∷ []) ++ k ∷ []) ++ bl) ++ j' ∷ []) ++ k' ∷ [])
        ≡ o ++ (h ∷ (tl ++ j ∷ k ∷ (bl ++ j' ∷ k' ∷ [])))
  printed_loop o h tl j k bl j' k' =
      append_assoc (((((o ++ h ∷ []) ++ tl) ++ j ∷ []) ++ k ∷ []) ++ bl) (j' ∷ []) (k' ∷ [])
      ∙ printed_jump (o ++ h ∷ []) tl j k bl (j' ∷ k' ∷ [])
      ∙ append_assoc o (h ∷ []) (tl ++ j ∷ k ∷ (bl ++ j' ∷ k' ∷ []))

  pub loop-Compiles :
      (solid : Bool) (scope : Scoping) (test : Child) (ns : Nodes) (w : ℕ) (c : Comp L)
      → Laid L scope c
      → L.Room c.locals (size_child test + w + 3)
      → is_readable_child scope test ≡ true
      → BlockCompiles L symbols eval_op truth rounds solid scope ns w
      → c.temps_stack + (size_child test + w + 3) + 3 < size_mod
      → Compiles L eval_op truth symbols
          (is_held test)
          scope
          scope
          (size_child test + w + 3)
          (comp_expr L symbols (while test (node (block ns))) c)
          (meaning eval_op truth rounds (while test (node (block ns))))
          c
  unfolding meaning
  loop-Compiles solid scope test ns w c laid room readable blocks small =
      let m = meaning_nodes eval_op truth rounds ns in
      let c₁ : Comp L = next_id L c in
      let c₂ : Comp L = next_id L c₁ in
      let top : Label = record { name = start; id = c.ids } in
      let inner : Label = record { name = loop; id = c₁.ids } in
      let end : Label = record { name = breac; id = c₂.ids } in
      let c₃ : Comp L = emit L (label top) (next_id L c₂) in
      let laid₃ = Laid-kept L eval_op truth scope c c₃ laid (λ x h. refl) (omega arith) in
      let (v, c₀, r) = child-Valued L symbols eval_op scope test c₃ laid₃ readable (omega arith) in
      let c₅ : Comp L = emit L (label inner) (emit L (jnz v inner end) c₀) in
      let low = after_grows L symbols eval_op v c.temps_stack in
      let high = after_bound L symbols eval_op v c.temps_stack in
      let kept : (x : List ℕ) → scope x ≡ true → L.get c₅.locals x ≡ L.get c.locals x =
        λ x h. ap (λ l. L.get l x) r.same in
      let laid₅ = Laid-kept L eval_op truth scope c c₅ laid kept (omega (arith, r.temps)) in
      let room₅ : (n : ℕ) → L.Room c.locals n → L.Room c₅.locals n =
        λ n h. subst (λ l. L.Room l n) (sym r.same) h in
      let roomy = room₅ w (L.room_less c.locals w (size_child test + w + 3) (omega arith) room) in
      let (i, c', q) = blocks c₅ laid₅ roomy (omega (arith, r.temps)) in
      let last : Comp L = emit L (label end) (emit L (jmp top) c') in
      let kept' : (x : List ℕ) → scope x ≡ true → L.get last.locals x ≡ L.get c.locals x =
        λ x h. q.kept x h ∙ kept x h in
      let grown : c.temps_stack ≤ last.temps_stack = omega (arith, q.grows, r.temps) in
      (
        i,
        last,
        record {
          made = loop-made test ns c v c₀ i c' r.made q.made;
          lines = label top ∷ loop_lines L eval_op truth r.lines v top inner end q.lines [];
          printed =
              ap (λ o. (o ++ jmp top ∷ []) ++ label end ∷ []) q.printed
              ∙ ap
                  (λ o.
                    ((((o ++ jnz v inner end ∷ []) ++ label inner ∷ []) ++ q.lines) ++ jmp top ∷ [])
                    ++ label end ∷ [])
                  r.printed
              ∙ printed_loop c.output (label top) r.lines (jnz v inner end) (label inner) q.lines
                  (jmp top) (label end);
          laid = Laid-kept L eval_op truth scope c last laid kept' grown;
          kept = kept';
          room = λ n h. q.room n (
              room₅ (w + n)
                (L.room_less c.locals (w + n) (size_child test + w + 3 + n) (omega arith) h));
          wider = λ x h. h;
          grows = grown;
          busy = λ e h. omega (
            arith,
            r.temps,
            q.grows,
            after_busy L symbols eval_op v c.temps_stack
                (held_busy scope test c₃ v c₀ e readable r.made),
          );
          bound = omega (arith, q.bound, r.temps);
          no_return = q.no_return;
          correct =
              loop-Simulates L eval_op truth rounds r.lines q.lines v top inner end scope c.locals
                c'.locals (λ env. eval_child eval_op env test) m
                (Valued-Tests L symbols eval_op truth scope test c₃ v c₀ laid₃ r) kept'
                (subst (λ l. Simulates L eval_op truth q.lines scope l scope c'.locals m) r.same
                  q.correct);
        },
      )
