-- ===== src/Compiler/Alternatives.antt =====
-- The code of conditionals with two branches.
use arnel_lang.Prelude.{
  ℕ, ◌+◌, ◌<◌, ◌≡◌, refl, sym, ap, ◌∙◌, Bool, true, false, Option, some, List, [], ◌∷◌, ◌++◌, arith,
}
use mathlib.Core.List.{append_assoc}
use mathlib.Core.Path.{subst}
use arnel_lang.Prelude.Size.{size_mod, add_size-eq}
use arnel_lang.Ast.{BinOp, cond, block, Child, node, Nodes}
use arnel_lang.Compiler.Locals.{Locals}
use arnel_lang.Compiler.Code.{Val, as_l, Line, Label, iftr, iffl, out, label, jmp, jnz}
use arnel_lang.Compiler.State.{Comp, emit, push_temp, release, next_id}
use arnel_lang.Compiler.Expr.{comp_expr, comp_child, comp_else, is_ret, comp_block, copy_result}
use arnel_lang.Compiler.Registers.{eval_child, size_child}
use arnel_lang.Compiler.Meaning.{Scoping, is_readable_child, meaning, meaning_nodes}
use arnel_lang.Compiler.Layout.{Laid, child-Valued}
use arnel_lang.Compiler.Leaves.{freed_temps, freed-output, freed-locals}
use arnel_lang.Compiler.Branching.{alternative_lines, alternative-Simulates}
use arnel_lang.Compiler.Branches.{Compiled-Branch, Valued-Tests}
use arnel_lang.Compiler.Simulation.{Compiles, Simulates, Laid-kept}
use arnel_lang.Compiler.Conditionals.{printed_jump, BlockCompiles}

module _ (L : Locals) (symbols : List ℕ → Option (List ℕ)) (eval_op : BinOp → ℕ → ℕ → ℕ)
    (truth : ℕ → Bool) (rounds : ℕ) where
  else-made :
      (ms : Nodes) (d : Comp L) (i : Val) (end fl : Label) (j : Val) (e' : Comp L)
      → is_ret L symbols i ≡ false
      → comp_block L symbols ms (emit L (label fl) (emit L (jmp end) d)) ≡ some (j, e')
      → comp_else L symbols (node (block ms)) i end fl d
        ≡ some (
          as_l (copy_result L symbols j (release L j e')).temps_stack,
          push_temp L (emit L (label end) (copy_result L symbols j (release L j e'))),
        )
  unfolding comp_expr
  else-made ms d i end fl j e' no_return made = rw no_return (rw made refl)

  alternative-made :
      (test : Child) (ns ms : Nodes) (c : Comp L) (v : Val) (c₀ : Comp L) (i : Val) (c' : Comp L)
      (j : Val) (e' : Comp L)
      → comp_child L symbols test c ≡ some (v, c₀)
      → is_ret L symbols i ≡ false
      → (let c₁ = release L v c₀ in
          let c₂ = next_id L c₁ in
          let c₃ = next_id L c₂ in
          comp_block L symbols ns (
            emit L (label record { name = iftr; id = c₁.ids }) (
              emit L
                (jnz v record { name = iftr; id = c₁.ids } record { name = iffl; id = c₂.ids })
                (next_id L c₃)))
          ≡ some (i, c'))
      → (let c₂ = next_id L (release L v c₀) in
          let c₃ = next_id L c₂ in
          comp_block L symbols ms (
            emit L (label record { name = iffl; id = c₂.ids }) (
              emit L
                (jmp record { name = out; id = c₃.ids })
                (copy_result L symbols i (release L i c'))))
          ≡ some (j, e'))
      → (let c₃ = next_id L (next_id L (release L v c₀)) in
          let d =
            emit L
              (label record { name = out; id = c₃.ids })
              (copy_result L symbols j (release L j e')) in
          comp_expr L symbols (cond test (node (block ns)) (node (block ms))) c
          ≡ some (as_l d.temps_stack, push_temp L d))
  unfolding comp_expr
  alternative-made test ns ms c v c₀ i c' j e' tested no_return first second =
      rw (tested, first)
        (else-made ms (copy_result L symbols i (release L i c')) i
          record { name = out; id = (next_id L (next_id L (release L v c₀))).ids }
          record { name = iffl; id = (next_id L (release L v c₀)).ids } j e' no_return second)

  printed_branches :
      (o tl : List Line) (j k : Line) (bl₁ : List Line) (j' k' : Line) (bl₂ rest : List Line)
      → ((((((((o ++ tl) ++ j ∷ []) ++ k ∷ []) ++ bl₁) ++ j' ∷ []) ++ k' ∷ []) ++ bl₂) ++ rest)
        ≡ o ++ (tl ++ j ∷ k ∷ (bl₁ ++ (j' ∷ k' ∷ (bl₂ ++ rest))))
  printed_branches o tl j k bl₁ j' k' bl₂ rest =
      let front = ((o ++ tl) ++ j ∷ []) ++ k ∷ [] in
      let back = j' ∷ k' ∷ (bl₂ ++ rest) in
      printed_jump front bl₁ j' k' bl₂ rest
      ∙ sym (append_assoc front bl₁ back)
      ∙ printed_jump o tl j k bl₁ back

  pub alternative-Compiles :
      (scope : Scoping) (test : Child) (ns ms : Nodes) (w u : ℕ) (c : Comp L)
      → Laid L scope c
      → L.Room c.locals (size_child test + w + u + 3)
      → is_readable_child scope test ≡ true
      → BlockCompiles L symbols eval_op truth rounds true scope ns w
      → BlockCompiles L symbols eval_op truth rounds true scope ms u
      → c.temps_stack + (size_child test + w + u + 3) + 3 < size_mod
      → Compiles L eval_op truth symbols true scope scope
          (size_child test + w + u + 3)
          (comp_expr L symbols (cond test (node (block ns)) (node (block ms))) c)
          (meaning eval_op truth rounds (cond test (node (block ns)) (node (block ms))))
          c
  unfolding meaning
  alternative-Compiles scope test ns ms w u c laid room readable blocks₁ blocks₂ small =
      let m₁ = meaning_nodes eval_op truth rounds ns in
      let m₂ = meaning_nodes eval_op truth rounds ms in
      let (v, c₀, r) = child-Valued L symbols eval_op scope test c laid readable (omega arith) in
      let c₁ : Comp L = release L v c₀ in
      let c₂ : Comp L = next_id L c₁ in
      let c₃ : Comp L = next_id L c₂ in
      let tr : Label = record { name = iftr; id = c₁.ids } in
      let fl : Label = record { name = iffl; id = c₂.ids } in
      let end : Label = record { name = out; id = c₃.ids } in
      let c₅ : Comp L = emit L (label tr) (emit L (jnz v tr fl) (next_id L c₃)) in
      let t = freed_temps L symbols eval_op scope test c v c₀ r (omega arith) in
      let same : c₅.locals ≡ c.locals = freed-locals L symbols eval_op scope test c v c₀ r in
      let kept : (x : List ℕ) → scope x ≡ true → L.get c₅.locals x ≡ L.get c.locals x =
        λ x h. ap (λ l. L.get l x) same in
      let laid₅ = Laid-kept L eval_op truth scope c c₅ laid kept (omega arith) in
      let room₅ : (n : ℕ) → L.Room c.locals n → L.Room c₅.locals n =
        λ n h. subst (λ l. L.Room l n) (sym same) h in
      let total = size_child test + w + u + 3 in
      let roomy = room₅ (w + u) (L.room_less c.locals (w + u) total (omega arith) room) in
      let inner = L.room_less c₅.locals w (w + u) (omega arith) roomy in
      let (i, c', q) = blocks₁ c₅ laid₅ inner (omega arith) in
      let d : Comp L = copy_result L symbols i (release L i c') in
      let b₁ =
        Compiled-Branch L symbols eval_op truth scope w (comp_block L symbols ns c₅) m₁ c₅ i c'
          laid₅ (omega arith) q in
      let e : Comp L = emit L (label fl) (emit L (jmp end) d) in
      let laid_e = Laid-kept L eval_op truth scope c₅ e laid₅ b₁.kept b₁.grows in
      let (j, e', p) = blocks₂ e laid_e (b₁.room u roomy) (omega (arith, b₁.bound)) in
      let f : Comp L = copy_result L symbols j (release L j e') in
      let b₂ =
        Compiled-Branch L symbols eval_op truth scope u (comp_block L symbols ms e) m₂ e j e' laid_e
          (omega (arith, b₁.bound)) p in
      let last : Comp L = push_temp L (emit L (label end) f) in
      let next : last.temps_stack ≡ f.temps_stack + 1 =
        add_size-eq f.temps_stack 1 (omega (arith, b₁.bound, b₂.bound)) in
      let kept' : (x : List ℕ) → scope x ≡ true → L.get last.locals x ≡ L.get c.locals x =
        λ x h. b₂.kept x h ∙ b₁.kept x h ∙ kept x h in
      (
        as_l f.temps_stack,
        last,
        record {
          made = alternative-made test ns ms c v c₀ i c' j e' r.made q.no_return q.made p.made;
          lines = alternative_lines L eval_op truth r.lines v tr fl end b₁.lines b₂.lines [];
          printed =
              ap (λ o. o ++ label end ∷ []) b₂.printed
              ∙ ap (λ o. (((o ++ jmp end ∷ []) ++ label fl ∷ []) ++ b₂.lines) ++ label end ∷ [])
                  b₁.printed
              ∙ ap
                  (λ o.
                    ((((((o ++ jnz v tr fl ∷ []) ++ label tr ∷ []) ++ b₁.lines) ++ jmp end ∷ [])
                        ++ label fl ∷ [])
                      ++ b₂.lines)
                    ++ label end ∷ [])
                  (freed-output L symbols eval_op scope test c v c₀ r)
              ∙ printed_branches c.output r.lines (jnz v tr fl) (label tr) b₁.lines (jmp end)
                  (label fl) b₂.lines (label end ∷ []);
          laid =
              Laid-kept L eval_op truth scope c last laid kept' (omega (arith, b₁.grows, b₂.grows));
          kept = kept';
          room = λ n h. b₂.room n (
              b₁.room (u + n) (
                room₅ (w + (u + n))
                  (L.room_less c.locals (w + (u + n)) (total + n) (omega arith) h)));
          wider = λ x h. h;
          grows = omega (arith, b₁.grows, b₂.grows);
          busy = λ _ h. omega (arith, b₁.grows, b₂.grows);
          bound = omega (arith, b₁.bound, b₂.bound);
          no_return = refl;
          correct =
              alternative-Simulates L eval_op truth r.lines b₁.lines b₂.lines v tr fl end scope
                c.locals d.locals f.locals (λ env. eval_child eval_op env test) m₁ m₂
                (Valued-Tests L symbols eval_op truth scope test c v c₀ laid r)
                (λ x h. b₁.kept x h ∙ kept x h) b₂.kept
                (subst (λ l. Simulates L eval_op truth b₁.lines scope l scope d.locals m₁) same
                  b₁.correct)
                b₂.correct;
        },
      )
