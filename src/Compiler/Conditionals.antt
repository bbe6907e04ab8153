-- ===== src/Compiler/Conditionals.antt =====
-- The code of conditionals.
use arnel_lang.Prelude.{
  ℕ, ◌+◌, ◌<◌, ◌≡◌, refl, sym, ap, ◌∙◌, Bool, true, Option, some, List, [], ◌∷◌, ◌++◌, arith,
}
use mathlib.Core.List.{append_assoc}
use mathlib.Core.Path.{subst}
use arnel_lang.Prelude.Size.{size_mod, add_size-eq}
use arnel_lang.Ast.{BinOp, cond, block, Child, absent, node, Nodes}
use arnel_lang.Compiler.Locals.{Locals}
use arnel_lang.Compiler.Code.{Val, as_l, Line, Label, iftr, out, label, jnz}
use arnel_lang.Compiler.State.{Comp, emit, push_temp, release, next_id}
use arnel_lang.Compiler.Expr.{comp_expr, comp_child, comp_block, copy_result}
use arnel_lang.Compiler.Registers.{eval_child, size_child}
use arnel_lang.Compiler.Meaning.{Scoping, is_readable_child, meaning, meaning_nodes}
use arnel_lang.Compiler.Layout.{Laid, child-Valued}
use arnel_lang.Compiler.Leaves.{freed_temps, freed-output, freed-locals}
use arnel_lang.Compiler.Branching.{branch_lines, conditional-Simulates}
use arnel_lang.Compiler.Branches.{Compiled-Branch, Valued-Tests}
use arnel_lang.Compiler.Simulation.{Compiles, Simulates, Laid-kept}

-- Lines printed one behind the other.
pub printed_jump :
    (o tl : List Line) (j k : Line) (bl rest : List Line)
    → ((((o ++ tl) ++ j ∷ []) ++ k ∷ []) ++ bl) ++ rest ≡ o ++ (tl ++ j ∷ k ∷ (bl ++ rest))
printed_jump o tl j k bl rest =
    append_assoc (((o ++ tl) ++ j ∷ []) ++ k ∷ []) bl rest
    ∙ append_assoc ((o ++ tl) ++ j ∷ []) (k ∷ []) (bl ++ rest)
    ∙ append_assoc (o ++ tl) (j ∷ []) (k ∷ (bl ++ rest))
    ∙ append_assoc o tl (j ∷ k ∷ (bl ++ rest))

module _ (L : Locals) (symbols : List ℕ → Option (List ℕ)) (eval_op : BinOp → ℕ → ℕ → ℕ)
    (truth : ℕ → Bool) (rounds : ℕ) where
  -- Code generation for the nodes of a block, from any state with the names in scope laid out.
  abbrev pub BlockCompiles : Bool → Scoping → Nodes → ℕ → Type 0
  BlockCompiles solid scope ns w =
      (c : Comp L)
      → Laid L scope c
      → L.Room c.locals w
      → c.temps_stack + w + 3 < size_mod
      → Compiles L eval_op truth symbols solid scope scope w (comp_block L symbols ns c)
          (meaning_nodes eval_op truth rounds ns) c

  conditional-made :
      (test : Child) (ns : Nodes) (c : Comp L) (v : Val) (c₀ : Comp L) (i : Val) (c' : Comp L)
      → comp_child L symbols test c ≡ some (v, c₀)
      → (let c₁ = release L v c₀ in
          let c₂ = next_id L c₁ in
          let c₃ = next_id L c₂ in
          comp_block L symbols ns (
            emit L (label record { name = iftr; id = c₁.ids }) (
              emit L
                (jnz v record { name = iftr; id = c₁.ids } record { name = out; id = c₃.ids })
                (next_id L c₃)))
          ≡ some (i, c'))
      → (let c₁ = release L v c₀ in
          let c₃ = next_id L (next_id L c₁) in
          let d =
            emit L
              (label record { name = out; id = c₃.ids })
              (copy_result L symbols i (release L i c')) in
          comp_expr L symbols (cond test (node (block ns)) absent) c
          ≡ some (as_l d.temps_stack, push_temp L d))
  unfolding comp_expr
  conditional-made test ns c v c₀ i c' tested blocked = rw (tested, blocked) refl

  pub conditional-Compiles :
      (scope : Scoping) (test : Child) (ns : Nodes) (w : ℕ) (c : Comp L)
      → Laid L scope c
      → L.Room c.locals (size_child test + w + 3)
      → is_readable_child scope test ≡ true
      → BlockCompiles true scope ns w
      → c.temps_stack + (size_child test + w + 3) + 3 < size_mod
      → Compiles L eval_op truth symbols true scope scope
          (size_child test + w + 3)
          (comp_expr L symbols (cond test (node (block ns)) absent) c)
          (meaning eval_op truth rounds (cond test (node (block ns)) absent))
          c
  unfolding meaning
  conditional-Compiles scope test ns w c laid room readable blocks small =
      let (v, c₀, r) = child-Valued L symbols eval_op scope test c laid readable (omega arith) in
      let c₁ : Comp L = release L v c₀ in
      let c₃ : Comp L = next_id L (next_id L c₁) in
      let tr : Label = record { name = iftr; id = c₁.ids } in
      let end : Label = record { name = out; id = c₃.ids } in
      let c₅ : Comp L = emit L (label tr) (emit L (jnz v tr end) (next_id L c₃)) in
      let t = freed_temps L symbols eval_op scope test c v c₀ r (omega arith) in
      let same : c₅.locals ≡ c.locals = freed-locals L symbols eval_op scope test c v c₀ r in
      let kept : (x : List ℕ) → scope x ≡ true → L.get c₅.locals x ≡ L.get c.locals x =
        λ x h. ap (λ l. L.get l x) same in
      let laid₅ = Laid-kept L eval_op truth scope c c₅ laid kept (omega arith) in
      let room₅ : (n : ℕ) → L.Room c.locals n → L.Room c₅.locals n =
        λ n h. subst (λ l. L.Room l n) (sym same) h in
      let inner = room₅ w (L.room_less c.locals w (size_child test + w + 3) (omega arith) room) in
      let (i, c', q) = blocks c₅ laid₅ inner (omega arith) in
      let d : Comp L = copy_result L symbols i (release L i c') in
      let b =
        Compiled-Branch L symbols eval_op truth scope w (comp_block L symbols ns c₅)
          (meaning_nodes eval_op truth rounds ns) c₅ i c' laid₅ (omega arith) q in
      let last : Comp L = push_temp L (emit L (label end) d) in
      let next : last.temps_stack ≡ d.temps_stack + 1 =
        add_size-eq d.temps_stack 1 (omega (arith, b.bound)) in
      let kept' : (x : List ℕ) → scope x ≡ true → L.get last.locals x ≡ L.get c.locals x =
        λ x h. b.kept x h ∙ kept x h in
      (
        as_l d.temps_stack,
        last,
        record {
          made = conditional-made test ns c v c₀ i c' r.made q.made;
          lines = branch_lines L eval_op truth r.lines v tr end b.lines (label end ∷ []);
          printed =
              ap (λ o. o ++ label end ∷ []) b.printed
              ∙ ap (λ o. (((o ++ jnz v tr end ∷ []) ++ label tr ∷ []) ++ b.lines) ++ label end ∷ [])
                  (freed-output L symbols eval_op scope test c v c₀ r)
              ∙ printed_jump c.output r.lines (jnz v tr end) (label tr) b.lines (label end ∷ []);
          laid = Laid-kept L eval_op truth scope c last laid kept' (omega (arith, b.grows));
          kept = kept';
          room = λ n h. b.room n (
              room₅ (w + n)
                (L.room_less c.locals (w + n) (size_child test + w + 3 + n) (omega arith) h));
          wider = λ x h. h;
          grows = omega (arith, b.grows);
          busy = λ _ h. omega (arith, b.grows);
          bound = omega (arith, b.bound);
          no_return = refl;
          correct =
              conditional-Simulates L eval_op truth r.lines b.lines v tr end scope c.locals d.locals
                (λ env. eval_child eval_op env test) (meaning_nodes eval_op truth rounds ns)
                (Valued-Tests L symbols eval_op truth scope test c v c₀ laid r) kept'
                (subst
                  (λ l.
                    Simulates L eval_op truth b.lines scope l scope d.locals
                      (meaning_nodes eval_op truth rounds ns))
                  same b.correct);
        },
      )
