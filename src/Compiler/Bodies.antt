-- ===== src/Compiler/Bodies.antt =====
-- The code of a node that keeps to its scope, by induction on the node.
use arnel_lang.Prelude.{
  ℕ, ◌+◌, ◌<◌, ◌≡◌, ap, ◌∙◌, Bool, true, false, Option, some, List, ◌>>=◌, arith,
}
use mathlib.Core.Path.{subst}
use arnel_lang.Prelude.Size.{size_mod}
use arnel_lang.Ast.{BinOp, Ast, Child, node, Nodes, nil, cons, expr_to_void}
use arnel_lang.Compiler.Locals.{Locals}
use arnel_lang.Compiler.Code.{Val, as_l, literal}
use arnel_lang.Compiler.State.{Comp, pop_temp}
use arnel_lang.Compiler.Expr.{comp_expr, comp_block}
use arnel_lang.Compiler.Registers.{size_child}
use arnel_lang.Compiler.Meaning.{Scoping, meaning, meaning_nodes}
use arnel_lang.Compiler.Scoping.{
  IsNode, value, assigns, declares, local, conditional, alternative, loops, IsBlock, last, ended,
  next, voided, is_taken, is_solid, taken_solid,
}
use arnel_lang.Compiler.Layout.{Laid}
use arnel_lang.Compiler.Simple.{value-Compiles, local-Compiles, declares-Compiles}
use arnel_lang.Compiler.Assigns.{assigns-Compiles}
use arnel_lang.Compiler.Conditionals.{conditional-Compiles}
use arnel_lang.Compiler.Alternatives.{alternative-Compiles}
use arnel_lang.Compiler.Loops.{loop-Compiles}
use arnel_lang.Compiler.Sequence.{
  taken_busy, voided-Compiled, append-Compiled, narrow-Compiled, weak-Compiled, ended-Compiled,
  bind_some,
}
use arnel_lang.Compiler.Simulation.{Compiled, Compiles}

module _ (L : Locals) (symbols : List ℕ → Option (List ℕ)) (eval_op : BinOp → ℕ → ℕ → ℕ)
    (truth : ℕ → Bool) (rounds : ℕ) where
  next-made :
      (a : Ast) (b : Child) (rest : Nodes) (c : Comp L) (v : Val) (d : Comp L)
      (r : Option (Val × Comp L))
      → comp_expr L symbols a c ≡ some (v, d)
      → comp_block L symbols (cons b rest) d ≡ r
      → comp_block L symbols (cons (node a) (cons b rest)) c ≡ r
  unfolding comp_expr
  next-made a b rest c v d r first others =
      ap (λ o. o >>= λ q. comp_block L symbols (cons b rest) q.1) first ∙ others

  voided-made :
      (a : Ast) (b : Child) (rest : Nodes) (c : Comp L) (v : Val) (d : Comp L)
      (r : Option (Val × Comp L))
      → comp_expr L symbols a c ≡ some (v, d)
      → comp_block L symbols (cons b rest) (pop_temp L d) ≡ r
      → comp_block L symbols (cons (node a) (cons (node expr_to_void) (cons b rest))) c ≡ r
  unfolding comp_expr
  voided-made a b rest c v d r first others =
      ap (λ o. o >>= λ q. comp_block L symbols (cons (node expr_to_void) (cons b rest)) q.1) first
      ∙ others

  ended-made :
      (a : Ast) (c : Comp L) (v : Val) (d : Comp L)
      → comp_expr L symbols a c ≡ some (v, d)
      → comp_block L symbols (cons (node a) (cons (node expr_to_void) nil)) c
        ≡ some (as_l d.temps_stack, pop_temp L d)
  unfolding comp_expr
  ended-made a c v d first =
      ap (λ o. o >>= λ q. comp_block L symbols (cons (node expr_to_void) nil) q.1) first

  -- A node whose value is given back behind it
  voided-Compiles :
      (scope : Scoping) (a : Ast) (w : ℕ) (c : Comp L)
      → Compiles L eval_op truth symbols
          (is_solid a)
          scope
          scope
          w
          (comp_expr L symbols a c)
          (meaning eval_op truth rounds a)
          c
      → is_taken a ≡ true
      → Laid L scope c
      → c.temps_stack + w + 3 < size_mod
      → (v : Val) × (d : Comp L) × (comp_expr L symbols a c ≡ some (v, d))
        × Compiled L eval_op truth symbols true scope scope w
            (some (literal 0, pop_temp L d))
            (meaning eval_op truth rounds a)
            c
            (literal 0)
            (pop_temp L d)
  voided-Compiles scope a w c (v, d, r) taken laid small =
      let result = comp_expr L symbols a c in
      let m = meaning eval_op truth rounds a in
      (
        v,
        d,
        r.made,
        voided-Compiled L symbols eval_op truth scope w result m c v d laid
            (taken_busy L symbols eval_op truth a c v d taken r.made) (omega arith)
            (subst (λ b. Compiled L eval_op truth symbols b scope scope w result m c v d)
              (taken_solid a taken) r),
      )

  mutual
    unfolding comp_expr meaning

    pub node-Compiles :
        (scope : Scoping) (a : Ast) (after : Scoping) (w : ℕ) (c : Comp L)
        → IsNode scope a after w
        → Laid L scope c
        → L.Room c.locals w
        → c.temps_stack + w + 3 < size_mod
        → Compiles L eval_op truth symbols
            (is_solid a)
            scope
            after
            w
            (comp_expr L symbols a c)
            (meaning eval_op truth rounds a)
            c
    node-Compiles scope a after w c (value e readable) laid room small =
        let (v, d, r) =
          value-Compiles L symbols eval_op truth rounds scope e c laid readable (omega arith) in
        (
          v,
          d,
          weak-Compiled L symbols eval_op truth (is_solid e) scope scope w (comp_expr L symbols e c)
              (meaning eval_op truth rounds e) c v d r,
        )
    node-Compiles scope a after w c (assigns x e inside readable) laid room small =
        assigns-Compiles L symbols eval_op truth rounds scope x e c laid inside readable
          (omega arith)
    node-Compiles scope a after w c (declares x e filled fresh readable) laid room small =
        declares-Compiles L symbols eval_op truth rounds scope x e c laid filled
          (L.room_less c.locals 1 (size_child e + 2) (omega arith) room) fresh readable
          (omega arith)
    node-Compiles scope a after w c (local x filled fresh) laid room small =
        local-Compiles L symbols eval_op truth rounds scope x c laid filled room fresh (omega arith)
    node-Compiles scope a after w c (conditional test ns {w = u} readable b) laid room small =
        conditional-Compiles L symbols eval_op truth rounds scope test ns u c laid room readable
          (λ d. block-Compiles true scope ns u d b) small
    node-Compiles scope a after w c (alternative test ns ms {w = u} {u = k} readable b₁ b₂) laid
          room small =
        alternative-Compiles L symbols eval_op truth rounds scope test ns ms u k c laid room
          readable (λ d. block-Compiles true scope ns u d b₁)
          (λ d. block-Compiles true scope ms k d b₂) small
    node-Compiles scope a after w c (loops solid test ns {w = u} readable b) laid room small =
        loop-Compiles L symbols eval_op truth rounds solid scope test ns u c laid room readable
          (λ d. block-Compiles solid scope ns u d b) small

    pub block-Compiles :
        (solid : Bool) (scope : Scoping) (ns : Nodes) (w : ℕ) (c : Comp L)
        → IsBlock solid scope ns w
        → Laid L scope c
        → L.Room c.locals w
        → c.temps_stack + w + 3 < size_mod
        → Compiles L eval_op truth symbols solid scope scope w
            (comp_block L symbols ns c)
            (meaning_nodes eval_op truth rounds ns)
            c
    block-Compiles solid scope ns w c (last {after = after} a {w = u} n same) laid room small =
        let (v, d, r) = node-Compiles scope a after u c n laid room small in
        let m = meaning eval_op truth rounds a in
        (
          v,
          d,
          narrow-Compiled L symbols eval_op truth (is_solid a) solid scope after u
              (comp_expr L symbols a c) m (meaning_nodes eval_op truth rounds (cons (node a) nil)) c
              v d laid (bind_some L symbols eval_op truth m) (λ e. same ∙ e) r,
        )
    block-Compiles solid scope ns w c (ended a {w = u} n taken) laid room small =
        let (v, d, made, p) =
          voided-Compiles scope a u c (node-Compiles scope a scope u c n laid room (omega arith))
            taken laid small in
        let m = meaning eval_op truth rounds a in
        let nodes = cons (node a) (cons (node expr_to_void) nil) in
        (
          as_l d.temps_stack,
          pop_temp L d,
          narrow-Compiled L symbols eval_op truth false false scope scope u
              (comp_block L symbols nodes c) m (meaning_nodes eval_op truth rounds nodes) c
              (as_l d.temps_stack) (pop_temp L d) laid (bind_some L symbols eval_op truth m)
              (λ e. e)
              (ended-Compiled L symbols eval_op truth scope u (comp_block L symbols nodes c) m c d p
                (ended-made a c v d made)),
        )
    block-Compiles solid scope ns w c (next {after = after} a b rest {w = u} {u = k} n others) laid
          room small =
        let (v, d, r) =
          node-Compiles scope a after u c n laid (L.room_less c.locals u (u + k) (omega arith) room)
            (omega arith) in
        let (v', d', q) =
          block-Compiles solid after (cons b rest) k d others r.laid (r.room k room)
            (omega (arith, r.bound)) in
        let nodes = cons (node a) (cons b rest) in
        let m = meaning eval_op truth rounds a in
        let m' = meaning_nodes eval_op truth rounds (cons b rest) in
        (
          v',
          d',
          narrow-Compiled L symbols eval_op truth solid solid scope after (u + k)
              (comp_block L symbols nodes c) (λ env. m env >>= m')
              (meaning_nodes eval_op truth rounds nodes) c v' d' laid (λ env env' e. e) (λ e. e)
              (append-Compiled L symbols eval_op truth (is_solid a) solid scope after after u k
                (comp_expr L symbols a c) (comp_block L symbols (cons b rest) d)
                (comp_block L symbols nodes c) m m' c v d v' d' r q
                (next-made a b rest c v d (some (v', d')) r.made q.made)),
        )
    block-Compiles solid scope ns w c (voided a b rest {w = u} {u = k} n taken others) laid room
          small =
        let less = L.room_less c.locals u (u + k) (omega arith) room in
        let (v, d, made, p) =
          voided-Compiles scope a u c (node-Compiles scope a scope u c n laid less (omega arith))
            taken laid (omega arith) in
        let (v', d', q) =
          block-Compiles solid scope (cons b rest) k (pop_temp L d) others p.laid (p.room k room)
            (omega (arith, p.bound)) in
        (
          v',
          d',
          append-Compiled L symbols eval_op truth true solid scope scope scope u k
              (some (literal 0, pop_temp L d)) (comp_block L symbols (cons b rest) (pop_temp L d))
              (comp_block L symbols (cons (node a) (cons (node expr_to_void) (cons b rest))) c)
              (meaning eval_op truth rounds a) (meaning_nodes eval_op truth rounds (cons b rest)) c
              (literal 0) (pop_temp L d) v' d' p q
              (voided-made a b rest c v d (some (v', d')) made q.made),
        )
