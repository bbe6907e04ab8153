-- ===== src/Compiler/Numbers.antt =====
-- The labels in all code that the compiler prints, by induction on the tree.
use arnel_lang.Prelude.{
  ℕ, ◌+◌, ◌^◌, ◌<◌, ◌≤◌, ◌≡◌, ◌≢◌, refl, Bool, true, false, Option, some, List, [], ◌∷◌, ◌++◌,
  if◌then◌else◌, >>=-eq-some, arith,
}
use arnel_lang.View.{content}
use arnel_lang.Ast.{
  Ast, int_literal, str_literal, binary, ret, call_finished, ident, decl_local, decl_assignment,
  cond, assignment, while, block, expr_to_void, Child, absent, node, Nodes, nil, cons,
}
use arnel_lang.Compiler.Locals.{Locals}
use arnel_lang.Compiler.Code.{
  Val, as_l, literal, Label, start, loop, breac, iftr, iffl, out, Line, operation, copy, return,
  label, jnz, jmp,
}
use arnel_lang.Compiler.Code as Code
use arnel_lang.Compiler.State.{Comp, emit, push_temp, pop_temp, release, next_id}
use arnel_lang.Compiler.Expr.{
  comp_expr, comp_child, comp_else, comp_args, comp_block, comp_target, is_ret, copy_result,
}
use arnel_lang.Compiler.Jumps.{find}
use arnel_lang.Compiler.Numbering.{
  ids_of, ids_child, ids_nodes, Sound, Grows, same-Grows, Grows-trans, Grows-lower, label-Grows,
  IsPending, Grows-IsPending, release-Grows, copied-Grows, Grows-step, Grows-next,
}
use arnel_lang.Compiler.Finishes.{
  ended, call-Grows, finish_binary-Grows, finish_assignment-Grows, finish_decl_assignment-Grows,
  finish_ret-Grows, four-Grows,
}
use arnel_lang.Compiler.Rounds.{top-Started, round-Grows, back-Grows}
use arnel_lang.Compiler.Unique.{start-Grows, else_start-Grows, else_end-Grows}

module _ (L : Locals) (symbols : List ℕ → Option (List ℕ)) where
  mutual
    unfolding comp_expr ids_of find

    pub expr-Grows :
        (a : Ast) (c : Comp L) (r : Val × Comp L)
        → comp_expr L symbols a c ≡ some r
        → Sound L c
        → c.ids + ids_of a < 2 ^ 32
        → Grows L c.ids (ids_of a) c r.1
    expr-Grows expr_to_void c r e sound small =
        ended L symbols c.ids 0 c (as_l c.temps_stack, pop_temp L c) r e
          (same-Grows L c.ids c (pop_temp L c) sound refl refl)
    expr-Grows (int_literal n) c r e sound small =
        ended L symbols c.ids 0 c (literal n, c) r e (same-Grows L c.ids c c sound refl refl)
    expr-Grows (str_literal len chars) c r e sound small =
        ended L symbols c.ids 0 c (Code.as_data chars.addr, c) r e
          (same-Grows L c.ids c c sound refl refl)
    expr-Grows (ident name) c r e sound small =
        let (arg, _, last) = >>=-eq-some (L.get c.locals (content name)) _ e in
        ended L symbols c.ids 0 c (as_l arg, push_temp L c) r last
          (same-Grows L c.ids c (push_temp L c) sound refl refl)
    expr-Grows (decl_local name) c r e sound small =
        let (l, _, last) = >>=-eq-some (L.set c.locals (content name) c.temps_stack) _ e in
        let d : Comp L = record (push_temp L c) { locals = l } in
        ended L symbols c.ids 0 c (as_l d.temps_stack, d) r last
          (same-Grows L c.ids c d sound refl refl)
    expr-Grows (decl_assignment name value) c r e sound small =
        let ((v, d), first, last) = >>=-eq-some (comp_child L symbols value c) _ e in
        finish_decl_assignment-Grows L symbols c.ids (ids_child value) c d
          (child-Grows value c (v, d) first sound small) v r name last
    expr-Grows (assignment target value) c r e sound small =
        let (at, _, rest) = >>=-eq-some (comp_target L symbols target (push_temp L c)) _ e in
        let ((v, d), first, last) =
          >>=-eq-some (comp_child L symbols value (push_temp L c)) _ rest in
        let p = same-Grows L c.ids c (push_temp L c) sound refl refl in
        let g = child-Grows value (push_temp L c) (v, d) first p.sound small in
        let n = ids_child value in
        finish_assignment-Grows L symbols c.ids n c d
          (Grows-lower L c.ids c.ids (0 + n) n c d (omega arith) (omega arith)
            (Grows-next L 0 n c (push_temp L c) d p g))
          v r at last
    expr-Grows (ret value) c r e sound small =
        let ((v, d), first, last) = >>=-eq-some (comp_child L symbols value c) _ e in
        finish_ret-Grows L symbols c.ids (ids_child value) c d
          (child-Grows value c (v, d) first sound small) v r last
    expr-Grows (block nodes) c r e sound small = block-Grows nodes c r e sound small
    expr-Grows (binary op right left) c r e sound small =
        let ((v, d), first, rest) = >>=-eq-some (comp_child L symbols right c) _ e in
        let ((u, f), second, last) = >>=-eq-some (comp_child L symbols left d) _ rest in
        let g = child-Grows right c (v, d) first sound (omega arith) in
        let h = child-Grows left d (u, f) second g.sound (omega (arith, g.bound)) in
        finish_binary-Grows L symbols c.ids (ids_child right + ids_child left) c f
          (Grows-next L (ids_child right) (ids_child left) c d f g h) v r op u last
    expr-Grows (call_finished name args) c r e sound small =
        call-Grows L symbols (symbols (content name)) args (ids_nodes args) c r e
          (λ q h. args-Grows args c q h sound small)
    expr-Grows (cond test yes_child no_child) c r e sound small =
        let ((v, c₀), first, rest) = >>=-eq-some (comp_child L symbols test c) _ e in
        let g = child-Grows test c (v, c₀) first sound (omega arith) in
        let c₁ : Comp L = release L v c₀ in
        let g₁ = release-Grows L c.ids v c₀ g.sound in
        let tr : Label = record { name = iftr; id = c₁.ids } in
        let c₂ : Comp L = next_id L c₁ in
        let fl : Label = record { name = iffl; id = c₂.ids } in
        let c₃ : Comp L = next_id L c₂ in
        let end : Label = record { name = out; id = c₃.ids } in
        let target : Label =
          if (elim no_child as (λ _. Bool) [ absent ↦ true | node _ ↦ false ]) then end else fl in
        let c₅ : Comp L = emit L (label tr) (emit L (jnz v tr target) (next_id L c₃)) in
        let room : c₁.ids + ids_child yes_child + ids_child no_child + 3 < 2 ^ 32 =
          omega (arith, g.bound, g₁.bound) in
        let begun =
          start-Grows L symbols v tr fl end target c.ids c₁ g₁.sound (omega (arith, g.ids, g₁.ids))
            (omega arith) refl (omega arith) (omega arith) in
        let ((i, d), second, last) = >>=-eq-some (comp_child L symbols yes_child c₅) _ rest in
        let h =
          child-Grows yes_child c₅ (i, d) second begun.grows.sound
            (omega (arith, begun.grows.bound)) in
        let copied : Comp L = copy_result L symbols i (release L i d) in
        let k =
          Grows-step L c₅.ids (ids_child yes_child) c₅ d copied h
            (copied-Grows L symbols c₅.ids i d h.sound) in
        let fl_still =
          Grows-IsPending L c₅.ids (ids_child yes_child) c₅ copied fl k begun.fl_pending.0
            begun.fl_pending in
        let end_still =
          Grows-IsPending L c₅.ids (ids_child yes_child) c₅ copied end k begun.end_pending.0
            begun.end_pending in
        let low : c.ids ≤ c₁.ids = omega (arith, g.ids, g₁.ids) in
        let j =
          else-Grows no_child i end fl c.ids copied r last k.sound fl_still end_still (omega arith)
            (omega arith) (omega (arith, begun.grows.ids, k.ids)) (λ p. absurd (omega arith))
            (omega (arith, begun.grows.bound, k.bound)) in
        four-Grows L symbols (ids_child test) (ids_child yes_child) (ids_child no_child) c c₁ c₅
          copied r.1 (Grows-step L c.ids (ids_child test) c c₀ c₁ g g₁) begun.grows k j
    expr-Grows (while test body) c r e sound small =
        let top : Label = record { name = start; id = c.ids } in
        let c₁ : Comp L = next_id L c in
        let inner : Label = record { name = loop; id = c₁.ids } in
        let c₂ : Comp L = next_id L c₁ in
        let end : Label = record { name = breac; id = c₂.ids } in
        let c₃ : Comp L = next_id L c₂ in
        let c₄ : Comp L = emit L (label top) c₃ in
        let begun =
          top-Started L symbols top inner end c.ids c sound (omega arith) (omega arith) refl
            (omega arith) (omega arith) in
        let ((v, d), first, rest) = >>=-eq-some (comp_child L symbols test c₄) _ e in
        let g =
          child-Grows test c₄ (v, d) first begun.grows.sound (omega (arith, begun.grows.bound)) in
        let inner_still =
          Grows-IsPending L c₄.ids (ids_child test) c₄ d inner g begun.fl_pending.0
            begun.fl_pending in
        let end_still =
          Grows-IsPending L c₄.ids (ids_child test) c₄ d end g begun.end_pending.0
            begun.end_pending in
        let c₅ : Comp L = emit L (label inner) (emit L (jnz v inner end) d) in
        let (k, pending) =
          round-Grows L symbols v inner end c.ids d g.sound inner_still end_still (omega arith)
            (λ p. absurd (omega arith)) in
        let ((i, f), second, last) = >>=-eq-some (comp_child L symbols body c₅) _ rest in
        let h =
          child-Grows body c₅ (i, f) second k.sound
            (omega (arith, begun.grows.bound, g.bound, k.bound)) in
        let still = Grows-IsPending L c₅.ids (ids_child body) c₅ f end h pending.0 pending in
        let b = back-Grows L symbols top end c.ids f h.sound still (omega arith) in
        let p : Comp L = emit L (label end) (emit L (jmp top) f) in
        let front = Grows-trans L c.ids 3 (ids_child test) c c₄ d begun.grows (
          Grows-lower L c₄.ids c.ids (ids_child test) (ids_child test) c₄ d begun.grows.ids
            (omega arith) g) in
        let middle =
          Grows-trans L c.ids (3 + ids_child test + 0) (ids_child body) c c₅ f
            (Grows-trans L c.ids (3 + ids_child test) 0 c d c₅ front k)
            (Grows-lower L c₅.ids c.ids (ids_child body) (ids_child body) c₅ f
              (omega (arith, front.ids, k.ids)) (omega arith) h) in
        ended L symbols c.ids (ids_child test + ids_child body + 3) c (i, p) r last
          (Grows-lower L c.ids c.ids (3 + ids_child test + 0 + ids_child body + 0)
            (ids_child test + ids_child body + 3) c p (omega arith) (omega arith)
            (Grows-trans L c.ids (3 + ids_child test + 0 + ids_child body) 0 c f p middle b))
    expr-Grows _ c r e sound small = cc

    else-Grows :
        (a : Child) (i : Val) (end fl : Label) (base : ℕ) (c : Comp L) (r : Val × Comp L)
        → comp_else L symbols a i end fl c ≡ some r
        → Sound L c
        → IsPending L fl c
        → IsPending L end c
        → base ≤ fl.id
        → base ≤ end.id
        → base ≤ c.ids
        → end.id ≢ fl.id
        → c.ids + ids_child a < 2 ^ 32
        → Grows L base (ids_child a) c r.1
    else-Grows absent i end fl base c r e sound fl_pending end_pending fl_low end_low low apart
          small =
        let d : Comp L = emit L (label end) c in
        let g = label-Grows L base c end sound end_pending end_low in
        ended L symbols base 0 c (as_l d.temps_stack, push_temp L d) r e
          (Grows-step L base 0 c d (push_temp L d) g
            (same-Grows L base d (push_temp L d) g.sound refl refl))
    else-Grows (node a) i end fl base c r e sound fl_pending end_pending fl_low end_low low apart
          small =
        let d : Comp L = emit L (label fl) (if is_ret L symbols i then c else emit L (jmp end) c) in
        let (g, pending) =
          else_start-Grows L symbols i fl end base c sound fl_pending end_pending fl_low apart in
        let ((v, f), first, last) = >>=-eq-some (comp_expr L symbols a d) _ e in
        let h = expr-Grows a d (v, f) first g.sound (omega (arith, g.bound)) in
        let still = Grows-IsPending L d.ids (ids_of a) d f end h pending.0 pending in
        let k = else_end-Grows L symbols i v end base f h.sound still end_low in
        let copied : Comp L = copy_result L symbols v (release L v f) in
        let p : Comp L =
          push_temp L (if is_ret L symbols i then copied else emit L (label end) copied) in
        let q = Grows-trans L base 0 (ids_of a) c d f g (
          Grows-lower L d.ids base (ids_of a) (ids_of a) d f (omega (arith, g.ids)) (omega arith)
            h) in
        ended L symbols base (ids_of a) c
          (as_l (if is_ret L symbols i then copied else emit L (label end) copied).temps_stack, p) r
          last
          (Grows-step L base (ids_of a) c f p
            (Grows-lower L base base (0 + ids_of a) (ids_of a) c f (omega arith) (omega arith) q) k)

    pub child-Grows :
        (a : Child) (c : Comp L) (r : Val × Comp L)
        → comp_child L symbols a c ≡ some r
        → Sound L c
        → c.ids + ids_child a < 2 ^ 32
        → Grows L c.ids (ids_child a) c r.1
    child-Grows absent c r e sound small = cc
    child-Grows (node a) c r e sound small = expr-Grows a c r e sound small

    block-Grows :
        (nodes : Nodes) (c : Comp L) (r : Val × Comp L)
        → comp_block L symbols nodes c ≡ some r
        → Sound L c
        → c.ids + ids_nodes nodes < 2 ^ 32
        → Grows L c.ids (ids_nodes nodes) c r.1
    block-Grows nil c r e sound small = cc
    block-Grows (cons a nil) c r e sound small =
        Grows-lower L c.ids c.ids (ids_child a) (ids_child a + 0) c r.1 (omega arith) (omega arith)
          (child-Grows a c r e sound (omega arith))
    block-Grows (cons a (cons b rest)) c r e sound small =
        let ((v, d), first, last) = >>=-eq-some (comp_child L symbols a c) _ e in
        let g = child-Grows a c (v, d) first sound (omega arith) in
        Grows-next L (ids_child a) (ids_nodes (cons b rest)) c d r.1 g
          (block-Grows (cons b rest) d r last g.sound (omega (arith, g.bound)))

    args-Grows :
        (nodes : Nodes) (c : Comp L) (r : List Val × Comp L)
        → comp_args L symbols nodes c ≡ some r
        → Sound L c
        → c.ids + ids_nodes nodes < 2 ^ 32
        → Grows L c.ids (ids_nodes nodes) c r.1
    args-Grows nil c r e sound small =
        ended L symbols c.ids 0 c ([], c) r e (same-Grows L c.ids c c sound refl refl)
    args-Grows (cons a rest) c r e sound small =
        let ((vs, d), first, others) = >>=-eq-some (comp_args L symbols rest c) _ e in
        let ((v, f), second, last) = >>=-eq-some (comp_child L symbols a d) _ others in
        let g = args-Grows rest c (vs, d) first sound (omega arith) in
        let h = child-Grows a d (v, f) second g.sound (omega (arith, g.bound)) in
        let n = ids_nodes rest + ids_child a in
        let q = Grows-next L (ids_nodes rest) (ids_child a) c d f g h in
        ended L symbols c.ids (ids_child a + ids_nodes rest) c (vs ++ v ∷ [], release L v f) r last
          (Grows-lower L c.ids c.ids n (ids_child a + ids_nodes rest) c (release L v f)
            (omega arith) (omega arith)
            (Grows-step L c.ids n c f (release L v f) q (release-Grows L c.ids v f q.sound)))
