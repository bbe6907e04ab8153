-- ===== src/Compiler/Expr.antt =====
-- compiler.c: `__comp_expr` and the functions that it calls.
--
-- `none` is the end of the run by a NULL pointer, an unset value or `exit(69)`.
use arnel_lang.Prelude.{
  ℕ, Bool, true, false, Option, none, some, List, [], ◌∷◌, ◌++◌, if◌then◌else◌, ◌>>=◌,
}
use arnel_lang.View.{View, content}
use arnel_lang.Ast.{
  BinOp, Ast, int_literal, str_literal, binary, ret, call, call_finished, ident, decl_local,
  decl_assignment, cond, assignment, while, block, expr_to_void, Child, absent, node, Nodes, nil,
  cons,
}
use arnel_lang.Compiler.Locals.{Locals}
use arnel_lang.Compiler.Code.{
  QbeType, t_ret, Val, as_l, ret_val, as_data, literal, Label, start, loop, breac, iftr, iffl, out,
  Line, operation, copy, return, label, jnz, jmp,
}
use arnel_lang.Compiler.Code as Code
use arnel_lang.Compiler.State.{Comp, emit, push_temp, pop_temp, release, next_id}

-- The locals, and the link names of the symbols in scope.
module _ (L : Locals) (symbols : List ℕ → Option (List ℕ)) where
  abbrev pub C : Type 0
  C = Comp L

  abbrev pub is_ret : Val → Bool
  is_ret v = elim v.t [ t_ret ↦ true | _ ↦ false ]

  -- The lines of `BINARY` behind the two operands: `children[0]` is the right one in the source.
  abbrev pub finish_binary : BinOp → Val → Val → C → Option (Val × C)
  finish_binary op lhs rhs c =
      let c₁ = release L rhs (release L lhs c) in
      some (as_l c₁.temps_stack, push_temp L (emit L (operation c₁.temps_stack op rhs lhs) c₁))

  -- `__comp_assignment` behind the value; the local was looked up before.
  abbrev pub finish_assignment : ℕ → Val → C → Option (Val × C)
  finish_assignment arg v c = some (as_l arg, release L v (emit L (copy arg v) c))

  abbrev pub finish_decl_assignment : View → Val → C → Option (Val × C)
  finish_decl_assignment name v c =
      let c₁ = release L v c in
      let arg = c₁.temps_stack in
      L.set c₁.locals (content name) arg >>= λ locals.
      some (as_l arg, emit L (copy arg v) (record (push_temp L c₁) { locals = locals }))

  abbrev pub finish_ret : Val → C → Option (Val × C)
  finish_ret v c = some (ret_val, record (emit L (return v) c) { temps_stack = 0 })

  -- `foutputf(comp, "  %%x%zu =l add 0, ", comp->temps_stack); …` unless the value is that of a return
  abbrev pub copy_result : Val → C → C
  copy_result v c = if is_ret v then c else emit L (copy c.temps_stack v) c

  -- `um_get` on the view at the front of the target's children, as `__comp_assignment` reads it. A
  -- node that has no name there is a misread, taken for a fault.
  abbrev pub target_name : Child → Option (List ℕ)
  target_name absent = none
  target_name (node a) = elim a [
    | ident v ↦ some (content v)
    | decl_local v ↦ some (content v)
    | decl_assignment v _ ↦ some (content v)
    | call v ↦ some (content v)
    | call_finished v _ ↦ some (content v)
    | _ ↦ none
  ]

  unfoldable pub comp_target : Child → C → Option ℕ
  comp_target target c = target_name target >>= λ name. L.get c.locals name

  unfoldable mutual
    -- `__comp_expr`
    pub comp_expr : Ast → C → Option (Val × C)
    comp_expr expr_to_void c = some (as_l c.temps_stack, pop_temp L c)
    comp_expr (call_finished name args) c = elim (symbols (content name)) [
      | none ↦ none
      | some sym ↦ comp_args args c >>= λ r.
          let c₁ = r.1 in
          some (as_l c₁.temps_stack, push_temp L (emit L (Code.call c₁.temps_stack sym r.0) c₁))
    ]
    comp_expr (int_literal n) c = some (literal n, c)
    comp_expr (str_literal len chars) c = some (as_data chars.addr, c)
    comp_expr (ident name) c =
        L.get c.locals (content name) >>= λ arg. some (as_l arg, push_temp L c)
    comp_expr (decl_local name) c = L.set c.locals (content name) c.temps_stack >>= λ locals.
        let c₁ : C = record (push_temp L c) { locals = locals } in some (as_l c₁.temps_stack, c₁)
    comp_expr (cond test yes_child no_child) c = comp_child test c >>= λ r.
        let (v, c₀) = r in
        let c₁ = release L v c₀ in
        let tr : Label = record { name = iftr; id = c₁.ids } in
        let c₂ = next_id L c₁ in
        let fl : Label = record { name = iffl; id = c₂.ids } in
        let c₃ = next_id L c₂ in
        let end : Label = record { name = out; id = c₃.ids } in
        let c₄ = next_id L c₃ in
        let is_one : Bool = elim no_child [ absent ↦ true | node _ ↦ false ] in
        let c₅ = emit L (label tr) (emit L (jnz v tr (if is_one then end else fl)) c₄) in
        comp_child yes_child c₅ >>= λ q.
        let i = q.0 in let c₆ = copy_result i (release L i q.1) in comp_else no_child i end fl c₆
    comp_expr (decl_assignment name value) c =
        comp_child value c >>= λ r. finish_decl_assignment name r.0 r.1
    comp_expr (assignment target value) c = comp_target target (push_temp L c) >>= λ arg.
        comp_child value (push_temp L c) >>= λ r. finish_assignment arg r.0 r.1
    comp_expr (ret value) c = comp_child value c >>= λ r. finish_ret r.0 r.1
    comp_expr (block nodes) c = comp_block nodes c
    comp_expr (while test body) c =
        let top : Label = record { name = start; id = c.ids } in
        let c₁ = next_id L c in
        let inner : Label = record { name = loop; id = c₁.ids } in
        let c₂ = next_id L c₁ in
        let end : Label = record { name = breac; id = c₂.ids } in
        comp_child test (emit L (label top) (next_id L c₂)) >>= λ r.
        comp_child body (emit L (label inner) (emit L (jnz r.0 inner end) r.1)) >>= λ q.
        some (q.0, emit L (label end) (emit L (jmp top) q.1))
    comp_expr (binary op right left) c =
        comp_child right c >>= λ r. comp_child left r.1 >>= λ q. finish_binary op r.0 q.0 q.1
    comp_expr _ c = none

    -- A call of `__comp_expr` on a child, which reads through the pointer.
    pub comp_child : Child → C → Option (Val × C)
    comp_child absent c = none
    comp_child (node a) c = comp_expr a c

    -- The end of `__comp_cond`, from `if (node->children[2].node != NULL)` on.
    pub comp_else : Child → Val → Label → Label → C → Option (Val × C)
    comp_else absent i end fl c =
        let c₁ = emit L (label end) c in some (as_l c₁.temps_stack, push_temp L c₁)
    comp_else (node a) i end fl c =
        let c₁ = if is_ret i then c else emit L (jmp end) c in
        comp_expr a (emit L (label fl) c₁) >>= λ r.
        let c₂ = copy_result r.0 (release L r.0 r.1) in
        let c₃ = if is_ret i then c₂ else emit L (label end) c₂ in
        some (as_l c₃.temps_stack, push_temp L c₃)

    -- The loop over the arguments, from the last child to the first.
    pub comp_args : Nodes → C → Option (List Val × C)
    comp_args nil c = some ([], c)
    comp_args (cons a rest) c = comp_args rest c >>= λ r.
        comp_child a r.1 >>= λ q. some (r.0 ++ q.0 ∷ [], release L q.0 q.1)

    -- The loop over a block; the value of the last node. No node leaves the result unset.
    pub comp_block : Nodes → C → Option (Val × C)
    comp_block nil c = none
    comp_block (cons a nil) c = comp_child a c
    comp_block (cons a (cons b rest)) c = comp_child a c >>= λ r. comp_block (cons b rest) r.1
