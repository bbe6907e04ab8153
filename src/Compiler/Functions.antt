-- ===== src/Compiler/Functions.antt =====
-- The code of a function's body.
use arnel_lang.Prelude.{
  ℕ, suc, ◌+◌, ◌<◌, ◌≡◌, refl, sym, ap, ◌∙◌, Bool, true, false, Option, some, none, List, [], ◌∷◌,
  ◌++◌, length, map, arith,
}
use mathlib.Core.List.{append_assoc, append-nil}
use mathlib.Core.Option.{some-injective}
use mathlib.Core.Path.{subst}
use arnel_lang.Prelude.Size.{size_mod}
use arnel_lang.View.{View}
use arnel_lang.Ast.{BinOp, Ast, decl_local, expr_to_void, ret, Child}
use arnel_lang.Parser.Result.{ok, ◌>>=◌, or_fault}
use arnel_lang.Compiler.Locals.{Locals}
use arnel_lang.Compiler.Code.{Val, literal, ret_val, Line, return}
use arnel_lang.Compiler.State.{Comp, pop_temp, emit}
use arnel_lang.Compiler.Expr.{comp_expr, comp_child}
use arnel_lang.Compiler.Scope.{Scope, link_name}
use arnel_lang.Compiler.Unit.{comp_nodes}
use arnel_lang.Compiler.Registers.{Registers, operand, exec, eval_child, size_child}
use arnel_lang.Compiler.Jumps.{IsLabelled, run_code, Reaches, Reaches-trans, exec-Reaches}
use arnel_lang.Compiler.Meaning.{Env, Scoping, is_readable_child, meaning, meaning_list}
use arnel_lang.Compiler.Scoping.{is_solid, taken_solid, IsBody, nothing, next, voided}
use arnel_lang.Compiler.Layout.{Laid, Stored, Valued, child-Valued}
use arnel_lang.Compiler.Simulation.{Compiled, exec-Simulates}
use arnel_lang.Compiler.Sequence.{ret-made, taken_busy, voided-Compiled, append-Compiled}
use arnel_lang.Compiler.Bodies.{node-Compiles}
use arnel_lang.Compiler.Params.{IsParams, bind_params, params-Bound, comp_nodes-append}

-- The nodes of a function: its parameters, the statements and the value that it returns.
abbrev pub function_nodes : List View → List Ast → Child → List Ast
function_nodes params nodes e = map decl_local params ++ (nodes ++ ret e ∷ [])

module _ (L : Locals) (new_locals : L.Map) (symbols : Scope) (eval_op : BinOp → ℕ → ℕ → ℕ)
    (truth : ℕ → Bool) (rounds : ℕ) where
  abbrev sym_names : List ℕ → Option (List ℕ)
  sym_names = link_name symbols

  first-made :
      (a : Ast) (nodes : List Ast) (c : Comp L) (v : Val) (d : Comp L)
      → comp_expr L sym_names a c ≡ some (v, d)
      → comp_nodes L new_locals symbols (a ∷ nodes) c ≡ comp_nodes L new_locals symbols nodes d
  unfolding comp_nodes
  first-made a nodes c v d e =
      ap (λ o. or_fault o >>= λ q. comp_nodes L new_locals symbols nodes q.1) e

  nil-made : (d : Comp L) → comp_nodes L new_locals symbols [] d ≡ ok d
  unfolding comp_nodes
  nil-made d = refl

  void-made :
      (nodes : List Ast) (d : Comp L)
      → comp_nodes L new_locals symbols (expr_to_void ∷ nodes) d
        ≡ comp_nodes L new_locals symbols nodes (pop_temp L d)
  unfolding comp_nodes comp_expr
  void-made nodes d = refl

  -- Code generation for the nodes of a body in a row; no operand is left.
  abbrev pub ListCompiles : Scoping → List Ast → Scoping → ℕ → Comp L → Type 0
  ListCompiles scope nodes after w c =
      (d : Comp L) × (comp_nodes L new_locals symbols nodes c ≡ ok d)
      × Compiled L eval_op truth sym_names true scope after w (some (literal 0, d))
          (meaning_list eval_op truth rounds nodes) c (literal 0) d

  pub list-Compiles :
      (scope : Scoping) (nodes : List Ast) (after : Scoping) (w : ℕ) (c : Comp L)
      → IsBody scope nodes after w
      → Laid L scope c
      → L.Room c.locals w
      → c.temps_stack + w + 3 < size_mod
      → ListCompiles scope nodes after w c
  unfolding meaning_list meaning comp_nodes exec
  list-Compiles scope nodes after w c nothing laid room small = (
    c,
    refl,
    record {
      made = refl;
      lines = [];
      printed = sym (append-nil c.output);
      laid = laid;
      kept = λ x h. refl;
      room = λ n h. L.room_less c.locals n (0 + n) (omega arith) h;
      wider = λ x h. h;
      grows = omega arith;
      busy = λ _ h. cc;
      bound = omega arith;
      no_return = refl;
      correct =
          exec-Simulates L eval_op truth [] scope c.locals scope c.locals some
            (λ regs env env' stored e. (
              regs,
              refl,
              subst (λ k. Stored L scope k c.locals regs) (some-injective _ _ e) stored,
            ));
    },
  )
  list-Compiles scope nodes after w c (next {middle = middle} a rest {w = u} {u = k} n others) laid
        room small =
      let less = L.room_less c.locals u (u + k) (omega arith) room in
      let (v, d, r) =
        node-Compiles L sym_names eval_op truth rounds scope a middle u c n laid less
          (omega arith) in
      let (d', made, q) =
        list-Compiles middle rest after k d others r.laid (r.room k room)
          (omega (arith, r.bound)) in
      (
        d',
        first-made a rest c v d r.made ∙ made,
        append-Compiled L sym_names eval_op truth (is_solid a) true scope middle after u k
            (comp_expr L sym_names a c) (some (literal 0, d')) (some (literal 0, d'))
            (meaning eval_op truth rounds a) (meaning_list eval_op truth rounds rest) c v d
            (literal 0) d' r q refl,
      )
  list-Compiles scope nodes after w c (voided a rest {w = u} {u = k} n taken others) laid room
        small =
      let less = L.room_less c.locals u (u + k) (omega arith) room in
      let (v, d, r) =
        node-Compiles L sym_names eval_op truth rounds scope a scope u c n laid less
          (omega arith) in
      let p =
        voided-Compiled L sym_names eval_op truth scope u (comp_expr L sym_names a c)
          (meaning eval_op truth rounds a) c v d laid
          (taken_busy L sym_names eval_op truth a c v d taken r.made) (omega arith)
          (subst
            (λ b.
              Compiled L eval_op truth sym_names b scope scope u (comp_expr L sym_names a c)
                (meaning eval_op truth rounds a) c v d)
            (taken_solid a taken) r) in
      let (d', made, q) =
        list-Compiles scope rest after k (pop_temp L d) others p.laid (p.room k room)
          (omega (arith, p.bound)) in
      (
        d',
        first-made a (expr_to_void ∷ rest) c v d r.made ∙ void-made rest d ∙ made,
        append-Compiled L sym_names eval_op truth true true scope scope after u k
            (some (literal 0, pop_temp L d)) (some (literal 0, d')) (some (literal 0, d'))
            (meaning eval_op truth rounds a) (meaning_list eval_op truth rounds rest) c (literal 0)
            (pop_temp L d) (literal 0) d' p q refl,
      )

  -- With enough fuel the lines `lines` of the code return `n`.
  abbrev pub Returned : List Line → List Line → Registers → ℕ → Type 0
  Returned code lines regs n =
      (k : ℕ) × ((j : ℕ) → run_code eval_op truth (k + j) code lines regs ≡ some n)

  arrived-Returned :
      (code lines : List Line) (regs : Registers) (v : Val) (after : Registers) (n : ℕ)
      → Reaches eval_op truth code lines regs (return v ∷ []) after
      → operand v after ≡ n
      → Returned code lines regs n
  unfolding run_code
  arrived-Returned code lines regs v after n (k, runs) result = (
    k + 1,
    (λ j.
        ap (λ m. run_code eval_op truth m code lines regs) (group k j)
        ∙ runs (suc j)
        ∙ ap some result),
  )
    where
      group : (a b : ℕ) → a + 1 + b ≡ a + suc b
      group a b = omega arith

  -- The code of a function starts with its arguments in the first temporaries and returns what the
  -- statements and the returned expression mean for the parameters' values.
  abbrev pub ReturnsMeaning : List View → List Ast → Child → List Line → Type 0
  ReturnsMeaning params nodes e lines =
      (regs : Registers) (env : Env) (n : ℕ)
      → meaning_list eval_op truth rounds nodes (bind_params params 0 regs (λ _. none)) ≡ some env
      → eval_child eval_op env e ≡ some n
      → Returned lines lines regs n

  function-made :
      (params : List View) (nodes : List Ast) (e : Child) (c p q : Comp L) (v : Val) (d : Comp L)
      → comp_nodes L new_locals symbols (map decl_local params) c ≡ ok p
      → comp_nodes L new_locals symbols nodes p ≡ ok q
      → comp_child L sym_names e q ≡ some (v, d)
      → comp_nodes L new_locals symbols (function_nodes params nodes e) c
        ≡ ok (record (emit L (return v) d) { temps_stack = 0 })
  function-made params nodes e c p q v d first second last =
      comp_nodes-append L new_locals symbols (map decl_local params) (nodes ++ ret e ∷ []) c
      ∙ ap (λ o. o >>= comp_nodes L new_locals symbols (nodes ++ ret e ∷ [])) first
      ∙ comp_nodes-append L new_locals symbols nodes (ret e ∷ []) p
      ∙ ap (λ o. o >>= comp_nodes L new_locals symbols (ret e ∷ [])) second
      ∙ first-made (ret e) [] q ret_val (record (emit L (return v) d) { temps_stack = 0 })
          (ret-made L sym_names eval_op truth e q v d last)
      ∙ nil-made (record (emit L (return v) d) { temps_stack = 0 })

  -- From the code of the parts
  parts-Returned :
      (nodes : List Ast) (e : Child) (scope after : Scoping) (w : ℕ) (p q : Comp L) (v : Val)
      (d : Comp L) (code : List Line)
      (s : Compiled L eval_op truth sym_names true scope after w
        (some (literal 0, q))
        (meaning_list eval_op truth rounds nodes)
        p
        (literal 0)
        q)
      (r : Valued L sym_names eval_op after e q v d) (regs : Registers) (start env : Env) (n : ℕ)
      → code ≡ s.lines ++ (r.lines ++ return v ∷ [])
      → IsLabelled code
      → Stored L scope start p.locals regs
      → meaning_list eval_op truth rounds nodes start ≡ some env
      → eval_child eval_op env e ≡ some n
      → Returned code code regs n
  parts-Returned nodes e scope after w p q v d code s r regs start env n shape labelled stored means
        value =
      let ending : List Line = r.lines ++ return v ∷ [] in
      let (after₁, reached, stored₁) =
        s.correct code ending regs start env labelled ([], shape) stored means in
      let (after₂, run₂, result, _) = r.computes env after₁ n stored₁ value in
      subst (λ k. Returned code k regs n) (sym shape)
        (arrived-Returned code (s.lines ++ ending) regs v after₂ n
          (Reaches-trans eval_op truth code (s.lines ++ ending) regs ending after₁ (return v ∷ [])
            after₂ reached
            (exec-Reaches eval_op truth code r.lines (return v ∷ []) after₁ after₂ run₂))
          result)

  printed_parts :
      (o o₁ o₂ o₃ xs ys zs : List Line)
      → o ≡ []
      → o₁ ≡ o
      → o₂ ≡ o₁ ++ xs
      → o₃ ≡ o₂ ++ ys
      → o₃ ++ zs ≡ xs ++ (ys ++ zs)
  printed_parts o o₁ o₂ o₃ xs ys zs e e₁ e₂ e₃ =
      ap (λ k. k ++ zs) (e₃ ∙ ap (λ k. k ++ ys) (e₂ ∙ ap (λ k. k ++ xs) (e₁ ∙ e)))
      ∙ append_assoc xs ys zs

  -- What code generation for a function gives
  pub record Translated (params : List View) (nodes : List Ast) (e : Child) (c d : Comp L)
      : Type 0 where
    pub made : comp_nodes L new_locals symbols (function_nodes params nodes e) c ≡ ok d
    pub temps : d.temps_stack ≡ 0
    pub returns : IsLabelled d.output → ReturnsMeaning params nodes e d.output

  pub body-Translated :
      (params : List View) (nodes : List Ast) (e : Child) (scope after : Scoping) (w : ℕ)
      (c : Comp L)
      → c.output ≡ []
      → L.Room c.locals (length params + w)
      → c.temps_stack ≡ 0
      → IsParams (λ _. false) params scope
      → IsBody scope nodes after w
      → is_readable_child after e ≡ true
      → length params + w + size_child e + 3 < size_mod
      → (d : Comp L) × Translated params nodes e c d
  body-Translated params nodes e scope after w c fresh room none_used declared body readable small =
      let (p, b) =
        params-Bound L new_locals symbols params (λ _. false) scope c declared
          (record { placed = λ x h. cc; solid = λ x h. cc; apart = λ x y a h. cc })
          (L.room_less c.locals (length params) (length params + w) (omega arith) room)
          (omega arith) in
      let (q, made, s) =
        list-Compiles scope nodes after w p body b.laid (b.room w room) (omega (arith, b.temps)) in
      let (v, d, r) =
        child-Valued L sym_names eval_op after e q s.laid readable
          (omega (arith, b.temps, s.bound)) in
      let final : Comp L = record (emit L (return v) d) { temps_stack = 0 } in
      let shape =
        printed_parts c.output p.output q.output d.output s.lines r.lines (return v ∷ []) fresh
          b.printed s.printed r.printed in
      (
        final,
        record {
          made = function-made params nodes e c p q v d b.made made r.made;
          temps = refl;
          returns = λ labelled regs env n means value.
              parts-Returned nodes e scope after w p q v d final.output s r regs
                (bind_params params c.temps_stack regs (λ _. none)) env n shape labelled
                (b.stored (λ _. none) regs (λ x m a h. cc))
                (ap
                    (λ k.
                      meaning_list eval_op truth rounds nodes
                        (bind_params params k regs (λ _. none)))
                    none_used
                  ∙ means)
                value;
        },
      )
