-- ===== src/Compiler/Symbols.antt =====
-- The code of a symbol: `comp_sym`.
use arnel_lang.Prelude.{
  ℕ, ◌+◌, ◌^◌, ◌<◌, ◌≤◌, ◌≡◌, refl, sym, ap, ◌∙◌, Bool, true, false, some, List, [], ◌∷◌, ◌++◌,
  length, arith, Option-cases, inl, inr,
}
use mathlib.Core.Path.{subst}
use arnel_lang.Prelude.Size.{size_mod}
use arnel_lang.View.{View, content}
use arnel_lang.Types.{TypeEntry, Sig, get_type}
use arnel_lang.Ast.{BinOp, Ast, Child}
use arnel_lang.Parser.Result.{Result, ok, fault, ◌>>=◌, or_fault}
use arnel_lang.Parser.State.{Symbol}
use arnel_lang.Compiler.Locals.{Locals}
use arnel_lang.Compiler.Code.{Label, Line, label}
use arnel_lang.Compiler.State.{Comp}
use arnel_lang.Compiler.Expr.{comp_expr}
use arnel_lang.Compiler.Scope.{Scope, link_name}
use arnel_lang.Compiler.Unit.{Compiler, function, comp_nodes, comp_sym}
use arnel_lang.Compiler.Registers.{size_child}
use arnel_lang.Compiler.Jumps.{find, IsLabelled}
use arnel_lang.Compiler.Meaning.{is_readable_child}
use arnel_lang.Compiler.Scoping.{IsBody}
use arnel_lang.Compiler.Params.{IsParams}
use arnel_lang.Compiler.Numbering.{ids_of, Sound, Grows, same-Grows, Grows-next}
use arnel_lang.Compiler.Numbers.{expr-Grows}
use arnel_lang.Compiler.Functions.{function_nodes, ReturnsMeaning, body-Translated}

unfoldable pub ids_list : List Ast → ℕ
ids_list [] = 0
ids_list (a ∷ nodes) = ids_of a + ids_list nodes

ok_injective : {A : Type 0} (x y : A) → Result.ok x ≡ ok y → x ≡ y
ok_injective x y e = cc

module _ (L : Locals) (new_locals : L.Map) where
  empty-Sound : (c : Comp L) → c.output ≡ [] → Sound L c
  unfolding find
  empty-Sound c e = record {
    labelled = λ l before after h. absurd (no_label l before after (sym e ∙ h));
    ahead = λ l h. ap (find l) e;
  }
    where
      no_label : (l : Label) (before after : List Line) → [] ≡ before ++ label l ∷ after → ⊥
      no_label l [] after h = cc
      no_label l (b ∷ bs) after h = cc

  pub nodes-Grows :
      (scope : Scope) (nodes : List Ast) (c d : Comp L)
      → comp_nodes L new_locals scope nodes c ≡ ok d
      → Sound L c
      → c.ids + ids_list nodes < 2 ^ 32
      → Grows L c.ids (ids_list nodes) c d
  unfolding comp_nodes ids_list
  nodes-Grows scope [] c d e sound small =
      subst (Grows L c.ids 0 c) (ok_injective c d e) (same-Grows L c.ids c c sound refl refl)
  nodes-Grows scope (a ∷ nodes) c d e sound small =
      elim (Option-cases (comp_expr L (link_name scope) a c)) [
        | inl h ↦
            let clash : fault ≡ ok d =
              sym (ap (λ o. or_fault o >>= λ r. comp_nodes L new_locals scope nodes r.1) h) ∙ e in
            absurd cc
        | inr (r, h) ↦
            let g = expr-Grows L (link_name scope) a c r h sound (omega arith) in
            Grows-next L (ids_of a) (ids_list nodes) c r.1 d g (
              nodes-Grows scope nodes r.1 d
                (sym (ap (λ o. or_fault o >>= λ q. comp_nodes L new_locals scope nodes q.1) h) ∙ e)
                g.sound (omega (arith, g.bound)))
      ]

  module _ (eval_op : BinOp → ℕ → ℕ → ℕ) (truth : ℕ → Bool) (rounds : ℕ) where
    -- A function was printed with code that returns what its body means, and no temporary is in use.
    pub record Printed (comp comp' : Compiler L new_locals) (symbol : Symbol) (arity : ℕ)
        (params : List View) (nodes : List Ast) (e : Child) : Type 0 where
      pub made : comp_sym L new_locals comp symbol ≡ ok comp'
      pub lines : List Line
      pub definitions :
          comp'.definitions
          ≡ comp.definitions ++ function (content symbol.symbol_name) arity lines ∷ []
      pub scope : comp'.scope ≡ comp.scope
      pub types : comp'.types ≡ comp.types
      pub temps : comp'.temps_stack ≡ 0
      pub ids : comp'.ids ≤ comp.ids + ids_list symbol.body
      pub labelled : IsLabelled lines
      pub returns : ReturnsMeaning L new_locals comp.scope eval_op truth rounds params nodes e lines

    pub comp_sym-Printed :
        (comp : Compiler L new_locals) (symbol : Symbol) (entry : TypeEntry) (sig : Sig)
        (params : List View) (nodes : List Ast) (e : Child) (scope after : List ℕ → Bool) (w : ℕ)
        → get_type comp.types symbol.type ≡ some (some entry)
        → entry.type_info ≡ some sig
        → symbol.body ≡ function_nodes params nodes e
        → IsParams (λ _. false) params scope
        → IsBody scope nodes after w
        → L.Room new_locals (length params + w)
        → is_readable_child after e ≡ true
        → comp.temps_stack ≡ 0
        → length params + w + size_child e + 3 < size_mod
        → comp.ids + ids_list symbol.body < 2 ^ 32
        → (comp' : Compiler L new_locals) × Printed comp comp' symbol
            (length sig.arg_types)
            params
            nodes
            e
    unfolding comp_sym
    comp_sym-Printed comp symbol entry sig params nodes e scope after w found typed shape declared
          body room readable unused small few_labels =
        let c : Comp L = record {
          output = [];
          temps_stack = comp.temps_stack;
          ids = comp.ids;
          locals = new_locals;
        } in
        let (d, t) =
          body-Translated L new_locals comp.scope eval_op truth rounds params nodes e scope after w
            c refl room unused declared body readable small in
        let made : comp_nodes L new_locals comp.scope symbol.body c ≡ ok d =
          ap (λ k. comp_nodes L new_locals comp.scope k c) shape ∙ t.made in
        let g = nodes-Grows comp.scope symbol.body c d made (empty-Sound c refl) few_labels in
        (
          record comp {
            definitions =
                comp.definitions
                ++ function (content symbol.symbol_name) (length sig.arg_types) d.output ∷ [];
            temps_stack = d.temps_stack;
            ids = d.ids;
          },
          record {
            made = rw (found, typed, made) refl;
            lines = d.output;
            definitions = refl;
            scope = refl;
            types = refl;
            temps = t.temps;
            ids = g.bound;
            labelled = g.sound.labelled;
            returns = t.returns g.sound.labelled;
          },
        )
