-- ===== src/Tests/Running.antt =====
-- Functions with loops at concrete trees.
use arnel_lang.Prelude.{
  ℕ, ◌+◌, ◌≤◌, ◌≡◌, refl, Bool, false, some, none, List, [], ◌∷◌, ◌++◌, length, ◌==◌, not, arith,
}
use arnel_lang.Prelude.Size.{add_size, sub_size}
use arnel_lang.View.{View, content, make}
use arnel_lang.Types.{TypeEntry, Sig, get_type}
use arnel_lang.Lexer.Keyword.{codes}
use arnel_lang.HashMap
use arnel_lang.HashMap.{
  HashMap, um_get, um_set, um_set_at, put, probe, bytes_eq, default_naive_hash, insert_all,
}
use arnel_lang.Ast.{
  plus, minus, neq, Ast, int_literal, binary, ident, decl_assignment, assignment, cond, while,
  block, expr_to_void, absent, node, nil, cons,
}
use arnel_lang.Parser.Result.{ok}
use arnel_lang.Parser.State.{Symbol}
use arnel_lang.Compiler.Code.{as_l, literal, Label, Line, copy, label, jnz, iftr, out}
use arnel_lang.Compiler.State.{Comp}
use arnel_lang.Compiler.Expr.{comp_expr, comp_target}
use arnel_lang.Compiler.Unit.{Compiler, function, comp_sym}
use arnel_lang.Compiler.Names.{name_discrete, same_names}
use arnel_lang.Compiler.Registers.{Registers, eval, size}
use arnel_lang.Compiler.Jumps.{find, run_code}
use arnel_lang.Compiler.Meaning.{
  Env, Scoping, assign, with_name, is_readable, meaning, meaning_list, repeat,
}
use arnel_lang.Compiler.Scoping.{IsBody}
use arnel_lang.Compiler.Scoping as Scoped
use arnel_lang.Compiler.Params.{IsParams, bind_params}
use arnel_lang.Compiler.Params as Params
use arnel_lang.Compiler.Numbering.{ids_of, Sound}
use arnel_lang.Compiler.Functions.{function_nodes}
use arnel_lang.Compiler.Symbols.{ids_list}
use arnel_lang.Compiler.HashLocals.{hash_locals, set_local, new_map}
use arnel_lang.Compiler.Hashed.{comp_expr-Sound, comp_sym-Returns}
use arnel_lang.Tests.Compiling.{op_value, put_in}
use arnel_lang.Tests.Tokens.{int_entry, types}

abbrev name : List ℕ → View
name bytes = make (record { addr = 64; bytes = bytes }) (length bytes)

abbrev at_n : View
at_n = name (codes "n")

abbrev at_s : View
at_s = name (codes "s")

abbrev read : View → Ast
read x = ident x

-- `s = s + n;` and `n = n - 1;`, with the right operand first
abbrev add_n : Ast
add_n = assignment (node (ident at_s)) (node (binary plus (node (ident at_n)) (node (ident at_s))))

abbrev count_down : Ast
count_down =
    assignment (node (ident at_n)) (node (binary minus (node (int_literal 1)) (node (ident at_n))))

-- `var s = 0; while (n != 0) { s = s + n; n = n - 1; };`
abbrev sum_nodes : List Ast
sum_nodes =
    decl_assignment at_s (node (int_literal 0))
    ∷ while (node (binary neq (node (int_literal 0)) (node (ident at_n)))) (
        node (
          block (
            cons (node add_n)
              (cons (node expr_to_void) (cons (node count_down) (cons (node expr_to_void) nil))))))
    ∷ []

abbrev nothing_yet : Scoping
nothing_yet _ = false

abbrev with_n : Scoping
with_n = with_name nothing_yet (content at_n)

abbrev with_s : Scoping
with_s = with_name with_n (content at_s)

sum-IsParams : IsParams nothing_yet (at_n ∷ []) with_n
sum-IsParams = Params.param at_n [] (λ e. cc) refl Params.nothing

sum-IsBody : IsBody with_n sum_nodes with_s 19
unfolding name_discrete same_names is_readable size
sum-IsBody = Scoped.next _ _ (Scoped.declares at_s (node (int_literal 0)) (λ e. cc) refl refl) (
    Scoped.next _ _
      (Scoped.loops false (node (binary neq (node (int_literal 0)) (node (ident at_n)))) _ refl (
        Scoped.voided add_n _ _
          (Scoped.assigns at_s (node (binary plus (node (ident at_n)) (node (ident at_s)))) refl
            refl)
          refl
          (Scoped.ended count_down
            (Scoped.assigns at_n (node (binary minus (node (int_literal 1)) (node (ident at_n))))
              refl refl)
            refl)))
      Scoped.nothing)

-- Two is given.
abbrev arguments : Registers
arguments _ = 2

abbrev given : Env
given = assign (λ _. none) (content at_n) (some 2)

abbrev set_s : Env → ℕ → Env
set_s env k = assign env (content at_s) (some k)

abbrev set_n : Env → ℕ → Env
set_n env k = assign env (content at_n) (some k)

-- After two rounds
abbrev summed : Env
summed = set_n (set_s (set_n (set_s (set_s given 0) 2) 1) 3) 0

abbrev is_true : ℕ → Bool
is_true k = not (k == 0)

sum-meaning :
    meaning_list op_value is_true 3 sum_nodes (bind_params (at_n ∷ []) 0 arguments (λ _. none))
    ≡ some summed
unfolding meaning_list meaning repeat bind_params eval name_discrete same_names
sum-meaning = refl

abbrev sum_sig : Sig
sum_sig = record { return_type_id = 0; arg_types = 0 ∷ [] }

abbrev sum_entry : TypeEntry
sum_entry = record { typename = name (codes "sum"); type_id = 1; type_info = some sum_sig }

abbrev sum_symbol : Symbol
sum_symbol = record {
  flags = 0;
  symbol_name = name (codes "sum");
  type = 1;
  body = function_nodes (at_n ∷ []) sum_nodes (node (ident at_s));
}

abbrev compiler : Compiler hash_locals new_map
compiler = record {
  definitions = [];
  scope = record { types = HashMap.init; symbols = HashMap.init; modules = HashMap.init };
  types = record types { types = int_entry ∷ sum_entry ∷ []; len = 2 };
  temps_stack = 0;
  ids = 0;
}

comp_sym-Returns_example :
    (comp' : Compiler hash_locals new_map) × (lines : List Line) × (comp_sym hash_locals new_map
        compiler sum_symbol
      ≡ ok comp')
    × (comp'.definitions ≡ [] ++ function (codes "sum") 1 lines ∷ [])
    × (k : ℕ) × ((j : ℕ) → run_code op_value is_true (k + j) lines lines arguments ≡ some 3)
unfolding get_type name_discrete same_names is_readable size eval ids_list ids_of
comp_sym-Returns_example =
    comp_sym-Returns op_value is_true 3 compiler sum_symbol sum_entry sum_sig (at_n ∷ []) sum_nodes
      (node (ident at_s)) with_n with_s 19 arguments summed 3 refl refl refl sum-IsParams sum-IsBody
      refl refl (omega arith) (omega arith) (omega arith) sum-meaning refl

abbrev n_map : HashMap ℕ
n_map = put_in (set_local new_map (content at_n) 0)

-- Two locals, `n` and `s`, in the first temporaries.
abbrev two_locals : Comp hash_locals
two_locals = record {
  output = [];
  temps_stack = 2;
  ids = 0;
  locals = put_in (set_local n_map (content at_s) 1);
}

-- `if (n) { n = 5; };`
abbrev branching : Ast
branching =
    cond (node (ident at_n))
      (node (block (cons (node (assignment (node (ident at_n)) (node (int_literal 5)))) nil)))
      absent

-- The state behind it
abbrev branched : Comp hash_locals
branched = record two_locals {
  output =
      jnz (as_l 0) (record { name = iftr; id = 0 }) (record { name = out; id = 2 })
      ∷ label (record { name = iftr; id = 0 })
      ∷ copy 0 (literal 5)
      ∷ copy 2 (as_l 0)
      ∷ label (record { name = out; id = 2 })
      ∷ [];
  temps_stack = 3;
  ids = 3;
}

branching-made : comp_expr hash_locals (λ _. none) branching two_locals ≡ some (as_l 2, branched)
unfolding comp_expr comp_target sub_size add_size um_get um_set um_set_at put probe bytes_eq
    default_naive_hash insert_all
branching-made = refl

two_locals-Sound : Sound hash_locals two_locals
unfolding find
two_locals-Sound = record {
  labelled = λ l before after e. absurd (no_line l before after e);
  ahead = λ l h. refl;
}
  where
    no_line : (l : Label) (before after : List Line) → [] ≡ before ++ label l ∷ after → ⊥
    no_line l [] after e = cc
    no_line l (b ∷ bs) after e = cc

comp_expr-Sound_example : Sound hash_locals branched × (0 ≤ 3) × (3 ≤ 0 + ids_of branching)
unfolding ids_of
comp_expr-Sound_example =
    comp_expr-Sound (λ _. none) branching two_locals (as_l 2) branched branching-made
      two_locals-Sound (omega arith)
