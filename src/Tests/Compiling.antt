-- ===== src/Tests/Compiling.antt =====
-- The code of expressions and declarations at concrete trees.
use arnel_lang.Prelude.{
  ℕ, ◌+◌, ◌-◌, ◌*◌, ◌/◌, ◌≡◌, refl, sym, ap, ◌∙◌, Option, none, some, List, [], ◌∷◌, ◌==◌,
  if◌then◌else◌, arith,
}
use mathlib.Core.Option.{some-injective}
use arnel_lang.Prelude.Size.{add_size, sub_size}
use arnel_lang.View.{View, make, content}
use arnel_lang.Lexer.Keyword.{codes}
use arnel_lang.Ast.{
  BinOp, plus, mul, minus, div, eq, neq, Ast, int_literal, binary, ident, decl_assignment, node,
  absent, cond, expr_to_void, ret, block, nil, cons,
}
use arnel_lang.HashMap.{
  HashMap, um_set, um_set_at, put, probe, bytes_eq, default_naive_hash, insert_all,
}
use arnel_lang.Compiler.HashLocals.{hash_locals, get_local, set_local, new_map, new_map-HasRoom}
use arnel_lang.Compiler.Code.{
  Val, as_l, literal, Line, operation, copy, return, label, jnz, iftr, out,
}
use arnel_lang.Compiler.State.{Comp}
use arnel_lang.Compiler.Expr.{comp_expr}
use arnel_lang.Compiler.Registers.{Registers, eval, size}
use arnel_lang.Compiler.Computes.{Agrees, Correct}
use arnel_lang.Compiler.Meaning.{assign, assign_self, assign_ne}
use arnel_lang.Compiler.Hashed.{comp_expr-Correct}
use arnel_lang.Compiler.Names.{name_discrete}

-- The map that an insertion gives
abbrev pub put_in : Option (HashMap ℕ) → HashMap ℕ
put_in r = elim r [ none ↦ new_map | some m ↦ m ]

abbrev pub no_symbols : List ℕ → Option (List ℕ)
no_symbols _ = none

abbrev pub op_value : BinOp → ℕ → ℕ → ℕ
op_value op a b = elim op [
  | plus ↦ a + b
  | mul ↦ a * b
  | minus ↦ a - b
  | div ↦ a / b
  | eq ↦ if a == b then 1 else 0
  | neq ↦ if a == b then 0 else 1
]

abbrev at_name : View
at_name = make (record { addr = 64; bytes = codes "n" }) 1

abbrev name_map : HashMap ℕ
name_map = put_in (set_local new_map (content at_name) 0)

name_put : set_local new_map (content at_name) 0 ≡ some name_map
unfolding um_set um_set_at put probe bytes_eq default_naive_hash insert_all
name_put = refl

-- One local, `n`, in the first temporary, with the value 5.
abbrev one_local : Comp hash_locals
one_local = record { output = []; temps_stack = 1; ids = 0; locals = name_map }

abbrev env : List ℕ → Option ℕ
env = assign (λ _. none) (content at_name) (some 5)

abbrev regs : Registers
regs _ = 5

name_found : get_local name_map (content at_name) ≡ some 0
name_found =
    hash_locals.get-set_self new_map name_map (content at_name) 0 (λ e. cc)
      (new_map-HasRoom 1 (omega arith)) name_put

one_local-Agrees : Agrees hash_locals no_symbols op_value env one_local regs
one_local-Agrees x m e = elim (name_discrete x (content at_name)) [
  | yes p ↦ (
    0,
    ap (get_local name_map) p ∙ name_found,
    omega arith,
    some-injective 5 m (sym (assign_self (λ _. none) (content at_name) x (some 5) p) ∙ e),
  )
  | no p ↦
      let nothing : none ≡ some m =
        sym (assign_ne (λ _. none) (content at_name) x (some 5) p) ∙ e in
      absurd cc
]

-- `2 + n`
abbrev sum : Ast
sum = binary plus (node (ident at_name)) (node (int_literal 2))

sum-value : eval op_value env sum ≡ some 7
unfolding eval
sum-value = rw (assign_self (λ _. none) (content at_name) (content at_name) (some 5) refl) refl

comp_expr-Correct_example :
    Correct hash_locals no_symbols op_value
      (comp_expr hash_locals no_symbols sum one_local)
      one_local
      regs
      7
unfolding size
comp_expr-Correct_example =
    comp_expr-Correct no_symbols op_value env sum one_local regs 7 sum-value one_local-Agrees
      (omega arith)

abbrev other : View
other = make (record { addr = 80; bytes = codes "x" }) 1

abbrev printed : Option (Val × Comp hash_locals) → List Line
printed r = elim r [ none ↦ [] | some p ↦ p.1.output ]

-- `1 + 2 * 3` with the right operand of the product on the left of the sum
sum-lines :
    printed (
      comp_expr hash_locals no_symbols
        (binary plus
          (node (binary mul (node (int_literal 3)) (node (int_literal 2))))
          (node (int_literal 1)))
        one_local)
    ≡ operation 1 mul (literal 2) (literal 3) ∷ operation 1 plus (literal 1) (as_l 1) ∷ []
unfolding comp_expr sub_size add_size
sum-lines = refl

-- `if 1 { return 4 }`, then `x := 3`: the return takes all temporaries back, and `x` gets the first
-- one, which holds `n`.
clobber-lines :
    printed (
      comp_expr hash_locals no_symbols
        (block (
          cons (node (cond (node (int_literal 1)) (node (ret (node (int_literal 4)))) absent)) (
            cons
              (node expr_to_void)
              (cons (node (decl_assignment other (node (int_literal 3)))) nil))))
        one_local)
    ≡ jnz (literal 1) (record { name = iftr; id = 0 }) (record { name = out; id = 2 })
      ∷ label (record { name = iftr; id = 0 })
      ∷ return (literal 4)
      ∷ label (record { name = out; id = 2 })
      ∷ copy 0 (literal 3)
      ∷ []
unfolding comp_expr sub_size add_size um_set um_set_at put probe bytes_eq default_naive_hash
    insert_all
clobber-lines = refl
