-- ===== src/Ast.antt =====
-- parser.h: the syntax trees.
--
-- A node is its `ast_type_t` with the children that the code allocates for it. A child is absent
-- where the code leaves NULL or nothing; the nodes of a list are the elements behind the fixed ones.
use arnel_lang.Prelude.{ℕ}
use arnel_lang.View.{View, Ptr}

-- `A_INT_PLUS`, `A_INT_MUL`, `A_INT_MINUS`, `A_INT_DIV`, `A_INT_EQ`, `A_INT_NEQ`
pub data BinOp : Type 0 where
  plus mul minus div eq neq : BinOp

mutual
  pub data Ast : Type 0 where
    int_literal : ℕ → Ast
    str_literal : ℕ → Ptr → Ast
    binary : BinOp → Child → Child → Ast
    ret : Child → Ast
    call : View → Ast
    call_finished : View → Nodes → Ast
    ident : View → Ast
    decl_local : View → Ast
    decl_assignment : View → Child → Ast
    cond : Child → Child → Child → Ast
    else_clause : Ast
    assignment : Child → Child → Ast
    while : Child → Child → Ast
    block : Nodes → Ast
    open_paren : Ast
    expr_to_void : Ast

  pub data Child : Type 0 where
    absent : Child
    node : Ast → Child

  pub data Nodes : Type 0 where
    nil : Nodes
    cons : Child → Nodes → Nodes
