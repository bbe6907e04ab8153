-- ===== src/Parser/Node.antt =====
-- parser.c: what the parser reads and sets in a node.
use arnel_lang.Prelude.{ℕ, Bool, true, false, Option, none, some, List, [], ◌∷◌, ◌&&◌, ◌==◌}
use arnel_lang.View.{View}
use arnel_lang.Ast.{
  BinOp, eq, neq, Ast, int_literal, str_literal, binary, ret, call, call_finished, ident,
  decl_local, decl_assignment, cond, else_clause, assignment, while, block, open_paren,
  expr_to_void, Child, absent, node, Nodes, cons,
}
use arnel_lang.Parser.Prec

-- `BINARY(type, _prec, num)` for each operator
abbrev pub binary_prec : BinOp → ℕ
binary_prec op = elim op [ eq ↦ Prec.comparison | neq ↦ Prec.comparison | _ ↦ Prec.term ]

-- The `prec` that is set where a node is made.
unfoldable pub prec : Ast → ℕ
prec (int_literal _) = Prec.none
prec (str_literal _ _) = Prec.none
prec (binary op _ _) = binary_prec op
prec (ret _) = Prec.stmt
prec (call _) = Prec.call
prec (call_finished _ _) = Prec.none
prec (ident _) = Prec.primary
prec (decl_local _) = Prec.stmt
prec (decl_assignment _ _) = Prec.primary
prec (cond _ _ _) = Prec.stmt
prec else_clause = Prec.stmt
prec (assignment _ _) = Prec.assignment
prec (while _ _) = Prec.stmt
prec (block _) = Prec.stmt
prec open_paren = Prec.none
prec expr_to_void = Prec.stmt

-- Where `ready` is set to 1.
unfoldable pub ready : Ast → Bool
ready (ret _) = true
ready (cond _ _ _) = true
ready else_clause = true
ready (while _ _) = true
ready (block _) = true
ready expr_to_void = true
ready _ = false

-- `prec == PREC_STMT && ready == 1`
abbrev pub is_open_statement : Ast → Bool
is_open_statement op = prec op == Prec.stmt && ready op

abbrev pub as_child : Option Ast → Child
as_child none = absent
as_child (some a) = node a

-- Nodes in the order of memory, from a stack's items.
abbrev pub to_nodes : List Ast → Nodes → Nodes
to_nodes [] rest = rest
to_nodes (a ∷ items) rest = to_nodes items (cons (node a) rest)

-- `conditional->children[2].node = no_child; conditional->children[1].node = yes_child;`. A node
-- with fewer children is written behind its end; one that holds a name there is a misread, taken for a
-- fault too.
unfoldable pub set_branches : Ast → Child → Child → Option Ast
set_branches (cond test _ _) yes_child no_child = some (cond test yes_child no_child)
set_branches _ yes_child no_child = none

-- `((view_t*)&node->children[0])`, of a call
unfoldable pub call_name : Ast → Option View
call_name (call name) = some name
call_name _ = none
