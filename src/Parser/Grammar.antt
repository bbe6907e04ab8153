-- ===== src/Parser/Grammar.antt =====
-- The statements of the language, without calls and parenthesised operands: which tokens stand for
-- which nodes.
use arnel_lang.Prelude.{ℕ, ◌+◌, ◌<◌, ◌≡◌, some, List, [], ◌∷◌, ◌++◌, length}
use arnel_lang.Token.{
  Token, l_ident, l_return, l_semicolon, l_eq, l_var, l_if, l_else, l_while, l_lparen, l_rparen,
  l_lcurly, l_rcurly,
}
use arnel_lang.Ast.{
  Ast, ident, ret, assignment, decl_local, decl_assignment, cond, while, block, expr_to_void,
  absent, node, Nodes, nil, cons,
}
use arnel_lang.Parser.Reading.{operand_of, Reads}

-- The nodes of a block, from its values with the last one first: a value voided at the very end is the
-- value of the block.
unfoldable pub block_values : List Ast → List Ast
block_values [] = []
block_values (expr_to_void ∷ values) = values
block_values (a ∷ values) = a ∷ values

unfoldable pub listed : List Ast → Nodes → Nodes
listed [] nodes = nodes
listed (a ∷ values) nodes = listed values (cons (node a) nodes)

abbrev pub block_tree : List Ast → Ast
block_tree values = block (listed (block_values values) nil)

module _ (strtol : List ℕ → ℕ) where
  mutual
    -- A statement and its nodes, the last one first.
    pub data IsStatement : List Token → List Ast → Type 0 where
      returns :
          {ts : List Token} {nodes : List Ast} (r : Token) (us : List Token) (semi : Token)
          (a : Ast)
          → ts ≡ (r ∷ []) ++ (us ++ semi ∷ [])
          → r.type ≡ some l_return
          → Reads strtol us a
          → semi.type ≡ some l_semicolon
          → nodes ≡ ret (node a) ∷ []
          → IsStatement ts nodes
      expression :
          {ts : List Token} {nodes : List Ast} (us : List Token) (semi : Token) (a : Ast)
          → ts ≡ us ++ semi ∷ []
          → Reads strtol us a
          → semi.type ≡ some l_semicolon
          → nodes ≡ expr_to_void ∷ a ∷ []
          → IsStatement ts nodes
      assigns :
          {ts : List Token} {nodes : List Ast} (x e : Token) (us : List Token) (semi : Token)
          (a : Ast)
          → ts ≡ (x ∷ []) ++ ((e ∷ []) ++ (us ++ semi ∷ []))
          → x.type ≡ some l_ident
          → e.type ≡ some l_eq
          → Reads strtol us a
          → semi.type ≡ some l_semicolon
          → nodes ≡ expr_to_void ∷ assignment (node (ident x.lexeme)) (node a) ∷ []
          → IsStatement ts nodes
      local :
          {ts : List Token} {nodes : List Ast} (v x semi : Token)
          → ts ≡ v ∷ x ∷ semi ∷ []
          → v.type ≡ some l_var
          → x.type ≡ some l_ident
          → semi.type ≡ some l_semicolon
          → nodes ≡ decl_local x.lexeme ∷ []
          → IsStatement ts nodes
      -- The value is one operand.
      declares :
          {ts : List Token} {nodes : List Ast} (v x e o semi : Token) (a : Ast)
          → ts ≡ (v ∷ x ∷ e ∷ []) ++ ((o ∷ []) ++ semi ∷ [])
          → v.type ≡ some l_var
          → x.type ≡ some l_ident
          → e.type ≡ some l_eq
          → operand_of strtol o ≡ some a
          → semi.type ≡ some l_semicolon
          → nodes ≡ decl_assignment x.lexeme (node a) ∷ []
          → IsStatement ts nodes
      conditional :
          {ts : List Token} {nodes : List Ast} (i lp : Token) (us : List Token) (rp : Token)
          (bs : List Token) (semi : Token) (a b : Ast)
          → ts ≡ (i ∷ []) ++ ((lp ∷ []) ++ (us ++ ((rp ∷ []) ++ (bs ++ semi ∷ []))))
          → i.type ≡ some l_if
          → lp.type ≡ some l_lparen
          → Reads strtol us a
          → rp.type ≡ some l_rparen
          → IsBlock bs (b ∷ [])
          → semi.type ≡ some l_semicolon
          → nodes ≡ cond (node a) (node b) absent ∷ []
          → IsStatement ts nodes
      alternative :
          {ts : List Token} {nodes : List Ast} (i lp : Token) (us : List Token) (rp : Token)
          (bs : List Token) (el : Token) (cs : List Token) (semi : Token) (a b c : Ast)
          → ts
            ≡ (i ∷ [])
              ++ ((lp ∷ []) ++ (us ++ ((rp ∷ []) ++ (bs ++ ((el ∷ []) ++ (cs ++ semi ∷ []))))))
          → i.type ≡ some l_if
          → lp.type ≡ some l_lparen
          → Reads strtol us a
          → rp.type ≡ some l_rparen
          → IsBlock bs (b ∷ [])
          → el.type ≡ some l_else
          → IsBlock cs (c ∷ [])
          → semi.type ≡ some l_semicolon
          → nodes ≡ cond (node a) (node b) (node c) ∷ []
          → IsStatement ts nodes
      loops :
          {ts : List Token} {nodes : List Ast} (w lp : Token) (us : List Token) (rp : Token)
          (bs : List Token) (semi : Token) (a b : Ast)
          → ts ≡ (w ∷ []) ++ ((lp ∷ []) ++ (us ++ ((rp ∷ []) ++ (bs ++ semi ∷ []))))
          → w.type ≡ some l_while
          → lp.type ≡ some l_lparen
          → Reads strtol us a
          → rp.type ≡ some l_rparen
          → IsBlock bs (b ∷ [])
          → semi.type ≡ some l_semicolon
          → nodes ≡ while (node a) (node b) ∷ []
          → IsStatement ts nodes

    -- A block with at least one node, and with so few that the stack of its values need not grow.
    pub data IsBlock : List Token → List Ast → Type 0 where
      braces :
          {ts : List Token} {nodes : List Ast} (left : Token) (us : List Token) (right : Token)
          (n : Ast) (ns : List Ast)
          → ts ≡ (left ∷ []) ++ (us ++ right ∷ [])
          → left.type ≡ some l_lcurly
          → IsBody us (n ∷ ns)
          → right.type ≡ some l_rcurly
          → length ns + 3 < 12
          → nodes ≡ block_tree (n ∷ ns) ∷ []
          → IsBlock ts nodes

    pub data IsBody : List Token → List Ast → Type 0 where
      nothing : {ts : List Token} {nodes : List Ast} → ts ≡ [] → nodes ≡ [] → IsBody ts nodes
      more :
          {ts : List Token} {nodes : List Ast} (us ws : List Token) (ns ms : List Ast)
          → ts ≡ us ++ ws
          → IsStatement us ns
          → IsBody ws ms
          → nodes ≡ ms ++ ns
          → IsBody ts nodes
