-- ===== src/Parser/State.antt =====
-- parser.h: `struct parser_t` and `symbol_t`; the steps on them that the functions of parser.c share.
use arnel_lang.Prelude.{ℕ, Option, none, List}
use arnel_lang.View.{View}
use arnel_lang.Token.{Token, TokenType}
use arnel_lang.Types.{TypeSystem}
use arnel_lang.Ast.{Ast, Child}
use arnel_lang.Parser.Result.{Result, ok, ◌>>=◌, or_fault}
use arnel_lang.Parser.Stack
use arnel_lang.Parser.Stack.{Stack, with_cap}
use arnel_lang.Parser.Source.{Source}
use arnel_lang.Parser.Node.{as_child}

-- `body` are the nodes of the function's body.
pub record Symbol : Type 0 where
  pub flags : ℕ
  pub symbol_name : View
  pub type : ℕ
  pub body : List Ast

-- A node of the program's root.
pub data Stmt : Type 0 where
  decl : Symbol → Stmt
  string : Ast → Stmt

-- `tok->type`, which may be unset.
abbrev pub type_of : Token → Result TokenType
type_of tok = or_fault tok.type

module _ (S : Source) where
  -- `types` is the global `typesystem`, which the parser reads and extends.
  pub record Parser : Type 0 where
    pub block : Stack Stmt
    pub values : Stack Ast
    pub operators : Stack Ast
    pub source : S.State
    pub now_symbol : Option Symbol
    pub types : TypeSystem

  -- `init_parser` on a cleared `struct parser_t`
  abbrev pub init : S.State → TypeSystem → Parser
  init source types = record {
    block = with_cap 12;
    values = with_cap 12;
    operators = with_cap 12;
    source = source;
    now_symbol = none;
    types = types;
  }

  abbrev pub next : Parser → Result (Token × Parser)
  next p = do (tok, s) ← or_fault (S.next p.source); ok (tok, record p { source = s })

  abbrev pub peek : Parser → ℕ → Result (Token × Parser)
  peek p k = do (tok, s) ← or_fault (S.peek p.source k); ok (tok, record p { source = s })

  abbrev pub put_value : Parser → Ast → Result Parser
  put_value p n = do s ← Stack.put p.values n; ok (record p { values = s })

  abbrev pub put_operator : Parser → Ast → Result Parser
  put_operator p n = do s ← Stack.put p.operators n; ok (record p { operators = s })

  abbrev pub put_statement : Parser → Stmt → Result Parser
  put_statement p n = do s ← Stack.put p.block n; ok (record p { block = s })

  -- `popval(p)` as a child, NULL from an empty stack.
  abbrev pub pop_value : Parser → Child × Parser
  pop_value p = let r = Stack.pop p.values in (as_child r.0, record p { values = r.1 })

  abbrev pub pop_operator : Parser → Option Ast × Parser
  pop_operator p = let r = Stack.pop p.operators in (r.0, record p { operators = r.1 })
