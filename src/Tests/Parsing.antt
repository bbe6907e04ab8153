-- ===== src/Tests/Parsing.antt =====
-- The parser at concrete token lists.
use arnel_lang.Prelude.{suc, ◌+◌, ◌≡◌, refl, none, some, List, [], ◌∷◌, ◌++◌, arith, map}
use arnel_lang.Ctype.{is_digit}
use arnel_lang.View.{cmp_eq, memcmp_eq}
use arnel_lang.Token.{
  Token, l_export, l_ident, l_integer, l_eq, l_eq2, l_plus, l_lparen, l_rparen, l_colon, l_arrow_r,
  l_lcurly, l_rcurly, l_semicolon, l_if, l_return, l_eof,
}
use arnel_lang.Types.{TypeSystem, alloc_type, put_entry, enlarge, get_type_for_name, find_name}
use arnel_lang.Ast.{
  Ast, plus, eq, int_literal, ident, binary, ret, cond, assignment, expr_to_void, absent, node,
}
use arnel_lang.Parser.Result.{ok}
use arnel_lang.Parser.State.{Symbol, decl, Parser, init}
use arnel_lang.Parser.Step.{parse_statements}
use arnel_lang.Parser.Program.{parse_top_level, parse}
use arnel_lang.Parser.Reading.{
  sign, level_of, operand_at, fold_sum, read_sum, Reads, sum, comparison,
}
use arnel_lang.Parser.Machine.{at}
use arnel_lang.Parser.Grammar.{
  block_tree, IsStatement, returns, assigns, conditional, IsBlock, braces, IsBody, nothing, more,
}
use arnel_lang.Parser.Body.{parse_statements-IsBody}
use arnel_lang.Parser.Signature.{HasType, signature}
use arnel_lang.Parser.TopLevel.{
  plain, exported, fresh, reading_order, IsDeclaration, declaration, within,
}
use arnel_lang.Parser.Listing.{parse_top_level-IsDeclaration}
use arnel_lang.Parser.Whole.{IsProgram, ended, declared, parse-IsProgram}
use arnel_lang.Tests.Tokens.{view_of, tok, decimal, list_source, int_entry, types, start}

-- x = a == 1;
abbrev assign_tokens : List Token
assign_tokens =
    tok l_ident "x"
    ∷ tok l_eq ""
    ∷ tok l_ident "a"
    ∷ tok l_eq2 ""
    ∷ tok l_integer "1"
    ∷ tok l_semicolon ""
    ∷ []

-- return a + 2;
abbrev return_tokens : List Token
return_tokens =
    tok l_return "" ∷ tok l_ident "a" ∷ tok l_plus "" ∷ tok l_integer "2" ∷ tok l_semicolon "" ∷ []

abbrev sum_tree : Ast
sum_tree = binary plus (node (int_literal 2)) (node (ident (view_of "a")))

abbrev test_tree : Ast
test_tree = binary eq (node (int_literal 1)) (node (ident (view_of "a")))

-- if (a) { return a + 2; };
abbrev if_tokens : List Token
if_tokens =
    tok l_if ""
    ∷ tok l_lparen ""
    ∷ tok l_ident "a"
    ∷ tok l_rparen ""
    ∷ tok l_lcurly ""
    ∷ (return_tokens ++ tok l_rcurly "" ∷ tok l_semicolon "" ∷ [])

abbrev assign_nodes : List Ast
assign_nodes = expr_to_void ∷ assignment (node (ident (view_of "x"))) (node test_tree) ∷ []

abbrev if_node : Ast
if_node = cond (node (ident (view_of "a"))) (node (block_tree (ret (node sum_tree) ∷ []))) absent

reads_sum : Reads decimal (tok l_ident "a" ∷ tok l_plus "" ∷ tok l_integer "2" ∷ []) sum_tree
unfolding read_sum fold_sum operand_at sign level_of is_digit
reads_sum = sum refl

reads_test : Reads decimal (tok l_ident "a" ∷ tok l_eq2 "" ∷ tok l_integer "1" ∷ []) test_tree
unfolding read_sum fold_sum operand_at sign level_of is_digit
reads_test =
    comparison (tok l_ident "a" ∷ []) (tok l_eq2 "") (tok l_integer "1" ∷ []) eq
      (ident (view_of "a")) (int_literal 1) refl refl refl refl refl

reads_name : Reads decimal (tok l_ident "a" ∷ []) (ident (view_of "a"))
unfolding read_sum fold_sum operand_at
reads_name = sum refl

is_return : IsStatement decimal return_tokens (ret (node sum_tree) ∷ [])
is_return =
    returns (tok l_return "") (tok l_ident "a" ∷ tok l_plus "" ∷ tok l_integer "2" ∷ [])
      (tok l_semicolon "") sum_tree refl refl reads_sum refl refl

is_assignment : IsStatement decimal assign_tokens assign_nodes
is_assignment =
    assigns (tok l_ident "x") (tok l_eq "")
      (tok l_ident "a" ∷ tok l_eq2 "" ∷ tok l_integer "1" ∷ []) (tok l_semicolon "") test_tree refl
      refl refl reads_test refl refl

is_block :
    IsBlock decimal
      (tok l_lcurly "" ∷ (return_tokens ++ tok l_rcurly "" ∷ []))
      (block_tree (ret (node sum_tree) ∷ []) ∷ [])
is_block =
    braces (tok l_lcurly "") return_tokens (tok l_rcurly "") (ret (node sum_tree)) [] refl refl
      (more return_tokens [] (ret (node sum_tree) ∷ []) [] refl is_return (nothing refl refl) refl)
      refl (omega arith) refl

is_if : IsStatement decimal if_tokens (if_node ∷ [])
is_if =
    conditional (tok l_if "") (tok l_lparen "") (tok l_ident "a" ∷ []) (tok l_rparen "")
      (tok l_lcurly "" ∷ (return_tokens ++ tok l_rcurly "" ∷ [])) (tok l_semicolon "")
      (ident (view_of "a")) (block_tree (ret (node sum_tree) ∷ [])) refl refl refl reads_name refl
      is_block refl refl

abbrev body_tokens : List Token
body_tokens = assign_tokens ++ (if_tokens ++ return_tokens)

abbrev body_nodes : List Ast
body_nodes = ret (node sum_tree) ∷ if_node ∷ assign_nodes

is_body : IsBody decimal body_tokens body_nodes
is_body =
    more assign_tokens (if_tokens ++ return_tokens) assign_nodes
      (ret (node sum_tree) ∷ if_node ∷ []) refl is_assignment
      (more if_tokens return_tokens (if_node ∷ []) (ret (node sum_tree) ∷ []) refl is_if
        (more return_tokens [] (ret (node sum_tree) ∷ []) [] refl is_return (nothing refl refl)
          refl)
        refl)
      refl

parse_statements-IsBody_example :
    (s' : List Token) × (s' ≡ tok l_rcurly "" ∷ tok l_semicolon "" ∷ [])
    × (parse_statements list_source decimal (23 + suc 0) (
          at list_source decimal
            (start [])
            []
            []
            (body_tokens ++ tok l_rcurly "" ∷ tok l_semicolon "" ∷ []))
        ≡ ok (at list_source decimal (start []) (body_nodes ++ []) [] s'))
parse_statements-IsBody_example =
    parse_statements-IsBody list_source decimal (start []) [] body_tokens body_nodes
      (tok l_rcurly "") (tok l_semicolon "" ∷ [])
      (body_tokens ++ tok l_rcurly "" ∷ tok l_semicolon "" ∷ []) 0 is_body refl refl refl
      (omega arith) (omega arith)

-- export main = (): int -> { … };
abbrev main_tokens : List Token
main_tokens =
    tok l_export ""
    ∷ tok l_ident "main"
    ∷ tok l_eq ""
    ∷ tok l_lparen ""
    ∷ tok l_rparen ""
    ∷ tok l_colon ""
    ∷ tok l_ident "int"
    ∷ tok l_arrow_r ""
    ∷ tok l_lcurly ""
    ∷ (body_tokens ++ tok l_rcurly "" ∷ tok l_semicolon "" ∷ [])

abbrev main_symbol : Symbol
main_symbol = record {
  flags = 1;
  symbol_name = view_of "main";
  type = 1;
  body = reading_order body_nodes;
}

abbrev main_types : TypeSystem
main_types = record types {
  types =
      int_entry
      ∷ record {
        typename = view_of "main";
        type_id = 1;
        type_info = some (record { return_type_id = 0; arg_types = [] });
      }
      ∷ [];
  len = 2;
}

main_type :
    HasType types
      (view_of "main")
      (tok l_lparen "" ∷ tok l_rparen "" ∷ tok l_colon "" ∷ tok l_ident "int" ∷ [])
      1
      main_types
unfolding alloc_type put_entry enlarge get_type_for_name find_name cmp_eq memcmp_eq
main_type =
    signature (tok l_lparen "") (tok l_rparen "") (tok l_colon "") (tok l_ident "int") int_entry
      (record { typename = view_of "main"; type_id = 1; type_info = none })
      (record types {
        types =
            int_entry ∷ record { typename = view_of "main"; type_id = 1; type_info = none } ∷ [];
        len = 2;
      })
      refl refl refl refl refl refl refl refl refl

is_main : IsDeclaration decimal types main_tokens main_symbol main_types
is_main =
    declaration (tok l_export "" ∷ []) (tok l_ident "main") (tok l_eq "")
      (tok l_lparen "" ∷ tok l_rparen "" ∷ tok l_colon "" ∷ tok l_ident "int" ∷ [])
      (tok l_arrow_r "") (tok l_lcurly "") body_tokens (tok l_rcurly "") (tok l_semicolon "")
      (record fresh { flags = 1 }) 1 body_nodes refl (exported (tok l_export "") [] refl refl plain)
      refl refl main_type refl refl is_body refl refl (omega arith) refl

parse_top_level-IsDeclaration_example :
    (now : Symbol) × (s' : List Token) × (s' ≡ tok l_eof "" ∷ [])
    × (parse_top_level list_source decimal 40
          (within list_source decimal (start []) none types [] (main_tokens ++ tok l_eof "" ∷ []))
        ≡ ok (some main_symbol, within list_source decimal (start []) (some now) main_types [] s'))
parse_top_level-IsDeclaration_example =
    parse_top_level-IsDeclaration list_source decimal (start []) 40 types main_tokens main_symbol
      main_types (tok l_eof "" ∷ []) (main_tokens ++ tok l_eof "" ∷ []) is_main (omega arith)
      (omega arith) (omega arith) refl

is_program :
    IsProgram decimal main_types types (main_tokens ++ tok l_eof "" ∷ []) (main_symbol ∷ [])
is_program =
    declared main_tokens (tok l_eof "" ∷ []) main_symbol main_types [] refl is_main
      (ended (tok l_eof "") refl refl refl refl) refl

parse-IsProgram_example :
    (q : Parser list_source) × (q.source ≡ [])
    × (q.types ≡ main_types)
    × (parse list_source decimal 40 (init list_source (main_tokens ++ tok l_eof "" ∷ []) types)
        ≡ ok (map decl (main_symbol ∷ []), q))
parse-IsProgram_example =
    parse-IsProgram list_source decimal 40 types main_types (main_tokens ++ tok l_eof "" ∷ [])
      (main_symbol ∷ []) [] (main_tokens ++ tok l_eof "" ∷ []) is_program (omega arith)
      (omega arith) refl
