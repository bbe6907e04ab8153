-- ===== src/Tests/Misreading.antt =====
-- The parser's stacks, and token lists outside the grammar.
use arnel_lang.Prelude.{ℕ, suc, ◌+◌, ◌<◌, ◌≤◌, ◌≡◌, refl, none, some, List, [], ◌∷◌, length, arith}
use arnel_lang.Ctype.{is_digit}
use arnel_lang.View.{cmp_eq, memcmp_eq}
use arnel_lang.Token.{
  Token, l_ident, l_integer, l_eq, l_plus, l_lparen, l_rparen, l_colon, l_rcurly, l_semicolon,
  l_eof, l_var,
}
use arnel_lang.Types.{alloc_type, put_entry, enlarge, get_type_for_name, find_name}
use arnel_lang.Ast.{plus, int_literal, ident, binary, expr_to_void, decl_assignment, node}
use arnel_lang.Parser.Result.{ok, fault, out_of_fuel}
use arnel_lang.Parser.Stack
use arnel_lang.Parser.Stack.{Stack}
use arnel_lang.Parser.Step.{parse_statements}
use arnel_lang.Parser.Program.{parse_type}
use arnel_lang.Parser.Reading.{sign, level_of, operand_at}
use arnel_lang.Parser.Machine.{at}
use arnel_lang.Parser.Capacity.{put-IsRoomy}
use arnel_lang.Parser.Calls.{parse_statements-call}
use arnel_lang.Parser.Limits.{stop, again, parse_statements-IsEnd, parse_statements-declaration}
use arnel_lang.Parser.Signature.{parse_type-parameter}
use arnel_lang.Parser.TopLevel.{fresh}
use arnel_lang.Tests.Tokens.{view_of, tok, decimal, list_source, int_entry, types, start}

-- f(a)
abbrev call_tokens : List Token
call_tokens = tok l_ident "f" ∷ tok l_lparen "" ∷ tok l_ident "a" ∷ tok l_rparen "" ∷ []

parse_statements-call_example :
    parse_statements list_source decimal
      (3 + suc 5)
      (at list_source decimal (start []) [] [] call_tokens)
    ≡ fault
unfolding operand_at
parse_statements-call_example =
    parse_statements-call list_source decimal (start []) [] [] (tok l_ident "f") (tok l_lparen "")
      (tok l_ident "a") (tok l_rparen "") (ident (view_of "a")) [] call_tokens 5 refl refl refl refl
      refl (omega arith) (omega arith)

parse_statements-IsEnd_example :
    parse_statements list_source decimal 2
      (at list_source decimal (start []) [] [] (tok l_eof "" ∷ tok l_eof "" ∷ []))
    ≡ out_of_fuel
parse_statements-IsEnd_example =
    parse_statements-IsEnd list_source decimal (start []) [] [] (tok l_eof "" ∷ tok l_eof "" ∷ [])
      (tok l_eof "" ∷ tok l_eof "" ∷ []) (again refl (again refl stop)) refl

-- var x = a + 2; }
abbrev var_tokens : List Token
var_tokens =
    tok l_var ""
    ∷ tok l_ident "x"
    ∷ tok l_eq ""
    ∷ tok l_ident "a"
    ∷ tok l_plus ""
    ∷ tok l_integer "2"
    ∷ tok l_semicolon ""
    ∷ tok l_rcurly ""
    ∷ []

parse_statements-declaration_example :
    (s' : List Token) × (s' ≡ tok l_rcurly "" ∷ [])
    × (parse_statements list_source decimal
          (7 + suc 0)
          (at list_source decimal (start []) [] [] var_tokens)
        ≡ ok (
            at list_source decimal
              (start [])
              (expr_to_void
                ∷ binary plus
                    (node (int_literal 2))
                    (node (decl_assignment (view_of "x") (node (ident (view_of "a")))))
                ∷ [])
              []
              s'))
unfolding operand_at sign level_of is_digit
parse_statements-declaration_example =
    parse_statements-declaration list_source decimal (start []) [] (tok l_var "") (tok l_ident "x")
      (tok l_eq "") (tok l_ident "a") (tok l_plus "") (tok l_integer "2") (tok l_semicolon "")
      (tok l_rcurly "") (ident (view_of "a")) (int_literal 2) plus [] var_tokens 0 refl refl refl
      refl refl refl refl refl refl (omega arith) (omega arith)

put-IsRoomy_example :
    (s' : Stack ℕ) × (Stack.put (record { cap = 2; items = 5 ∷ 6 ∷ [] }) 4 ≡ ok s')
    × (s'.items ≡ 4 ∷ 5 ∷ 6 ∷ [])
    × ((0 < s'.cap) × (length s'.items ≤ s'.cap))
    × (s'.cap ≡ 4)
    × (Stack.pop s' ≡ (some 4, record s' { items = 5 ∷ 6 ∷ [] }))
put-IsRoomy_example =
    put-IsRoomy (record { cap = 2; items = 5 ∷ 6 ∷ [] }) 4 (omega arith, omega arith) (omega arith)

-- (x: int
abbrev parameter_tokens : List Token
parameter_tokens = tok l_lparen "" ∷ tok l_ident "x" ∷ tok l_colon "" ∷ tok l_ident "int" ∷ []

parse_type-parameter_example :
    parse_type list_source decimal 3 (record (start parameter_tokens) {
      now_symbol = some (record fresh { symbol_name = view_of "main" });
    })
    ≡ fault
unfolding alloc_type put_entry enlarge get_type_for_name find_name cmp_eq memcmp_eq
parse_type-parameter_example =
    parse_type-parameter list_source decimal 0
      (record (start parameter_tokens) {
        now_symbol = some (record fresh { symbol_name = view_of "main" });
      })
      (record fresh { symbol_name = view_of "main" }) (tok l_lparen "") (tok l_ident "x")
      (tok l_colon "") (tok l_ident "int") 1
      (record types {
        types =
            int_entry ∷ record { typename = view_of "main"; type_id = 1; type_info = none } ∷ [];
        len = 2;
      })
      int_entry [] refl refl refl refl refl refl refl refl (omega arith)
