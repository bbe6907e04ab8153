-- ===== src/Tests/Texts.antt =====
-- The compiler on a text.
use Prim.Native.String.{String}
use arnel_lang.Prelude.{
  ℕ, ◌+◌, ◌≡◌, refl, Option, none, some, true, false, not, ◌==◌, List, [], ◌∷◌, ◌++◌, map, arith,
}
use arnel_lang.Prelude.Size.{add_size, sub_size}
use arnel_lang.Ctype.{is_digit, is_alnum, is_space}
use arnel_lang.View.{View, Ptr, make, scan, chopn, chop_predicate, memcmp_eq, no_view, cmp_eq}
use arnel_lang.DynArray
use arnel_lang.Token.{
  Token, TokenType, l_ident, l_eq, l_lparen, l_rparen, l_colon, l_arrow_r, l_lcurly, l_rcurly,
  l_return, l_integer, l_semicolon, l_eof, l_star, l_plus,
}
use arnel_lang.Lexer.State.{lexer_init, trim_left, trim_from, chop_one}
use arnel_lang.Lexer.Keyword.{codes, check_kw}
use arnel_lang.Lexer.Number.{lex_num, lex_num_loop}
use arnel_lang.Lexer.Word.{lex_word, word_predicate}
use arnel_lang.Lexer.Next.{
  next_raw, dispatch, one_char_token, two_char_tokens, three_char_tokens, lex_operator,
  choose_second, lex_string, find_quote,
}
use arnel_lang.HashMap
use arnel_lang.HashMap.{
  HashMap, um_set, um_set_at, put, probe, bytes_eq, default_naive_hash, insert_all,
}
use arnel_lang.Ast.{Ast, int_literal, ret, node, binary, plus, mul}
use arnel_lang.Types.{
  Sig, TypeSystem, alloc_type, put_entry, enlarge, get_type_for_name, find_name, get_type,
}
use arnel_lang.Lexer.Stream.{Yields, nothing, more}
use arnel_lang.Parser.Result.{ok, ◌>>=◌}
use arnel_lang.Parser.State.{Symbol, decl}
use arnel_lang.Parser.Reading.{sign, level_of, operand_at, fold_sum, read_sum, sum}
use arnel_lang.Parser.Grammar.{IsStatement, returns, IsBody}
use arnel_lang.Parser.Grammar as Grammar
use arnel_lang.Parser.Signature.{HasType, signature}
use arnel_lang.Parser.TopLevel.{plain, fresh, declaration}
use arnel_lang.Parser.Whole.{IsProgram, ended, declared}
use arnel_lang.Compiler.Code.{return, literal, operation, as_l}
use arnel_lang.Compiler.Expr.{comp_expr}
use arnel_lang.Compiler.Scope.{scope_put_scoped}
use arnel_lang.Compiler.Unit.{
  Compiler, function, cleared, declare_statements, comp_statements, comp_sym, comp_nodes, comp_view,
}
use arnel_lang.Compiler.Code.{Line}
use arnel_lang.Compiler.Unit.{Definition}
use arnel_lang.Compiler.Scope.{Scope}
use arnel_lang.Parser.Result.{Result}
use arnel_lang.Compiler.Registers.{eval, size}
use arnel_lang.Compiler.Jumps.{run_code}
use arnel_lang.Compiler.Meaning.{is_readable, meaning_list}
use arnel_lang.Compiler.Scoping as Scoped
use arnel_lang.Compiler.Params as Params
use arnel_lang.Compiler.Params.{bind_params}
use arnel_lang.Compiler.Numbering.{ids_of}
use arnel_lang.Compiler.Symbols.{ids_list}
use arnel_lang.Compiler.Programs as Programs
use arnel_lang.Compiler.Programs.{IsFunction, ids_symbols}
use arnel_lang.Compiler.HashLocals.{hash_locals, new_map}
use arnel_lang.Compiler.Hashed.{comp_view-Returns}
use arnel_lang.Tests.Compiling.{op_value}
use arnel_lang.Tests.Tokens.{view_of, decimal, int_entry, types}

-- f=():int->{return 2*3+1;};
abbrev text : View
text = view_of "f=():int->{return 2*3+1;};"

-- The bytes from one of them on.
abbrev from : ℕ → String → Ptr
from at s = record { addr = 4096 + at; bytes = codes s ++ 0 ∷ [] }

abbrev mark : TokenType → ℕ → Token
mark t col = record { lexeme = no_view; type = some t; line = 0; col = col }

abbrev word : TokenType → Ptr → ℕ → ℕ → Token
word t chars len col = record { lexeme = make chars len; type = some t; line = 0; col = col }

abbrev name_token : Token
name_token = word l_ident (from 0 "f=():int->{return 2*3+1;};") 1 0

abbrev int_token : Token
int_token = word l_ident (from 5 "int->{return 2*3+1;};") 3 6

abbrev return_token : Token
return_token = word l_return (from 11 "return 2*3+1;};") 6 13

-- `2*3+1`
abbrev value_tokens : List Token
value_tokens =
    word l_integer (from 18 "2*3+1;};") 1 21
    ∷ mark l_star 23
    ∷ word l_integer (from 20 "3+1;};") 1 24
    ∷ mark l_plus 26
    ∷ word l_integer (from 22 "1;};") 1 27
    ∷ []

abbrev type_tokens : List Token
type_tokens = mark l_lparen 3 ∷ mark l_rparen 4 ∷ mark l_colon 5 ∷ int_token ∷ []

abbrev return_tokens : List Token
return_tokens = return_token ∷ (value_tokens ++ mark l_semicolon 29 ∷ [])

abbrev function_tokens : List Token
function_tokens =
    name_token
    ∷ mark l_eq 2
    ∷ (type_tokens
        ++ (mark l_arrow_r 10
            ∷ mark l_lcurly 12
            ∷ (return_tokens ++ (mark l_rcurly 30 ∷ mark l_semicolon 31 ∷ []))))

abbrev text_tokens : List Token
text_tokens = function_tokens ++ mark l_eof 32 ∷ []

yielded : Yields (lexer_init true cleared text) (text_tokens ++ [])
unfolding lexer_init DynArray.init add_size sub_size is_digit is_alnum is_space scan chopn
    chop_predicate memcmp_eq trim_left trim_from chop_one check_kw lex_num lex_num_loop lex_word
    word_predicate next_raw dispatch one_char_token two_char_tokens three_char_tokens lex_operator
    choose_second lex_string find_quote
yielded = more refl (
    more refl (
      more refl (
        more refl (
          more refl (
            more refl (
              more refl (
                more refl (
                  more refl (
                    more refl (
                      more refl (
                        more refl (
                          more refl (
                            more refl (
                              more refl
                                (more refl (more refl (more refl (nothing _))))))))))))))))))

abbrev value : Ast
value =
    binary plus (node (int_literal 1))
      (node (binary mul (node (int_literal 3)) (node (int_literal 2))))

is_return : IsBody decimal return_tokens (ret (node value) ∷ [])
unfolding read_sum fold_sum operand_at sign level_of is_digit
is_return =
    Grammar.more return_tokens [] (ret (node value) ∷ []) [] refl
      (returns return_token value_tokens (mark l_semicolon 29) value refl refl (sum refl) refl refl)
      (Grammar.nothing refl refl) refl

abbrev symbol : Symbol
symbol = record {
  flags = 0;
  symbol_name = name_token.lexeme;
  type = 1;
  body = ret (node value) ∷ [];
}

-- The table with one more entry, and with its signature
abbrev types_with : Option Sig → TypeSystem
types_with info = record types {
  types = int_entry ∷ record { typename = name_token.lexeme; type_id = 1; type_info = info } ∷ [];
  len = 2;
}

abbrev no_parameters : Sig
no_parameters = record { return_type_id = 0; arg_types = [] }

has_type : HasType types name_token.lexeme type_tokens 1 (types_with (some no_parameters))
unfolding alloc_type put_entry enlarge get_type_for_name find_name cmp_eq memcmp_eq
has_type =
    signature (mark l_lparen 3) (mark l_rparen 4) (mark l_colon 5) int_token int_entry
      (record { typename = name_token.lexeme; type_id = 1; type_info = none }) (types_with none)
      refl refl refl refl refl refl refl refl refl

is_program : IsProgram decimal (types_with (some no_parameters)) types text_tokens (symbol ∷ [])
is_program =
    declared function_tokens (mark l_eof 32 ∷ []) symbol (types_with (some no_parameters)) [] refl
      (declaration [] name_token (mark l_eq 2) type_tokens (mark l_arrow_r 10) (mark l_lcurly 12)
        return_tokens (mark l_rcurly 30) (mark l_semicolon 31) fresh 1 (ret (node value) ∷ []) refl
        plain refl refl has_type refl refl is_return refl refl (omega arith) refl)
      (ended (mark l_eof 32) refl refl refl refl) refl

abbrev compiler : Compiler hash_locals new_map
compiler = record {
  definitions = [];
  scope = record { types = HashMap.init; symbols = HashMap.init; modules = HashMap.init };
  types = types;
  temps_stack = 0;
  ids = 0;
}

-- What these phases print: a function without parameters that returns `2*3+1`.
printed_function :
    (declare_statements hash_locals new_map (map decl (symbol ∷ [])) compiler.scope >>= λ scope.
    comp_statements hash_locals new_map
      (map decl (symbol ∷ []))
      (record compiler { scope = scope; types = types_with (some no_parameters) })
    >>= λ c. ok c.definitions)
    ≡ ok (
        function (codes "f") 0 (
          operation 0 mul (literal 2) (literal 3)
          ∷ operation 0 plus (as_l 0) (literal 1)
          ∷ return (as_l 0)
          ∷ [])
        ∷ [])
unfolding declare_statements comp_statements comp_sym comp_nodes comp_expr get_type scope_put_scoped
    um_set um_set_at put probe bytes_eq default_naive_hash insert_all sub_size add_size
printed_function = refl

abbrev scope_of : Result Scope → Scope
scope_of r = elim r [ ok scope ↦ scope | _ ↦ compiler.scope ]

abbrev with_symbol : Scope
with_symbol =
    scope_of (declare_statements hash_locals new_map (map decl (symbol ∷ [])) compiler.scope)

symbol_put :
    declare_statements hash_locals new_map (map decl (symbol ∷ [])) compiler.scope ≡ ok with_symbol
unfolding declare_statements scope_put_scoped um_set um_set_at put probe bytes_eq default_naive_hash
    insert_all
symbol_put = refl

unfoldable is_function : IsFunction (types_with (some no_parameters)) symbol
unfolding get_type size is_readable
is_function = record {
  entry = record { typename = name_token.lexeme; type_id = 1; type_info = some no_parameters };
  sig = no_parameters;
  params = [];
  nodes = [];
  result = node value;
  scope = λ _. false;
  after = λ _. false;
  weight = 0;
  found = refl;
  typed = refl;
  shape = refl;
  declared = Params.nothing;
  body = Scoped.nothing;
  readable = refl;
  small = omega arith;
  few_names = omega arith;
}

comp_view-Returns_example :
    (comp' : Compiler hash_locals new_map) × (comp_view hash_locals new_map decimal none 18 compiler
        text
      ≡ ok comp')
    × (before : List Definition) × (lines : List Line) × (behind : List Definition)
    × (comp'.definitions ≡ [] ++ (before ++ function (codes "f") 0 lines ∷ behind))
    × (k : ℕ) × ((j : ℕ)
        → run_code op_value (λ n. not (n == 0)) (k + j) lines lines (λ _. 0) ≡ some 7)
unfolding eval meaning_list bind_params ids_symbols ids_list ids_of is_function
comp_view-Returns_example =
    comp_view-Returns op_value (λ n. not (n == 0)) 0 decimal none 18 compiler text
      (types_with (some no_parameters)) text_tokens [] [] symbol [] with_symbol is_function (λ _. 0)
      (λ _. none) 7 yielded is_program (omega arith) (omega arith) symbol_put Programs.empty
      Programs.empty refl (omega arith) refl refl
