-- ===== src/Lib.antt =====
-- arnel-lang: a compiler for a small language to the intermediate language of qbe. A source text is
-- read by a lexer (lexer.c), a parser builds syntax trees with three stacks (parser.c), and the
-- compiler prints instructions (compiler.c). The table of types (types.c), hash maps (hashmap.h) and
-- byte views and buffers (bytes.h) serve all of them.
--
-- Which file models which part:
--  - Prelude: shared names, Boolean tests, lists over the native numbers, `size_t` arithmetic.
--  - Ctype: the character classes of <ctype.h> that the lexer uses.
--  - View: bytes.h, `view_t`. A pointer is its address and the bytes readable from it; the functions
--    keep their names without the prefix `view_`.
--  - Buf: bytes.h, `buf_t`, names without `buf_`. Buf.Laws has the writes, Buf.Words the byte orders,
--   Buf.Slices the views into a buffer.
--  - DynArray: the array of tokens in lexer.c, which writes out the macro of da.h.
--  - HashMap: hashmap.h. HashMap.Slots has the path of a key, HashMap.Valid the invariant and `um_get`,
--   HashMap.Change a changed slot, HashMap.Put `um_set` with room left, HashMap.Rehash `__rehash`, HashMap.Set both together.
--  - Token, Lexer: lexer.h and lexer.c. Lexer.State has the state and `trim_left`, Lexer.Keyword
--   `check_kw`, Lexer.Number `lex_num`, Lexer.Word `lex_word`, Lexer.Next `__next_token` (as
--   `next_raw`), Lexer.Queue `next_token` and `peek_token`. The proofs are in Lexer.Keyword.Spec and
--   below Lexer.Laws; Lexer.Stream, Lexer.Refill and Lexer.Source have the tokens that look-ahead and
--   reading deliver, and the lexer as the parser's source.
--  - Types: types.c, the table of types and the stack of type ids.
--  - Ast: parser.h, the syntax trees.
--  - Parser: parser.c and parser.h. Parser.Result says how a function ends, Parser.Stack has `asts_t`,
--   Parser.Source the interface to the lexer, Parser.Prec and Parser.Node what the parser reads and
--   sets in a node, Parser.State `struct parser_t`, Parser.Expr `sub_expr` and the cases of `__parse`
--   for operators and parentheses, Parser.Step the other cases and `__parse` itself, as `parse_step`,
--   Parser.Program `parse_type`, `parse_top_level` and `parse`. The grammar, which says what the tokens
--   mean without the two stacks, is in Parser.Reading (expressions), Parser.Grammar (statements,
--   blocks, bodies), Parser.Signature (types), Parser.TopLevel (declarations) and Parser.Whole
--   (programs). The grammar has its own table of operators; what the parser has no documented reading
--   for, `*` or `/` behind `+` or `-` without parentheses, is not in it. Parser.Machine says that some tokens take the stacks from one state to another;
--   Parser.Sums, Parser.Statements, Parser.Blocks, Parser.Braces, Parser.Declarations and Parser.Forms
--   have this for each piece of a statement, Parser.Body, Parser.Listing and Parser.Whole for the
--   grammar. Parser.Capacity has the growth of the stacks, Parser.Calls and Parser.Limits what the
--   parser does outside the grammar.
--  - Compiler: compiler.c, `__comp_expr` and all that it calls, as `comp_expr`. Compiler.Code has the
--   values and the printed lines, Compiler.State `struct compiler_t`, Compiler.Locals the interface of
--   the map of locals, Compiler.HashLocals the hash map that fills it, Compiler.Registers what lines
--   and expressions mean, Compiler.Names when two names are the same. The proofs for
--   expressions are in Compiler.Computes and Compiler.Correct. Compiler.Scope has
--   `struct scope`, Compiler.Unit `comp_sym`, `comp_view` and `comp_file`, where the lexer, the parser
--   and the compiler meet, and Compiler.Texts the proof for a whole text.
--   What whole functions do: Compiler.Jumps runs code with labels and jumps, Compiler.Meaning
--   interprets the syntax trees, and Compiler.Scoping says which statements keep to their scopes.
--   Compiler.Layout has where the names in scope are stored, Compiler.Simulation what it means that
--   the code of a statement runs as the interpreter says. Compiler.Leaves, Compiler.Simple and
--   Compiler.Assigns have this for statements without parts, Compiler.Branching, Compiler.Branches,
--   Compiler.Conditionals and Compiler.Alternatives for conditionals, Compiler.Looping and
--   Compiler.Loops for loops, Compiler.Sequence and Compiler.Bodies for blocks, Compiler.Params and Compiler.Functions for
--   functions, Compiler.Symbols for `comp_sym` and Compiler.Programs for a file. Compiler.Hashed has
--   the results with the hash map for the locals. The numbers of the
--   labels are the subject of Compiler.Labels, Compiler.Numbering, Compiler.Unique, Compiler.Rounds,
--   Compiler.Finishes and Compiler.Numbers.
--  - Tests: runs at concrete inputs, and the theorems at inputs that meet their hypotheses.
--
-- Conventions. A fault (a read or write out of range, or a call that never returns) is `none` of
-- an `Option`. A field that the code leaves unset is `none` too. `size_t` values are naturals;
-- where the code subtracts from the length of a text or counts lines and columns the result is
-- taken modulo 2 ^ 64. Loops over memory recur on the readable bytes, so they need no fuel; the
-- loop of `peek_token` has one round more than the tokens that it is asked for, and each round
-- adds one. The loops of the hash map have as many rounds as there are slots, after which every
-- slot has been looked at; `um_set` calls itself once through the rehash, which leaves room.
-- A function of the parser ends with a value, at `exit`, in a fault, or with its rounds used up; the
-- loops over tokens have a number of rounds as an argument, and one round for each token is enough for
-- what the grammar covers, while an operator's loops have one for each operator on the stack. `strtol`
-- is a parameter of the parser.
-- What qbe's operations compute and which values `jnz` takes as true are parameters. `run_code` has
-- fuel for the lines that it runs, and the theorems say that all fuel from some amount on gives the
-- result. Labels' numbers stay below 2 ^ 31, where `%u` and `%d` print the same, and names compared
-- below 2 ^ 32 bytes, where `view_cmp` tells lengths apart. A function's names stay below 2 ^ 20, for
-- which the load of the hash map is the same in floats. The interpreter bounds the rounds of each loop by a parameter; a loop with more rounds has
-- no meaning under that bound.
-- The functions whose code is run are of the forms in Compiler.Scoping: names are declared once and
-- used in their scopes, expressions are of literals, names and operators, a return stands only at the
-- end, and the block of a conditional does not end in a voided expression, since the parser drops the
-- node that voids a block's last expression. Calls and strings in
-- expressions are compiled by the model but not run.
-- `realloc` is a parameter of the buffers with its documented law (`Buf.Laws.IsRealloc`);
-- elsewhere allocations succeed. Characters are those of the C locale.
--
-- Not modelled: the characters of the printed lines, which are data here;
-- `comp_set_output`, which assigns the output file; main.c, which only calls the compiler on one file; the contents of
-- files and the text that `vsnprintf` makes, which are arguments.
pub mod Prelude
pub mod Ctype
pub mod View
pub mod Buf
pub mod Types
pub mod DynArray
pub mod HashMap
pub mod Ast
pub mod Parser
pub mod Compiler
pub mod Token
pub mod Lexer
mod Tests
