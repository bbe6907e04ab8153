-- ===== src/Compiler/Hashed.antt =====
-- The code generation as the compiler runs it, with its hash map for the locals.
use arnel_lang.Prelude.{
  ℕ, ◌+◌, ◌^◌, ◌<◌, ◌≤◌, ◌≡◌, refl, ◌∙◌, ap, Bool, false, true, Option, some, none, List, [], ◌∷◌,
  ◌++◌, length, map, arith,
}
use arnel_lang.Prelude.Size.{size_mod}
use arnel_lang.View.{View, content}
use arnel_lang.Token.{Token}
use arnel_lang.Types.{TypeEntry, Sig, TypeSystem, get_type}
use arnel_lang.Ast.{BinOp, Ast, Child}
use arnel_lang.Lexer.State.{lexer_init}
use arnel_lang.Lexer.Stream.{Yields}
use arnel_lang.Parser.Result.{ok, ◌>>=◌}
use arnel_lang.Parser.State.{Symbol, decl}
use arnel_lang.Parser.Whole.{IsProgram}
use arnel_lang.Compiler.HashLocals.{hash_locals, new_map, new_map-HasRoom}
use arnel_lang.Compiler.Code.{Val, Line}
use arnel_lang.Compiler.State.{Comp}
use arnel_lang.Compiler.Expr.{comp_expr}
use arnel_lang.Compiler.Scope.{Scope}
use arnel_lang.Compiler.Unit.{
  Compiler, Definition, function, cleared, comp_sym, comp_statements, declare_statements, comp_view,
}
use arnel_lang.Compiler.Registers.{Registers, eval, eval_child, size, size_child}
use arnel_lang.Compiler.Computes.{Agrees, Correct}
use arnel_lang.Compiler.Correct.{any_expr-Correct}
use arnel_lang.Compiler.Jumps.{run_code}
use arnel_lang.Compiler.Meaning.{Env, is_readable_child, meaning_list}
use arnel_lang.Compiler.Scoping.{IsBody}
use arnel_lang.Compiler.Params.{IsParams, bind_params}
use arnel_lang.Compiler.Numbering.{ids_of, Sound}
use arnel_lang.Compiler.Numbers.{expr-Grows}
use arnel_lang.Compiler.Functions.{function_nodes}
use arnel_lang.Compiler.Symbols.{ids_list, comp_sym-Printed}
use arnel_lang.Compiler.Texts.{comp_view-IsProgram}
use arnel_lang.Compiler.Programs.{
  IsFunction, AreFunctions, ids_symbols, HasFunction, statements-HasFunction,
}

-- The code of an expression of literals, names and binary operators, in a state whose hash map leads
-- the names with a value to temporaries in use that hold it: if the expression has a value and the
-- temporaries it can need do not wrap around, code generation succeeds, and running the printed lines
-- gives the returned operand that value. The temporaries in use and the locals stay as they are, and
-- the next free temporary moves by one exactly if the operand is not an immediate.
pub comp_expr-Correct :
    (symbols : List ℕ → Option (List ℕ)) (eval_op : BinOp → ℕ → ℕ → ℕ) (env : List ℕ → Option ℕ)
    (e : Ast) (c : Comp hash_locals) (regs : Registers) (n : ℕ)
    → eval eval_op env e ≡ some n
    → Agrees hash_locals symbols eval_op env c regs
    → c.temps_stack + size e + 1 < size_mod
    → Correct hash_locals symbols eval_op (comp_expr hash_locals symbols e c) c regs n
comp_expr-Correct = any_expr-Correct hash_locals

-- The code of any tree, from a state in which every label printed so far stands there once and has a
-- number that the counter has passed, with so few conditionals and loops that the counter stays below
-- 2 ^ 31, where a number is printed the same with and without a sign: if code generation succeeds, the
-- same holds of the state behind it, and the counter has gone up by three at most for each conditional
-- and each loop of the tree.
pub comp_expr-Sound :
    (symbols : List ℕ → Option (List ℕ)) (a : Ast) (c : Comp hash_locals) (v : Val)
    (d : Comp hash_locals)
    → comp_expr hash_locals symbols a c ≡ some (v, d)
    → Sound hash_locals c
    → c.ids + ids_of a < 2 ^ 31
    → Sound hash_locals d × (c.ids ≤ d.ids) × (d.ids ≤ c.ids + ids_of a)
comp_expr-Sound symbols a c v d made sound small =
    let g = expr-Grows hash_locals symbols a c (v, d) made sound (omega arith) in
    (g.sound, g.ids, g.bound)

module _ (eval_op : BinOp → ℕ → ℕ → ℕ) (truth : ℕ → Bool) (rounds : ℕ) where
  -- A symbol with a signature whose body declares its parameters, then has statements that keep to
  -- their scopes (conditionals and loops among them) and then returns an expression, all names with at
  -- least one byte, with so few nodes that the temporaries do not wrap around, the names stay below
  -- 2 ^ 20 and the labels' numbers below 2 ^ 31, compiled when no temporary is in use: `comp_sym` succeeds and prints a function with the symbol's name. If the
  -- statements, with at most `rounds` rounds of each loop, lead from the arguments to values `env` of
  -- the names in which the returned expression is `n`, then the function's code, started with the
  -- arguments in the first temporaries, returns `n`, whatever its operations compute.
  pub comp_sym-Returns :
      (comp : Compiler hash_locals new_map) (symbol : Symbol) (entry : TypeEntry) (sig : Sig)
      (params : List View) (nodes : List Ast) (e : Child) (scope after : List ℕ → Bool) (w : ℕ)
      (regs : Registers) (env : Env) (n : ℕ)
      → get_type comp.types symbol.type ≡ some (some entry)
      → entry.type_info ≡ some sig
      → symbol.body ≡ function_nodes params nodes e
      → IsParams (λ _. false) params scope
      → IsBody scope nodes after w
      → is_readable_child after e ≡ true
      → comp.temps_stack ≡ 0
      → length params + w < 2 ^ 20
      → length params + w + size_child e + 3 < size_mod
      → comp.ids + ids_list symbol.body < 2 ^ 31
      → meaning_list eval_op truth rounds nodes (bind_params params 0 regs (λ _. none)) ≡ some env
      → eval_child eval_op env e ≡ some n
      → (comp' : Compiler hash_locals new_map) × (lines : List Line) × (comp_sym hash_locals new_map
            comp symbol
          ≡ ok comp')
        × (comp'.definitions
            ≡ comp.definitions
              ++ function (content symbol.symbol_name) (length sig.arg_types) lines ∷ [])
        × (k : ℕ) × ((j : ℕ) → run_code eval_op truth (k + j) lines lines regs ≡ some n)
  comp_sym-Returns comp symbol entry sig params nodes e scope after w regs env n found typed shape
        declared body readable unused names small few_labels means value =
      let (comp', p) =
        comp_sym-Printed hash_locals new_map eval_op truth rounds comp symbol entry sig params nodes
          e scope after w found typed shape declared body
          (new_map-HasRoom (length params + w) names) readable unused small (omega arith) in
      let (k, runs) = p.returns regs env n means value in
      (comp', p.lines, p.made, p.definitions, k, runs)

  -- The text of a program of the parser's grammar, of at most twelve declarations, with as many rounds
  -- for the parser as the program has tokens, whatever `y` is read behind the lexer's token array.
  -- The program's symbols can be put into the scope and are functions that keep to their scopes and
  -- return an expression, so small that their temporaries do not wrap around and with fewer than
  -- 2 ^ 20 names each. They are compiled when no temporary is in use and with labels' numbers below
  -- 2 ^ 31. Then `comp_view` succeeds. Functions have no parameters in the grammar. For each function,
  -- if its statements, with at most `rounds` rounds of each loop, lead to values of the names in which
  -- the returned expression is `n`, one of the new definitions has the function's name and code that
  -- returns `n`.
  pub comp_view-Returns :
      (strtol : List ℕ → ℕ) (y : Option Token) (fuel : ℕ) (comp : Compiler hash_locals new_map)
      (text : View) (types : TypeSystem) (ts rest : List Token) (earlier : List Symbol)
      (symbol : Symbol) (later : List Symbol) (scope : Scope) (f : IsFunction types symbol)
      (regs : Registers) (env : Env) (n : ℕ)
      → Yields (lexer_init true cleared text) (ts ++ rest)
      → IsProgram strtol types comp.types ts (earlier ++ symbol ∷ later)
      → length (earlier ++ symbol ∷ later) ≤ 12
      → length ts ≤ fuel
      → declare_statements hash_locals new_map (map decl (earlier ++ symbol ∷ later)) comp.scope
        ≡ ok scope
      → AreFunctions types earlier
      → AreFunctions types later
      → comp.temps_stack ≡ 0
      → comp.ids + ids_symbols (earlier ++ symbol ∷ later) < 2 ^ 31
      → meaning_list eval_op truth rounds f.nodes (bind_params f.params 0 regs (λ _. none))
        ≡ some env
      → eval_child eval_op env f.result ≡ some n
      → (comp' : Compiler hash_locals new_map) × (comp_view hash_locals new_map strtol y fuel comp
            text
          ≡ ok comp')
        × (before : List Definition) × (lines : List Line) × (behind : List Definition)
        × (comp'.definitions
            ≡ comp.definitions
              ++ (before
                  ++ function (content symbol.symbol_name) (length f.sig.arg_types) lines ∷ behind))
        × (k : ℕ) × ((j : ℕ) → run_code eval_op truth (k + j) lines lines regs ≡ some n)
  unfolding HasFunction
  comp_view-Returns strtol y fuel comp text types ts rest earlier symbol later scope f regs env n
        yields program few enough declared before behind unused labels means value =
      let symbols = earlier ++ symbol ∷ later in
      let (comp', run, (front, lines, back, printed, k, runs)) =
        statements-HasFunction hash_locals new_map new_map-HasRoom eval_op truth rounds types scope
          earlier symbol later f (record comp { scope = scope; types = types }) regs env n before
          behind refl refl unused (omega arith) means value in
      (
        comp',
        comp_view-IsProgram hash_locals new_map strtol y fuel comp text types ts rest symbols yields
              program few enough
            ∙ ap
                (λ r. r >>= λ k.
                  comp_statements hash_locals new_map (map decl symbols)
                    (record comp { scope = k; types = types }))
                declared
            ∙ run,
        front,
        lines,
        back,
        printed,
        k,
        runs,
      )
