-- ===== src/Compiler/Programs.antt =====
-- The code of a whole file: `comp_statements` and `comp_view`.
use arnel_lang.Prelude.{
  ℕ, ◌+◌, ◌^◌, ◌<◌, ◌≡◌, refl, sym, ap, ◌∙◌, Bool, true, false, some, none, List, [], ◌∷◌, ◌++◌,
  length, map, arith,
}
use mathlib.Core.List.{append_assoc, append-nil}
use arnel_lang.Prelude.Size.{size_mod}
use arnel_lang.View.{View, content}
use arnel_lang.Types.{TypeSystem, TypeEntry, Sig, get_type}
use arnel_lang.Ast.{BinOp, Ast, Child}
use arnel_lang.Parser.Result.{ok, ◌>>=◌}
use arnel_lang.Parser.State.{Symbol, decl}
use arnel_lang.Compiler.Locals.{Locals}
use arnel_lang.Compiler.Code.{Line}
use arnel_lang.Compiler.Scope.{Scope}
use arnel_lang.Compiler.Unit.{Compiler, Definition, function, comp_statements}
use arnel_lang.Compiler.Registers.{Registers, eval_child, size_child}
use arnel_lang.Compiler.Jumps.{run_code}
use arnel_lang.Compiler.Meaning.{Env, Scoping, is_readable_child, meaning_list}
use arnel_lang.Compiler.Scoping.{IsBody}
use arnel_lang.Compiler.Params.{IsParams, bind_params}
use arnel_lang.Compiler.Functions.{function_nodes, ReturnsMeaning}
use arnel_lang.Compiler.Symbols.{ids_list, Printed, comp_sym-Printed}

-- A symbol with a signature, and with a body that keeps to its scopes and ends in a return.
pub record IsFunction (types : TypeSystem) (symbol : Symbol) : Type 0 where
  pub entry : TypeEntry
  pub sig : Sig
  pub params : List View
  pub nodes : List Ast
  pub result : Child
  pub scope : Scoping
  pub after : Scoping
  pub weight : ℕ
  pub found : get_type types symbol.type ≡ some (some entry)
  pub typed : entry.type_info ≡ some sig
  pub shape : symbol.body ≡ function_nodes params nodes result
  pub declared : IsParams (λ _. false) params scope
  pub body : IsBody scope nodes after weight
  pub readable : is_readable_child after result ≡ true
  pub small : length params + weight + size_child result + 3 < size_mod
  pub few_names : length params + weight < 2 ^ 20

pub data AreFunctions (types : TypeSystem) : List Symbol → Type 0 where
  empty : AreFunctions types []
  also :
      (symbol : Symbol) (symbols : List Symbol)
      → IsFunction types symbol
      → AreFunctions types symbols
      → AreFunctions types (symbol ∷ symbols)

-- How many numbers the labels of all the functions take.
unfoldable pub ids_symbols : List Symbol → ℕ
ids_symbols [] = 0
ids_symbols (symbol ∷ symbols) = ids_list symbol.body + ids_symbols symbols

module _ (L : Locals) (new_locals : L.Map) (room : (n : ℕ) → n < 2 ^ 20 → L.Room new_locals n)
    (eval_op : BinOp → ℕ → ℕ → ℕ) (truth : ℕ → Bool) (rounds : ℕ) where
  -- For each symbol in turn a function with its name, whose code returns what its body means.
  pub data Prints (scope : Scope) : List Symbol → List Definition → Type 0 where
    nothing : Prints scope [] []
    prints :
        (symbol : Symbol) (symbols : List Symbol) (params : List View) (nodes : List Ast)
        (e : Child) (arity : ℕ) (lines : List Line) (definitions : List Definition)
        → symbol.body ≡ function_nodes params nodes e
        → ReturnsMeaning L new_locals scope eval_op truth rounds params nodes e lines
        → Prints scope symbols definitions
        → Prints scope
            (symbol ∷ symbols)
            (function (content symbol.symbol_name) arity lines ∷ definitions)

  symbol-Printed :
      (types : TypeSystem) (symbol : Symbol) (f : IsFunction types symbol)
      (comp : Compiler L new_locals)
      → comp.types ≡ types
      → comp.temps_stack ≡ 0
      → comp.ids + ids_list symbol.body < 2 ^ 32
      → (d : Compiler L new_locals) × Printed L new_locals eval_op truth rounds comp d symbol
          (length f.sig.arg_types)
          f.params
          f.nodes
          f.result
  symbol-Printed types symbol f comp same unused few =
      comp_sym-Printed L new_locals eval_op truth rounds comp symbol f.entry f.sig f.params f.nodes
        f.result f.scope f.after f.weight (ap (λ t. get_type t symbol.type) same ∙ f.found) f.typed
        f.shape f.declared f.body (room (length f.params + f.weight) f.few_names) f.readable unused
        f.small few

  pub comp_statements-Prints :
      (types : TypeSystem) (scope : Scope) (symbols : List Symbol) (comp : Compiler L new_locals)
      → AreFunctions types symbols
      → comp.types ≡ types
      → comp.scope ≡ scope
      → comp.temps_stack ≡ 0
      → comp.ids + ids_symbols symbols < 2 ^ 32
      → (comp' : Compiler L new_locals) × (definitions : List Definition) × (comp_statements L
            new_locals
            (map decl symbols)
            comp
          ≡ ok comp')
        × (comp'.definitions ≡ comp.definitions ++ definitions)
        × Prints scope symbols definitions
  unfolding comp_statements ids_symbols
  comp_statements-Prints types scope [] comp empty same here unused few =
      (comp, [], refl, sym (append-nil comp.definitions), nothing)
  comp_statements-Prints types scope (symbol ∷ symbols) comp (also _ _ f others) same here unused
        few =
      let (d, p) = symbol-Printed types symbol f comp same unused (omega arith) in
      let (d', definitions, run, printed, all) =
        comp_statements-Prints types scope symbols d others (p.types ∙ same) (p.scope ∙ here)
          p.temps (omega (arith, p.ids)) in
      let arity = length f.sig.arg_types in
      (
        d',
        function (content symbol.symbol_name) arity p.lines ∷ definitions,
        ap (λ r. r >>= comp_statements L new_locals (map decl symbols)) p.made ∙ run,
        printed
            ∙ ap (λ o. o ++ definitions) p.definitions
            ∙ append_assoc comp.definitions
                (function (content symbol.symbol_name) arity p.lines ∷ []) definitions,
        prints symbol symbols f.params f.nodes f.result arity p.lines definitions f.shape p.returns
            all,
      )

  -- One of the functions, from `lines` on in `comp'`, with what stands before and behind it
  unfoldable pub HasFunction :
      Compiler L new_locals → Compiler L new_locals → Symbol → ℕ → Registers → ℕ → Type 0
  HasFunction comp comp' symbol arity regs n =
      (before : List Definition) × (lines : List Line) × (behind : List Definition)
      × (comp'.definitions
          ≡ comp.definitions
            ++ (before ++ function (content symbol.symbol_name) arity lines ∷ behind))
      × (k : ℕ) × ((j : ℕ) → run_code eval_op truth (k + j) lines lines regs ≡ some n)

  pub statements-HasFunction :
      (types : TypeSystem) (scope : Scope) (earlier : List Symbol) (symbol : Symbol)
      (later : List Symbol) (f : IsFunction types symbol) (comp : Compiler L new_locals)
      (regs : Registers) (env : Env) (n : ℕ)
      → AreFunctions types earlier
      → AreFunctions types later
      → comp.types ≡ types
      → comp.scope ≡ scope
      → comp.temps_stack ≡ 0
      → comp.ids + ids_symbols (earlier ++ symbol ∷ later) < 2 ^ 32
      → meaning_list eval_op truth rounds f.nodes (bind_params f.params 0 regs (λ _. none))
        ≡ some env
      → eval_child eval_op env f.result ≡ some n
      → (comp' : Compiler L new_locals) × (comp_statements L new_locals
            (map decl (earlier ++ symbol ∷ later))
            comp
          ≡ ok comp')
        × HasFunction comp comp' symbol (length f.sig.arg_types) regs n
  unfolding comp_statements ids_symbols HasFunction
  statements-HasFunction types scope [] symbol later f comp regs env n empty others same here unused
        few means value =
      let (d, p) = symbol-Printed types symbol f comp same unused (omega arith) in
      let (d', definitions, run, printed, _) =
        comp_statements-Prints types scope later d others (p.types ∙ same) (p.scope ∙ here) p.temps
          (omega (arith, p.ids)) in
      let head = function (content symbol.symbol_name) (length f.sig.arg_types) p.lines in
      let (k, runs) = p.returns regs env n means value in
      (
        d',
        ap (λ r. r >>= comp_statements L new_locals (map decl later)) p.made ∙ run,
        (
          [],
          p.lines,
          definitions,
          printed
              ∙ ap (λ o. o ++ definitions) p.definitions
              ∙ append_assoc comp.definitions (head ∷ []) definitions,
          k,
          runs,
        ),
      )
  statements-HasFunction types scope (first ∷ earlier) symbol later f comp regs env n
        (also _ _ g before) others same here unused few means value =
      let (d, p) = symbol-Printed types first g comp same unused (omega arith) in
      let (d', run, (inner, lines, behind, printed, k, runs)) =
        statements-HasFunction types scope earlier symbol later f d regs env n before others
          (p.types ∙ same) (p.scope ∙ here) p.temps (omega (arith, p.ids)) means value in
      let head = function (content first.symbol_name) (length g.sig.arg_types) p.lines in
      let tail =
        inner ++ function (content symbol.symbol_name) (length f.sig.arg_types) lines ∷ behind in
      (
        d',
        ap (λ r. r >>= comp_statements L new_locals (map decl (earlier ++ symbol ∷ later))) p.made
            ∙ run,
        (
          head ∷ inner,
          lines,
          behind,
          printed
              ∙ ap (λ o. o ++ tail) p.definitions
              ∙ append_assoc comp.definitions (head ∷ []) tail,
          k,
          runs,
        ),
      )
