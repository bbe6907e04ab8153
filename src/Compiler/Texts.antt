-- ===== src/Compiler/Texts.antt =====
-- From a text to the code of its functions.
use arnel_lang.Prelude.{
  ℕ, ◌≤◌, ◌≡◌, refl, ap, Option, none, true, List, [], ◌∷◌, ◌++◌, length, map, arith,
}
use arnel_lang.View.{View}
use arnel_lang.Token.{Token}
use arnel_lang.DynArray
use arnel_lang.Types.{TypeSystem}
use arnel_lang.Lexer.State.{lexer_init}
use arnel_lang.Lexer.Stream.{Yields}
use arnel_lang.Lexer.Source.{Delivers, lexer_source}
use arnel_lang.Parser.Result.{◌>>=◌}
use arnel_lang.Parser.State.{Symbol, decl}
use arnel_lang.Parser.Machine.{bind_lem}
use arnel_lang.Parser.Whole.{IsProgram, parse-IsProgram}
use arnel_lang.Compiler.Locals.{Locals}
use arnel_lang.Compiler.Unit.{Compiler, cleared, declare_statements, comp_statements, comp_view}

initial :
    (text : View) (ts : List Token)
    → Yields (lexer_init true cleared text) ts
    → Delivers (lexer_init true cleared text) ts
unfolding lexer_init DynArray.init
initial text ts yields = record {
  queue = [];
  rest = ts;
  holds = record { spare = none ∷ []; slots = refl; len = refl; cap = refl; small = omega arith };
  some_cap = omega arith;
  small_cap = omega arith;
  yields = yields;
  whole = refl;
}

-- The tokens that the lexer reads from a text begin with a program of the parser's grammar, of at most
-- twelve declarations, and the parser has as many rounds as the program has tokens: `comp_view` puts
-- the program's symbols into the scope and then prints their code, in their order, with the types that
-- the grammar leaves.
pub comp_view-IsProgram :
    (L : Locals) (new_locals : L.Map) (strtol : List ℕ → ℕ) (y : Option Token) (fuel : ℕ)
    (comp : Compiler L new_locals) (text : View) (types' : TypeSystem) (ts rest : List Token)
    (symbols : List Symbol)
    → Yields (lexer_init true cleared text) (ts ++ rest)
    → IsProgram strtol types' comp.types ts symbols
    → length symbols ≤ 12
    → length ts ≤ fuel
    → comp_view L new_locals strtol y fuel comp text ≡ (
        declare_statements L new_locals (map decl symbols) comp.scope >>= λ scope.
        comp_statements L new_locals
          (map decl symbols)
          (record comp { scope = scope; types = types' }))
unfolding comp_view
comp_view-IsProgram L new_locals strtol y fuel comp text types' ts rest symbols yields program few
      enough =
    let statements = map decl symbols in
    let (q, _, kept, run) =
      parse-IsProgram (lexer_source y) strtol fuel comp.types types' ts symbols rest
        (lexer_init true cleared text) program few enough (initial text (ts ++ rest) yields) in
    bind_lem _ run (
      ap
        (λ types. declare_statements L new_locals statements comp.scope >>= λ scope.
          comp_statements L new_locals statements (record comp { scope = scope; types = types }))
        kept)
