-- ===== src/Compiler/Unit.antt =====
-- compiler.c: `init_compiler`, `comp_sym`, `comp_view`, `comp_from_string` and `comp_file`.
--
-- The output is a list of functions and strings, each with what its format prints. `comp_sym` makes a
-- new map of locals, `new_locals`; memory is not given back.
use arnel_lang.Prelude.{
  ℕ, zero, suc, true, Option, List, [], ◌∷◌, ◌++◌, length, ◌==◌, if◌then◌else◌,
}
use arnel_lang.View.{View, Ptr, content, make, no_view}
use arnel_lang.Buf.{Buf, Outcome, done, failed, Realloc, write_file, get_view}
use arnel_lang.Token.{Token}
use arnel_lang.Types.{TypeSystem, get_type, init_typesystem}
use arnel_lang.Ast.{Ast, str_literal}
use arnel_lang.Lexer.State.{Lexer, lexer_init}
use arnel_lang.Lexer.Source.{lexer_source}
use arnel_lang.Parser.Result.{Result, ok, panic, ◌>>=◌, or_fault}
use arnel_lang.Parser.State.{Symbol, Stmt, decl, string, init}
use arnel_lang.Parser.Program.{parse}
use arnel_lang.Compiler.Locals.{Locals}
use arnel_lang.Compiler.Code.{Line}
use arnel_lang.Compiler.State.{Comp}
use arnel_lang.Compiler.Expr.{comp_expr}
use arnel_lang.Compiler.Scope.{Scope, link_name, set_scope_symbol, init_scope}

-- `export function l $name(l %x0, l %x1) { @start … }` with the number of parameters and the lines of
-- the body, and `data $data_address = { b "…", b 0 }`.
pub data Definition : Type 0 where
  function : List ℕ → ℕ → List Line → Definition
  text_data : ℕ → List ℕ → Definition

-- What a write to a buffer leaves of it.
abbrev pub buffer : Outcome → Buf
buffer (done b) = b
buffer (failed b) = b

-- `struct lexer_t l = {0};`
abbrev pub cleared : Lexer
cleared = record {
  text = no_view;
  toks = record { cap = 0; len = 0; slots = [] };
  line = 0;
  col = 0;
}

module _ (L : Locals) (new_locals : L.Map) where
  -- `struct compiler_t` and the global table of types
  pub record Compiler : Type 0 where
    pub definitions : List Definition
    pub scope : Scope
    pub types : TypeSystem
    pub temps_stack : ℕ
    pub ids : ℕ

  -- `init_compiler` on a cleared `struct compiler_t`
  abbrev pub init_compiler : ℕ → Result Compiler
  init_compiler address = or_fault (init_typesystem address) >>= λ types.
      or_fault (init_scope address types) >>= λ r.
      ok (record { definitions = []; scope = r.0; types = r.1; temps_stack = 0; ids = 0 })

  -- The loop of `comp_sym` over the nodes of the body
  unfoldable pub comp_nodes : Scope → List Ast → Comp L → Result (Comp L)
  comp_nodes scope [] c = ok c
  comp_nodes scope (a ∷ nodes) c =
      or_fault (comp_expr L (link_name scope) a c) >>= λ r. comp_nodes scope nodes r.1

  -- `comp_sym`
  unfoldable pub comp_sym : Compiler → Symbol → Result Compiler
  comp_sym comp symbol = or_fault (get_type comp.types symbol.type) >>= λ found.
      or_fault found >>= λ entry. or_fault entry.type_info >>= λ sig.
      comp_nodes comp.scope symbol.body (record {
        output = [];
        temps_stack = comp.temps_stack;
        ids = comp.ids;
        locals = new_locals;
      })
      >>= λ c. ok (record comp {
        definitions =
            comp.definitions
            ++ function (content symbol.symbol_name) (length sig.arg_types) c.output ∷ [];
        temps_stack = c.temps_stack;
        ids = c.ids;
      })

  -- The first loop of `comp_view`
  unfoldable pub declare_statements : List Stmt → Scope → Result Scope
  declare_statements [] scope = ok scope
  declare_statements (decl symbol ∷ statements) scope =
      or_fault (set_scope_symbol scope symbol) >>= declare_statements statements
  declare_statements (string _ ∷ statements) scope = declare_statements statements scope

  -- The bytes that the format `%.*s` prints of a string, up to its zero byte if it has one before.
  abbrev pub printed : ℕ → List ℕ → List ℕ
  printed zero bytes = []
  printed (suc n) [] = []
  printed (suc n) (b ∷ bytes) = let rest = printed n bytes in if b == 0 then [] else b ∷ rest

  -- The second loop of `comp_view`
  unfoldable pub comp_statements : List Stmt → Compiler → Result Compiler
  comp_statements [] comp = ok comp
  comp_statements (decl symbol ∷ statements) comp =
      comp_sym comp symbol >>= comp_statements statements
  comp_statements (string a ∷ statements) comp = elim a [
    | str_literal len chars ↦ comp_statements statements (record comp {
      definitions = comp.definitions ++ text_data chars.addr (printed len chars.bytes) ∷ [];
    })
    | _ ↦ panic
  ]

  -- `comp_view`: `y` is what stands behind the lexer's array of tokens, `fuel` bounds the parser's
  -- loops.
  unfoldable pub comp_view : (List ℕ → ℕ) → Option Token → ℕ → Compiler → View → Result Compiler
  comp_view strtol y fuel comp view =
      let source = lexer_source y in
      parse source strtol fuel (init source (lexer_init true cleared view) comp.types) >>= λ r.
      declare_statements r.0 comp.scope >>= λ scope.
      comp_statements r.0 (record comp { scope = scope; types = r.1.types })

  -- `comp_from_string`
  abbrev pub comp_from_string :
      (List ℕ → ℕ) → Option Token → ℕ → Compiler → Ptr → ℕ → Result Compiler
  comp_from_string strtol y fuel comp program program_size =
      comp_view strtol y fuel comp (make program program_size)

  -- `comp_file`: `size` and `input` are what `buf_write_file` finds of the file, and the buffer stands at
  -- `address`. The code does not look whether the file was read.
  unfoldable pub comp_file :
      Realloc
      → ℕ
      → (List ℕ → ℕ)
      → Option Token
      → ℕ
      → Compiler
      → ℕ
      → Option (List ℕ)
      → Result Compiler
  comp_file realloc address strtol y fuel comp size input =
      or_fault (write_file realloc (record { len = 0; cap = 0; mem = [] }) size input)
      >>= λ outcome.
          let b = buffer outcome in comp_view strtol y fuel comp (get_view address b 0 b.len)
