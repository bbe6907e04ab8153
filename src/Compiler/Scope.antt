-- ===== src/Compiler/Scope.antt =====
-- compiler.h: `struct scope`; compiler.c: `scope_get_scoped`, `scope_put_scoped`, `init_scope`.
--
-- The maps keep the hash function that `um_init` gives them. The results of `Option` are `none` at a
-- fault.
use arnel_lang.Prelude.{ℕ, ◌+◌, Option, none, some, List, [], ◌∷◌, ◌++◌, ◌>>=◌, length}
use arnel_lang.View.{View, content, make}
use arnel_lang.HashMap
use arnel_lang.HashMap.{HashMap, default_naive_hash, um_get, um_set}
use arnel_lang.Lexer.Keyword.{codes}
use arnel_lang.Types.{TypeSystem, alloc_type}
use arnel_lang.Parser.State.{Symbol}

-- What the maps point to.
pub data Item : Type 0 where
  type_item : ℕ → Item
  symbol_item : Symbol → Item

pub data Scoped : Type 0 where
  scoped_type scoped_symbol scoped_module : Scoped

pub record Scope : Type 0 where
  pub types : HashMap Item
  pub symbols : HashMap Item
  pub modules : HashMap Item

-- `scope_get_scoped`
unfoldable pub scope_get_scoped : Scope → View → Scoped → Option (Option Item)
scope_get_scoped scope name scoped_type = um_get default_naive_hash scope.types (content name)
scope_get_scoped scope name scoped_module = um_get default_naive_hash scope.modules (content name)
scope_get_scoped scope name scoped_symbol = um_get default_naive_hash scope.symbols (content name)

-- `scope_put_scoped`
unfoldable pub scope_put_scoped : Scope → View → Item → Scoped → Option Scope
scope_put_scoped scope name item scoped_type =
    um_set default_naive_hash scope.types (content name) (some item) >>= λ m.
    some (record scope { types = m })
scope_put_scoped scope name item scoped_module =
    um_set default_naive_hash scope.modules (content name) (some item) >>= λ m.
    some (record scope { modules = m })
scope_put_scoped scope name item scoped_symbol =
    um_set default_naive_hash scope.symbols (content name) (some item) >>= λ m.
    some (record scope { symbols = m })

-- `set_scope_symbol(comp, item)`
abbrev pub set_scope_symbol : Scope → Symbol → Option Scope
set_scope_symbol scope symbol =
    scope_put_scoped scope symbol.symbol_name (symbol_item symbol) scoped_symbol

-- `view_from_literal(name)`, of a literal at `address`
abbrev pub view_from_literal : ℕ → List ℕ → View
view_from_literal address name =
    make (record { addr = address; bytes = name ++ 0 ∷ [] }) (length name)

-- `set_scope_type(comp, view_from_literal(name), id)` for the names in turn, from the id `id` on
unfoldable pub set_scope_types : ℕ → List (List ℕ) → ℕ → Scope → Option Scope
set_scope_types address [] id scope = some scope
set_scope_types address (name ∷ names) id scope =
    scope_put_scoped scope (view_from_literal address name) (type_item id) scoped_type
    >>= set_scope_types address names (id + 1)

-- The types that `init_scope` names; their ids are 1 and following.
abbrev pub scope_names : List (List ℕ)
scope_names =
    codes "float"
    ∷ codes "str"
    ∷ codes "cstr"
    ∷ codes "bool"
    ∷ codes "nothing"
    ∷ codes "void"
    ∷ codes "module"
    ∷ codes "int"
    ∷ codes "double"
    ∷ codes "type"
    ∷ []

-- `init_scope`, with the literals at `address`. The signature that it builds for `print_format` is not
-- put into the entry of the type.
unfoldable pub init_scope : ℕ → TypeSystem → Option (Scope × TypeSystem)
unfolding scope_put_scoped set_scope_types
init_scope address types =
    let empty : Scope = record {
      types = HashMap.init;
      symbols = HashMap.init;
      modules = HashMap.init;
    } in
    set_scope_types address scope_names 1 empty >>= λ scope.
    alloc_type types (view_from_literal address (codes "print_format")) >>= λ r.
    let symbol : Symbol = record {
      flags = 0;
      symbol_name = view_from_literal address (codes "printf");
      type = r.0;
      body = [];
    } in
    scope_put_scoped scope (view_from_literal address (codes "print_format")) (symbol_item symbol)
      scoped_symbol
    >>= λ scope₁.
        scope_put_scoped scope₁ (view_from_literal address (codes "print")) (symbol_item symbol)
          scoped_symbol
        >>= λ scope₂. some (scope₂, r.1)

-- The link name of a symbol in scope.
abbrev pub link_name : Scope → List ℕ → Option (List ℕ)
link_name scope name =
    scope_get_scoped scope (make (record { addr = 0; bytes = name }) (length name)) scoped_symbol
    >>= λ o. o >>= λ item. elim item [
      | type_item _ ↦ none
      | symbol_item symbol ↦ some (content symbol.symbol_name)
    ]
