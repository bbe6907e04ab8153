-- ===== src/Types.antt =====
-- types.c: the table of types and the stack of type ids.
--
-- An allocation is its size in bytes and the items written at its front: `realloc` to a smaller size
-- cuts them off, and a write that does not end inside the size is a fault. Allocations succeed.
pub mod Laws
use arnel_lang.Prelude.{
  ℕ, zero, suc, ◌+◌, ◌-◌, ◌*◌, ◌/◌, Bool, true, false, Option, none, some, List, [], ◌∷◌, ◌++◌, ltb,
  leb, ◌==◌, if◌then◌else◌, ◌>>=◌, length, get_elem?, set, take,
}
use arnel_lang.View.{View, Ptr, make, cmp_eq}
use arnel_lang.Lexer.Keyword.{codes}

-- `sig_t`, with the length of the list of the arguments' types for `arity`.
pub record Sig : Type 0 where
  pub return_type_id : ℕ
  pub arg_types : List ℕ

-- `type_t`; `type_info` is NULL or a signature.
pub record TypeEntry : Type 0 where
  pub typename : View
  pub type_id : ℕ
  pub type_info : Option Sig

-- `sizeof(type_t)` and `sizeof(typeid_t)`
abbrev pub entry_size : ℕ
entry_size = 32

abbrev pub id_size : ℕ
id_size = 8

-- `typesystem`; `bytes` is the size of the allocation behind `types`.
pub record TypeSystem : Type 0 where
  pub len : ℕ
  pub cap : ℕ
  pub bytes : ℕ
  pub types : List TypeEntry

-- `realloc(typesystem.types, typesystem.__cap *= 2)`: the size is given in bytes.
unfoldable pub enlarge : TypeSystem → TypeSystem
enlarge ts = record ts {
  cap = ts.cap * 2;
  bytes = ts.cap * 2;
  types = take (ts.cap * 2 / entry_size) ts.types;
}

-- `typesystem.types[typesystem.__len] = …; return &typesystem.types[typesystem.__len++];`. The
-- result is the id of the new type.
unfoldable pub put_entry : TypeSystem → View → Option (ℕ × TypeSystem)
put_entry ts name =
    if ltb ts.bytes ((ts.len + 1) * entry_size)
    then none
    else (some (
      ts.len,
      record ts {
        types = ts.types ++ record { typename = name; type_id = ts.len; type_info = none } ∷ [];
        len = ts.len + 1;
      },
    ))

-- `alloc_type`
unfoldable pub alloc_type : TypeSystem → View → Option (ℕ × TypeSystem)
unfolding enlarge put_entry
alloc_type ts name = put_entry (if ts.len == ts.cap then enlarge ts else ts) name

-- `strlen`
unfoldable pub strlen : List ℕ → Option ℕ
strlen [] = none
strlen (c ∷ cs) = elim (c == 0) [ true ↦ some zero | false ↦ strlen cs >>= λ n. some (suc n) ]

-- `alloc_type_from_cstr`
unfoldable pub alloc_type_from_cstr : TypeSystem → Ptr → Option (ℕ × TypeSystem)
unfolding enlarge put_entry strlen
alloc_type_from_cstr ts name = strlen name.bytes >>= λ n.
    put_entry (if leb ts.cap ts.len then enlarge ts else ts) (make name n)

-- `get_type`: the entry, or `some none` for NULL.
unfoldable pub get_type : TypeSystem → ℕ → Option (Option TypeEntry)
get_type ts type_id =
    if leb ts.len type_id then some none else (get_elem? ts.types type_id >>= λ t. some (some t))

-- The loop of `get_type_for_name`.
unfoldable pub find_name : List TypeEntry → View → Option (Option TypeEntry)
find_name [] name = some none
find_name (t ∷ ts) name =
    cmp_eq name t.typename >>= λ eq. elim eq [ true ↦ some (some t) | false ↦ find_name ts name ]

unfoldable pub get_type_for_name : TypeSystem → View → Option (Option TypeEntry)
unfolding find_name
get_type_for_name ts name = find_name ts.types name

-- The names that `init_typesystem` registers, each at the id that its `assert` wants.
abbrev pub builtin_names : List (List ℕ)
builtin_names =
    codes "__bad_type"
    ∷ codes "float"
    ∷ codes "str"
    ∷ codes "cstr"
    ∷ codes "bool"
    ∷ codes "nothing"
    ∷ codes "void"
    ∷ codes "module"
    ∷ codes "int"
    ∷ codes "double"
    ∷ codes "type"
    ∷ codes "__variadic"
    ∷ []

-- `assert(k == alloc_type_from_cstr(name)->__type_id)` for the names in turn. `address` places the
-- literals.
unfoldable pub register : ℕ → ℕ → List (List ℕ) → TypeSystem → Option TypeSystem
register address k [] ts = some ts
register address k (name ∷ names) ts =
    alloc_type_from_cstr ts (record { addr = address; bytes = name ++ 0 ∷ [] }) >>= λ r.
    if r.0 == k then register (address + length name + 1) (k + 1) names r.1 else none

unfoldable pub init_typesystem : ℕ → Option TypeSystem
unfolding register
init_typesystem address =
    register address 0 builtin_names
      (record { len = 0; cap = 20; bytes = 20 * entry_size; types = [] })

-- `types_t`, the stack of ids; `bytes` is the size of the allocation behind `items`.
pub record TypeStack : Type 0 where
  pub len : ℕ
  pub cap : ℕ
  pub bytes : ℕ
  pub items : List ℕ

-- `types_t temp = {0};`
abbrev pub no_types : TypeStack
no_types = record { len = 0; cap = 0; bytes = 0; items = [] }

unfoldable pub put_type : TypeStack → ℕ → Option TypeStack
put_type s n =
    let s' : TypeStack =
      if s.len == s.cap
      then record s {
        cap = s.cap * 2;
        bytes = s.cap * 2;
        items = take (s.cap * 2 / id_size) s.items;
      }
      else s in
    if ltb s'.bytes ((s'.len + 1) * id_size)
    then none
    else some (record s' { items = s'.items ++ n ∷ []; len = s'.len + 1 })

-- The result is 0 for an empty stack.
unfoldable pub pop_type : TypeStack → Option (ℕ × TypeStack)
pop_type s =
    if s.len == 0
    then some (0, s)
    else (get_elem? s.items (s.len - 1) >>= λ n.
        some (n, record s { len = s.len - 1; items = take (s.len - 1) s.items }))

unfoldable pub peek_type : TypeStack → Option ℕ
peek_type s = if s.len == 0 then some 0 else get_elem? s.items (s.len - 1)
