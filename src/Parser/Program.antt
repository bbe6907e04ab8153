-- ===== src/Parser/Program.antt =====
-- parser.c: `parse_type`, `parse_top_level` and `parse`.
use arnel_lang.Prelude.{
  ℕ, zero, suc, ◌+◌, ◌%◌, Bool, true, false, Option, none, some, List, [], ◌∷◌, ◌==◌, if◌then◌else◌,
  get_elem?, set,
}
use arnel_lang.View.{no_view}
use arnel_lang.Token.{
  Token, TokenType, l_ident, l_lparen, l_rparen, l_comma, l_colon, l_export, l_local, l_eof, l_eq,
  l_arrow_r, l_lcurly, l_semicolon,
}
use arnel_lang.Types.{Sig, TypeSystem, alloc_type, get_type_for_name, TypeStack, no_types, put_type}
use arnel_lang.Ast.{decl_local}
use arnel_lang.Parser.Result.{Result, ok, panic, out_of_fuel, ◌>>=◌, or_fault}
use arnel_lang.Parser.Source.{Source}
use arnel_lang.Parser.State.{Symbol, Stmt, decl, Parser, next, type_of, put_value, put_statement}
use arnel_lang.Parser.Step.{parse_statements}

-- `sig_type->type_info = sig;` through the pointer that `alloc_type` gave.
abbrev pub set_info : TypeSystem → ℕ → Sig → Option TypeSystem
set_info ts id sig = elim (get_elem? ts.types id) [
  | none ↦ none
  | some t ↦ some (record ts { types = set ts.types id (record t { type_info = some sig }) })
]

-- The items of a stack in the order of memory.
abbrev pub in_order {ℓ} : {A : Type ℓ} → List A → List A → List A
in_order [] out = out
in_order (a ∷ items) out = in_order items (a ∷ out)

abbrev pub is_type : TokenType → TokenType → Bool
is_type want t = elim want [
  | l_colon ↦ elim t [ l_colon ↦ true | _ ↦ false ]
  | l_eq ↦ elim t [ l_eq ↦ true | _ ↦ false ]
  | l_arrow_r ↦ elim t [ l_arrow_r ↦ true | _ ↦ false ]
  | l_lcurly ↦ elim t [ l_lcurly ↦ true | _ ↦ false ]
  | l_semicolon ↦ elim t [ l_semicolon ↦ true | _ ↦ false ]
  | _ ↦ false
]

-- `f_export(s)`, `f_export_set(s)`
abbrev pub f_export : Symbol → Bool
f_export s = s.flags % 2 == 1

abbrev pub f_export_set : Symbol → Symbol
f_export_set s = if f_export s then s else record s { flags = s.flags + 1 }

module _ (S : Source) (strtol : List ℕ → ℕ) where
  -- `if (next_token(p->l)->type != want) PANIKA(…);`
  unfoldable pub expect : TokenType → Parser S → Result (Parser S)
  expect want p = do (tok, p₁) ← next S p; t ← type_of tok; if is_type want t then ok p₁ else panic

  unfoldable mutual
    unfolding expect

    -- `parse_type`; 0 is `__BAD_TYPE`.
    pub parse_type : ℕ → Parser S → Result (ℕ × Parser S)
    parse_type zero p = out_of_fuel
    parse_type (suc fuel) p = do
      (tok, p₁) ← next S p
      t ← type_of tok
      elim t [
        | l_ident ↦ do
          found ← or_fault (get_type_for_name p₁.types tok.lexeme)
          entry ← or_fault found
          ok (entry.type_id, p₁)
        | l_lparen ↦ do
          symbol ← or_fault p₁.now_symbol
          (id, types) ← or_fault (alloc_type p₁.types symbol.symbol_name)
          (temp, p₂) ← parse_params fuel no_types (record p₁ { types = types })
          p₃ ← expect l_colon p₂
          (result, p₄) ← parse_type fuel p₃
          types' ←
              or_fault
                (set_info p₄.types id (record { return_type_id = result; arg_types = temp.items }))
          ok (id, record p₄ { types = types' })
        | _ ↦ ok (0, p₁)
      ]

    -- The loop over the parameters, with the types' ids in `temp`.
    pub parse_params : ℕ → TypeStack → Parser S → Result (TypeStack × Parser S)
    parse_params zero temp p = out_of_fuel
    parse_params (suc fuel) temp p = do
      (tok, p₁) ← next S p
      t ← type_of tok
      elim t [
        | l_rparen ↦ ok (temp, p₁)
        | l_comma ↦ parse_params fuel temp p₁
        | _ ↦ do
          (colon, p₂) ← next S p₁
          p₃ ← put_value S p₂ (decl_local tok.lexeme)
          u ← type_of colon
          (id, p₄) ← (elim (is_type l_colon u) [ true ↦ parse_type fuel p₃ | false ↦ panic ])
          temp' ← or_fault (put_type temp id)
          parse_params fuel temp' p₄
      ]

  -- The loop of `parse_top_level` over what stands before the name, from the token `tok` on.
  unfoldable pub parse_flags : ℕ → Token → Symbol → Parser S → Result (Token × (Symbol × Parser S))
  parse_flags zero tok symbol p = out_of_fuel
  parse_flags (suc fuel) tok symbol p = do
    t ← type_of tok
    elim t [
      | l_ident ↦ ok (tok, (symbol, p))
      | l_export ↦ elim (f_export symbol) [
        | true ↦ panic
        | false ↦ next S p >>= λ r. parse_flags fuel r.0 (f_export_set symbol) r.1
      ]
      | l_local ↦ next S p >>= λ r. parse_flags fuel r.0 symbol r.1
      | _ ↦ panic
    ]

  -- `p->now_symbol`, which is not NULL where the body ends.
  abbrev pub finish_symbol : Parser S → Result (Symbol × Parser S)
  finish_symbol p = do
    symbol ← or_fault p.now_symbol
    ok (
      record symbol { body = in_order p.values.items [] },
      record p {
        values = record p.values { items = [] };
        operators = record p.operators { items = [] };
      },
    )

  -- `parse_top_level`: the symbol, or none at the end of the input.
  unfoldable pub parse_top_level : ℕ → Parser S → Result (Option Symbol × Parser S)
  parse_top_level fuel p = elim p.now_symbol [
    | some _ ↦ panic
    | none ↦ do
      (tok, p₁) ← next S p
      t ← type_of tok
      let fresh : Symbol = record { flags = 0; symbol_name = no_view; type = 0; body = [] }
      elim t [
        | l_eof ↦ ok (none, record p₁ { now_symbol = some fresh })
        | _ ↦ do
          (name, r) ← parse_flags fuel tok fresh p₁
          let symbol = record r.0 { symbol_name = name.lexeme }
          p₂ ← expect l_eq (record r.1 { now_symbol = some symbol })
          (id, p₃) ← parse_type fuel p₂
          p₄ ← expect l_arrow_r (record p₃ { now_symbol = some (record symbol { type = id }) })
          p₅ ← expect l_lcurly p₄
          p₆ ← parse_statements S strtol fuel p₅
          (_, p₇) ← next S p₆
          p₈ ← expect l_semicolon p₇
          (done, p₉) ← finish_symbol p₈
          ok (some done, p₉)
      ]
  ]

  -- The loop of `parse`.
  unfoldable pub parse_loop : ℕ → Parser S → Result (Parser S)
  parse_loop zero p = out_of_fuel
  parse_loop (suc fuel) p = do
    (symbol, p₁) ← parse_top_level fuel p
    elim symbol [
      | none ↦ ok (record p₁ { now_symbol = none })
      | some s ↦ put_statement S (record p₁ { now_symbol = none }) (decl s) >>= parse_loop fuel
    ]

  -- `parse`: the children of the root.
  unfoldable pub parse : ℕ → Parser S → Result (List Stmt × Parser S)
  parse fuel p = parse_loop fuel p >>= λ p₁. ok (in_order p₁.block.items [], p₁)
