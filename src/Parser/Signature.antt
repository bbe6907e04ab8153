-- ===== src/Parser/Signature.antt =====
-- Types in front of a body: the name of a type, or an empty list of parameters and a result.
use arnel_lang.Prelude.{
  ℕ, suc, ◌<◌, ◌≡◌, refl, sym, ap, ◌∙◌, true, some, List, [], ◌∷◌, ◌++◌, length, get_elem?, set,
}
use mathlib.Core.Path.{subst}
use arnel_lang.View.{View}
use arnel_lang.Token.{Token, TokenType, l_ident, l_lparen, l_rparen, l_colon}
use arnel_lang.Types.{
  Sig, TypeEntry, TypeSystem, alloc_type, get_type_for_name, TypeStack, no_types,
}
use arnel_lang.Types.Laws.{put_type-full}
use arnel_lang.Ast.{decl_local}
use arnel_lang.Parser.Result.{ok, fault, or_fault}
use arnel_lang.Parser.Source.{Source}
use arnel_lang.Parser.State.{Symbol, Parser}
use arnel_lang.Parser.Machine.{bind_fault, bind_lem, next_lem, at, put_value_lem}
use arnel_lang.Parser.Program.{set_info, is_type, expect, parse_type, parse_params}

-- What the tokens of a type mean to a symbol of this name: the type's id, and the table afterwards. A
-- list of parameters, which is empty, makes a new entry under the symbol's name.
pub data HasType (types : TypeSystem) (name : View) (ts : List Token) (id : ℕ) (types' : TypeSystem)
    : Type 0 where
  named :
      (tok : Token) (entry : TypeEntry)
      → ts ≡ tok ∷ []
      → tok.type ≡ some l_ident
      → get_type_for_name types tok.lexeme ≡ some (some entry)
      → id ≡ entry.type_id
      → types' ≡ types
      → HasType types name ts id types'
  signature :
      (left right colon tok : Token) (entry made : TypeEntry) (more : TypeSystem)
      → ts ≡ left ∷ right ∷ colon ∷ tok ∷ []
      → left.type ≡ some l_lparen
      → right.type ≡ some l_rparen
      → colon.type ≡ some l_colon
      → tok.type ≡ some l_ident
      → alloc_type types name ≡ some (id, more)
      → get_type_for_name more tok.lexeme ≡ some (some entry)
      → get_elem? more.types id ≡ some made
      → types' ≡ record more {
        types = set more.types id (record made {
          type_info = some (record { return_type_id = entry.type_id; arg_types = [] });
        });
      }
      → HasType types name ts id types'

module _ (S : Source) (strtol : List ℕ → ℕ) where
  pub expect_lem :
      (want t : TokenType) (q : Parser S) (tok : Token) (s : S.State)
      → S.next q.source ≡ some (tok, s)
      → tok.type ≡ some t
      → is_type want t ≡ true
      → expect S strtol want q ≡ ok (record q { source = s })
  unfolding expect
  expect_lem want t q tok s next₁ e same =
      bind_lem _ (next_lem S q tok s next₁) (bind_lem _ (ap or_fault e) (rw same refl))

  named_run :
      (fuel : ℕ) (q : Parser S) (tok : Token) (entry : TypeEntry) (s : S.State)
      → S.next q.source ≡ some (tok, s)
      → tok.type ≡ some l_ident
      → get_type_for_name q.types tok.lexeme ≡ some (some entry)
      → parse_type S strtol (suc fuel) q ≡ ok (entry.type_id, record q { source = s })
  unfolding parse_type
  named_run fuel q tok entry s next₁ e found =
      bind_lem _ (next_lem S q tok s next₁)
        (bind_lem _ (ap or_fault e) (bind_lem _ (ap or_fault found) refl))

  no_params :
      (fuel : ℕ) (temp : TypeStack) (q : Parser S) (tok : Token) (s : S.State)
      → S.next q.source ≡ some (tok, s)
      → tok.type ≡ some l_rparen
      → parse_params S strtol (suc fuel) temp q ≡ ok (temp, record q { source = s })
  unfolding parse_type
  no_params fuel temp q tok s next₁ e =
      bind_lem _ (next_lem S q tok s next₁) (bind_lem _ (ap or_fault e) refl)

  signature_run :
      (fuel : ℕ) (q : Parser S) (symbol : Symbol) (left right colon tok : Token) (entry : TypeEntry)
      (id : ℕ) (types types' : TypeSystem) (s₁ s₂ s₃ s₄ : S.State)
      → q.now_symbol ≡ some symbol
      → left.type ≡ some l_lparen
      → right.type ≡ some l_rparen
      → colon.type ≡ some l_colon
      → tok.type ≡ some l_ident
      → S.next q.source ≡ some (left, s₁)
      → S.next s₁ ≡ some (right, s₂)
      → S.next s₂ ≡ some (colon, s₃)
      → S.next s₃ ≡ some (tok, s₄)
      → alloc_type q.types symbol.symbol_name ≡ some (id, types)
      → get_type_for_name types tok.lexeme ≡ some (some entry)
      → set_info types id (record { return_type_id = entry.type_id; arg_types = [] }) ≡ some types'
      → parse_type S strtol (suc (suc fuel)) q ≡ ok (id, record q { source = s₄; types = types' })
  unfolding parse_type no_types
  signature_run fuel q symbol left right colon tok entry id types types' s₁ s₂ s₃ s₄ now le re ce te
        next₁ next₂ next₃ next₄ made found set =
      bind_lem _ (next_lem S q left s₁ next₁) (
        bind_lem _ (ap or_fault le) (
          bind_lem _ (ap or_fault now) (
            bind_lem _ (ap or_fault made) (
              bind_lem _
                (no_params fuel no_types (record q { source = s₁; types = types }) right s₂ next₂
                  re)
                (bind_lem _
                  (expect_lem l_colon l_colon (record q { source = s₂; types = types }) colon s₃
                    next₃ ce refl)
                  (bind_lem _
                    (named_run fuel (record q { source = s₃; types = types }) tok entry s₄ next₄ te
                      found)
                    (bind_lem _ (ap or_fault set) refl)))))))

  -- `parse_type` takes the tokens of a type, gives its id and leaves the table as the grammar says; two
  -- rounds are enough.
  pub parse_type-HasType :
      (fuel : ℕ) (q : Parser S) (symbol : Symbol) (ts : List Token) (id : ℕ) (types' : TypeSystem)
      (rest : List Token)
      → q.now_symbol ≡ some symbol
      → HasType q.types symbol.symbol_name ts id types'
      → S.Delivers q.source (ts ++ rest)
      → (s : S.State) × S.Delivers s rest
        × (parse_type S strtol (suc (suc fuel)) q
            ≡ ok (id, record q { source = s; types = types' }))
  parse_type-HasType fuel q symbol ts id types' rest now (named tok entry shape te found same kept)
        h =
      let h₀ = subst (λ k. S.Delivers q.source (k ++ rest)) shape h in
      let (s₁, next₁, h₁) = S.next-Delivers q.source tok rest h₀ in
      (
        s₁,
        h₁,
        named_run (suc fuel) q tok entry s₁ next₁ te found
            ∙ ap (λ i. ok (i, record q { source = s₁ })) (sym same)
            ∙ ap (λ k. ok (id, record q { source = s₁; types = k })) (sym kept),
      )
  parse_type-HasType fuel q symbol ts id types' rest now
        (signature left right colon tok entry new more shape le re ce te made found here put) h =
      let sig : Sig = record { return_type_id = entry.type_id; arg_types = [] } in
      let stored : set_info more id sig ≡ some types' = rw (set_info, here) (ap some (sym put)) in
      let h₀ = subst (λ k. S.Delivers q.source (k ++ rest)) shape h in
      let (s₁, next₁, h₁) = S.next-Delivers q.source left (right ∷ colon ∷ tok ∷ rest) h₀ in
      let (s₂, next₂, h₂) = S.next-Delivers s₁ right (colon ∷ tok ∷ rest) h₁ in
      let (s₃, next₃, h₃) = S.next-Delivers s₂ colon (tok ∷ rest) h₂ in
      let (s₄, next₄, h₄) = S.next-Delivers s₃ tok rest h₃ in
      (
        s₄,
        h₄,
        signature_run fuel q symbol left right colon tok entry id more types' s₁ s₂ s₃ s₄ now le re
            ce te next₁ next₂ next₃ next₄ made found stored,
      )

  parameter_run :
      (fuel : ℕ) (q : Parser S) (x colon tok : Token) (entry : TypeEntry) (s₁ s₂ s₃ : S.State)
      → x.type ≡ some l_ident
      → colon.type ≡ some l_colon
      → tok.type ≡ some l_ident
      → S.next q.source ≡ some (x, s₁)
      → S.next s₁ ≡ some (colon, s₂)
      → S.next s₂ ≡ some (tok, s₃)
      → get_type_for_name q.types tok.lexeme ≡ some (some entry)
      → length q.values.items < q.values.cap
      → parse_params S strtol (suc (suc fuel)) no_types q ≡ fault
  unfolding parse_type
  parameter_run fuel q x colon tok entry s₁ s₂ s₃ xe ce te next₁ next₂ next₃ found room =
      let vs = decl_local x.lexeme ∷ q.values.items in
      bind_lem _ (next_lem S q x s₁ next₁) (
        bind_lem _ (ap or_fault xe) (
          bind_lem _ (next_lem S (record q { source = s₁ }) colon s₂ next₂) (
            bind_lem _
              (put_value_lem S strtol q q.values.items q.operators.items s₂ (decl_local x.lexeme)
                room)
              (bind_lem _ (ap or_fault ce) (
                bind_lem _
                  (named_run fuel (at S strtol q vs q.operators.items s₂) tok entry s₃ next₃ te
                    found)
                  (bind_fault _ (ap or_fault (put_type-full no_types entry.type_id refl))))))))

  -- A type that starts with a parameter, of a known type: the parser writes to the stack of ids, which
  -- has no slots and does not get one.
  pub parse_type-parameter :
      (fuel : ℕ) (q : Parser S) (symbol : Symbol) (left x colon tok : Token) (id : ℕ)
      (types : TypeSystem) (entry : TypeEntry) (rest : List Token)
      → q.now_symbol ≡ some symbol
      → left.type ≡ some l_lparen
      → x.type ≡ some l_ident
      → colon.type ≡ some l_colon
      → tok.type ≡ some l_ident
      → S.Delivers q.source (left ∷ x ∷ colon ∷ tok ∷ rest)
      → alloc_type q.types symbol.symbol_name ≡ some (id, types)
      → get_type_for_name types tok.lexeme ≡ some (some entry)
      → length q.values.items < q.values.cap
      → parse_type S strtol (suc (suc (suc fuel))) q ≡ fault
  unfolding parse_type
  parse_type-parameter fuel q symbol left x colon tok id types entry rest now le xe ce te h made
        found room =
      let (s₁, next₁, h₁) = S.next-Delivers q.source left (x ∷ colon ∷ tok ∷ rest) h in
      let (s₂, next₂, h₂) = S.next-Delivers s₁ x (colon ∷ tok ∷ rest) h₁ in
      let (s₃, next₃, h₃) = S.next-Delivers s₂ colon (tok ∷ rest) h₂ in
      let (s₄, next₄, h₄) = S.next-Delivers s₃ tok rest h₃ in
      bind_lem _ (next_lem S q left s₁ next₁) (
        bind_lem _ (ap or_fault le) (
          bind_lem _ (ap or_fault now) (
            bind_lem _ (ap or_fault made) (
              bind_fault _ (
                parameter_run fuel (record q { source = s₁; types = types }) x colon tok entry s₂ s₃
                  s₄ xe ce te next₂ next₃ next₄ found room)))))
