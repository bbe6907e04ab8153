-- ===== src/Parser/Listing.antt =====
-- Whole declarations, and the list of them that is a program.
use arnel_lang.Prelude.{
  ℕ, ◌+◌, ◌≤◌, ◌≡◌, refl, sym, ap, ◌∙◌, false, none, some, List, [], ◌∷◌, ◌++◌, length, arith,
  length-append,
}
use mathlib.Core.Path.{subst}
use mathlib.Core.List.{append_assoc, append-nil}
use arnel_lang.Token.{Token, TokenType, l_eof, l_eq, l_arrow_r, l_lcurly, l_semicolon}
use arnel_lang.Types.{TypeSystem}
use arnel_lang.Ast.{Ast}
use arnel_lang.Parser.Result.{ok, or_fault}
use arnel_lang.Parser.Source.{Source}
use arnel_lang.Parser.State.{Symbol, Parser}
use arnel_lang.Parser.Step.{parse_statements}
use arnel_lang.Parser.Machine.{bind_lem, next_lem}
use arnel_lang.Parser.Program.{parse_type, parse_flags, in_order, parse_top_level}
use arnel_lang.Parser.Signature.{expect_lem}
use arnel_lang.Parser.TopLevel.{
  fresh, is_eof, reading_order, flags_run, IsDeclaration, declaration, within, type_run, body_run,
}

in_order-reading_order : (nodes out : List Ast) → in_order nodes out ≡ reading_order nodes ++ out
in_order-reading_order [] out = refl
in_order-reading_order (a ∷ nodes) out =
    in_order-reading_order nodes (a ∷ out) ∙ sym (append_assoc (reading_order nodes) (a ∷ []) out)

module _ (S : Source) (strtol : List ℕ → ℕ) (p : Parser S) where
  pub tail_run :
      (fuel : ℕ) (after : Symbol) (types types' : TypeSystem) (id : ℕ) (nodes : List Ast)
      (tok name eq arrow left right semi : Token) (t : TokenType)
      (s s₁ s₂ s₃ s₄ s₅ s₆ s₇ s₈ s₉ : S.State)
      → S.next s ≡ some (tok, s₁)
      → tok.type ≡ some t
      → is_eof t ≡ false
      → parse_flags S strtol fuel tok fresh (within S strtol p none types [] s₁)
        ≡ ok (name, (after, within S strtol p none types [] s₂))
      → S.next s₂ ≡ some (eq, s₃)
      → eq.type ≡ some l_eq
      → parse_type S strtol fuel
          (within S strtol p (some (record after { symbol_name = name.lexeme })) types [] s₃)
        ≡ ok
            (id, within S strtol p (some (record after { symbol_name = name.lexeme })) types' [] s₄)
      → S.next s₄ ≡ some (arrow, s₅)
      → arrow.type ≡ some l_arrow_r
      → S.next s₅ ≡ some (left, s₆)
      → left.type ≡ some l_lcurly
      → parse_statements S strtol fuel (
          within S strtol p
            (some (record after { symbol_name = name.lexeme; type = id }))
            types'
            []
            s₆)
        ≡ ok (
            within S strtol p
              (some (record after { symbol_name = name.lexeme; type = id }))
              types'
              nodes
              s₇)
      → S.next s₇ ≡ some (right, s₈)
      → S.next s₈ ≡ some (semi, s₉)
      → semi.type ≡ some l_semicolon
      → parse_top_level S strtol fuel (within S strtol p none types [] s)
        ≡ ok (
          some (record after { symbol_name = name.lexeme; type = id; body = in_order nodes [] }),
          within S strtol p
              (some (record after { symbol_name = name.lexeme; type = id }))
              types'
              []
              s₉,
        )
  unfolding parse_top_level
  tail_run fuel after types types' id nodes tok name eq arrow left right semi t s s₁ s₂ s₃ s₄ s₅ s₆
        s₇ s₈ s₉ next₁ te not_end flags next₃ ee typed next₅ ae next₆ le body next₈ next₉ se =
      let symbol : Symbol = record after { symbol_name = name.lexeme } in
      let typed_symbol : Symbol = record after { symbol_name = name.lexeme; type = id } in
      let q = within S strtol p in
      bind_lem _ (next_lem S (q none types [] s) tok s₁ next₁) (
        bind_lem _ (ap or_fault te) (
          begin t _ _ _ not_end (
            bind_lem _ flags (
              bind_lem _
                (expect_lem S strtol l_eq l_eq (q (some symbol) types [] s₂) eq s₃ next₃ ee refl)
                (bind_lem _ typed (
                  bind_lem _
                    (expect_lem S strtol l_arrow_r l_arrow_r (q (some typed_symbol) types' [] s₄)
                      arrow s₅ next₅ ae refl)
                    (bind_lem _
                      (expect_lem S strtol l_lcurly l_lcurly (q (some typed_symbol) types' [] s₅)
                        left s₆ next₆ le refl)
                      (bind_lem _ body (
                        bind_lem _
                          (next_lem S (q (some typed_symbol) types' nodes s₇) right s₈ next₈)
                          (bind_lem _
                            (expect_lem S strtol l_semicolon l_semicolon
                              (q (some typed_symbol) types' nodes s₈) semi s₉ next₉ se refl)
                            refl))))))))))
    where
      begin :
          {A : Type 0} (u : TokenType) (x y z : A)
          → is_eof u ≡ false
          → x ≡ z
          → elim u [ l_eof ↦ y | _ ↦ x ] ≡ z
      begin l_eof x y z h e = cc
      begin _ x y z h e = e

flat :
    (fs tys us rest : List Token) (name eq arrow left right semi : Token)
    → ((fs ++ (name ∷ eq ∷ (tys ++ (arrow ∷ left ∷ (us ++ (right ∷ semi ∷ []))))))) ++ rest
      ≡ (fs ++ (name ∷ eq ∷ (tys ++ (arrow ∷ left ∷ (us ++ (right ∷ semi ∷ rest))))))
flat fs tys us rest name eq arrow left right semi =
    append_assoc fs _ rest
    ∙ ap (λ k. (fs ++ (name ∷ eq ∷ k)))
        (append_assoc tys _ rest ∙ ap (λ k. (tys ++ (arrow ∷ left ∷ k))) (append_assoc us _ rest))

pub parts :
    (fs tys us : List Token) (name eq arrow left right semi : Token)
    → length ((fs ++ (name ∷ eq ∷ (tys ++ (arrow ∷ left ∷ (us ++ (right ∷ semi ∷ [])))))))
      ≡ length fs + length tys + length us + 6
parts fs tys us name eq arrow left right semi = omega (
  arith,
  length-append fs (name ∷ eq ∷ (tys ++ (arrow ∷ left ∷ (us ++ (right ∷ semi ∷ []))))),
  length-append tys (arrow ∷ left ∷ (us ++ (right ∷ semi ∷ []))),
  length-append us (right ∷ semi ∷ []),
)

-- `parse_top_level` in front of a declaration, with as many rounds as the declaration has tokens: it
-- takes these tokens, returns the symbol that the grammar gives, with its flags, name, type and body,
-- and leaves the stacks empty and the types as the grammar says. The stacks have at least the slots
-- that they start with, and the body at most nine nodes.
pub parse_top_level-IsDeclaration :
    (S : Source) (strtol : List ℕ → ℕ) (p : Parser S) (fuel : ℕ) (types : TypeSystem)
    (ts : List Token) (symbol : Symbol) (types' : TypeSystem) (rest : List Token) (s : S.State)
    → IsDeclaration strtol types ts symbol types'
    → 12 ≤ p.values.cap
    → 12 ≤ p.operators.cap
    → length ts ≤ fuel
    → S.Delivers s (ts ++ rest)
    → (now : Symbol) × (s' : S.State) × S.Delivers s' rest
      × (parse_top_level S strtol fuel (within S strtol p none types [] s)
          ≡ ok (some symbol, within S strtol p (some now) types' [] s'))
parse_top_level-IsDeclaration S strtol p fuel types ts symbol types' rest s
      (declaration fs name eq tys arrow left us right semi after id nodes shape flagged ne ee typed
        ae le body re se few made)
      room room_op enough h =
    let size : length ts ≡ length fs + length tys + length us + 6 =
      ap length shape ∙ parts fs tys us name eq arrow left right semi in
    let h₀ : S.Delivers s
        ((fs ++ (name ∷ eq ∷ (tys ++ (arrow ∷ left ∷ (us ++ (right ∷ semi ∷ rest))))))) =
      subst (S.Delivers s)
        (ap (λ k. k ++ rest) shape ∙ flat fs tys us rest name eq arrow left right semi) h in
    let (tok, t, s₁, s₂, te, not_end, next₁, h₂, flags) =
      flags_run S after fresh fs (within S strtol p none types [] s) name
        (eq ∷ (tys ++ (arrow ∷ left ∷ (us ++ (right ∷ semi ∷ rest))))) fuel flagged ne h₀
        (omega arith) in
    let (s₃, next₃, h₃) =
      S.next-Delivers s₂ eq ((tys ++ (arrow ∷ left ∷ (us ++ (right ∷ semi ∷ rest))))) h₂ in
    let (s₄, h₄, type_read) =
      type_run S strtol p fuel (record after { symbol_name = name.lexeme }) types tys id types'
        (arrow ∷ left ∷ (us ++ (right ∷ semi ∷ rest))) s₃ typed (omega arith) h₃ in
    let (s₅, next₅, h₅) = S.next-Delivers s₄ arrow (left ∷ (us ++ (right ∷ semi ∷ rest))) h₄ in
    let (s₆, next₆, h₆) = S.next-Delivers s₅ left ((us ++ (right ∷ semi ∷ rest))) h₅ in
    let now : Symbol = record after { symbol_name = name.lexeme; type = id } in
    let (s₇, h₇, body_read) =
      body_run S strtol p fuel now types' us nodes right (semi ∷ rest) s₆ body re (omega arith)
        (omega arith) (omega arith) h₆ in
    let (s₈, next₈, h₈) = S.next-Delivers s₇ right (semi ∷ rest) h₇ in
    let (s₉, next₉, h₉) = S.next-Delivers s₈ semi rest h₈ in
    (
      now,
      s₉,
      h₉,
      tail_run S strtol p fuel after types types' id nodes tok name eq arrow left right semi t s s₁
            s₂ s₃ s₄ s₅ s₆ s₇ s₈ s₉ next₁ te not_end (flags strtol) next₃ ee type_read next₅ ae
            next₆ le body_read next₈ next₉ se
          ∙ ap
              (λ b. ok (
                some (record after { symbol_name = name.lexeme; type = id; body = b }),
                within S strtol p (some now) types' [] s₉,
              ))
              (in_order-reading_order nodes [] ∙ append-nil (reading_order nodes))
          ∙ ap (λ k. ok (some k, within S strtol p (some now) types' [] s₉)) (sym made),
    )
