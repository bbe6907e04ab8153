-- ===== src/Parser/TopLevel.antt =====
-- Declarations: what stands before the name, the type, and the body in its braces.
use arnel_lang.Prelude.{
  ℕ, zero, suc, ◌+◌, ◌-◌, ◌<◌, ◌≤◌, ◌≡◌, refl, sym, ap, ◌∙◌, Bool, true, false, Option, some, List,
  [], ◌∷◌, ◌++◌, length, arith,
}
use mathlib.Core.Path.{subst}
use mathlib.Core.List.{append-nil}
use arnel_lang.View.{no_view}
use arnel_lang.Token.{
  Token, TokenType, l_ident, l_eof, l_export, l_local, l_eq, l_arrow_r, l_lcurly, l_rcurly,
  l_semicolon,
}
use arnel_lang.Types.{TypeSystem}
use arnel_lang.Ast.{Ast}
use arnel_lang.Parser.Result.{ok, or_fault}
use arnel_lang.Parser.Source.{Source}
use arnel_lang.Parser.State.{Symbol, Parser}
use arnel_lang.Parser.Step.{parse_statements}
use arnel_lang.Parser.Machine.{bind_lem, next_lem, at}
use arnel_lang.Parser.Grammar.{IsBody}
use arnel_lang.Parser.Body.{parse_statements-IsBody}
use arnel_lang.Parser.Program.{parse_type, f_export, f_export_set, parse_flags}
use arnel_lang.Parser.Signature.{HasType, parse_type-HasType}

-- What `export` and `local` before a name make of a symbol's flags.
pub data IsFlagged (after : Symbol) : Symbol → List Token → Type 0 where
  plain : IsFlagged after after []
  exported :
      {symbol : Symbol} (t : Token) (ts : List Token)
      → t.type ≡ some l_export
      → f_export symbol ≡ false
      → IsFlagged after (record symbol { flags = symbol.flags + 1 }) ts
      → IsFlagged after symbol (t ∷ ts)
  scoped :
      {symbol : Symbol} (t : Token) (ts : List Token)
      → t.type ≡ some l_local
      → IsFlagged after symbol ts
      → IsFlagged after symbol (t ∷ ts)

abbrev pub fresh : Symbol
fresh = record { flags = 0; symbol_name = no_view; type = 0; body = [] }

abbrev pub is_eof : TokenType → Bool
is_eof t = elim t [ l_eof ↦ true | _ ↦ false ]

module _ (S : Source) where
  -- The flags and the name behind them are worked off, from the first token on.
  pub flags_run :
      (after symbol : Symbol) (fs : List Token) (q : Parser S) (name : Token) (rest : List Token)
      (fuel : ℕ)
      → IsFlagged after symbol fs
      → name.type ≡ some l_ident
      → S.Delivers q.source (fs ++ name ∷ rest)
      → length fs < fuel
      → (tok : Token) × (t : TokenType) × (s₁ s₂ : S.State) × (tok.type ≡ some t)
        × (is_eof t ≡ false)
        × (S.next q.source ≡ some (tok, s₁))
        × S.Delivers s₂ rest
        × ((strtol : List ℕ → ℕ)
            → parse_flags S strtol fuel tok symbol (record q { source = s₁ })
              ≡ ok (name, (after, record q { source = s₂ })))
  unfolding parse_flags
  flags_run after symbol fs q name rest zero flagged e h enough = absurd (omega arith)
  flags_run after _ _ q name rest (suc fuel) plain e h enough =
      let (s₁, next₁, h₁) = S.next-Delivers q.source name rest h in
      (name, l_ident, s₁, s₁, e, refl, next₁, h₁, (λ strtol. bind_lem _ (ap or_fault e) refl))
  flags_run after symbol _ q name rest (suc fuel) (exported t fs te once more) e h enough =
      let set : f_export_set symbol ≡ record symbol { flags = symbol.flags + 1 } = rw once refl in
      let more' = subst (λ y. IsFlagged after y fs) (sym set) more in
      let (s₁, next₁, h₁) = S.next-Delivers q.source t (fs ++ name ∷ rest) h in
      let (tok, u, s₂, s₃, ue, not_end, next₂, h₂, run) =
        flags_run after (f_export_set symbol) fs (record q { source = s₁ }) name rest fuel more' e
          h₁ (omega arith) in
      (
        t,
        l_export,
        s₁,
        s₃,
        te,
        refl,
        next₁,
        h₂,
        (λ strtol. bind_lem _ (ap or_fault te) (
            rw once
              (bind_lem _ (next_lem S (record q { source = s₁ }) tok s₂ next₂) (run strtol)))),
      )
  flags_run after symbol _ q name rest (suc fuel) (scoped t fs te more) e h enough =
      let (s₁, next₁, h₁) = S.next-Delivers q.source t (fs ++ name ∷ rest) h in
      let (tok, u, s₂, s₃, ue, not_end, next₂, h₂, run) =
        flags_run after symbol fs (record q { source = s₁ }) name rest fuel more e h₁
          (omega arith) in
      (
        t,
        l_local,
        s₁,
        s₃,
        te,
        refl,
        next₁,
        h₂,
        (λ strtol.
            bind_lem _ (ap or_fault te)
              (bind_lem _ (next_lem S (record q { source = s₁ }) tok s₂ next₂) (run strtol))),
      )

-- The newest node is the first of a stack and the last of a body.
abbrev pub reading_order : List Ast → List Ast
reading_order [] = []
reading_order (a ∷ nodes) = reading_order nodes ++ a ∷ []

module _ (strtol : List ℕ → ℕ) where
  -- A declaration, the symbol it makes, and the table of types behind it.
  pub data IsDeclaration (types : TypeSystem) (ts : List Token) (symbol : Symbol)
      (types' : TypeSystem) : Type 0 where
    declaration :
        (fs : List Token) (name eq : Token) (tys : List Token) (arrow left : Token)
        (us : List Token) (right semi : Token) (after : Symbol) (id : ℕ) (nodes : List Ast)
        → ts ≡ (fs ++ (name ∷ eq ∷ (tys ++ (arrow ∷ left ∷ (us ++ (right ∷ semi ∷ []))))))
        → IsFlagged after fresh fs
        → name.type ≡ some l_ident
        → eq.type ≡ some l_eq
        → HasType types name.lexeme tys id types'
        → arrow.type ≡ some l_arrow_r
        → left.type ≡ some l_lcurly
        → IsBody strtol us nodes
        → right.type ≡ some l_rcurly
        → semi.type ≡ some l_semicolon
        → length nodes + 2 < 12
        → symbol ≡ record after { symbol_name = name.lexeme; type = id; body = reading_order nodes }
        → IsDeclaration types ts symbol types'

module _ (S : Source) (strtol : List ℕ → ℕ) (p : Parser S) where
  -- The parser between two declarations, or within one.
  abbrev pub within : Option Symbol → TypeSystem → List Ast → S.State → Parser S
  within now types vs s = record (at S strtol p vs [] s) { now_symbol = now; types = types }

  pub type_run :
      (fuel : ℕ) (symbol : Symbol) (types : TypeSystem) (ts : List Token) (id : ℕ)
      (types' : TypeSystem) (rest : List Token) (s : S.State)
      → HasType types symbol.symbol_name ts id types'
      → 2 ≤ fuel
      → S.Delivers s (ts ++ rest)
      → (s' : S.State) × S.Delivers s' rest
        × (parse_type S strtol fuel (within (some symbol) types [] s)
            ≡ ok (id, within (some symbol) types' [] s'))
  type_run fuel symbol types ts id types' rest s typed enough h =
      let (s', h', run) =
        parse_type-HasType S strtol (fuel - 2) (within (some symbol) types [] s) symbol ts id types'
          rest refl typed h in
      (
        s',
        h',
        ap (λ n. parse_type S strtol n (within (some symbol) types [] s)) (two_more fuel enough)
            ∙ run,
      )
    where
      two_more : (n : ℕ) → 2 ≤ n → n ≡ suc (suc (n - 2))
      two_more n h = omega arith

  pub body_run :
      (fuel : ℕ) (symbol : Symbol) (types : TypeSystem) (us : List Token) (nodes : List Ast)
      (close : Token) (rest : List Token) (s : S.State)
      → IsBody strtol us nodes
      → close.type ≡ some l_rcurly
      → length us < fuel
      → length nodes + 2 < p.values.cap
      → 4 < p.operators.cap
      → S.Delivers s (us ++ close ∷ rest)
      → (s' : S.State) × S.Delivers s' (close ∷ rest)
        × (parse_statements S strtol fuel (within (some symbol) types [] s)
            ≡ ok (within (some symbol) types nodes s'))
  body_run fuel symbol types us nodes close rest s body ce enough room room_op h =
      let q = within (some symbol) types [] s in
      let (s', h', run) =
        parse_statements-IsBody S strtol q [] us nodes close rest s (fuel - suc (length us)) body ce
          h refl (omega arith) room_op in
      (
        s',
        h',
        ap (λ n. parse_statements S strtol n q) (spare fuel (length us) enough)
            ∙ run
            ∙ ap (λ k. ok (within (some symbol) types k s')) (append-nil nodes),
      )
    where
      spare : (n k : ℕ) → k < n → n ≡ k + suc (n - suc k)
      spare n k h = omega arith
