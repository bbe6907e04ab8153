-- ===== src/Parser/Braces.antt =====
-- A block in its braces, and the rounds of the loop over statements.
use arnel_lang.Prelude.{
  ℕ, suc, ◌+◌, ◌<◌, ◌≡◌, refl, ap, ◌∙◌, false, some, List, [], ◌∷◌, ◌++◌, length, arith,
  length-append,
}
use mathlib.Core.Path.{subst}
use mathlib.Core.List.{append_assoc}
use arnel_lang.Token.{Token, TokenType, l_lcurly, l_rcurly}
use arnel_lang.Ast.{Ast, block, nil}
use arnel_lang.Parser.Result.{ok, or_fault}
use arnel_lang.Parser.Stack.{with_cap}
use arnel_lang.Parser.Source.{Source}
use arnel_lang.Parser.Node.{to_nodes}
use arnel_lang.Parser.State.{Parser}
use arnel_lang.Parser.Step.{
  unless_void, parse_block, is_rcurly, parse_case, parse_step, parse_statements,
}
use arnel_lang.Parser.Machine.{bind_lem, peek_lem, next_lem, at, put_value_lem, Consumes}

-- The nodes of a block whose values are these.
abbrev pub block_items : List Ast → List Ast
block_items [] = []
block_items (top ∷ items) = unless_void top (top ∷ items) items

abbrev pub block_of : List Ast → Ast
block_of items = block (to_nodes (block_items items) nil)

module _ (S : Source) (strtol : List ℕ → ℕ) (p : Parser S) where
  -- The stacks that a block starts with.
  abbrev pub inner : Parser S
  inner = record p { values = with_cap 12; operators = with_cap 12 }

  -- One round of the loop over statements.
  pub loop_lem :
      (vs os : List Ast) (tok : Token) (t : TokenType) (fuel : ℕ) (s s₁ : S.State) (q : Parser S)
      → tok.type ≡ some t
      → is_rcurly t ≡ false
      → S.peek s 1 ≡ some (tok, s₁)
      → parse_step S strtol (parse_statements S strtol fuel) (at S strtol p vs os s₁) ≡ ok q
      → parse_statements S strtol (suc fuel) (at S strtol p vs os s)
        ≡ parse_statements S strtol fuel q
  unfolding parse_statements
  loop_lem vs os tok t fuel s s₁ q e plain peek₁ step =
      bind_lem _ (peek_lem S (at S strtol p vs os s) 1 tok s₁ peek₁)
        (bind_lem _ (ap or_fault e) (rw plain (bind_lem _ step refl)))

  -- The loop ends at a brace.
  pub end_lem :
      (q : Parser S) (close : Token) (spare : ℕ) (s : S.State)
      → close.type ≡ some l_rcurly
      → S.peek q.source 1 ≡ some (close, s)
      → parse_statements S strtol (suc spare) q ≡ ok (record q { source = s })
  unfolding parse_statements
  end_lem q close spare s e peek₁ =
      bind_lem _ (peek_lem S q 1 close s peek₁) (bind_lem _ (ap or_fault e) refl)

  block_run :
      (vs os : List Ast) (left right : Token) (n : Ast) (ns : List Ast) (fuel spare : ℕ)
      (s s₁ s₂ s₃ s₄ s₅ s₆ : S.State)
      → left.type ≡ some l_lcurly
      → right.type ≡ some l_rcurly
      → S.peek s 1 ≡ some (left, s₁)
      → S.peek s₁ 1 ≡ some (left, s₂)
      → S.next s₂ ≡ some (left, s₃)
      → parse_statements S strtol fuel (at S strtol inner [] [] s₃)
        ≡ parse_statements S strtol (suc spare) (at S strtol inner (n ∷ ns) [] s₄)
      → S.peek s₄ 1 ≡ some (right, s₅)
      → S.next s₅ ≡ some (right, s₆)
      → length vs < p.values.cap
      → parse_statements S strtol (suc fuel) (at S strtol p vs os s)
        ≡ parse_statements S strtol fuel (at S strtol p (block_of (n ∷ ns) ∷ vs) os s₆)
  unfolding parse_step parse_case parse_block
  block_run vs os left right n ns fuel spare s s₁ s₂ s₃ s₄ s₅ s₆ oe ce peek₁ peek₂ next₃ body peek₅
        next₆ room =
      loop_lem vs os left l_lcurly fuel s s₁ (at S strtol p (block_of (n ∷ ns) ∷ vs) os s₆) oe refl
        peek₁
        (bind_lem _ (peek_lem S (at S strtol p vs os s₁) 1 left s₂ peek₂) (
          bind_lem _ (ap or_fault oe) (
            bind_lem _
              (bind_lem _ (next_lem S (at S strtol inner [] [] s₂) left s₃ next₃) (
                bind_lem _
                  (body ∙ end_lem (at S strtol inner (n ∷ ns) [] s₄) right spare s₅ ce peek₅)
                  (put_value_lem S strtol p vs os s₅ (block_of (n ∷ ns)) room)))
              (bind_lem _ (next_lem S (at S strtol p (block_of (n ∷ ns) ∷ vs) os s₅) right s₆ next₆)
                refl))))

  pub block-Consumes :
      (vs os : List Ast) (left : Token) (ts : List Token) (right : Token) (n : Ast) (ns : List Ast)
      → left.type ≡ some l_lcurly
      → right.type ≡ some l_rcurly
      → Consumes S strtol inner [] [] ts (n ∷ ns) []
      → length vs < p.values.cap
      → Consumes S strtol p vs os ((left ∷ []) ++ (ts ++ right ∷ [])) (block_of (n ∷ ns) ∷ vs) os
  block-Consumes vs os left ts right n ns le re body room rest s h =
      let h₀ = subst (λ k. S.Delivers s (left ∷ k)) (append_assoc ts (right ∷ []) rest) h in
      let (s₁, peek₁, h₁) =
        S.peek-Delivers s 0 left (left ∷ ts ++ right ∷ rest) h₀ (omega arith) refl in
      let (s₂, peek₂, h₂) =
        S.peek-Delivers s₁ 0 left (left ∷ ts ++ right ∷ rest) h₁ (omega arith) refl in
      let (s₃, next₃, h₃) = S.next-Delivers s₂ left (ts ++ right ∷ rest) h₂ in
      let (s₄, h₄, spare, run) = body (right ∷ rest) s₃ h₃ in
      let (s₅, peek₅, h₅) = S.peek-Delivers s₄ 0 right (right ∷ rest) h₄ (omega arith) refl in
      let (s₆, next₆, h₆) = S.next-Delivers s₅ right rest h₅ in
      (
        s₆,
        h₆,
        suc (length ts),
        (λ fuel.
            ap (λ k. parse_statements S strtol k (at S strtol p vs os s))
              (omega (arith, length-append ts (right ∷ [])))
            ∙ block_run vs os left right n ns (suc (length ts) + fuel) (spare + fuel) s s₁ s₂ s₃ s₄
                s₅ s₆ le re peek₁ peek₂ next₃
                (ap (λ k. parse_statements S strtol k (at S strtol inner [] [] s₃))
                    (inside (length ts) fuel)
                  ∙ run (suc fuel)
                  ∙ ap (λ k. parse_statements S strtol k (at S strtol inner (n ∷ ns) [] s₄))
                      (after spare fuel))
                peek₅ next₆ room),
      )
    where
      inside : (a b : ℕ) → suc a + b ≡ a + suc b
      inside a b = omega arith

      after : (a b : ℕ) → a + suc b ≡ suc (a + b)
      after a b = omega arith
