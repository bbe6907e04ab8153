-- ===== src/Parser/Machine.antt =====
-- The parser as a machine on the items of its two stacks.
use arnel_lang.Prelude.{
  ℕ, suc, ◌+◌, ◌<◌, ◌≡◌, refl, ap, ◌∙◌, false, some, List, [], ◌∷◌, ◌++◌, length, arith,
  length-append,
}
use mathlib.Core.List.{append_assoc}
use mathlib.Core.Path.{subst}
use arnel_lang.Token.{Token, TokenType}
use arnel_lang.Ast.{Ast}
use arnel_lang.Parser.Result.{Result, ok, fault, ◌>>=◌, or_fault}
use arnel_lang.Parser.Stack
use arnel_lang.Parser.Stack.{Stack}
use arnel_lang.Parser.Source.{Source}
use arnel_lang.Parser.State.{Parser, peek, next, put_value, put_operator}
use arnel_lang.Parser.Step.{is_rcurly, parse_case, parse_step, parse_statements}

pub bind_lem {ℓ κ} :
    {A : Type ℓ} {B : Type κ} {m : Result A} (f : A → Result B) {a : A} {r : Result B}
    → m ≡ ok a
    → f a ≡ r
    → (m >>= f) ≡ r
bind_lem f e h = ap (λ o. o >>= f) e ∙ h

pub bind_fault {ℓ κ} :
    {A : Type ℓ} {B : Type κ} {m : Result A} (f : A → Result B) → m ≡ fault → (m >>= f) ≡ fault
bind_fault f e = ap (λ o. o >>= f) e

module _ (S : Source) where
  pub peek_lem :
      (p : Parser S) (k : ℕ) (tok : Token) (s : S.State)
      → S.peek p.source k ≡ some (tok, s)
      → peek S p k ≡ ok (tok, record p { source = s })
  peek_lem p k tok s e = rw e refl

  pub next_lem :
      (p : Parser S) (tok : Token) (s : S.State)
      → S.next p.source ≡ some (tok, s)
      → next S p ≡ ok (tok, record p { source = s })
  next_lem p tok s e = rw e refl

module _ (S : Source) (strtol : List ℕ → ℕ) (p : Parser S) where
  -- The parser `p` with other items in its stacks.
  abbrev pub at : List Ast → List Ast → S.State → Parser S
  at vs os s = record p {
    values = record p.values { items = vs };
    operators = record p.operators { items = os };
    source = s;
  }

  pub put_value_lem :
      (vs os : List Ast) (s : S.State) (a : Ast)
      → length vs < p.values.cap
      → put_value S (at vs os s) a ≡ ok (at (a ∷ vs) os s)
  unfolding Stack.put
  put_value_lem vs os s a h = ground arith

  pub put_operator_lem :
      (vs os : List Ast) (s : S.State) (a : Ast)
      → length os < p.operators.cap
      → put_operator S (at vs os s) a ≡ ok (at vs (a ∷ os) s)
  unfolding Stack.put
  put_operator_lem vs os s a h = ground arith

  -- From the first pair of stacks the loop over statements works off exactly the tokens `ts` and is
  -- then at the second pair. It needs at most one round for each token: `spare` rounds are left.
  abbrev pub Consumes : List Ast → List Ast → List Token → List Ast → List Ast → Type 0
  Consumes vs os ts vs' os' =
      (rest : List Token) (s : S.State)
      → S.Delivers s (ts ++ rest)
      → (s' : S.State) × S.Delivers s' rest
        × (spare : ℕ) × ((fuel : ℕ)
            → parse_statements S strtol (length ts + fuel) (at vs os s)
              ≡ parse_statements S strtol (spare + fuel) (at vs' os' s'))

  pub Consumes-nil : (vs os : List Ast) → Consumes vs os [] vs os
  Consumes-nil vs os rest s h = (s, h, 0, λ fuel. refl)

  pub Consumes-append :
      (vs os : List Ast) (ts : List Token) (vs₁ os₁ : List Ast) (us : List Token)
      (vs₂ os₂ : List Ast)
      → Consumes vs os ts vs₁ os₁
      → Consumes vs₁ os₁ us vs₂ os₂
      → Consumes vs os (ts ++ us) vs₂ os₂
  Consumes-append vs os ts vs₁ os₁ us vs₂ os₂ first second rest s h =
      let (s₁, h₁, spare₁, run₁) =
        first (us ++ rest) s (subst (S.Delivers s) (append_assoc ts us rest) h) in
      let (s₂, h₂, spare₂, run₂) = second rest s₁ h₁ in
      (
        s₂,
        h₂,
        spare₁ + spare₂,
        (λ fuel.
            ap (λ n. parse_statements S strtol n (at vs os s)) (omega (arith, length-append ts us))
            ∙ run₁ (length us + fuel)
            ∙ ap (λ n. parse_statements S strtol n (at vs₁ os₁ s₁))
                (shuffle spare₁ (length us) fuel)
            ∙ run₂ (spare₁ + fuel)
            ∙ ap (λ n. parse_statements S strtol n (at vs₂ os₂ s₂)) (regroup spare₁ spare₂ fuel)),
      )
    where
      shuffle : (a b c : ℕ) → a + (b + c) ≡ b + (a + c)
      shuffle a b c = omega arith

      regroup : (a b c : ℕ) → b + (a + c) ≡ a + b + c
      regroup a b c = omega arith

  pub token_run :
      (vs os : List Ast) (tok : Token) (t : TokenType) (vs' os' : List Ast) (s s₁ s₂ s₃ : S.State)
      (fuel : ℕ)
      → tok.type ≡ some t
      → is_rcurly t ≡ false
      → ((k : Parser S → Result (Parser S)) (s : S.State)
          → parse_case S strtol k t tok (at vs os s) ≡ ok (at vs' os' s))
      → S.peek s 1 ≡ some (tok, s₁)
      → S.peek s₁ 1 ≡ some (tok, s₂)
      → S.next s₂ ≡ some (tok, s₃)
      → parse_statements S strtol (suc fuel) (at vs os s)
        ≡ parse_statements S strtol (0 + fuel) (at vs' os' s₃)
  unfolding parse_statements parse_step
  token_run vs os tok t vs' os' s s₁ s₂ s₃ fuel e plain run peek₁ peek₂ next₃ =
      bind_lem _ (peek_lem S (at vs os s) 1 tok s₁ peek₁) (
        bind_lem _ (ap or_fault e) (
          rw plain (
            bind_lem _
              (bind_lem _ (peek_lem S (at vs os s₁) 1 tok s₂ peek₂) (
                bind_lem _ (ap or_fault e) (
                  bind_lem _ (run (parse_statements S strtol fuel) s₂)
                    (bind_lem _ (next_lem S (at vs' os' s₂) tok s₃ next₃) refl))))
              (ap (λ n. parse_statements S strtol n (at vs' os' s₃)) (omega arith)))))

  -- A token whose case does not look at the source.
  pub token-Consumes :
      (vs os : List Ast) (tok : Token) (t : TokenType) (vs' os' : List Ast)
      → tok.type ≡ some t
      → is_rcurly t ≡ false
      → ((k : Parser S → Result (Parser S)) (s : S.State)
          → parse_case S strtol k t tok (at vs os s) ≡ ok (at vs' os' s))
      → Consumes vs os (tok ∷ []) vs' os'
  token-Consumes vs os tok t vs' os' e plain run rest s h =
      let (s₁, peek₁, h₁) = S.peek-Delivers s 0 tok (tok ∷ rest) h (omega arith) refl in
      let (s₂, peek₂, h₂) = S.peek-Delivers s₁ 0 tok (tok ∷ rest) h₁ (omega arith) refl in
      let (s₃, next₃, h₃) = S.next-Delivers s₂ tok rest h₂ in
      (
        s₃,
        h₃,
        0,
        (λ fuel.
            ap (λ n. parse_statements S strtol n (at vs os s)) (omega arith)
            ∙ token_run vs os tok t vs' os' s s₁ s₂ s₃ fuel e plain run peek₁ peek₂ next₃),
      )
