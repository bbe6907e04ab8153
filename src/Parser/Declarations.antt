-- ===== src/Parser/Declarations.antt =====
-- Declarations of locals: `var x;` and `var x = value;`.
use arnel_lang.Prelude.{
  ℕ, suc, ◌+◌, ◌<◌, ◌≡◌, refl, ap, ◌∙◌, true, false, some, List, [], ◌∷◌, length, arith,
}
use arnel_lang.Token.{Token, TokenType, l_var, l_eq, l_ident, l_semicolon}
use arnel_lang.Ast.{Ast, decl_local, decl_assignment, absent, node}
use arnel_lang.Parser.Result.{Result, ok, or_fault}
use arnel_lang.Parser.Source.{Source}
use arnel_lang.Parser.Node.{prec}
use arnel_lang.Parser.State.{Parser}
use arnel_lang.Parser.Expr.{apply_operator, sub_expr}
use arnel_lang.Parser.Step.{
  is_statement, is_eq, void_expr, parse_semicolon, parse_var, parse_case, parse_step,
  parse_statements,
}
use arnel_lang.Parser.Machine.{
  bind_lem, peek_lem, next_lem, at, put_value_lem, put_operator_lem, Consumes,
}
use arnel_lang.Parser.Statements.{reduce_step, reduce_end, semicolon-Consumes}
use arnel_lang.Parser.Braces.{loop_lem}

module _ (S : Source) (strtol : List ℕ → ℕ) (p : Parser S) where
  var_run :
      (vs os : List Ast) (v x e : Token) (t : TokenType) (k : Parser S → Result (Parser S))
      (s₁ s₂ s₃ s₄ s₅ : S.State)
      → v.type ≡ some l_var
      → x.type ≡ some l_ident
      → e.type ≡ some t
      → is_eq t ≡ true
      → S.peek s₁ 1 ≡ some (v, s₂)
      → S.peek s₂ 2 ≡ some (x, s₃)
      → S.next s₃ ≡ some (v, s₄)
      → S.peek s₄ 2 ≡ some (e, s₅)
      → (s₆ s₇ : S.State) → S.next s₅ ≡ some (x, s₆)
      → S.next s₆ ≡ some (e, s₇)
      → length os < p.operators.cap
      → parse_step S strtol k (at S strtol p vs os s₁)
        ≡ ok (at S strtol p vs (decl_assignment x.lexeme absent ∷ os) s₇)
  unfolding parse_step parse_case parse_var
  var_run vs os v x e t k s₁ s₂ s₃ s₄ s₅ ve xe ee yes_eq peek₁ peek₂ next₃ peek₄ s₆ s₇ next₅ next₆
        room =
      bind_lem _ (peek_lem S (at S strtol p vs os s₁) 1 v s₂ peek₁) (
        bind_lem _ (ap or_fault ve) (
          bind_lem _
            (bind_lem _ (peek_lem S (at S strtol p vs os s₂) 2 x s₃ peek₂) (
              bind_lem _ (ap or_fault xe) (
                bind_lem _ (next_lem S (at S strtol p vs os s₃) v s₄ next₃) (
                  bind_lem _ (peek_lem S (at S strtol p vs os s₄) 2 e s₅ peek₄) (
                    bind_lem _ (ap or_fault ee) (
                      rw yes_eq (
                        bind_lem _ (next_lem S (at S strtol p vs os s₅) x s₆ next₅) (
                          put_operator_lem S strtol p vs os s₆ (decl_assignment x.lexeme absent)
                            room))))))))
            (bind_lem _
              (next_lem S (at S strtol p vs (decl_assignment x.lexeme absent ∷ os) s₆) e s₇ next₆)
              refl)))

  local_run :
      (vs os : List Ast) (v x e : Token) (t : TokenType) (k : Parser S → Result (Parser S))
      (s₁ s₂ s₃ s₄ s₅ : S.State)
      → v.type ≡ some l_var
      → x.type ≡ some l_ident
      → e.type ≡ some t
      → is_eq t ≡ false
      → S.peek s₁ 1 ≡ some (v, s₂)
      → S.peek s₂ 2 ≡ some (x, s₃)
      → S.next s₃ ≡ some (v, s₄)
      → S.peek s₄ 2 ≡ some (e, s₅)
      → (s₆ : S.State) → S.next s₅ ≡ some (x, s₆)
      → length vs < p.values.cap
      → parse_step S strtol k (at S strtol p vs os s₁)
        ≡ ok (at S strtol p (decl_local x.lexeme ∷ vs) os s₆)
  unfolding parse_step parse_case parse_var
  local_run vs os v x e t k s₁ s₂ s₃ s₄ s₅ ve xe ee not_eq peek₁ peek₂ next₃ peek₄ s₆ next₅ room =
      bind_lem _ (peek_lem S (at S strtol p vs os s₁) 1 v s₂ peek₁) (
        bind_lem _ (ap or_fault ve) (
          bind_lem _
            (bind_lem _ (peek_lem S (at S strtol p vs os s₂) 2 x s₃ peek₂) (
              bind_lem _ (ap or_fault xe) (
                bind_lem _ (next_lem S (at S strtol p vs os s₃) v s₄ next₃) (
                  bind_lem _ (peek_lem S (at S strtol p vs os s₄) 2 e s₅ peek₄) (
                    bind_lem _ (ap or_fault ee) (
                      rw not_eq (put_value_lem S strtol p vs os s₅ (decl_local x.lexeme) room)))))))
            (bind_lem _ (next_lem S (at S strtol p (decl_local x.lexeme ∷ vs) os s₅) x s₆ next₅)
              refl)))

  -- `var x =`
  pub var-Consumes :
      (vs os : List Ast) (v x e : Token)
      → v.type ≡ some l_var
      → x.type ≡ some l_ident
      → e.type ≡ some l_eq
      → length os < p.operators.cap
      → Consumes S strtol p vs os (v ∷ x ∷ e ∷ []) vs (decl_assignment x.lexeme absent ∷ os)
  var-Consumes vs os v x e ve xe ee room rest s h =
      let (s₁, peek₁, h₁) = S.peek-Delivers s 0 v (v ∷ x ∷ e ∷ rest) h (omega arith) refl in
      let (s₂, peek₂, h₂) = S.peek-Delivers s₁ 0 v (v ∷ x ∷ e ∷ rest) h₁ (omega arith) refl in
      let (s₃, peek₃, h₃) = S.peek-Delivers s₂ 1 x (v ∷ x ∷ e ∷ rest) h₂ (omega arith) refl in
      let (s₄, next₄, h₄) = S.next-Delivers s₃ v (x ∷ e ∷ rest) h₃ in
      let (s₅, peek₅, h₅) = S.peek-Delivers s₄ 1 e (x ∷ e ∷ rest) h₄ (omega arith) refl in
      let (s₆, next₆, h₆) = S.next-Delivers s₅ x (e ∷ rest) h₅ in
      let (s₇, next₇, h₇) = S.next-Delivers s₆ e rest h₆ in
      (
        s₇,
        h₇,
        2,
        (λ fuel.
            ap (λ k. parse_statements S strtol k (at S strtol p vs os s)) (three fuel)
            ∙ loop_lem S strtol p vs os v l_var (2 + fuel) s s₁
                (at S strtol p vs (decl_assignment x.lexeme absent ∷ os) s₇) ve refl peek₁
                (var_run vs os v x e l_eq (parse_statements S strtol (2 + fuel)) s₁ s₂ s₃ s₄ s₅ ve
                  xe ee refl peek₂ peek₃ next₄ peek₅ s₆ s₇ next₆ next₇ room)),
      )
    where
      three : (n : ℕ) → 3 + n ≡ suc (2 + n)
      three n = omega arith

  -- `var x;`
  pub local-Consumes :
      (vs : List Ast) (v x semi : Token)
      → v.type ≡ some l_var
      → x.type ≡ some l_ident
      → semi.type ≡ some l_semicolon
      → length vs < p.values.cap
      → Consumes S strtol p vs [] (v ∷ x ∷ semi ∷ []) (decl_local x.lexeme ∷ vs) []
  unfolding parse_semicolon void_expr
  local-Consumes vs v x semi ve xe se room rest s h =
      let ts = v ∷ x ∷ semi ∷ rest in
      let (s₁, peek₁, h₁) = S.peek-Delivers s 0 v ts h (omega arith) refl in
      let (s₂, peek₂, h₂) = S.peek-Delivers s₁ 0 v ts h₁ (omega arith) refl in
      let (s₃, peek₃, h₃) = S.peek-Delivers s₂ 1 x ts h₂ (omega arith) refl in
      let (s₄, next₄, h₄) = S.next-Delivers s₃ v (x ∷ semi ∷ rest) h₃ in
      let (s₅, peek₅, h₅) = S.peek-Delivers s₄ 1 semi (x ∷ semi ∷ rest) h₄ (omega arith) refl in
      let (s₆, next₆, h₆) = S.next-Delivers s₅ x (semi ∷ rest) h₅ in
      let vs' = decl_local x.lexeme ∷ vs in
      let (s₇, h₇, spare, run) =
        semicolon-Consumes S strtol p vs' [] semi vs' [] se
          (λ t. bind_lem _ (reduce_end S strtol p is_statement vs' [] t refl) refl) rest s₆ h₆ in
      (
        s₇,
        h₇,
        spare + 1,
        (λ fuel.
            ap (λ k. parse_statements S strtol k (at S strtol p vs [] s)) (three fuel)
            ∙ loop_lem S strtol p vs [] v l_var (1 + (1 + fuel)) s s₁ (at S strtol p vs' [] s₆) ve
                refl peek₁
                (local_run vs [] v x semi l_semicolon (parse_statements S strtol (1 + (1 + fuel)))
                  s₁ s₂ s₃ s₄ s₅ ve xe se refl peek₂ peek₃ next₄ peek₅ s₆ next₆ room)
            ∙ run (1 + fuel)
            ∙ ap (λ k. parse_statements S strtol k (at S strtol p vs' [] s₇)) (group spare fuel)),
      )
    where
      three : (n : ℕ) → 3 + n ≡ suc (1 + (1 + n))
      three n = omega arith

      group : (a n : ℕ) → a + (1 + n) ≡ a + 1 + n
      group a n = omega arith

  -- The semicolon behind `var x = value`
  pub semicolon_decl :
      (vs : List Ast) (x : Token) (a : Ast) (semi : Token)
      → semi.type ≡ some l_semicolon
      → length vs < p.values.cap
      → Consumes S strtol p
          (a ∷ vs)
          (decl_assignment x.lexeme absent ∷ [])
          (semi ∷ [])
          (decl_assignment x.lexeme (node a) ∷ vs)
          []
  unfolding parse_semicolon void_expr sub_expr apply_operator prec
  semicolon_decl vs x a semi se room =
      let made = decl_assignment x.lexeme (node a) in
      semicolon-Consumes S strtol p (a ∷ vs) (decl_assignment x.lexeme absent ∷ []) semi (made ∷ vs)
        [] se
        (λ s.
          bind_lem _
            (reduce_step S strtol p is_statement (a ∷ vs) (made ∷ vs) []
                (decl_assignment x.lexeme absent) s refl
                (put_value_lem S strtol p vs [] s made room)
              ∙ reduce_end S strtol p is_statement (made ∷ vs) [] s refl)
            refl)
