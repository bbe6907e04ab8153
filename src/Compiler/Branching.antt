-- ===== src/Compiler/Branching.antt =====
-- The lines of a conditional: a test, a jump, and one or two pieces of code.
use arnel_lang.Prelude.{
  ℕ, ◌≡◌, sym, ap, ◌∙◌, Bool, true, false, Option, some, List, [], ◌∷◌, ◌++◌, ◌>>=◌, >>=-eq-some,
}
use mathlib.Core.Path.{subst}
use mathlib.Core.Option.{some-injective}
use mathlib.Core.List.{append_assoc}
use arnel_lang.Ast.{BinOp}
use arnel_lang.Compiler.Locals.{Locals}
use arnel_lang.Compiler.Code.{Val, Label, Line, label, jmp, jnz}
use arnel_lang.Compiler.Registers.{Registers, operand, exec}
use arnel_lang.Compiler.Jumps.{
  find, Reaches-refl, Reaches-trans, exec-Reaches, label-Reaches, jmp-Reaches, jnz-Reaches,
}
use arnel_lang.Compiler.Meaning.{Env, Scoping}
use arnel_lang.Compiler.Layout.{Stored}
use arnel_lang.Compiler.Simulation.{
  EndsIn, EndsIn-cons, EndsIn-append, find-EndsIn, Arrives, Arrives-after, Simulates, Stored-narrow,
}

module _ (L : Locals) (eval_op : BinOp → ℕ → ℕ → ℕ) (truth : ℕ → Bool) where
  -- The lines compute the test, and the names in scope keep their values.
  abbrev pub Tests : List Line → Val → Scoping → L.Map → (Env → Option ℕ) → Type 0
  Tests lines v scope locals test =
      (env : Env) (regs : Registers) (n : ℕ)
      → Stored L scope env locals regs
      → test env ≡ some n
      → (after : Registers) × (exec eval_op lines regs ≡ some after)
        × (operand v after ≡ n)
        × Stored L scope env locals after

  -- A choice between two pieces by a test
  abbrev pub choose : (Env → Option ℕ) → (Env → Option Env) → (Env → Option Env) → Env → Option Env
  choose test m₁ m₂ env = test env >>= λ n. elim (truth n) [ true ↦ m₁ env | false ↦ m₂ env ]

  -- The test runs, and then the jump to the one or the other label.
  pub Arrives-test :
      (code tl : List Line) (v : Val) (yes_label no_label : Label)
      (lines yes_lines no_lines rest : List Line) (scope : Scoping) (locals : L.Map)
      (test : Env → Option ℕ) (m₁ m₂ : Env → Option Env) (regs : Registers) (env env' : Env)
      (scope' : Scoping) (locals' : L.Map)
      → Tests tl v scope locals test
      → Stored L scope env locals regs
      → find yes_label code ≡ some yes_lines
      → find no_label code ≡ some no_lines
      → ((after : Registers)
          → Stored L scope env locals after
          → m₁ env ≡ some env'
          → Arrives L eval_op truth code yes_lines after rest scope' env' locals')
      → ((after : Registers)
          → Stored L scope env locals after
          → m₂ env ≡ some env'
          → Arrives L eval_op truth code no_lines after rest scope' env' locals')
      → choose test m₁ m₂ env ≡ some env'
      → Arrives L eval_op truth code
          (tl ++ jnz v yes_label no_label ∷ lines)
          regs
          rest
          scope'
          env'
          locals'
  Arrives-test code tl v yes_label no_label lines yes_lines no_lines rest scope locals test m₁ m₂
        regs env env' scope' locals' tests stored find_yes find_no yes_case no_case value =
      let (n, tested, chosen) = >>=-eq-some (test env) _ value in
      let (after, run, result, stored') = tests env regs n stored tested in
      Arrives-after L eval_op truth code (tl ++ jnz v yes_label no_label ∷ lines) regs
        (jnz v yes_label no_label ∷ lines) after rest scope' env' locals'
        (exec-Reaches eval_op truth code tl (jnz v yes_label no_label ∷ lines) regs after run)
        (jumps after stored' (truth n) (ap truth result) chosen)
    where
      jumps :
          (after : Registers)
          → Stored L scope env locals after
          → (b : Bool) → truth (operand v after) ≡ b
          → (elim b as (λ _. Option Env) [ true ↦ m₁ env | false ↦ m₂ env ]) ≡ some env'
          → Arrives L eval_op truth code
              (jnz v yes_label no_label ∷ lines)
              after
              rest
              scope'
              env'
              locals'
      jumps after stored' true t chosen =
          Arrives-after L eval_op truth code (jnz v yes_label no_label ∷ lines) after yes_lines
            after rest scope' env' locals'
            (jnz-Reaches eval_op truth code v yes_label no_label lines yes_lines after true t
              find_yes)
            (yes_case after stored' chosen)
      jumps after stored' false t chosen =
          Arrives-after L eval_op truth code (jnz v yes_label no_label ∷ lines) after no_lines after
            rest scope' env' locals'
            (jnz-Reaches eval_op truth code v yes_label no_label lines no_lines after false t
              find_no)
            (no_case after stored' chosen)

  -- An arrival in front of a label goes on behind it, and in front of a jump at its label.
  pub Arrives-label :
      (code lines : List Line) (regs : Registers) (l : Label) (rest : List Line) (scope : Scoping)
      (env : Env) (locals : L.Map)
      → Arrives L eval_op truth code lines regs (label l ∷ rest) scope env locals
      → Arrives L eval_op truth code lines regs rest scope env locals
  Arrives-label code lines regs l rest scope env locals (after, run, stored) = (
    after,
    Reaches-trans eval_op truth code lines regs (label l ∷ rest) after rest after run
        (label-Reaches eval_op truth code l rest after),
    stored,
  )

  pub Arrives-jmp :
      (code lines : List Line) (regs : Registers) (l : Label) (tail rest : List Line)
      (scope : Scoping) (env : Env) (locals : L.Map)
      → find l code ≡ some rest
      → Arrives L eval_op truth code lines regs (jmp l ∷ tail) scope env locals
      → Arrives L eval_op truth code lines regs rest scope env locals
  Arrives-jmp code lines regs l tail rest scope env locals found (after, run, stored) = (
    after,
    Reaches-trans eval_op truth code lines regs (jmp l ∷ tail) after rest after run
        (jmp-Reaches eval_op truth code l tail rest after found),
    stored,
  )

  abbrev pub branch_lines : List Line → Val → Label → Label → List Line → List Line → List Line
  branch_lines tl v tr end bl rest = tl ++ jnz v tr end ∷ label tr ∷ (bl ++ rest)

  -- One branch
  pub conditional-Simulates :
      (tl bl : List Line) (v : Val) (tr end : Label) (scope : Scoping) (l l' : L.Map)
      (test : Env → Option ℕ) (m : Env → Option Env)
      → Tests tl v scope l test
      → ((x : List ℕ) → scope x ≡ true → L.get l' x ≡ L.get l x)
      → Simulates L eval_op truth bl scope l scope l' m
      → Simulates L eval_op truth
          (branch_lines tl v tr end bl (label end ∷ []))
          scope
          l
          scope
          l'
          (choose test m some)
  conditional-Simulates tl bl v tr end scope l l' test m tests kept body code rest regs env env'
        labelled ends stored value =
      let tail : List Line = label end ∷ rest in
      let inner : List Line = bl ++ tail in
      let shape : branch_lines tl v tr end bl (label end ∷ []) ++ rest
          ≡ branch_lines tl v tr end bl tail =
        append_assoc tl (jnz v tr end ∷ label tr ∷ (bl ++ label end ∷ [])) rest
        ∙ ap (λ k. tl ++ jnz v tr end ∷ label tr ∷ k) (append_assoc bl (label end ∷ []) rest) in
      let ends₀ = subst (EndsIn code) shape ends in
      let ends₁ =
        EndsIn-cons code (jnz v tr end) (label tr ∷ inner)
          (EndsIn-append code tl (jnz v tr end ∷ label tr ∷ inner) ends₀) in
      let ends₂ = EndsIn-cons code (label tr) inner ends₁ in
      subst (λ k. Arrives L eval_op truth code k regs rest scope env' l') (sym shape)
        (Arrives-test code tl v tr end (label tr ∷ inner) inner rest rest scope l test m some regs
          env env' scope l' tests stored (find-EndsIn code tr inner labelled ends₁)
          (find-EndsIn code end rest labelled (EndsIn-append code bl tail ends₂))
          (λ after stored' e.
            Arrives-label code inner after end rest scope env' l'
              (body code tail after env env' labelled ends₂ stored' e))
          (λ after stored' e. (
            after,
            Reaches-refl eval_op truth code rest after,
            Stored-narrow L eval_op truth scope scope env' l' l after (λ x h. h)
                (λ x h. sym (kept x h))
                (subst (λ k. Stored L scope k l after) (some-injective _ _ e) stored'),
          ))
          value)

  abbrev pub alternative_lines :
      List Line → Val → Label → Label → Label → List Line → List Line → List Line → List Line
  alternative_lines tl v tr fl end bl₁ bl₂ rest =
      branch_lines tl v tr fl bl₁ (jmp end ∷ label fl ∷ (bl₂ ++ label end ∷ rest))

  -- Two branches; the names in scope are at the same places behind both.
  pub alternative-Simulates :
      (tl bl₁ bl₂ : List Line) (v : Val) (tr fl end : Label) (scope : Scoping) (l l₁ l₂ : L.Map)
      (test : Env → Option ℕ) (m₁ m₂ : Env → Option Env)
      → Tests tl v scope l test
      → ((x : List ℕ) → scope x ≡ true → L.get l₁ x ≡ L.get l x)
      → ((x : List ℕ) → scope x ≡ true → L.get l₂ x ≡ L.get l₁ x)
      → Simulates L eval_op truth bl₁ scope l scope l₁ m₁
      → Simulates L eval_op truth bl₂ scope l₁ scope l₂ m₂
      → Simulates L eval_op truth
          (alternative_lines tl v tr fl end bl₁ bl₂ [])
          scope
          l
          scope
          l₂
          (choose test m₁ m₂)
  alternative-Simulates tl bl₁ bl₂ v tr fl end scope l l₁ l₂ test m₁ m₂ tests kept₁ kept₂ first
        second code rest regs env env' labelled ends stored value =
      let second_tail : List Line = bl₂ ++ label end ∷ rest in
      let first_tail : List Line = jmp end ∷ label fl ∷ second_tail in
      let inner : List Line = bl₁ ++ first_tail in
      let shape : alternative_lines tl v tr fl end bl₁ bl₂ [] ++ rest
          ≡ alternative_lines tl v tr fl end bl₁ bl₂ rest =
        append_assoc tl
          (jnz v tr fl ∷ label tr ∷ (bl₁ ++ jmp end ∷ label fl ∷ (bl₂ ++ label end ∷ []))) rest
        ∙ ap (λ k. tl ++ jnz v tr fl ∷ label tr ∷ k)
            (append_assoc bl₁ (jmp end ∷ label fl ∷ (bl₂ ++ label end ∷ [])) rest
              ∙ ap (λ k. bl₁ ++ jmp end ∷ label fl ∷ k) (append_assoc bl₂ (label end ∷ []) rest)) in
      let ends₀ = subst (EndsIn code) shape ends in
      let ends₁ =
        EndsIn-cons code (jnz v tr fl) (label tr ∷ inner)
          (EndsIn-append code tl (jnz v tr fl ∷ label tr ∷ inner) ends₀) in
      let ends₂ = EndsIn-cons code (label tr) inner ends₁ in
      let ends₃ =
        EndsIn-cons code (jmp end) (label fl ∷ second_tail)
          (EndsIn-append code bl₁ first_tail ends₂) in
      let ends₄ = EndsIn-cons code (label fl) second_tail ends₃ in
      let find_end =
        find-EndsIn code end rest labelled (EndsIn-append code bl₂ (label end ∷ rest) ends₄) in
      subst (λ k. Arrives L eval_op truth code k regs rest scope env' l₂) (sym shape)
        (Arrives-test code tl v tr fl (label tr ∷ inner) inner second_tail rest scope l test m₁ m₂
          regs env env' scope l₂ tests stored (find-EndsIn code tr inner labelled ends₁)
          (find-EndsIn code fl second_tail labelled ends₃)
          (λ after stored' e.
            let (last, run, kept) =
              Arrives-jmp code inner after end (label fl ∷ second_tail) rest scope env' l₁ find_end
                (first code first_tail after env env' labelled ends₂ stored' e) in
            (
              last,
              run,
              Stored-narrow L eval_op truth scope scope env' l₂ l₁ last (λ x h. h)
                  (λ x h. sym (kept₂ x h)) kept,
            ))
          (λ after stored' e. Arrives-label code second_tail after end rest scope env' l₂ (
            second code (label end ∷ rest) after env env' labelled ends₄
              (Stored-narrow L eval_op truth scope scope env l₁ l after (λ x h. h)
                (λ x h. sym (kept₁ x h)) stored')
              e))
          value)
