-- ===== src/Compiler/Looping.antt =====
-- The lines of a loop: a label, a test, a jump, and the lines of a round, which jump back to the label.
use arnel_lang.Prelude.{
  ℕ, zero, suc, ◌≡◌, sym, ap, ◌∙◌, Bool, true, Option, some, List, [], ◌∷◌, ◌++◌, ◌>>=◌,
  >>=-eq-some,
}
use mathlib.Core.Path.{subst}
use mathlib.Core.Option.{some-injective}
use mathlib.Core.List.{append_assoc}
use arnel_lang.Ast.{BinOp}
use arnel_lang.Compiler.Locals.{Locals}
use arnel_lang.Compiler.Code.{Val, Label, Line, label, jmp, jnz}
use arnel_lang.Compiler.Registers.{Registers}
use arnel_lang.Compiler.Jumps.{find, Reaches-refl, label-Reaches}
use arnel_lang.Compiler.Meaning.{Env, Scoping, repeat}
use arnel_lang.Compiler.Layout.{Stored}
use arnel_lang.Compiler.Simulation.{
  EndsIn, EndsIn-cons, EndsIn-append, find-EndsIn, Arrives, Arrives-after, Simulates, Stored-narrow,
}
use arnel_lang.Compiler.Branching.{Tests, Arrives-test, Arrives-jmp}

module _ (L : Locals) (eval_op : BinOp → ℕ → ℕ → ℕ) (truth : ℕ → Bool) where
  abbrev pub loop_lines :
      List Line → Val → Label → Label → Label → List Line → List Line → List Line
  loop_lines tl v top inner end bl rest =
      tl ++ jnz v inner end ∷ label inner ∷ (bl ++ jmp top ∷ label end ∷ rest)

  -- By the number of rounds; the code starts behind the label `top`.
  rounds-Arrive :
      (n : ℕ) (tl bl : List Line) (v : Val) (top inner end : Label) (scope : Scoping) (l l' : L.Map)
      (test : Env → Option ℕ) (m : Env → Option Env) (code rest : List Line) (regs : Registers)
      (env env' : Env)
      → Tests L eval_op truth tl v scope l test
      → ((x : List ℕ) → scope x ≡ true → L.get l' x ≡ L.get l x)
      → ((tail : List Line) (r : Registers) (e e' : Env)
          → EndsIn code (bl ++ tail)
          → Stored L scope e l r
          → m e ≡ some e'
          → Arrives L eval_op truth code (bl ++ tail) r tail scope e' l')
      → EndsIn code (bl ++ jmp top ∷ label end ∷ rest)
      → find top code ≡ some (loop_lines tl v top inner end bl rest)
      → find inner code ≡ some (bl ++ jmp top ∷ label end ∷ rest)
      → find end code ≡ some rest
      → Stored L scope env l regs
      → repeat eval_op truth n test m env ≡ some env'
      → Arrives L eval_op truth code (loop_lines tl v top inner end bl rest) regs rest scope env' l'
  unfolding repeat
  rounds-Arrive zero tl bl v top inner end scope l l' test m code rest regs env env' tests kept body
        ends find_top find_inner find_end stored value =
      cc
  rounds-Arrive (suc n) tl bl v top inner end scope l l' test m code rest regs env env' tests kept
        body ends find_top find_inner find_end stored value =
      let again : List Line = loop_lines tl v top inner end bl rest in
      let tail : List Line = jmp top ∷ label end ∷ rest in
      Arrives-test L eval_op truth code tl v inner end (label inner ∷ (bl ++ tail)) (bl ++ tail)
        rest rest scope l test (λ e. m e >>= repeat eval_op truth n test m) some regs env env' scope
        l' tests stored find_inner find_end
        (λ after stored' e.
          let (env₁, first, others) = >>=-eq-some (m env) _ e in
          let (back, run, stored₁) =
            Arrives-jmp L eval_op truth code (bl ++ tail) after top (label end ∷ rest) again scope
              env₁ l' find_top (body tail after env env₁ ends stored' first) in
          Arrives-after L eval_op truth code (bl ++ tail) after again back rest scope env' l' run (
            rounds-Arrive n tl bl v top inner end scope l l' test m code rest back env₁ env' tests
              kept body ends find_top find_inner find_end
              (Stored-narrow L eval_op truth scope scope env₁ l l' back (λ x h. h) kept stored₁)
              others))
        (λ after stored' e. (
          after,
          Reaches-refl eval_op truth code rest after,
          Stored-narrow L eval_op truth scope scope env' l' l after (λ x h. h)
              (λ x h. sym (kept x h))
              (subst (λ k. Stored L scope k l after) (some-injective _ _ e) stored'),
        ))
        value

  pub loop-Simulates :
      (rounds : ℕ) (tl bl : List Line) (v : Val) (top inner end : Label) (scope : Scoping)
      (l l' : L.Map) (test : Env → Option ℕ) (m : Env → Option Env)
      → Tests L eval_op truth tl v scope l test
      → ((x : List ℕ) → scope x ≡ true → L.get l' x ≡ L.get l x)
      → Simulates L eval_op truth bl scope l scope l' m
      → Simulates L eval_op truth
          (label top ∷ loop_lines tl v top inner end bl [])
          scope
          l
          scope
          l'
          (repeat eval_op truth rounds test m)
  loop-Simulates rounds tl bl v top inner end scope l l' test m tests kept body code rest regs env
        env' labelled ends stored value =
      let tail : List Line = jmp top ∷ label end ∷ rest in
      let again : List Line = loop_lines tl v top inner end bl rest in
      let shape : loop_lines tl v top inner end bl [] ++ rest ≡ again =
        append_assoc tl (jnz v inner end ∷ label inner ∷ (bl ++ jmp top ∷ label end ∷ [])) rest
        ∙ ap (λ k. tl ++ jnz v inner end ∷ label inner ∷ k)
            (append_assoc bl (jmp top ∷ label end ∷ []) rest) in
      let ends₀ : EndsIn code (label top ∷ again) =
        subst (λ k. EndsIn code (label top ∷ k)) shape ends in
      let ends₁ =
        EndsIn-append code tl (jnz v inner end ∷ label inner ∷ (bl ++ tail))
          (EndsIn-cons code (label top) again ends₀) in
      let ends₂ = EndsIn-cons code (jnz v inner end) (label inner ∷ (bl ++ tail)) ends₁ in
      let ends₃ = EndsIn-cons code (label inner) (bl ++ tail) ends₂ in
      let ends₄ =
        EndsIn-cons code (jmp top) (label end ∷ rest) (EndsIn-append code bl tail ends₃) in
      subst (λ k. Arrives L eval_op truth code (label top ∷ k) regs rest scope env' l') (sym shape)
        (Arrives-after L eval_op truth code (label top ∷ again) regs again regs rest scope env' l'
          (label-Reaches eval_op truth code top again regs)
          (rounds-Arrive rounds tl bl v top inner end scope l l' test m code rest regs env env'
            tests kept (λ t r e e' h. body code t r e e' labelled h) ends₃
            (find-EndsIn code top again labelled ends₀)
            (find-EndsIn code inner (bl ++ tail) labelled ends₂)
            (find-EndsIn code end rest labelled ends₄) stored value))
