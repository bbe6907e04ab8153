-- ===== src/Compiler/Simulation.antt =====
-- The code of a statement runs as the statement means.
use arnel_lang.Prelude.{
  ℕ, ◌+◌, ◌≤◌, ◌≡◌, sym, ◌∙◌, Bool, true, false, Option, some, List, [], ◌∷◌, ◌++◌, ◌>>=◌, arith,
  >>=-eq-some,
}
use mathlib.Core.Path.{subst}
use mathlib.Core.List.{append_assoc}
use arnel_lang.Ast.{BinOp}
use arnel_lang.Compiler.Locals.{Locals}
use arnel_lang.Compiler.Code.{Val, Label, Line, label}
use arnel_lang.Compiler.State.{Comp}
use arnel_lang.Compiler.Expr.{is_ret}
use arnel_lang.Compiler.Registers.{Registers, exec}
use arnel_lang.Compiler.Jumps.{find, IsLabelled, Reaches, Reaches-trans, exec-Reaches}
use arnel_lang.Compiler.Meaning.{Env, Scoping}
use arnel_lang.Compiler.Layout.{Laid, Stored}

-- The code ends in these lines.
abbrev pub EndsIn : List Line → List Line → Type 0
EndsIn code lines = (before : List Line) × (code ≡ before ++ lines)

pub EndsIn-cons :
    (code : List Line) (line : Line) (lines : List Line)
    → EndsIn code (line ∷ lines)
    → EndsIn code lines
EndsIn-cons code line lines (before, e) =
    (before ++ line ∷ [], e ∙ sym (append_assoc before (line ∷ []) lines))

pub EndsIn-append : (code xs ys : List Line) → EndsIn code (xs ++ ys) → EndsIn code ys
EndsIn-append code xs ys (before, e) = (before ++ xs, e ∙ sym (append_assoc before xs ys))

pub find-EndsIn :
    (code : List Line) (l : Label) (lines : List Line)
    → IsLabelled code
    → EndsIn code (label l ∷ lines)
    → find l code ≡ some lines
find-EndsIn code l lines labelled (before, e) = labelled l before lines e

module _ (L : Locals) (eval_op : BinOp → ℕ → ℕ → ℕ) (truth : ℕ → Bool) where
  -- From the lines `lines` the code gets to the lines `rest`, with the names' values `env` stored.
  abbrev pub Arrives :
      List Line → List Line → Registers → List Line → Scoping → Env → L.Map → Type 0
  Arrives code lines regs rest scope env locals =
      (after : Registers) × Reaches eval_op truth code lines regs rest after
      × Stored L scope env locals after

  -- Wherever the lines `lines` stand in labelled code, they take the stored values `env` to those that
  -- `m` makes of them.
  abbrev pub Simulates : List Line → Scoping → L.Map → Scoping → L.Map → (Env → Option Env) → Type 0
  Simulates lines scope locals scope' locals' m =
      (code rest : List Line) (regs : Registers) (env env' : Env)
      → IsLabelled code
      → EndsIn code (lines ++ rest)
      → Stored L scope env locals regs
      → m env ≡ some env'
      → Arrives code (lines ++ rest) regs rest scope' env' locals'

  pub Arrives-after :
      (code lines : List Line) (regs : Registers) (middle : List Line) (regs₁ : Registers)
      (rest : List Line) (scope : Scoping) (env : Env) (locals : L.Map)
      → Reaches eval_op truth code lines regs middle regs₁
      → Arrives code middle regs₁ rest scope env locals
      → Arrives code lines regs rest scope env locals
  Arrives-after code lines regs middle regs₁ rest scope env locals first (after, second, stored) = (
    after,
    Reaches-trans eval_op truth code lines regs middle regs₁ rest after first second,
    stored,
  )

  pub Simulates-append :
      (xs ys : List Line) (s₀ : Scoping) (l₀ : L.Map) (s₁ : Scoping) (l₁ : L.Map) (s₂ : Scoping)
      (l₂ : L.Map) (m₁ m₂ : Env → Option Env)
      → Simulates xs s₀ l₀ s₁ l₁ m₁
      → Simulates ys s₁ l₁ s₂ l₂ m₂
      → Simulates (xs ++ ys) s₀ l₀ s₂ l₂ (λ env. m₁ env >>= m₂)
  Simulates-append xs ys s₀ l₀ s₁ l₁ s₂ l₂ m₁ m₂ first second code rest regs env env' labelled ends
        stored value =
      let shape = append_assoc xs ys rest in
      let (env₁, value₁, value₂) = >>=-eq-some (m₁ env) m₂ value in
      let ends₁ : EndsIn code (xs ++ (ys ++ rest)) = subst (EndsIn code) shape ends in
      let (regs₁, run₁, stored₁) =
        first code (ys ++ rest) regs env env₁ labelled ends₁ stored value₁ in
      subst (λ k. Arrives code k regs rest s₂ env' l₂) (sym shape)
        (Arrives-after code (xs ++ (ys ++ rest)) regs (ys ++ rest) regs₁ rest s₂ env' l₂ run₁ (
          second code rest regs₁ env₁ env' labelled (EndsIn-append code xs (ys ++ rest) ends₁)
            stored₁ value₂))

  -- Lines without labels and jumps
  pub exec-Simulates :
      (lines : List Line) (s : Scoping) (l : L.Map) (s' : Scoping) (l' : L.Map)
      (m : Env → Option Env)
      → ((regs : Registers) (env env' : Env)
          → Stored L s env l regs
          → m env ≡ some env'
          → (after : Registers) × (exec eval_op lines regs ≡ some after)
            × Stored L s' env' l' after)
      → Simulates lines s l s' l' m
  exec-Simulates lines s l s' l' m run code rest regs env env' labelled ends stored value =
      let (after, e, stored') = run regs env env' stored value in
      (after, exec-Reaches eval_op truth code lines rest regs after e, stored')

  module _ (symbols : List ℕ → Option (List ℕ)) where
    -- Code generation for a piece of the program gives the operand `v` and the state `c'`; the names in
    -- scope stay where they were, and the lines run as the piece means. It takes at most `w`
    -- temporaries, and in solid code one that holds the operand, if that is not an immediate.
    pub record Compiled (solid : Bool) (scope after : Scoping) (w : ℕ)
        (result : Option (Val × Comp L)) (m : Env → Option Env) (c : Comp L) (v : Val) (c' : Comp L)
        : Type 0 where
      pub made : result ≡ some (v, c')
      pub lines : List Line
      pub printed : c'.output ≡ c.output ++ lines
      pub laid : Laid L after c'
      pub kept : (x : List ℕ) → scope x ≡ true → L.get c'.locals x ≡ L.get c.locals x
      pub room : (n : ℕ) → L.Room c.locals (w + n) → L.Room c'.locals n
      pub wider : (x : List ℕ) → scope x ≡ true → after x ≡ true
      pub grows : c.temps_stack ≤ c'.temps_stack
      pub busy : solid ≡ true → v.imm ≡ false → c.temps_stack + 1 ≤ c'.temps_stack
      pub bound : c'.temps_stack ≤ c.temps_stack + w
      pub no_return : is_ret L symbols v ≡ false
      pub correct : Simulates lines scope c.locals after c'.locals m

    abbrev pub Compiles :
        Bool → Scoping → Scoping → ℕ → Option (Val × Comp L) → (Env → Option Env) → Comp L → Type 0
    Compiles solid scope after w result m c =
        (v : Val) × (c' : Comp L) × Compiled solid scope after w result m c v c'

  -- The names in scope stay laid out where their temporaries are known and in use.
  pub Laid-kept :
      (scope : Scoping) (c d : Comp L)
      → Laid L scope c
      → ((x : List ℕ) → scope x ≡ true → L.get d.locals x ≡ L.get c.locals x)
      → c.temps_stack ≤ d.temps_stack
      → Laid L scope d
  Laid-kept scope c d laid kept grows = record {
    placed = λ x h. let (a, found, low) = laid.placed x h in (a, kept x h ∙ found, omega arith);
    solid = laid.solid;
    apart = λ x y a h k e f. laid.apart x y a h k (sym (kept x h) ∙ e) (sym (kept y k) ∙ f);
  }

  pub Stored-narrow :
      (scope after : Scoping) (env : Env) (l l' : L.Map) (regs : Registers)
      → ((x : List ℕ) → scope x ≡ true → after x ≡ true)
      → ((x : List ℕ) → scope x ≡ true → L.get l' x ≡ L.get l x)
      → Stored L after env l' regs
      → Stored L scope env l regs
  Stored-narrow scope after env l l' regs wider kept stored x n a h value found =
      stored x n a (wider x h) value (kept x h ∙ found)
