-- ===== src/Compiler/Jumps.antt =====
-- Code with labels and jumps: what qbe does with the lines of a function.
--
-- qbe is not part of this repository: what its operations compute, and which values its `jnz` takes as
-- true, are parameters.
use arnel_lang.Prelude.{
  ℕ, zero, suc, ◌+◌, ◌≡◌, refl, ap, ◌∙◌, Bool, true, false, ◌&&◌, Option, none, some, List, [], ◌∷◌,
  ◌++◌, ◌==◌, ◌>>=◌, if◌then◌else◌, arith, >>=-eq-some,
}
use mathlib.Core.Option.{some-injective}
use arnel_lang.Ast.{BinOp}
use arnel_lang.Compiler.Code.{
  Val, LabelName, start, loop, breac, iftr, iffl, out, Label, Line, operation, copy, return, label,
  jnz, jmp,
}
use arnel_lang.Compiler.Registers.{Registers, operand, exec_line, exec}

abbrev pub same_name : LabelName → LabelName → Bool
same_name a b = elim a [
  | start ↦ elim b [ start ↦ true | _ ↦ false ]
  | loop ↦ elim b [ loop ↦ true | _ ↦ false ]
  | breac ↦ elim b [ breac ↦ true | _ ↦ false ]
  | iftr ↦ elim b [ iftr ↦ true | _ ↦ false ]
  | iffl ↦ elim b [ iffl ↦ true | _ ↦ false ]
  | out ↦ elim b [ out ↦ true | _ ↦ false ]
]

abbrev pub same_label : Label → Label → Bool
same_label a b = same_name a.name b.name && a.id == b.id

-- The lines behind a label.
unfoldable pub find : Label → List Line → Option (List Line)
find l [] = none
find l (label k ∷ lines) = elim (same_label l k) [ true ↦ some lines | false ↦ find l lines ]
find l (_ ∷ lines) = find l lines

-- Every label of the code is found where it stands.
abbrev pub IsLabelled : List Line → Type 0
IsLabelled code =
    (l : Label) (before after : List Line)
    → code ≡ before ++ label l ∷ after
    → find l code ≡ some after

add_none : (n : ℕ) → 0 + n ≡ n
add_none n = omega arith

module _ (eval_op : BinOp → ℕ → ℕ → ℕ) (truth : ℕ → Bool) where
  -- The value that the code returns, from the lines `lines` of it on.
  unfoldable pub run_code : ℕ → List Line → List Line → Registers → Option ℕ
  run_code zero code lines regs = none
  run_code (suc n) code [] regs = none
  run_code (suc n) code (return v ∷ lines) regs = some (operand v regs)
  run_code (suc n) code (label l ∷ lines) regs = run_code n code lines regs
  run_code (suc n) code (jmp l ∷ lines) regs = find l code >>= λ rest. run_code n code rest regs
  run_code (suc n) code (jnz v yes_label no_label ∷ lines) regs =
      find (if truth (operand v regs) then yes_label else no_label) code >>= λ rest.
      run_code n code rest regs
  run_code (suc n) code (line ∷ lines) regs = exec_line eval_op line regs >>= run_code n code lines

  -- The code comes from the lines `lines` to the lines `rest`.
  abbrev pub Reaches : List Line → List Line → Registers → List Line → Registers → Type 0
  Reaches code lines regs rest regs' =
      (k : ℕ) × ((n : ℕ) → run_code (k + n) code lines regs ≡ run_code n code rest regs')

  pub Reaches-refl :
      (code lines : List Line) (regs : Registers) → Reaches code lines regs lines regs
  Reaches-refl code lines regs = (0, λ n. ap (λ m. run_code m code lines regs) (add_none n))

  pub Reaches-trans :
      (code lines : List Line) (regs : Registers) (middle : List Line) (regs₁ : Registers)
      (rest : List Line) (regs₂ : Registers)
      → Reaches code lines regs middle regs₁
      → Reaches code middle regs₁ rest regs₂
      → Reaches code lines regs rest regs₂
  Reaches-trans code lines regs middle regs₁ rest regs₂ (j, first) (k, second) =
      (j + k, (λ n. ap (λ m. run_code m code lines regs) (group j k n) ∙ first (k + n) ∙ second n))
    where
      group : (a b c : ℕ) → a + b + c ≡ a + (b + c)
      group a b c = omega arith

  one_step :
      (code lines : List Line) (regs : Registers) (rest : List Line) (regs' : Registers)
      → ((n : ℕ) → run_code (suc n) code lines regs ≡ run_code n code rest regs')
      → Reaches code lines regs rest regs'
  one_step code lines regs rest regs' step =
      (1, (λ n. ap (λ m. run_code m code lines regs) (next n) ∙ step n))
    where
      next : (n : ℕ) → 1 + n ≡ suc n
      next n = omega arith

  pub label-Reaches :
      (code : List Line) (l : Label) (rest : List Line) (regs : Registers)
      → Reaches code (label l ∷ rest) regs rest regs
  unfolding run_code
  label-Reaches code l rest regs = one_step code (label l ∷ rest) regs rest regs (λ n. refl)

  pub jmp-Reaches :
      (code : List Line) (l : Label) (lines rest : List Line) (regs : Registers)
      → find l code ≡ some rest
      → Reaches code (jmp l ∷ lines) regs rest regs
  unfolding run_code
  jmp-Reaches code l lines rest regs e =
      one_step code (jmp l ∷ lines) regs rest regs
        (λ n. ap (λ o. o >>= λ r. run_code n code r regs) e)

  pub jnz-Reaches :
      (code : List Line) (v : Val) (yes_label no_label : Label) (lines rest : List Line)
      (regs : Registers) (b : Bool)
      → truth (operand v regs) ≡ b
      → find (if b then yes_label else no_label) code ≡ some rest
      → Reaches code (jnz v yes_label no_label ∷ lines) regs rest regs
  unfolding run_code
  jnz-Reaches code v yes_label no_label lines rest regs b t e =
      one_step code (jnz v yes_label no_label ∷ lines) regs rest regs (λ n.
        ap (λ c. find (if c then yes_label else no_label) code >>= λ r. run_code n code r regs) t
        ∙ ap (λ o. o >>= λ r. run_code n code r regs) e)

  exec_one :
      (code : List Line) (line : Line) (lines : List Line) (regs regs' : Registers)
      → exec_line eval_op line regs ≡ some regs'
      → Reaches code (line ∷ lines) regs lines regs'
  unfolding run_code exec_line
  exec_one code (operation d op a b) lines regs regs' e =
      one_step code (operation d op a b ∷ lines) regs lines regs'
        (λ n. ap (λ o. o >>= run_code n code lines) e)
  exec_one code (copy d v) lines regs regs' e =
      one_step code (copy d v ∷ lines) regs lines regs'
        (λ n. ap (λ o. o >>= run_code n code lines) e)
  exec_one code _ lines regs regs' e = cc

  -- A straight piece of code in front of other lines
  pub exec-Reaches :
      (code lines rest : List Line) (regs regs' : Registers)
      → exec eval_op lines regs ≡ some regs'
      → Reaches code (lines ++ rest) regs rest regs'
  unfolding exec
  exec-Reaches code [] rest regs regs' e = (
    0,
    (λ n.
        ap (λ m. run_code m code rest regs) (add_none n)
        ∙ ap (λ r. run_code n code rest r) (some-injective _ _ e)),
  )
  exec-Reaches code (line ∷ lines) rest regs regs' e =
      let (r, first, last) = >>=-eq-some (exec_line eval_op line regs) _ e in
      Reaches-trans code (line ∷ (lines ++ rest)) regs (lines ++ rest) r rest regs'
        (exec_one code line (lines ++ rest) regs r first)
        (exec-Reaches code lines rest r regs' last)
