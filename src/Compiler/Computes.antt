-- ===== src/Compiler/Computes.antt =====
-- What it means that the code of an expression computes its value, and the operands of an operation.
use arnel_lang.Prelude.{
  ℕ, ◌+◌, ◌-◌, ◌<◌, ◌≤◌, ◌≡◌, refl, sym, false, Option, some, List, [], ◌++◌, if◌then◌else◌, arith,
  Bool-cases, inl, inr,
}
use mathlib.Core.List.{append-nil}
use arnel_lang.Prelude.Size.{size_mod, sub_size, add_size-eq, sub_size-eq}
use arnel_lang.Ast.{BinOp}
use arnel_lang.Compiler.Locals.{Locals}
use arnel_lang.Compiler.Code.{Val, as_l, literal, Line}
use arnel_lang.Compiler.State.{push_temp, release}
use arnel_lang.Compiler.Expr.{C}
use arnel_lang.Compiler.Registers.{Registers, operand, exec}

module _ (L : Locals) (symbols : List ℕ → Option (List ℕ)) (eval_op : BinOp → ℕ → ℕ → ℕ) where
  -- Every name with a value has a temporary of the compiler that holds it, below the next free one.
  abbrev pub Agrees : (List ℕ → Option ℕ) → C L symbols → Registers → Type 0
  Agrees env c regs =
      (name : List ℕ) (n : ℕ)
      → env name ≡ some n
      → (a : ℕ) × (L.get c.locals name ≡ some a) × (a < c.temps_stack) × (regs a ≡ n)

  abbrev pub temps_after : Val → ℕ → ℕ
  temps_after v k = if v.imm then k else k + 1

  -- The lines printed between `c` and `c'` take the temporaries `regs` to ones in which the operand
  -- `v` has the value `n` and those below the free ones are untouched. The operand is an immediate, or
  -- one that is in use or the next free one, which is then in use.
  pub record Computes (c : C L symbols) (regs : Registers) (n : ℕ) (v : Val) (c' : C L symbols)
      : Type 0 where
    pub code : List Line
    pub printed : c'.output ≡ c.output ++ code
    pub after : Registers
    pub runs : exec eval_op code regs ≡ some after
    pub value : operand v after ≡ n
    pub keeps : (i : ℕ) → i < c.temps_stack → after i ≡ regs i
    pub temps : c'.temps_stack ≡ temps_after v c.temps_stack
    pub operand_in : v.imm ≡ false → v.val ≤ c.temps_stack

  abbrev pub Correct : Option (Val × C L symbols) → C L symbols → Registers → ℕ → Type 0
  Correct o c regs n =
      (v : Val) × (c' : C L symbols) × (o ≡ some (v, c'))
      × Computes c regs n v c'
      × (c'.locals ≡ c.locals)

  pub literal-Correct :
      (n : ℕ) (c : C L symbols) (regs : Registers) → Correct (some (literal n, c)) c regs n
  unfolding exec
  literal-Correct n c regs = (
    literal n,
    c,
    refl,
    record {
      code = [];
      printed = sym (append-nil c.output);
      after = regs;
      runs = refl;
      value = refl;
      keeps = λ i h. refl;
      temps = refl;
      operand_in = λ e. cc;
    },
    refl,
  )

  pub ident-Correct :
      (c : C L symbols) (regs : Registers) (n a : ℕ)
      → a < c.temps_stack
      → regs a ≡ n
      → c.temps_stack + 1 < size_mod
      → Correct (some (as_l a, push_temp L c)) c regs n
  unfolding exec
  ident-Correct c regs n a h e small = (
    as_l a,
    push_temp L c,
    refl,
    record {
      code = [];
      printed = sym (append-nil c.output);
      after = regs;
      runs = refl;
      value = e;
      keeps = λ i k. refl;
      temps = add_size-eq c.temps_stack 1 small;
      operand_in = λ _. omega arith;
    },
    refl,
  )

  -- Both operands released, the next free temporary is the one before them.
  pub release_both :
      (k : ℕ) (v w : Val) (c : C L symbols)
      → c.temps_stack ≡ temps_after w (temps_after v k)
      → k + 2 < size_mod
      → (release L w (release L v c)).temps_stack ≡ k
  release_both k v w c e small = ground (
    arith,
    sub_size-eq c.temps_stack 1,
    sub_size-eq (c.temps_stack - 1) 1,
    sub_size-eq (sub_size c.temps_stack 1) 1,
  )

  pub release-output : (v : Val) (c : C L symbols) → (release L v c).output ≡ c.output
  release-output v c = ground arith

  pub release-locals : (v : Val) (c : C L symbols) → (release L v c).locals ≡ c.locals
  release-locals v c = ground arith

  -- The first operand outlives the code of the second.
  pub operand-keeps :
      (k : ℕ) (v : Val) (old new : Registers)
      → (v.imm ≡ false → v.val ≤ k)
      → ((i : ℕ) → i < temps_after v k → new i ≡ old i)
      → operand v new ≡ operand v old
  operand-keeps k v old new low keeps = elim (Bool-cases v.imm) [
    | inl e ↦ rw e
    | inr e ↦
        let h = low e in
        let below : v.val < temps_after v k = rw e (omega arith) in rw e (keeps v.val below)
  ]
