-- ===== src/Compiler/Numbering.antt =====
-- How code generation numbers its labels, with the counter `ids`.
use arnel_lang.Prelude.{
  ℕ, ◌+◌, ◌^◌, ◌<◌, ◌≤◌, ◌≡◌, ◌≢◌, refl, sym, ap, ◌∙◌, Option, none, List, [], ◌∷◌, Bool-cases, inl,
  inr, arith,
}
use mathlib.Core.Path.{subst}
use arnel_lang.Ast.{
  Ast, binary, ret, call_finished, decl_assignment, cond, assignment, while, block, Child, absent,
  node, Nodes, nil, cons,
}
use arnel_lang.Compiler.Locals.{Locals}
use arnel_lang.Compiler.Code.{Val, Label, Line, copy, label, jnz, jmp}
use arnel_lang.Compiler.State.{Comp, emit, pop_temp, release, next_id}
use arnel_lang.Compiler.Expr.{is_ret, copy_result}
use arnel_lang.Compiler.Jumps.{find, IsLabelled}
use arnel_lang.Compiler.Labels.{find-none, other_label, snoc-IsLabelled}

-- How many numbers the labels of a node take: three for a conditional and three for a loop.
unfoldable mutual
  pub ids_of : Ast → ℕ
  ids_of (cond test yes_child no_child) =
      ids_child test + ids_child yes_child + ids_child no_child + 3
  ids_of (while test body) = ids_child test + ids_child body + 3
  ids_of (call_finished name args) = ids_nodes args
  ids_of (decl_assignment name value) = ids_child value
  ids_of (assignment target value) = ids_child value
  ids_of (ret value) = ids_child value
  ids_of (block nodes) = ids_nodes nodes
  ids_of (binary op right left) = ids_child right + ids_child left
  ids_of _ = 0

  pub ids_child : Child → ℕ
  ids_child absent = 0
  ids_child (node a) = ids_of a

  pub ids_nodes : Nodes → ℕ
  ids_nodes nil = 0
  ids_nodes (cons a rest) = ids_child a + ids_nodes rest

module _ (L : Locals) where
  -- The labels printed so far stand there once, with numbers that the counter has passed.
  pub record Sound (c : Comp L) : Type 0 where
    pub labelled : IsLabelled c.output
    pub ahead : (l : Label) → c.ids ≤ l.id → find l c.output ≡ none

  -- From one sound state to another, with at most `n` more numbers; the labels below `base` that have
  -- not been printed still have not.
  pub record Grows (base n : ℕ) (c d : Comp L) : Type 0 where
    pub sound : Sound d
    pub ids : c.ids ≤ d.ids
    pub bound : d.ids ≤ c.ids + n
    pub kept : (l : Label) → l.id < base → find l c.output ≡ none → find l d.output ≡ none

  pub same-Grows :
      (base : ℕ) (c d : Comp L) → Sound c → d.output ≡ c.output → d.ids ≡ c.ids → Grows base 0 c d
  same-Grows base c d sound e i = record {
    sound = record {
      labelled = subst IsLabelled (sym e) sound.labelled;
      ahead = λ l h. ap (find l) e ∙ sound.ahead l (omega arith);
    };
    ids = omega arith;
    bound = omega arith;
    kept = λ l low h. ap (find l) e ∙ h;
  }

  pub Grows-trans :
      (base m n : ℕ) (c d e : Comp L) → Grows base m c d → Grows base n d e → Grows base (m + n) c e
  Grows-trans base m n c d e g h = record {
    sound = h.sound;
    ids = omega (arith, g.ids, h.ids);
    bound = omega (arith, g.bound, h.bound);
    kept = λ l low none_before. h.kept l low (g.kept l low none_before);
  }

  pub Grows-lower :
      (base low m n : ℕ) (c d : Comp L) → low ≤ base → m ≤ n → Grows base m c d → Grows low n c d
  Grows-lower base low m n c d h k g = record {
    sound = g.sound;
    ids = g.ids;
    bound = omega (arith, g.bound);
    kept = λ l below. g.kept l (omega arith);
  }

  -- A number is taken.
  pub next_id-Grows :
      (base : ℕ) (c : Comp L) → Sound c → c.ids + 1 < 2 ^ 32 → Grows base 1 c (next_id L c)
  next_id-Grows base c sound small = record {
    sound = record { labelled = sound.labelled; ahead = λ l h. sound.ahead l (omega arith) };
    ids = omega arith;
    bound = omega arith;
    kept = λ l low h. h;
  }

  -- A line without a label
  pub quiet-Grows :
      (base : ℕ) (c : Comp L) (line : Line)
      → Sound c
      → ((l : Label) → line ≢ label l)
      → ((l : Label) → find l (line ∷ []) ≡ none)
      → Grows base 0 c (emit L line c)
  quiet-Grows base c line sound other quiet = record {
    sound = record {
      labelled = snoc-IsLabelled c.output line sound.labelled (λ l e. absurd (other l e));
      ahead = λ l h. find-none l c.output (line ∷ []) (sound.ahead l h) ∙ quiet l;
    };
    ids = omega arith;
    bound = omega arith;
    kept = λ l low h. find-none l c.output (line ∷ []) h ∙ quiet l;
  }

  -- A label that the counter has passed and that has not been printed
  abbrev pub IsPending : Label → Comp L → Type 0
  IsPending l c = (l.id < c.ids) × (find l c.output ≡ none)

  pub label-Grows :
      (base : ℕ) (c : Comp L) (k : Label)
      → Sound c
      → IsPending k c
      → base ≤ k.id
      → Grows base 0 c (emit L (label k) c)
  label-Grows base c k sound (passed, new) above = record {
    sound = record {
      labelled =
          snoc-IsLabelled c.output (label k) sound.labelled
            (λ l e. let same : k ≡ l = cc in ap (λ j. find j c.output) (sym same) ∙ new);
      ahead = λ l h.
          find-none l c.output (label k ∷ []) (sound.ahead l h)
          ∙ other_label l k (λ p. absurd (omega arith));
    };
    ids = omega arith;
    bound = omega arith;
    kept = λ l low h.
        find-none l c.output (label k ∷ []) h ∙ other_label l k (λ p. absurd (omega arith));
  }

  pub label-IsPending :
      (l k : Label) (c : Comp L) → IsPending l c → l.id ≢ k.id → IsPending l (emit L (label k) c)
  label-IsPending l k c (passed, new) ne =
      (passed, find-none l c.output (label k ∷ []) new ∙ other_label l k ne)

  pub Grows-IsPending :
      (base n : ℕ) (c d : Comp L) (l : Label)
      → Grows base n c d
      → l.id < base
      → IsPending l c
      → IsPending l d
  Grows-IsPending base n c d l g low (passed, new) = (omega (arith, g.ids), g.kept l low new)

  pub copy-Grows :
      (base d : ℕ) (v : Val) (c : Comp L) → Sound c → Grows base 0 c (emit L (copy d v) c)
  unfolding find
  copy-Grows base d v c sound = quiet-Grows base c (copy d v) sound (λ l. λ e. cc) (λ l. refl)

  pub jmp-Grows : (base : ℕ) (l : Label) (c : Comp L) → Sound c → Grows base 0 c (emit L (jmp l) c)
  unfolding find
  jmp-Grows base l c sound = quiet-Grows base c (jmp l) sound (λ k e. cc) (λ k. refl)

  pub jnz-Grows :
      (base : ℕ) (v : Val) (l k : Label) (c : Comp L)
      → Sound c
      → Grows base 0 c (emit L (jnz v l k) c)
  unfolding find
  jnz-Grows base v l k c sound = quiet-Grows base c (jnz v l k) sound (λ j e. cc) (λ j. refl)

  pub release-Grows : (base : ℕ) (v : Val) (c : Comp L) → Sound c → Grows base 0 c (release L v c)
  release-Grows base v c sound = elim (Bool-cases v.imm) [
    | inl e ↦ rw e (same-Grows base c c sound refl refl)
    | inr e ↦ rw e (same-Grows base c (pop_temp L c) sound refl refl)
  ]

  module _ (symbols : List ℕ → Option (List ℕ)) where
    -- A value copied behind a branch
    pub copied-Grows :
        (base : ℕ) (v : Val) (c : Comp L)
        → Sound c
        → Grows base 0 c (copy_result L symbols v (release L v c))
    copied-Grows base v c sound =
        let g = release-Grows base v c sound in
        elim (Bool-cases (is_ret L symbols v)) [
          | inl e ↦ rw e g
          | inr e ↦ rw e (
              Grows-trans base 0 0 c (release L v c)
                (emit L (copy (release L v c).temps_stack v) (release L v c)) g
                (copy-Grows base (release L v c).temps_stack v (release L v c) g.sound))
        ]

  -- In a row
  pub Grows-next :
      (m n : ℕ) (c d e : Comp L) → Grows c.ids m c d → Grows d.ids n d e → Grows c.ids (m + n) c e
  Grows-next m n c d e g h =
      Grows-trans c.ids m n c d e g (Grows-lower d.ids c.ids n n d e g.ids (omega arith) h)

  pub Grows-step :
      (base m : ℕ) (c d e : Comp L) → Grows base m c d → Grows base 0 d e → Grows base m c e
  Grows-step base m c d e g h =
      Grows-lower base base (m + 0) m c e (omega arith) (omega arith)
        (Grows-trans base m 0 c d e g h)

  -- Three numbers in a row
  pub three_ids-Grows :
      (base : ℕ) (c : Comp L)
      → Sound c
      → c.ids + 3 < 2 ^ 32
      → Grows base 3 c (next_id L (next_id L (next_id L c)))
  three_ids-Grows base c sound small =
      let g = next_id-Grows base c sound (omega arith) in
      let d : Comp L = next_id L c in
      let h = next_id-Grows base d g.sound (omega arith) in
      let e : Comp L = next_id L d in
      Grows-trans base 2 1 c e (next_id L e) (Grows-trans base 1 1 c d e g h)
        (next_id-Grows base e h.sound (omega arith))
