-- ===== src/Compiler/State.antt =====
-- compiler.h: `struct compiler_t`, and the steps on it that the functions of compiler.c share.
use arnel_lang.Prelude.{ℕ, ◌+◌, ◌%◌, ◌^◌, List, [], ◌∷◌, ◌++◌, if◌then◌else◌}
use arnel_lang.Prelude.Size.{add_size, sub_size}
use arnel_lang.Compiler.Locals.{Locals}
use arnel_lang.Compiler.Code.{Val, Line}

module _ (L : Locals) where
  -- `output` is what has been printed to the output file. The scope is a parameter of the code
  -- generation, which does not change it.
  pub record Comp : Type 0 where
    pub output : List Line
    pub temps_stack : ℕ
    pub ids : ℕ
    pub locals : L.Map

  abbrev pub emit : Line → Comp → Comp
  emit line c = record c { output = c.output ++ line ∷ [] }

  -- `comp->temps_stack++` and `comp->temps_stack -= 1`
  abbrev pub push_temp : Comp → Comp
  push_temp c = record c { temps_stack = add_size c.temps_stack 1 }

  abbrev pub pop_temp : Comp → Comp
  pop_temp c = record c { temps_stack = sub_size c.temps_stack 1 }

  -- `if (!val.imm) comp->temps_stack -= 1`
  abbrev pub release : Val → Comp → Comp
  release v c = if v.imm then c else pop_temp c

  -- `comp->ids++`, a `uint32_t`.
  abbrev pub next_id : Comp → Comp
  next_id c = record c { ids = (c.ids + 1) % 2 ^ 32 }
