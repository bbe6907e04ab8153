-- ===== src/Compiler/Unique.antt =====
-- The labels of conditionals and loops.
use arnel_lang.Prelude.{
  ℕ, ◌+◌, ◌^◌, ◌<◌, ◌≤◌, ◌≡◌, ◌≢◌, refl, Option, List, if◌then◌else◌, Bool-cases, inl, inr, arith,
}
use arnel_lang.Compiler.Locals.{Locals}
use arnel_lang.Compiler.Code.{Val, Label, label, jnz, jmp}
use arnel_lang.Compiler.State.{Comp, emit, push_temp, release, next_id}
use arnel_lang.Compiler.Expr.{is_ret, copy_result}
use arnel_lang.Compiler.Numbering.{
  Sound, Grows, same-Grows, label-Grows, IsPending, label-IsPending, Grows-IsPending, jmp-Grows,
  jnz-Grows, copied-Grows, Grows-step, three_ids-Grows,
}

module _ (L : Locals) (symbols : List ℕ → Option (List ℕ)) where
  -- The jump of a conditional and its first label; `target` is where the jump leads otherwise.
  pub record Started (base : ℕ) (fl end : Label) (c d : Comp L) : Type 0 where
    pub grows : Grows L base 3 c d
    pub fl_pending : IsPending L fl d
    pub end_pending : IsPending L end d

  pub start-Grows :
      (v : Val) (tr fl end target : Label) (base : ℕ) (c : Comp L)
      → Sound L c
      → base ≤ c.ids
      → c.ids + 3 < 2 ^ 32
      → tr.id ≡ c.ids
      → fl.id ≡ c.ids + 1
      → end.id ≡ c.ids + 2
      → Started base fl end c
          (emit L (label tr) (emit L (jnz v tr target) (next_id L (next_id L (next_id L c)))))
  start-Grows v tr fl end target base c sound low small tr_id fl_id end_id =
      let c₄ : Comp L = next_id L (next_id L (next_id L c)) in
      let three = three_ids-Grows L base c sound small in
      let three' = three_ids-Grows L (c.ids + 3) c sound small in
      let jump = jnz-Grows L base v tr target c₄ three.sound in
      let jump' = jnz-Grows L (c.ids + 3) v tr target c₄ three.sound in
      let c₅ : Comp L = emit L (jnz v tr target) c₄ in
      let passed : c₅.ids ≡ c.ids + 3 = omega arith in
      let pending : (l : Label) → c.ids ≤ l.id → l.id < c.ids + 3 → IsPending L l c₅ =
        λ l above below.
          (omega arith, jump'.kept l below (three'.kept l below (sound.ahead l above))) in
      record {
        grows =
            Grows-step L base 3 c c₅ (emit L (label tr) c₅) (Grows-step L base 3 c c₄ c₅ three jump)
              (label-Grows L base c₅ tr jump.sound (pending tr (omega arith) (omega arith))
                (omega arith));
        fl_pending =
            label-IsPending L fl tr c₅ (pending fl (omega arith) (omega arith))
              (λ p. absurd (omega arith));
        end_pending =
            label-IsPending L end tr c₅ (pending end (omega arith) (omega arith))
              (λ p. absurd (omega arith));
      }

  -- The jump over the second branch, and its label
  pub else_start-Grows :
      (i : Val) (fl end : Label) (base : ℕ) (c : Comp L)
      → Sound L c
      → IsPending L fl c
      → IsPending L end c
      → base ≤ fl.id
      → end.id ≢ fl.id
      → (let d = emit L (label fl) (if is_ret L symbols i then c else emit L (jmp end) c) in
          Grows L base 0 c d × IsPending L end d)
  else_start-Grows i fl end base c sound fl_pending end_pending low apart =
      elim (Bool-cases (is_ret L symbols i)) [
        | inl e ↦ rw e (
          label-Grows L base c fl sound fl_pending low,
          label-IsPending L end fl c end_pending apart,
        )
        | inr e ↦
            let d : Comp L = emit L (jmp end) c in
            let g = jmp-Grows L base end c sound in
            let h = jmp-Grows L c.ids end c sound in
            let fl_still = Grows-IsPending L c.ids 0 c d fl h fl_pending.0 fl_pending in
            let end_still = Grows-IsPending L c.ids 0 c d end h end_pending.0 end_pending in
            rw e (
              Grows-step L base 0 c d (emit L (label fl) d) g
                  (label-Grows L base d fl g.sound fl_still low),
              label-IsPending L end fl d end_still apart,
            )
      ]

  -- The copy of the second branch's value, and the label behind it
  pub else_end-Grows :
      (i v : Val) (end : Label) (base : ℕ) (c : Comp L)
      → Sound L c
      → IsPending L end c
      → base ≤ end.id
      → (let d = copy_result L symbols v (release L v c) in
          Grows L base 0 c (push_temp L (if is_ret L symbols i then d else emit L (label end) d)))
  else_end-Grows i v end base c sound pending low =
      let d : Comp L = copy_result L symbols v (release L v c) in
      let g = copied-Grows L symbols base v c sound in
      let still =
        Grows-IsPending L c.ids 0 c d end (copied-Grows L symbols c.ids v c sound) pending.0
          pending in
      let h = label-Grows L base d end g.sound still low in
      let e : Comp L = emit L (label end) d in
      elim (Bool-cases (is_ret L symbols i)) [
        | inl p ↦ rw p (
            Grows-step L base 0 c d (push_temp L d) g
              (same-Grows L base d (push_temp L d) g.sound refl refl))
        | inr p ↦ rw p (
            Grows-step L base 0 c d (push_temp L e) g (
              Grows-step L base 0 d e (push_temp L e) h
                (same-Grows L base e (push_temp L e) h.sound refl refl)))
      ]
