-- ===== src/Compiler/Rounds.antt =====
-- The labels of a loop.
use arnel_lang.Prelude.{ℕ, ◌+◌, ◌^◌, ◌<◌, ◌≤◌, ◌≡◌, ◌≢◌, Option, List, arith}
use arnel_lang.Compiler.Locals.{Locals}
use arnel_lang.Compiler.Code.{Val, Label, label, jnz, jmp}
use arnel_lang.Compiler.State.{Comp, emit, next_id}
use arnel_lang.Compiler.Numbering.{
  Sound, Grows, label-Grows, IsPending, label-IsPending, Grows-IsPending, jmp-Grows, jnz-Grows,
  Grows-step, three_ids-Grows,
}
use arnel_lang.Compiler.Unique.{Started}

module _ (L : Locals) (symbols : List ℕ → Option (List ℕ)) where
  -- The label at the top
  pub top-Started :
      (top inner end : Label) (base : ℕ) (c : Comp L)
      → Sound L c
      → base ≤ c.ids
      → c.ids + 3 < 2 ^ 32
      → top.id ≡ c.ids
      → inner.id ≡ c.ids + 1
      → end.id ≡ c.ids + 2
      → Started L symbols base inner end c
          (emit L (label top) (next_id L (next_id L (next_id L c))))
  top-Started top inner end base c sound low small top_id inner_id end_id =
      let d : Comp L = next_id L (next_id L (next_id L c)) in
      let three = three_ids-Grows L base c sound small in
      let three' = three_ids-Grows L (c.ids + 3) c sound small in
      let passed : d.ids ≡ c.ids + 3 = omega arith in
      let pending : (l : Label) → c.ids ≤ l.id → l.id < c.ids + 3 → IsPending L l d =
        λ l above below. (omega arith, three'.kept l below (sound.ahead l above)) in
      record {
        grows = Grows-step L base 3 c d (emit L (label top) d) three (
            label-Grows L base d top three.sound (pending top (omega arith) (omega arith))
              (omega arith));
        fl_pending =
            label-IsPending L inner top d (pending inner (omega arith) (omega arith))
              (λ p. absurd (omega arith));
        end_pending =
            label-IsPending L end top d (pending end (omega arith) (omega arith))
              (λ p. absurd (omega arith));
      }

  -- The jump behind the test, and the label of the round
  pub round-Grows :
      (v : Val) (inner end : Label) (base : ℕ) (c : Comp L)
      → Sound L c
      → IsPending L inner c
      → IsPending L end c
      → base ≤ inner.id
      → end.id ≢ inner.id
      → (let d = emit L (label inner) (emit L (jnz v inner end) c) in
          Grows L base 0 c d × IsPending L end d)
  round-Grows v inner end base c sound inner_pending end_pending low apart =
      let d : Comp L = emit L (jnz v inner end) c in
      let g = jnz-Grows L base v inner end c sound in
      let h = jnz-Grows L c.ids v inner end c sound in
      let inner_still = Grows-IsPending L c.ids 0 c d inner h inner_pending.0 inner_pending in
      let end_still = Grows-IsPending L c.ids 0 c d end h end_pending.0 end_pending in
      (
        Grows-step L base 0 c d (emit L (label inner) d) g
            (label-Grows L base d inner g.sound inner_still low),
        label-IsPending L end inner d end_still apart,
      )

  -- The jump back, and the label behind the loop
  pub back-Grows :
      (top end : Label) (base : ℕ) (c : Comp L)
      → Sound L c
      → IsPending L end c
      → base ≤ end.id
      → Grows L base 0 c (emit L (label end) (emit L (jmp top) c))
  back-Grows top end base c sound pending low =
      let d : Comp L = emit L (jmp top) c in
      let g = jmp-Grows L base top c sound in
      let still =
        Grows-IsPending L c.ids 0 c d end (jmp-Grows L c.ids top c sound) pending.0 pending in
      Grows-step L base 0 c d (emit L (label end) d) g (label-Grows L base d end g.sound still low)
