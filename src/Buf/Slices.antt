-- ===== src/Buf/Slices.antt =====
-- Views into a buffer, and its truncation.
use arnel_lang.Prelude.{
  ℕ, zero, suc, ◌+◌, ◌-◌, ◌<◌, ◌≤◌, ◌≡◌, refl, sym, false, List, [], ◌∷◌, leb, ltb, ◌||◌, ◌⊎◌, take,
  drop, arith, length-drop, ge→ltb, Bool-cases, inl, inr, leb→le,
}
use arnel_lang.Prelude.Size.{size_mod}
use mathlib.Core.Path.{subst}
use arnel_lang.View.{content, no_view}
use arnel_lang.View.Laws as ViewLaws
use arnel_lang.Buf.{Buf, get_view, chop}
use arnel_lang.Buf.Laws.{IsValid, contents, take-take}

take-drop-take {ℓ} :
    {A : Type ℓ} (m s n : ℕ) (xs : List A)
    → s + m ≤ n
    → take m (drop s (take n xs)) ≡ take m (drop s xs)
take-drop-take m zero n xs h = take-take m n xs (omega arith)
take-drop-take m (suc s) zero xs h = absurd (omega arith)
take-drop-take m (suc s) (suc n) [] h = refl
take-drop-take m (suc s) (suc n) (x ∷ xs) h = take-drop-take m s n xs (omega arith)

in_range :
    (address : ℕ) (b : Buf) (start end : ℕ)
    → IsValid b
    → b.len < size_mod
    → start < end
    → end ≤ b.len
    → ViewLaws.IsValid (get_view address b start end)
      × (content (get_view address b start end) ≡ take (end - start) (drop start (contents b)))
unfolding get_view
in_range address b start end v small h k =
    let order : leb end start ≡ false = ground arith in
    rw (ge→ltb b.len end k, ge→ltb b.len start (omega arith), order)
      (
        record {
          readable = omega (arith, length-drop start b.mem, v.fits, v.allocated);
          word = omega arith;
        },
        sym (take-drop-take (end - start) start b.len b.mem (omega arith)),
      )

out_of_range :
    (address : ℕ) (b : Buf) (start end : ℕ)
    → (end ≤ start) ⊎ (b.len < end)
    → get_view address b start end ≡ no_view
unfolding get_view
out_of_range address b start end (inl h) = ground arith
out_of_range address b start end (inr h) = ground arith

-- Every range gives a valid view: a non-empty one inside the bytes held exactly those bytes, any other
-- range the empty view at NULL.
pub get_view-content :
    (address : ℕ) (b : Buf) (start end : ℕ)
    → IsValid b
    → b.len < size_mod
    → ViewLaws.IsValid (get_view address b start end)
      × (((start < end)
            × (end ≤ b.len)
            × (content (get_view address b start end)
                ≡ take (end - start) (drop start (contents b))))
          ⊎ (((end ≤ start) ⊎ (b.len < end)) × (get_view address b start end ≡ no_view)))
get_view-content address b start end v small = elim (Bool-cases (leb end start || ltb b.len end)) [
  | inl e ↦
      let outside : (end ≤ start) ⊎ (b.len < end) = ground arith in
      let empty = out_of_range address b start end outside in
      (
        subst ViewLaws.IsValid (sym empty) (record { readable = omega arith; word = omega arith }),
        inr (outside, empty),
      )
  | inr e ↦
      let h : start < end = ground arith in
      let k : end ≤ b.len = ground arith in
      let (valid, same) = in_range address b start end v small h k in (valid, inl (h, k, same))
]

-- `buf_chop` keeps a valid buffer valid, and drops the last `num` bytes of its contents, or all.
pub chop-contents :
    (b : Buf) (num : ℕ)
    → IsValid b
    → IsValid (chop b num) × (contents (chop b num) ≡ take (b.len - num) (contents b))
unfolding chop
chop-contents b num v = elim (Bool-cases (leb b.len num)) [
  | inl e ↦
      let none_left : b.len - num ≡ 0 = omega (arith, leb→le b.len num e) in
      rw (e, none_left) (record { fits = omega arith; allocated = v.allocated }, refl)
  | inr e ↦ rw e (
    record { fits = omega (arith, v.fits); allocated = v.allocated },
    sym (take-take (b.len - num) b.len b.mem (omega arith)),
  )
]
