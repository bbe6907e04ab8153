-- ===== src/View/Laws.antt =====
-- What the operations of bytes.h do to the bytes of a view.
use arnel_lang.Prelude.{
  ℕ, zero, suc, ◌+◌, ◌-◌, ◌%◌, ◌^◌, ◌<◌, ◌≤◌, ◌≡◌, ◌↔◌, refl, ap, ◌∙◌, sym, Bool, true, false, some,
  List, [], ◌∷◌, ◌++◌, ◌==◌, ==_iff, take, drop, length, arith, length-take, length-drop,
  Bool-cases, inl, inr, ge→ltb,
}
use arnel_lang.Prelude.Size.{size_mod, sub_size, sub_size-eq}
use arnel_lang.View.{View, content, chopn, memcmp_eq, cmp_eq}

-- The length is a `size_t` and that many bytes are readable.
pub record IsValid (v : View) : Type 0 where
  pub readable : v.len ≤ length v.chars.bytes
  pub word : v.len < size_mod

pub take-append-drop {ℓ} : {A : Type ℓ} (n : ℕ) (xs : List A) → take n xs ++ drop n xs ≡ xs
take-append-drop zero xs = refl
take-append-drop (suc n) [] = refl
take-append-drop (suc n) (x ∷ xs) = ap (◌∷◌ x) (take-append-drop n xs)

take-nil {ℓ} : (A : Type ℓ) (k : ℕ) → take {A = A} k [] ≡ []
take-nil A zero = refl
take-nil A (suc k) = refl

take-split {ℓ} :
    {A : Type ℓ} (n m : ℕ) (xs : List A) → n ≤ m → take n xs ++ take (m - n) (drop n xs) ≡ take m xs
take-split zero m xs h = ap (λ k. take k xs) (omega arith)
take-split (suc n) zero xs h = absurd (omega arith)
take-split {A} (suc n) (suc m) [] h = take-nil A (suc m - suc n)
take-split (suc n) (suc m) (x ∷ xs) h =
    let e : suc m - suc n ≡ m - n = omega arith in
    rw e (ap (◌∷◌ x) (take-split n m xs (omega arith)))

-- Chopping at most its length off a valid view leaves a valid view, and the two parts are the view.
pub chopn-splits :
    {v : View} (n : ℕ)
    → IsValid v
    → n ≤ v.len
    → (content (chopn v n).0 ++ content (chopn v n).1 ≡ content v)
      × IsValid (chopn v n).1
      × ((chopn v n).1.len ≡ v.len - n)
unfolding chopn
chopn-splits {v} n h le =
    rw (ge→ltb v.len n le, sub_size-eq v.len n le h.word)
      (
        take-split n v.len v.chars.bytes le,
        record { readable = rw length-drop (omega arith); word = omega arith },
        refl,
      )

pub memcmp_eq_lem :
    (a b : List ℕ) (n : ℕ)
    → n ≤ length a
    → n ≤ length b
    → (r : Bool) × (memcmp_eq a b n ≡ some r) × ((r ≡ true) ↔ (take n a ≡ take n b))
unfolding memcmp_eq
memcmp_eq_lem a b zero ha hb = (true, refl, ((λ _. refl), (λ _. refl)))
memcmp_eq_lem [] b (suc n) ha hb = absurd (omega arith)
memcmp_eq_lem (x ∷ a) [] (suc n) ha hb = absurd (omega arith)
memcmp_eq_lem (x ∷ a) (y ∷ b) (suc n) ha hb = elim (Bool-cases (x == y)) [
  | inl e ↦
      let (r, run, (to, from)) = memcmp_eq_lem a b n (omega arith) (omega arith) in
      (r, rw (e, memcmp_eq) run, ((λ h. rw ((==_iff x y).0 e, to h)), (λ h. from (tail_eq h))))
  | inr e ↦
      (false, rw (e, memcmp_eq), ((λ h. cc), (λ h. cc (head_eq h, (==_iff x y).1 (head_eq h)))))
]
  where
    head_eq : x ∷ take n a ≡ y ∷ take n b → x ≡ y
    head_eq h = cc

    tail_eq : x ∷ take n a ≡ y ∷ take n b → take n a ≡ take n b
    tail_eq h = cc

-- Two valid views of fewer than 2 ^ 32 bytes compare equal exactly when they hold the same bytes, and
-- no read is out of range.
pub cmp_eq-content :
    (v w : View)
    → IsValid v
    → IsValid w
    → v.len < 2 ^ 32
    → w.len < 2 ^ 32
    → (r : Bool) × (cmp_eq v w ≡ some r) × ((r ≡ true) ↔ (content v ≡ content w))
unfolding cmp_eq sub_size
cmp_eq-content v w hv hw short_v short_w = elim (Bool-cases (v.len == w.len)) [
  | inl e ↦
      let same : v.len ≡ w.len = (==_iff v.len w.len).0 e in
      let (r, run, iff) =
        memcmp_eq_lem v.chars.bytes w.chars.bytes v.len hv.readable (omega arith) in
      (
        r,
        rw e run,
        (
          (λ h. iff.0 h ∙ ap (λ k. take k w.chars.bytes) same),
          (λ h. iff.1 (h ∙ ap (λ k. take k w.chars.bytes) (sym same))),
        ),
      )
  | inr e ↦
      let apart : ((v.len + size_mod - w.len) % size_mod % 2 ^ 32 == 0) ≡ false = ground arith in
      (false, rw (e, apart) refl, ((λ h. cc), (λ h. cc (e, (==_iff v.len w.len).1 (lengths h)))))
]
  where
    lengths : content v ≡ content w → v.len ≡ w.len
    lengths h = omega (
      arith,
      length-take v.len v.chars.bytes hv.readable,
      length-take w.len w.chars.bytes hw.readable,
      ap length h,
    )
