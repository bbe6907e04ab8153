-- ===== src/Parser/Capacity.antt =====
-- parser.c: the stacks grow.
use arnel_lang.Prelude.{
  ◌*◌, ◌%◌, ◌<◌, ◌≤◌, ◌≡◌, refl, true, some, ◌∷◌, length, ltb, ◌==◌, if◌then◌else◌, arith,
  Bool-cases, inl, inr,
}
use arnel_lang.Prelude.Size.{mul_size, size_mod}
use arnel_lang.Parser.Result.{ok}
use arnel_lang.Parser.Stack
use arnel_lang.Parser.Stack.{Stack}

-- A stack that has been given slots, and holds no more items than slots.
abbrev pub IsRoomy {ℓ} : {A : Type ℓ} → Stack A → Type 0
IsRoomy s = (0 < s.cap) × (length s.items ≤ s.cap)

-- A stack with slots takes one more item whatever it holds, and has slots for it afterwards: twice as
-- many as before if it was full, and as many as before otherwise. Twice its slots fit a `size_t`.
pub put-IsRoomy {ℓ} :
    {A : Type ℓ} (s : Stack A) (n : A)
    → IsRoomy s
    → s.cap * 2 < size_mod
    → (s' : Stack A) × (Stack.put s n ≡ ok s')
      × (s'.items ≡ n ∷ s.items)
      × IsRoomy s'
      × (s'.cap ≡ (if length s.items == s.cap then s.cap * 2 else s.cap))
      × (Stack.pop s' ≡ (some n, record s' { items = s.items }))
unfolding Stack.put mul_size
put-IsRoomy s n roomy fits = elim (Bool-cases (length s.items == s.cap)) [
  | inl full ↦ (
    record { cap = s.cap * 2; items = n ∷ s.items },
    (let size : s.cap * 2 % size_mod ≡ s.cap * 2 = omega arith in
        let free : ltb (length s.items) (s.cap * 2) ≡ true = ground arith in
        rw (full, size, free) refl),
    refl,
    (omega arith, ground arith),
    rw full refl,
    refl,
  )
  | inr spare ↦ (
    record { cap = s.cap; items = n ∷ s.items },
    (let free : ltb (length s.items) s.cap ≡ true = ground arith in rw (spare, free) refl),
    refl,
    (roomy.0, ground arith),
    rw spare refl,
    refl,
  )
]
