-- ===== src/HashMap/Slots.antt =====
-- The slots of a map, as a total function of their index and along the path of a key.
use arnel_lang.Prelude.{
  ℕ, zero, suc, ◌+◌, ◌-◌, ◌%◌, ◌≤◌, ◌<◌, ◌≡◌, ◌≢◌, ◌↔◌, refl, sym, ap, ◌∙◌, Bool, true, false, some,
  List, [], ◌∷◌, ltb, ◌==◌, ◌||◌, if◌then◌else◌, ◌>>=◌, get_elem?, set, length, arith, Bool-cases,
  ==_iff, inl, inr,
}
use native.Mathlib.Nat.{mod-eq_of_lt, mod_self}
use arnel_lang.HashMap.{Slot, HashMap, bytes_eq, empty_slot, is_free, matches, probe}

pub bytes_eq_iff : (xs ys : List ℕ) → (bytes_eq xs ys ≡ true) ↔ (xs ≡ ys)
unfolding bytes_eq
bytes_eq_iff [] [] = ((λ _. refl), (λ _. refl))
bytes_eq_iff [] (y ∷ ys) = ((λ h. cc), (λ h. cc))
bytes_eq_iff (x ∷ xs) [] = ((λ h. cc), (λ h. cc))
bytes_eq_iff (x ∷ xs) (y ∷ ys) = elim (Bool-cases (x == y)) [
  | inl e ↦
      let (to, from) = bytes_eq_iff xs ys in
      let e' = (==_iff x y).0 e in
      rw (e, bytes_eq) ((λ h. ap (λ z. z ∷ xs) e' ∙ ap (◌∷◌ y) (to h)), (λ h. from (cc h)))
  | inr e ↦ rw (e, bytes_eq) ((λ h. cc), (λ h. cc ((==_iff x y).1 (head_eq h), e)))
]
  where
    head_eq : x ∷ xs ≡ y ∷ ys → x ≡ y
    head_eq h = cc

-- The next slot of a path, written without a remainder.
unfoldable pub wrap : ℕ → ℕ → ℕ
wrap cap x = if ltb x cap then x else x - cap

pub wrap-next :
    (cap h i : ℕ) → h < cap → i < cap → (wrap cap (h + i) + 1) % cap ≡ wrap cap (h + suc i)
unfolding wrap
wrap-next cap h i low lt = elim (Bool-cases (ltb (h + suc i) cap)) [
  | inl e ↦
      let plain : wrap cap (h + i) + 1 ≡ h + suc i = ground arith in
      rw e (ap (λ k. k % cap) plain ∙ mod-eq_of_lt (ground arith))
  | inr e ↦ elim (Bool-cases (ltb (h + i) cap)) [
    | inl k ↦ rw (e, k) (ap (λ x. x % cap) (ground arith) ∙ mod_self cap ∙ ground arith)
    | inr k ↦ rw (e, k) (mod-eq_of_lt (ground arith) ∙ ground arith)
  ]
]

pub wrap_lt : (cap h i : ℕ) → h < cap → i < cap → wrap cap (h + i) < cap
unfolding wrap
wrap_lt cap h i low lt = ground arith

pub wrap-injective :
    (cap h i j : ℕ) → h < cap → i < cap → j < cap → wrap cap (h + i) ≡ wrap cap (h + j) → i ≡ j
unfolding wrap
wrap-injective cap h i j low lt k e = ground arith

pub wrap_start : (cap h : ℕ) → h < cap → wrap cap (h + 0) ≡ h
unfolding wrap
wrap_start cap h low = ground arith

-- Every slot lies on every path.
pub wrap_onto : (cap h x : ℕ) → h < cap → x < cap → (i : ℕ) × (i < cap) × (wrap cap (h + i) ≡ x)
unfolding wrap
wrap_onto cap h x low lt = elim (Bool-cases (ltb x h)) [
  | inl e ↦ (x + cap - h, ground arith, ground arith)
  | inr e ↦ (x - h, ground arith, ground arith)
]

module _ {ℓ} {A : Type ℓ} where
  unfoldable pub slot_at : List (Slot A) → ℕ → Slot A
  slot_at [] i = empty_slot
  slot_at (s ∷ ss) zero = s
  slot_at (s ∷ ss) (suc i) = slot_at ss i

  pub get_elem?-slot_at :
      (values : List (Slot A)) (i : ℕ)
      → i < length values
      → get_elem? values i ≡ some (slot_at values i)
  unfolding slot_at
  get_elem?-slot_at [] i h = absurd (omega arith)
  get_elem?-slot_at (s ∷ ss) zero h = refl
  get_elem?-slot_at (s ∷ ss) (suc i) h = get_elem?-slot_at ss i (omega arith)

  pub slot_at-set_self :
      (values : List (Slot A)) (i : ℕ) (s : Slot A)
      → i < length values
      → slot_at (set values i s) i ≡ s
  unfolding slot_at
  slot_at-set_self [] i s h = absurd (omega arith)
  slot_at-set_self (x ∷ xs) zero s h = refl
  slot_at-set_self (x ∷ xs) (suc i) s h = slot_at-set_self xs i s (omega arith)

  pub slot_at-set_ne :
      (values : List (Slot A)) (i j : ℕ) (s : Slot A)
      → i ≢ j
      → slot_at (set values i s) j ≡ slot_at values j
  unfolding slot_at
  slot_at-set_ne [] i j s h = refl
  slot_at-set_ne (x ∷ xs) zero zero s h = absurd (h refl)
  slot_at-set_ne (x ∷ xs) zero (suc j) s h = refl
  slot_at-set_ne (x ∷ xs) (suc i) zero s h = refl
  slot_at-set_ne (x ∷ xs) (suc i) (suc j) s h = slot_at-set_ne xs i j s (λ e. h (ap suc e))

  unfoldable pub stops : List ℕ → Slot A → Bool
  stops key s = matches key s || is_free s

  pub free-stops : (key : List ℕ) (s : Slot A) → is_free s ≡ true → stops key s ≡ true
  unfolding stops
  free-stops key s h = elim (Bool-cases (matches key s)) [
    | inl e ↦ rw e refl
    | inr e ↦ rw (e, h) refl
  ]

  pub held-stops : (key : List ℕ) (s : Slot A) → matches key s ≡ true → stops key s ≡ true
  unfolding stops
  held-stops key s h = rw h refl

  -- The slot at an offset of a path.
  abbrev pub on_path : HashMap A → ℕ → ℕ → Slot A
  on_path m h i = slot_at m.values (wrap m.cap (h + i))

  -- The loop ends at the first slot on the path from `h` on that stops it.
  pub probe-first :
      (n i : ℕ) (key : List ℕ) (m : HashMap A) (h : ℕ)
      → n + i ≡ m.cap
      → m.cap ≡ length m.values
      → h < m.cap
      → (j : ℕ) → i ≤ j
      → j < m.cap
      → stops key (on_path m h j) ≡ true
      → (p : ℕ) × (i ≤ p)
        × (p < m.cap)
        × (probe n key m (wrap m.cap (h + i))
            ≡ some (matches key (on_path m h p), wrap m.cap (h + p)))
        × (stops key (on_path m h p) ≡ true)
        × ((q : ℕ) → i ≤ q → q < p → stops key (on_path m h q) ≡ false)
  unfolding probe stops
  probe-first zero i key m h sum size low j ij jc found = absurd (omega arith)
  probe-first (suc n) i key m h sum size low j ij jc found =
      let here =
        get_elem?-slot_at m.values (wrap m.cap (h + i))
          (rw (sym size) (wrap_lt m.cap h i low (omega arith))) in
      elim (Bool-cases (matches key (on_path m h i))) [
        | inl e ↦ (
          i,
          omega arith,
          omega arith,
          rw (here, ◌>>=◌, e),
          rw e refl,
          λ q a b. absurd (omega arith),
        )
        | inr e ↦ elim (Bool-cases (is_free (on_path m h i))) [
          | inl f ↦ (
            i,
            omega arith,
            omega arith,
            rw (here, ◌>>=◌, e, f),
            rw (e, f) refl,
            λ q a b. absurd (omega arith),
          )
          | inr f ↦
              let ne : i ≢ j = λ same. cc in
              let (p, ip, pc, run, stop, before) =
                probe-first n (suc i) key m h (omega arith) size low j (omega arith) jc found in
              (
                p,
                omega arith,
                pc,
                rw (here, ◌>>=◌, e, f, wrap-next m.cap h i low (omega arith)) run,
                stop,
                λ q a b. elim (Bool-cases (i == q)) [
                  | inl k ↦
                      ap (λ x. stops key (on_path m h x)) (sym ((==_iff i q).0 k)) ∙ rw (e, f) refl
                  | inr k ↦ before q (ground arith) b
                ],
              )
        ]
      ]
