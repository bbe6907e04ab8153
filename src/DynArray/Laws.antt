-- ===== src/DynArray/Laws.antt =====
-- The dynamic array as a list of the items that have been put in.
use mathlib.Core.Path.{ap₂}
use mathlib.Core.List.{append-nil}
use arnel_lang.Prelude.{
  ℕ, zero, suc, ◌+◌, ◌-◌, ◌*◌, ◌<◌, ◌≤◌, ◌≡◌, refl, ap, ◌∙◌, true, false, Option, none, some, List,
  [], ◌∷◌, ◌++◌, map, ltb, ◌==◌, ◌>>=◌, length, set, take, replicate, arith, length-append,
  length-replicate, ==_iff, lt→ltb,
}
use arnel_lang.Prelude.Size.{size_mod, add_size, add_size-eq, mul_size}
use arnel_lang.DynArray.{DynArray, resize, init, put, append}

module _ {ℓ} {A : Type ℓ} where
  -- `da` holds the items `xs`; behind them stands the rest of an allocation of `cap` slots.
  pub record Holds (da : DynArray A) (xs : List A) : Type ℓ where
    pub spare : List (Option A)
    pub slots : da.slots ≡ map some xs ++ spare
    pub len : da.len ≡ length xs
    pub cap : da.cap ≡ length xs + length spare
    pub small : 2 * da.cap < size_mod

  pub length-map-some : (xs : List A) → length (map some xs) ≡ length xs
  length-map-some [] = refl
  length-map-some (x ∷ xs) = ap suc (length-map-some xs)

  set-end :
      (xs : List A) (s : Option A) (spare : List (Option A)) (a : A)
      → set (map some xs ++ s ∷ spare) (length xs) (some a) ≡ map some (xs ++ a ∷ []) ++ spare
  set-end [] s spare a = refl
  set-end (x ∷ xs) s spare a = ap (◌∷◌ (some x)) (set-end xs s spare a)

  -- With a spare slot, the item is written behind the others.
  put-Holds :
      (da : DynArray A) (xs : List A) (s : Option A) (spare : List (Option A)) (a : A)
      → da.slots ≡ map some xs ++ s ∷ spare
      → da.len ≡ length xs
      → da.cap ≡ length xs + suc (length spare)
      → 2 * da.cap < size_mod
      → (da' : DynArray A) × (put da a ≡ some (true, da'))
        × Holds da' (xs ++ a ∷ [])
        × (da'.cap ≡ da.cap)
  unfolding put
  put-Holds da xs s spare a slots len cap small =
      let room : ltb da.len (length da.slots) ≡ true = lt→ltb _ _ (
        omega
          (arith, ap length slots, length-append (map some xs) (s ∷ spare), length-map-some xs)) in
      let da' : DynArray A = record da {
        slots = set da.slots da.len (some a);
        len = add_size da.len 1;
      } in
      (
        da',
        rw (room, ◌>>=◌),
        record {
          spare = spare;
          slots = ap₂ (λ l i. set l i (some a)) slots len ∙ set-end xs s spare a;
          len = add_size-eq da.len 1 (omega arith) ∙ omega (arith, length-append xs (a ∷ []));
          cap = omega (arith, length-append xs (a ∷ []));
          small = small;
        },
        refl,
      )

  pub take-all : (n : ℕ) (xs : List A) → length xs ≤ n → take n xs ≡ xs
  take-all zero [] h = refl
  take-all (suc n) [] h = refl
  take-all zero (x ∷ xs) h = absurd (omega arith)
  take-all (suc n) (x ∷ xs) h = ap (◌∷◌ x) (take-all n xs (omega arith))

module _ {ℓ} {A : Type ℓ} where
  -- Doubling a full array.
  resize-full :
      (xs : List A) (slots : List (Option A)) (n : ℕ)
      → slots ≡ map some xs ++ []
      → n ≡ 2 * length xs
      → resize n slots ≡ map some xs ++ replicate (length xs) none
  resize-full xs slots n e h =
      let plain : slots ≡ map some xs = e ∙ append-nil (map some xs) in
      let size : length slots ≡ length xs = ap length plain ∙ length-map-some xs in
      let left : n - length slots ≡ length xs = omega arith in
      rw (left, take-all n slots (omega arith), plain)

  append-full :
      (da : DynArray A) (xs : List A) (a : A) (m : ℕ)
      → da.slots ≡ map some xs ++ []
      → da.len ≡ length xs
      → da.cap ≡ length xs
      → length xs ≡ suc m
      → 4 * da.cap < size_mod
      → (da' : DynArray A) × (append true da a ≡ some (true, da'))
        × Holds da' (xs ++ a ∷ [])
        × (da.cap ≤ da'.cap)
  unfolding append mul_size
  append-full da xs a m slots len full_cap pos small =
      let full : (da.len == da.cap) ≡ true = (==_iff _ _).1 (omega arith) in
      let twice : mul_size da.cap 2 ≡ 2 * length xs = omega arith in
      let (da', run, holds, same) =
        put-Holds
          (record da { slots = resize (mul_size da.cap 2) da.slots; cap = mul_size da.cap 2 }) xs
          none (replicate m none) a
          (resize-full xs da.slots _ slots twice ∙ ap (λ k. map some xs ++ replicate k none) pos)
          len (omega (arith, length-replicate {A = Option A} m none)) (omega arith) in
      (da', rw (full, run), holds, omega arith)

  append-spare :
      (da : DynArray A) (xs : List A) (a : A) (h : Holds da xs) (spare : List (Option A))
      → h.spare ≡ spare
      → 0 < da.cap
      → 4 * da.cap < size_mod
      → (da' : DynArray A) × (append true da a ≡ some (true, da'))
        × Holds da' (xs ++ a ∷ [])
        × (da.cap ≤ da'.cap)
  unfolding append
  append-spare da xs a h [] e pos small =
      let full : da.cap ≡ length xs = omega (arith, ap length e, h.cap) in
      append-full da xs a (length xs - 1) (h.slots ∙ ap (◌++◌ (map some xs)) e) h.len full
        (omega arith) small
  append-spare da xs a h (s ∷ spare) e pos small =
      let room : da.cap ≡ length xs + suc (length spare) = omega (arith, ap length e, h.cap) in
      let open_slot : (da.len == da.cap) ≡ false = ground (arith, h.len) in
      let (da', run, holds, same) =
        put-Holds da xs s spare a (h.slots ∙ ap (◌++◌ (map some xs)) e) h.len room h.small in
      (da', rw (open_slot, run), holds, omega arith)

  -- Appending to an array with room for an item at least, where the allocation succeeds: the item
  -- stands behind the others, no write is out of range, and the capacity does not shrink.
  pub append-Holds :
      (da : DynArray A) (xs : List A) (a : A)
      → Holds da xs
      → 0 < da.cap
      → 4 * da.cap < size_mod
      → (da' : DynArray A) × (append true da a ≡ some (true, da'))
        × Holds da' (xs ++ a ∷ [])
        × (da.cap ≤ da'.cap)
  append-Holds da xs a h pos small = append-spare da xs a h h.spare refl pos small

  -- `tokens_init` makes an empty array.
  pub init-Holds : (da : DynArray A) (n : ℕ) → 2 * n < size_mod → Holds (init true da n).1 []
  unfolding init
  init-Holds da n h = record {
    spare = replicate n none;
    slots = refl;
    len = refl;
    cap = omega (arith, length-replicate {A = Option A} n none);
    small = h;
  }
