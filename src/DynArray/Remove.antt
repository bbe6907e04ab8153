-- ===== src/DynArray/Remove.antt =====
-- `tokens_remove`, and the slot behind the items that it reads.
use arnel_lang.Prelude.{
  ℕ, zero, suc, ◌+◌, ◌-◌, ◌≡◌, refl, ap, ◌∙◌, false, Option, none, some, List, [], ◌∷◌, ◌++◌, map,
  leb, ◌>>=◌, length, get_elem?, set, arith, length-append, Option-cases, inl, inr,
}
use arnel_lang.DynArray.{DynArray, read_slot, shift, remove}
use arnel_lang.DynArray.Laws.{Holds, length-map-some}

module _ {ℓ} {A : Type ℓ} (behind : Option (Option A)) where
  read_slot-cons :
      (s : Option A) (slots : List (Option A)) (j : ℕ)
      → read_slot behind (s ∷ slots) (suc j) ≡ read_slot behind slots j
  read_slot-cons s slots j = ground arith

  shift-cons :
      (n i : ℕ) (s : Option A) (slots : List (Option A))
      → shift behind n (suc i) (s ∷ slots) ≡ (shift behind n i slots >>= λ r. some (s ∷ r))
  unfolding shift
  shift-cons zero i s slots = refl
  shift-cons (suc n) i s slots = elim (Option-cases (read_slot behind slots (suc i))) [
    | inl e ↦ rw (read_slot-cons s slots (suc i), e)
    | inr (r, e) ↦ rw (read_slot-cons s slots (suc i), e) (shift-cons n (suc i) s (set slots i r))
  ]

  shift-append :
      (n : ℕ) (pre slots : List (Option A))
      → shift behind n (length pre) (pre ++ slots)
        ≡ (shift behind n 0 slots >>= λ r. some (pre ++ r))
  shift-append n [] slots = elim (Option-cases (shift behind n 0 slots)) [
    | inl e ↦ rw e
    | inr (r, e) ↦ rw e
  ]
  shift-append n (p ∷ pre) slots = elim (Option-cases (shift behind n 0 slots)) [
    | inl e ↦ rw (shift-cons n (length pre) p (pre ++ slots), shift-append n pre slots, e)
    | inr (r, e) ↦ rw (shift-cons n (length pre) p (pre ++ slots), shift-append n pre slots, e)
  ]

  -- What the last round of the loop reads: the first spare slot, or what is behind the allocation.
  abbrev pub last_read : List (Option A) → Option (Option A)
  last_read [] = behind
  last_read (s ∷ spare) = some s

  shift-one :
      (x : A) (spare : List (Option A))
      → shift behind 1 0 (some x ∷ spare) ≡ (last_read spare >>= λ y. some (y ∷ spare))
  unfolding shift
  shift-one x [] = elim (Option-cases behind) [ inl e ↦ rw e | inr (y, e) ↦ rw e ]
  shift-one x (s ∷ spare) = ground arith

  shift-first :
      (n : ℕ) (a b : Option A) (slots : List (Option A))
      → shift behind (suc n) 0 (a ∷ b ∷ slots) ≡ shift behind n 1 (b ∷ b ∷ slots)
  unfolding shift
  shift-first n a b slots =
      let inside : read_slot behind (a ∷ b ∷ slots) 1 ≡ some b = ground arith in rw inside

  shift-all :
      (x : A) (post : List A) (spare : List (Option A))
      → shift behind (suc (length post)) 0 (some x ∷ map some post ++ spare)
        ≡ (last_read spare >>= λ y. some (map some post ++ y ∷ spare))
  shift-all x [] spare = shift-one x spare
  shift-all x (p ∷ post) spare =
      shift-first (suc (length post)) (some x) (some p) (map some post ++ spare)
      ∙ shift-cons (suc (length post)) 0 (some p) (some p ∷ map some post ++ spare)
      ∙ ap (λ o. o >>= λ r. some (some p ∷ r)) (shift-all p post spare)
      ∙ rejoin
    where
      rejoin :
          ((last_read spare >>= λ y. some (map some post ++ y ∷ spare)) >>= λ r. some (some p ∷ r))
          ≡ (last_read spare >>= λ y. some (some p ∷ map some post ++ y ∷ spare))
      rejoin = elim (Option-cases (last_read spare)) [ inl e ↦ rw e | inr (y, e) ↦ rw e ]

  get_elem?-append :
      (pre post : List A) (x : A) (spare : List (Option A))
      → get_elem? (map some (pre ++ x ∷ post) ++ spare) (length pre) ≡ some (some x)
  get_elem?-append [] post x spare = refl
  get_elem?-append (p ∷ pre) post x spare = get_elem?-append pre post x spare

  split-slots :
      (pre post : List A) (x : A) (spare : List (Option A))
      → map some (pre ++ x ∷ post) ++ spare ≡ map some pre ++ (some x ∷ map some post ++ spare)
  split-slots [] post x spare = refl
  split-slots (p ∷ pre) post x spare = ap (◌∷◌ (some p)) (split-slots pre post x spare)

  join-slots :
      (pre post : List A) (tail : List (Option A))
      → map some pre ++ (map some post ++ tail) ≡ map some (pre ++ post) ++ tail
  join-slots [] post tail = refl
  join-slots (p ∷ pre) post tail = ap (◌∷◌ (some p)) (join-slots pre post tail)

  module _ (da : DynArray A) (pre post : List A) (x : A) (h : Holds da (pre ++ x ∷ post)) where
    count : da.len ≡ length pre + suc (length post)
    count = h.len ∙ length-append pre (x ∷ post)

    -- Removing in range: the result, or a fault where the last read is one.
    remove-run : remove behind da (length pre) ≡ (
        last_read h.spare >>= λ y.
        some
          (some x, record da { slots = map some (pre ++ post) ++ y ∷ h.spare; len = da.len - 1 }))
    unfolding remove
    remove-run =
        let inside : leb da.len (length pre) ≡ false = ground (arith, count) in
        let rounds : da.len - length pre ≡ suc (length post) = omega (arith, count) in
        let item : get_elem? da.slots (length pre) ≡ some (some x) =
          rw h.slots (get_elem?-append pre post x h.spare) in
        let moved =
          shift-append (suc (length post)) (map some pre) (some x ∷ map some post ++ h.spare) in
        let shifted : shift behind (suc (length post)) (length pre) da.slots
            ≡ (last_read h.spare >>= λ y. some (map some (pre ++ post) ++ y ∷ h.spare)) =
          rw (h.slots, split-slots pre post x h.spare)
            (rw (length-map-some pre, shift-all x post h.spare) at moved ∙ rejoin) in
        rw (inside, item, rounds, shifted)
          (elim (Option-cases (last_read h.spare)) [ inl e ↦ rw e | inr (y, e) ↦ rw e ])
      where
        rejoin :
            ((last_read h.spare >>= λ y. some (map some post ++ y ∷ h.spare)) >>= λ r.
            some (map some pre ++ r))
            ≡ (last_read h.spare >>= λ y. some (map some (pre ++ post) ++ y ∷ h.spare))
        rejoin = elim (Option-cases (last_read h.spare)) [
          | inl e ↦ rw e
          | inr (y, e) ↦ rw e (ap some (join-slots pre post (y ∷ h.spare)))
        ]

    -- An item in range goes out through the pointer and the others move up, in their order, as long
    -- as the last read of the loop gives something; the capacity stays.
    pub remove-Holds :
        (y : Option A)
        → last_read h.spare ≡ some y
        → (da' : DynArray A) × (remove behind da (length pre) ≡ some (some x, da'))
          × Holds da' (pre ++ post)
          × (da'.cap ≡ da.cap)
    remove-Holds y e = (
      record da { slots = map some (pre ++ post) ++ y ∷ h.spare; len = da.len - 1 },
      rw (remove-run, e),
      record {
        spare = y ∷ h.spare;
        slots = refl;
        len = omega (arith, count, length-append pre post);
        cap = omega (arith, h.cap, length-append pre (x ∷ post), length-append pre post);
        small = h.small;
      },
      refl,
    )

module _ {ℓ} {A : Type ℓ} where
  last_read-full : (spare : List (Option A)) → length spare ≡ 0 → last_read none spare ≡ none
  last_read-full [] h = refl
  last_read-full (s ∷ spare) h = absurd (omega arith)

  -- In a full array the removal of any item reads behind the allocation.
  pub remove-full :
      (da : DynArray A) (pre post : List A) (x : A)
      → Holds da (pre ++ x ∷ post)
      → da.len ≡ da.cap
      → remove none da (length pre) ≡ none
  remove-full da pre post x h full =
      rw (remove-run none da pre post x h, last_read-full h.spare (omega (arith, h.len, h.cap)))
