-- ===== src/HashMap/Rehash.antt =====
-- `__rehash`, and `um_set` with it.
use arnel_lang.Prelude.{
  ℕ, zero, suc, ◌+◌, ◌*◌, ◌≤◌, ◌<◌, ◌≡◌, ◌≢◌, refl, sym, ap, ◌∙◌, true, false, Option, none, some,
  List, [], ◌∷◌, if◌then◌else◌, ◌>>=◌, length, replicate, arith, Bool-cases, Option-cases, inl, inr,
  length-replicate,
}
use arnel_lang.HashMap.{
  Slot, HashMap, bytes_eq, empty_slot, matches, um_get, is_loaded, insert_all, um_set_at,
}
use arnel_lang.HashMap.Slots.{bytes_eq_iff, slot_at}
use arnel_lang.HashMap.Valid.{occupied, IsValid, um_get-missing}
use arnel_lang.HashMap.Put.{Sets, put-Sets}
use arnel_lang.HashMap.Change.{free-unmatched}

occupied-replicate {ℓ} : (A : Type ℓ) (n : ℕ) → occupied (replicate n (empty_slot {A = A})) ≡ 0
occupied-replicate A zero = refl
occupied-replicate A (suc n) = let rest = occupied-replicate A n in omega arith

module _ {ℓ} {A : Type ℓ} where
  empty_at : (n i : ℕ) → slot_at (replicate n (empty_slot {A = A})) i ≡ empty_slot
  unfolding slot_at
  empty_at zero i = refl
  empty_at (suc n) zero = refl
  empty_at (suc n) (suc i) = empty_at n i

empty_unheld {ℓ} :
    (A : Type ℓ) (key : List ℕ)
    → key ≢ []
    → (n i : ℕ) → matches key (slot_at (replicate n (empty_slot {A = A})) i) ≡ false
empty_unheld A key solid n i = rw (empty_at {A = A} n i) (elim (Bool-cases (bytes_eq key [])) [
  | inl e ↦ absurd (solid ((bytes_eq_iff key []).0 e))
  | inr e ↦ e
])

module _ {ℓ} {A : Type ℓ} where
  -- The last value that the slots give to a key.
  abbrev pub recent : List ℕ → List (Slot A) → Option A → Option A
  recent key [] base = base
  recent key (s ∷ ss) base = recent key ss (if matches key s then s.val else base)

  pub recent-missing :
      (key : List ℕ) (ss : List (Slot A)) (base : Option A)
      → ((x : ℕ) → x < length ss → matches key (slot_at ss x) ≡ false)
      → recent key ss base ≡ base
  unfolding slot_at
  recent-missing key [] base h = refl
  recent-missing key (s ∷ ss) base h =
      rw (h 0 (omega arith)) (recent-missing key ss base (λ x lt. h (suc x) (omega arith)))

  pub recent-held :
      (key : List ℕ) (ss : List (Slot A)) (base : Option A) (x : ℕ)
      → x < length ss
      → matches key (slot_at ss x) ≡ true
      → ((y : ℕ) → y < length ss → y ≢ x → matches key (slot_at ss y) ≡ false)
      → recent key ss base ≡ (slot_at ss x).val
  unfolding slot_at
  recent-held key [] base x lt e h = absurd (omega arith)
  recent-held key (s ∷ ss) base zero lt e h =
      rw e (recent-missing key ss s.val (λ y yc. h (suc y) (omega arith) (λ k. omega arith)))
  recent-held key (s ∷ ss) base (suc x) lt e h =
      recent-held key ss (if matches key s then s.val else base) x (omega arith) e
        (λ y yc apart. h (suc y) (omega arith) (λ k. apart (omega arith)))

  module _ (hash : List ℕ → ℕ) where
    abbrev pub empty_map : ℕ → HashMap A
    empty_map n = record { cap = n; len = 0; values = replicate n empty_slot }

    pub empty_map-IsValid : (n : ℕ) → 0 < n → IsValid hash (empty_map n)
    empty_map-IsValid n h = record {
      size = sym (length-replicate n empty_slot);
      count = sym (occupied-replicate A n);
      room = h;
      order = (λ key solid i j _ _ _. empty_unheld A key solid n _);
      filled = (λ i k e _.
          let free : none ≡ some k = sym (ap (λ s. s.key) (empty_at {A = A} n i)) ∙ e in absurd cc);
    }

    pub empty_map-get :
        (n : ℕ) → 0 < n → (key : List ℕ) → key ≢ [] → um_get hash (empty_map n) key ≡ some none
    empty_map-get n h key solid =
        um_get-missing hash (empty_map n) key (empty_map-IsValid n h)
          (λ x _. empty_unheld A key solid n x)

    -- A map that is not loaded takes a key at once.
    pub set_at-Sets :
        (d : ℕ) (m : HashMap A) (key : List ℕ) (val : Option A)
        → IsValid hash m
        → key ≢ []
        → 12 ≤ m.cap
        → 10 * m.len ≤ 7 * m.cap
        → (m' : HashMap A) × (um_set_at hash (suc d) m key val ≡ some m') × Sets hash m key val m'
    unfolding um_set_at
    set_at-Sets d m key val valid solid big light =
        let (m', run, sets) = put-Sets hash m key val valid solid (omega arith) in
        let fits : is_loaded hash m ≡ false = ground arith in (m', rw (fits, ◌>>=◌) run, sets)

    -- A map with the bindings of `m`, and those of the slots `ss` over them.
    pub record Filled (m : HashMap A) (ss : List (Slot A)) (m' : HashMap A) : Type ℓ where
      pub valid : IsValid hash m'
      pub same_cap : m'.cap ≡ m.cap
      pub len_le : m'.len ≤ m.len + length ss
      pub gets :
          (key : List ℕ) (base : Option A)
          → key ≢ []
          → um_get hash m key ≡ some base
          → um_get hash m' key ≡ some (recent key ss base)

    pub insert_all-Filled :
        (d : ℕ) (ss : List (Slot A)) (m : HashMap A)
        → IsValid hash m
        → ((i : ℕ) (k : List ℕ) → (slot_at ss i).key ≡ some k → k ≢ [])
        → 12 ≤ m.cap
        → 10 * (m.len + length ss) ≤ 7 * m.cap
        → (m' : HashMap A) × (insert_all hash (um_set_at hash (suc d)) ss m ≡ some m')
          × Filled m ss m'
    unfolding insert_all slot_at
    insert_all-Filled d [] m valid filled big light = (
      m,
      refl,
      record { valid = valid; same_cap = refl; len_le = omega arith; gets = (λ key base _ e. e) },
    )
    insert_all-Filled d (s ∷ ss) m valid filled big light = elim (Option-cases s.key) [
      | inl e ↦
          let (m', run, f) =
            insert_all-Filled d ss m valid (λ i. filled (suc i)) big (omega arith) in
          (
            m',
            rw e run,
            record {
              valid = f.valid;
              same_cap = f.same_cap;
              len_le = (let a = f.len_le in omega arith);
              gets = (λ key base solid got.
                  let skip : matches key s ≡ false = free-unmatched key s solid (rw e refl) in
                  rw skip (f.gets key base solid got));
            },
          )
      | inr (k, e) ↦
          let (m₁, run₁, sets) = set_at-Sets d m k s.val valid (filled 0 k e) big (omega arith) in
          let cap₁ = sets.same_cap in
          let len₁ = sets.len_le in
          let (m', run, f) =
            insert_all-Filled d ss m₁ sets.valid (λ i. filled (suc i)) (omega arith)
              (omega arith) in
          (
            m',
            rw (e, run₁, ◌>>=◌) run,
            record {
              valid = f.valid;
              same_cap = f.same_cap ∙ sets.same_cap;
              len_le = (let a = f.len_le in omega arith);
              gets = (λ key base solid got. elim (Bool-cases (bytes_eq key k)) [
                | inl same ↦
                    let hit : matches key s ≡ true = rw e same in
                    rw hit (
                      f.gets key s.val solid
                        (ap (um_get hash m₁) ((bytes_eq_iff key k).0 same) ∙ sets.gets_self))
                | inr other ↦
                    let skip : matches key s ≡ false = rw e other in
                    let apart : key ≢ k =
                      (λ q. let yes_q = (bytes_eq_iff key k).1 q in absurd cc) in
                    rw skip (f.gets key base solid (sets.gets_ne key solid apart ∙ got))
              ]);
            },
          )
    ]
