-- ===== src/HashMap/Set.antt =====
-- `um_set`, which may rehash the map first.
use arnel_lang.Prelude.{
  ℕ, ◌+◌, ◌*◌, ◌≤◌, ◌<◌, ◌≡◌, ◌≢◌, sym, ap, ◌∙◌, Option, none, some, List, [], ◌>>=◌, arith,
  Bool-cases, ◌⊎◌, inl, inr,
}
use arnel_lang.Prelude.Size.{size_mod, mul_size}
use arnel_lang.HashMap.{HashMap, matches, um_get, is_loaded, insert_all, doubled, um_set_at, um_set}
use arnel_lang.HashMap.Slots.{wrap, wrap_lt, wrap_onto, slot_at}
use arnel_lang.HashMap.Valid.{
  start, start_lt, IsValid, reached, first_held, um_get-held, um_get-missing,
}
use arnel_lang.HashMap.Put.{put-Sets}
use arnel_lang.HashMap.Change.{missing_all}
use arnel_lang.HashMap.Rehash.{
  recent, recent-missing, recent-held, empty_map, empty_map-IsValid, empty_map-get,
  insert_all-Filled,
}

mul_size-eq : (a : ℕ) → a * 2 < size_mod → mul_size a 2 ≡ a * 2
unfolding mul_size
mul_size-eq a h = omega arith

pub um_get-recent {ℓ} :
    {A : Type ℓ} (hash : List ℕ → ℕ) (m : HashMap A) (key : List ℕ)
    → IsValid hash m
    → key ≢ []
    → um_get hash m key ≡ some (recent key m.values none)
um_get-recent hash m key valid solid =
    let r = reached hash m key valid in
    let low = start_lt hash m key valid in
    let size = valid.size in
    let x = wrap m.cap (start hash m key + r.offset) in
    let xc : x < m.cap = wrap_lt m.cap (start hash m key) r.offset low r.inside in
    elim (Bool-cases (matches key (slot_at m.values x))) [
      | inl e ↦
          um_get-held hash m key x valid solid xc e
          ∙ ap some (
              sym (
                recent-held key m.values none x (omega arith) e (λ y yc apart.
                  let (i, ic, at) = wrap_onto m.cap (start hash m key) y low (omega arith) in
                  elim (Bool-cases (matches key (slot_at m.values y))) [
                    | inr apart_y ↦ apart_y
                    | inl held ↦
                        let same =
                          first_held hash m key valid solid r i ic
                            (ap (λ z. matches key (slot_at m.values z)) at ∙ held) in
                        absurd
                          (apart (sym at ∙ ap (λ k. wrap m.cap (start hash m key + k)) (sym same)))
                  ])))
      | inr e ↦
          let nowhere = missing_all hash m key valid solid r e in
          um_get-missing hash m key valid nowhere
          ∙ ap some (sym (recent-missing key m.values none (λ y yc. nowhere y (omega arith))))
    ]

module _ {ℓ} {A : Type ℓ} (hash : List ℕ → ℕ) where
  -- Rehashing keeps every binding and leaves at least half of the slots free.
  rehash-keeps :
      (m : HashMap A)
      → IsValid hash m
      → 12 ≤ m.cap
      → m.cap * 2 < size_mod
      → (m' : HashMap A) × (insert_all hash (um_set_at hash 1) m.values (doubled hash m) ≡ some m')
        × IsValid hash m'
        × (m'.cap ≡ m.cap * 2)
        × (m'.len ≤ m.cap)
        × ((key : List ℕ) → key ≢ [] → um_get hash m' key ≡ um_get hash m key)
  rehash-keeps m valid big small =
      let size = valid.size in
      let (m', run, f) =
        insert_all-Filled hash 0 m.values (empty_map hash (m.cap * 2))
          (empty_map-IsValid hash (m.cap * 2) (omega arith)) valid.filled (omega arith)
          (omega arith) in
      let len = f.len_le in
      (
        m',
        ap (λ c. insert_all hash (um_set_at hash 1) m.values (empty_map hash c))
              (mul_size-eq m.cap small)
            ∙ run,
        f.valid,
        f.same_cap,
        omega arith,
        (λ key solid.
            f.gets key none solid (empty_map-get hash (m.cap * 2) (omega arith) key solid)
            ∙ sym (um_get-recent hash m key valid solid)),
      )

-- What setting a key makes of a map: the key is put in, and the slots stay as many or become twice
-- as many, in which case most of them were taken.
pub record Added {ℓ} {A : Type ℓ} (hash : List ℕ → ℕ) (m : HashMap A) (key : List ℕ)
    (val : Option A) (m' : HashMap A) : Type ℓ where
  pub valid : IsValid hash m'
  pub size :
      ((m'.cap ≡ m.cap) × (m'.len ≤ m.len + 1))
      ⊎ ((m'.cap ≡ m.cap * 2) × (m'.len ≤ m.cap + 1) × (7 * m.cap < 10 * m.len))
  pub gets_self : um_get hash m' key ≡ some val
  pub gets_ne : (j : List ℕ) → j ≢ [] → j ≢ key → um_get hash m' j ≡ um_get hash m j

pub um_set-Added {ℓ} :
    {A : Type ℓ} (hash : List ℕ → ℕ) (m : HashMap A) (key : List ℕ) (val : Option A)
    → IsValid hash m
    → 12 ≤ m.cap
    → m.cap * 2 < size_mod
    → key ≢ []
    → (m' : HashMap A) × (um_set hash m key val ≡ some m') × Added hash m key val m'
unfolding um_set um_set_at
um_set-Added hash m key val valid big small solid = elim (Bool-cases (is_loaded hash m)) [
  | inr light ↦
      let (m', run, sets) = put-Sets hash m key val valid solid (ground arith) in
      (
        m',
        rw (light, ◌>>=◌) run,
        record {
          valid = sets.valid;
          size = inl (sets.same_cap, sets.len_le);
          gets_self = sets.gets_self;
          gets_ne = sets.gets_ne;
        },
      )
  | inl heavy ↦
      let (m₁, run₁, valid₁, cap₁, len₁, keeps) = rehash-keeps hash m valid big small in
      let (m', run, sets) = put-Sets hash m₁ key val valid₁ solid (omega arith) in
      let full : 7 * m.cap < 10 * m.len = ground arith in
      (
        m',
        rw (heavy, run₁, ◌>>=◌) run,
        record {
          valid = sets.valid;
          size = inr (sets.same_cap ∙ cap₁, omega (arith, sets.len_le), full);
          gets_self = sets.gets_self;
          gets_ne = λ j key_j apart. sets.gets_ne j key_j apart ∙ keeps j key_j;
        },
      )
]

-- Setting a non-empty key in a valid map of at least the initial capacity, whose doubled capacity
-- fits into a word: `um_set` ends, with or without a rehash, in a valid map of no smaller capacity,
-- in which the key has the new value and every other non-empty key has the value that it had.
pub um_set-finite_map {ℓ} :
    {A : Type ℓ} (hash : List ℕ → ℕ) (m : HashMap A) (key : List ℕ) (val : Option A)
    → IsValid hash m
    → 12 ≤ m.cap
    → m.cap * 2 < size_mod
    → key ≢ []
    → (m' : HashMap A) × (um_set hash m key val ≡ some m')
      × IsValid hash m'
      × (m.cap ≤ m'.cap)
      × (um_get hash m' key ≡ some val)
      × ((j : List ℕ) → j ≢ [] → j ≢ key → um_get hash m' j ≡ um_get hash m j)
um_set-finite_map hash m key val valid big small solid =
    let (m', run, added) = um_set-Added hash m key val valid big small solid in
    (
      m',
      run,
      added.valid,
      (elim added.size [ inl h ↦ omega arith | inr h ↦ omega arith ]),
      added.gets_self,
      added.gets_ne,
    )
