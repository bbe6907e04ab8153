-- ===== src/HashMap/Valid.antt =====
-- The invariant of a map, and what `um_get` gives in a map that has it.
use arnel_lang.Prelude.{
  ℕ, zero, suc, ◌+◌, ◌%◌, ◌<◌, ◌≡◌, ◌≢◌, refl, sym, ap, ◌∙◌, true, false, Option, none, some, List,
  [], ◌∷◌, ltb, ◌==◌, if◌then◌else◌, ◌>>=◌, get_elem?, set, length, arith, Bool-cases, inl, inr,
}
use native.Mathlib.Nat.{mod-lt}
use arnel_lang.HashMap.{Slot, HashMap, is_free, matches, probe, um_get}
use arnel_lang.HashMap.Slots.{
  wrap, wrap_lt, wrap_start, free-stops, held-stops, wrap_onto, slot_at, get_elem?-slot_at, stops,
  on_path, probe-first,
}

module _ {ℓ} {A : Type ℓ} where
  abbrev pub occupied : List (Slot A) → ℕ
  occupied [] = 0
  occupied (s ∷ ss) = (if is_free s then 0 else 1) + occupied ss

  pub free_slot :
      (ss : List (Slot A))
      → occupied ss < length ss
      → (i : ℕ) × (i < length ss) × (is_free (slot_at ss i) ≡ true)
  unfolding slot_at
  free_slot [] h = absurd (omega arith)
  free_slot (s ∷ ss) h = elim (Bool-cases (is_free s)) [
    | inl e ↦ (0, omega arith, e)
    | inr e ↦ let (i, lt, free) = free_slot ss (ground arith) in (suc i, omega arith, free)
  ]

  pub occupied-set :
      (ss : List (Slot A)) (i : ℕ) (s : Slot A)
      → i < length ss
      → is_free (slot_at ss i) ≡ true
      → is_free s ≡ false
      → occupied (set ss i s) ≡ occupied ss + 1
  unfolding slot_at
  occupied-set [] i s h free new = absurd (omega arith)
  occupied-set (x ∷ xs) zero s h free new = rw (free, new) (omega arith)
  occupied-set (x ∷ xs) (suc i) s h free new =
      let rest = occupied-set xs i s (omega arith) free new in ground arith

  pub occupied-set_val :
      (ss : List (Slot A)) (i : ℕ) (v : Option A)
      → occupied (set ss i (record (slot_at ss i) { val = v })) ≡ occupied ss
  unfolding slot_at
  occupied-set_val [] i v = refl
  occupied-set_val (x ∷ xs) zero v = refl
  occupied-set_val (x ∷ xs) (suc i) v =
      ap (λ n. (if is_free x then 0 else 1) + n) (occupied-set_val xs i v)

  module _ (hash : List ℕ → ℕ) where
    abbrev pub start : HashMap A → List ℕ → ℕ
    start m key = hash key % m.cap

    -- On the path of a key no slot holds the key behind one that stops it; one slot is free.
    pub record IsValid (m : HashMap A) : Type ℓ where
      pub size : m.cap ≡ length m.values
      pub count : m.len ≡ occupied m.values
      pub room : m.len < m.cap
      pub order :
          (key : List ℕ)
          → key ≢ []
          → (i j : ℕ) → i < j
          → j < m.cap
          → stops key (on_path m (start m key) i) ≡ true
          → matches key (on_path m (start m key) j) ≡ false
      pub filled : (i : ℕ) (k : List ℕ) → (slot_at m.values i).key ≡ some k → k ≢ []

    pub start_lt : (m : HashMap A) (key : List ℕ) → IsValid m → start m key < m.cap
    start_lt m key valid = mod-lt (hash key) (let r = valid.room in omega arith)

    -- Where the loop of an operation on `key` ends.
    pub record Reached (m : HashMap A) (key : List ℕ) : Type ℓ where
      pub offset : ℕ
      pub inside : offset < m.cap
      pub run :
          probe m.cap key m (start m key)
          ≡ some (matches key (on_path m (start m key) offset), wrap m.cap (start m key + offset))
      pub stop : stops key (on_path m (start m key) offset) ≡ true
      pub before : (q : ℕ) → q < offset → stops key (on_path m (start m key) q) ≡ false

    pub reached : (m : HashMap A) (key : List ℕ) → IsValid m → Reached m key
    reached m key valid =
        let low = start_lt m key valid in
        let (x, lt, free) =
          free_slot m.values
            (let a = valid.count in let b = valid.size in let c = valid.room in omega arith) in
        let (i, ic, at) = wrap_onto m.cap (start m key) x low (let b = valid.size in omega arith) in
        let stop_i : stops key (on_path m (start m key) i) ≡ true =
          free-stops key _ (ap (λ y. is_free (slot_at m.values y)) at ∙ free) in
        let (p, _, pc, run, stop, before) =
          probe-first m.cap 0 key m (start m key) (omega arith) valid.size low i (omega arith) ic
            stop_i in
        record {
          offset = p;
          inside = pc;
          run = ap (λ k. probe m.cap key m k) (sym (wrap_start m.cap (start m key) low)) ∙ run;
          stop = stop;
          before = λ q lt'. before q (omega arith) lt';
        }

    -- A slot that holds the key is the one that is reached.
    pub first_held :
        (m : HashMap A) (key : List ℕ)
        → IsValid m
        → key ≢ []
        → (r : Reached m key) → (i : ℕ) → i < m.cap
        → matches key (on_path m (start m key) i) ≡ true
        → r.offset ≡ i
    first_held m key valid solid r i ic held = elim (Bool-cases (r.offset == i)) [
      | inl e ↦ ground arith
      | inr e ↦ elim (Bool-cases (ltb r.offset i)) [
        | inl k ↦ let no = valid.order key solid r.offset i (ground arith) ic r.stop in absurd (cc)
        | inr k ↦
            let no = r.before i (ground arith) in
            let yes_i = held-stops key (on_path m (start m key) i) held in absurd (cc)
      ]
    ]

    pub um_get-held :
        (m : HashMap A) (key : List ℕ) (x : ℕ)
        → IsValid m
        → key ≢ []
        → x < m.cap
        → matches key (slot_at m.values x) ≡ true
        → um_get hash m key ≡ some (slot_at m.values x).val
    unfolding um_get
    um_get-held m key x valid solid lt held =
        let low = start_lt m key valid in
        let r = reached m key valid in
        let (i, ic, at) = wrap_onto m.cap (start m key) x low lt in
        let held_i : matches key (on_path m (start m key) i) ≡ true =
          ap (λ y. matches key (slot_at m.values y)) at ∙ held in
        let same : r.offset ≡ i = first_held m key valid solid r i ic held_i in
        let there : wrap m.cap (start m key + r.offset) ≡ x =
          ap (λ k. wrap m.cap (start m key + k)) same ∙ at in
        let holds : matches key (on_path m (start m key) r.offset) ≡ true =
          ap (λ y. matches key (slot_at m.values y)) there ∙ held in
        rw (r.run, ◌>>=◌, holds)
          (ap (λ y. get_elem? m.values y >>= λ s. some s.val) there
            ∙ ap (λ o. o >>= λ s. some s.val)
                (get_elem?-slot_at m.values x (let b = valid.size in omega arith)))

    pub um_get-missing :
        (m : HashMap A) (key : List ℕ)
        → IsValid m
        → ((x : ℕ) → x < m.cap → matches key (slot_at m.values x) ≡ false)
        → um_get hash m key ≡ some none
    unfolding um_get
    um_get-missing m key valid none_held =
        let r = reached m key valid in
        let no : matches key (on_path m (start m key) r.offset) ≡ false =
          none_held _ (wrap_lt m.cap (start m key) r.offset (start_lt m key valid) r.inside) in
        rw (r.run, ◌>>=◌, no) refl
