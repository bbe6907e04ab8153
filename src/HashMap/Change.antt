-- ===== src/HashMap/Change.antt =====
-- A map with one slot changed: what its slots hold and what `um_get` gives.
use arnel_lang.Prelude.{
  ℕ, ◌+◌, ◌<◌, ◌≡◌, ◌≢◌, refl, sym, ap, ◌∙◌, true, false, some, List, [], ◌==◌, set, arith,
  Bool-cases, Option-cases, ==_iff, inl, inr,
}
use mathlib.Core.Path.{subst}
use arnel_lang.HashMap.{Slot, HashMap, bytes_eq, is_free, key_bytes, matches, um_get}
use arnel_lang.HashMap.Slots.{
  bytes_eq_iff, wrap, wrap_lt, wrap_onto, slot_at, slot_at-set_self, slot_at-set_ne, stops,
  held-stops, on_path,
}
use arnel_lang.HashMap.Valid.{
  start, IsValid, start_lt, Reached, reached, first_held, um_get-held, um_get-missing,
}

pub bytes_ne : (xs ys : List ℕ) → xs ≢ ys → bytes_eq xs ys ≡ false
bytes_ne xs ys h = elim (Bool-cases (bytes_eq xs ys)) [
  | inl e ↦ absurd (h ((bytes_eq_iff xs ys).0 e))
  | inr e ↦ e
]

module _ {ℓ} {A : Type ℓ} where
  pub free-unmatched : (j : List ℕ) (s : Slot A) → j ≢ [] → is_free s ≡ true → matches j s ≡ false
  free-unmatched j s h free = elim (Option-cases s.key) [
    | inl e ↦ rw e (bytes_ne j [] h)
    | inr (k, e) ↦ let f : is_free s ≡ false = rw e refl in absurd cc
  ]

  pub held-other :
      (j key : List ℕ) (s : Slot A) → j ≢ key → matches key s ≡ true → matches j s ≡ false
  held-other j key s h held =
      bytes_ne j (key_bytes s) (λ e. h (e ∙ sym ((bytes_eq_iff key (key_bytes s)).0 held)))

  pub unmatched : (k : List ℕ) (s : Slot A) → stops k s ≡ false → matches k s ≡ false
  unmatched k s h = elim (Bool-cases (matches k s)) [
    | inl e ↦ let yes_s = held-stops k s e in absurd (cc)
    | inr e ↦ e
  ]

  pub stopped_free :
      (k : List ℕ) (s : Slot A) → stops k s ≡ true → matches k s ≡ false → is_free s ≡ true
  unfolding stops
  stopped_free k s h e = sym (rw e refl) ∙ h

  pub matches-key : (k : List ℕ) (s t : Slot A) → s.key ≡ t.key → matches k s ≡ matches k t
  matches-key k s t e = rw e refl

  pub stops-key : (k : List ℕ) (s t : Slot A) → s.key ≡ t.key → stops k s ≡ stops k t
  unfolding stops
  stops-key k s t e = rw e refl

  pub unstopped :
      (k : List ℕ) (s : Slot A) → matches k s ≡ false → is_free s ≡ false → stops k s ≡ false
  unfolding stops
  unstopped k s h free = rw (h, free) refl

  module _ (hash : List ℕ → ℕ) where
    -- A key that is not where the loop ends is in no slot.
    pub missing_all :
        (m : HashMap A) (key : List ℕ)
        → IsValid hash m
        → key ≢ []
        → (r : Reached hash m key) → matches key (on_path m (start hash m key) r.offset) ≡ false
        → (x : ℕ) → x < m.cap
        → matches key (slot_at m.values x) ≡ false
    missing_all m key valid solid r apart x lt =
        let (i, ic, at) = wrap_onto m.cap (start hash m key) x (start_lt hash m key valid) lt in
        elim (Bool-cases (matches key (slot_at m.values x))) [
          | inr e ↦ e
          | inl e ↦
              let held : matches key (on_path m (start hash m key) i) ≡ true =
                ap (λ y. matches key (slot_at m.values y)) at ∙ e in
              let same = first_held hash m key valid solid r i ic held in
              let no_i : matches key (on_path m (start hash m key) i) ≡ false =
                ap (λ k. matches key (on_path m (start hash m key) k)) (sym same) ∙ apart in
              absurd cc
        ]

    -- The map with another slot at `x`.
    module _ (m : HashMap A) (n x : ℕ) (s : Slot A) (valid : IsValid hash m) (lt : x < m.cap) where
      abbrev pub changed : HashMap A
      changed = record m { len = n; values = set m.values x s }

      pub changed_self : slot_at changed.values x ≡ s
      changed_self = slot_at-set_self m.values x s (let b = valid.size in omega arith)

      pub changed_ne : (y : ℕ) → y ≢ x → slot_at changed.values y ≡ slot_at m.values y
      changed_ne y h = slot_at-set_ne m.values x y s (λ e. h (sym e))

      -- What holds of the new slot and of all others holds of all.
      pub changed_all :
          (P : ℕ → Slot A → Type 0)
          → P x s
          → ((y : ℕ) → y ≢ x → P y (slot_at m.values y))
          → (y : ℕ) → P y (slot_at changed.values y)
      changed_all P here there y = elim (Bool-cases (y == x)) [
        | inl e ↦
            let same = (==_iff y x).0 e in
            subst (λ z. P z (slot_at changed.values z)) (sym same)
              (subst (P x) (sym changed_self) here)
        | inr e ↦
            let h : y ≢ x = (λ k. ground arith) in subst (P y) (sym (changed_ne y h)) (there y h)
      ]

      -- A key that neither the old nor the new slot holds keeps its value.
      pub changed-get :
          (j : List ℕ)
          → j ≢ []
          → IsValid hash changed
          → matches j (slot_at m.values x) ≡ false
          → matches j s ≡ false
          → um_get hash changed j ≡ um_get hash m j
      changed-get j full valid' old new =
          let r = reached hash m j valid in
          let y = wrap m.cap (start hash m j + r.offset) in
          let yc : y < m.cap =
            wrap_lt m.cap (start hash m j) r.offset (start_lt hash m j valid) r.inside in
          elim (Bool-cases (matches j (slot_at m.values y))) [
            | inl e ↦
                let apart : y ≢ x =
                  (λ k. let same = ap (λ z. matches j (slot_at m.values z)) k in absurd cc) in
                let keep = changed_ne y apart in
                um_get-held hash changed j y valid' full yc (ap (matches j) keep ∙ e)
                ∙ ap (λ t. some t.val) keep
                ∙ sym (um_get-held hash m j y valid full yc e)
            | inr e ↦
                let nowhere = missing_all m j valid full r e in
                um_get-missing hash changed j valid' (λ z zc.
                  changed_all (λ k t. k < m.cap → matches j t ≡ false) (λ _. new)
                    (λ k _ kc. nowhere k kc) z zc)
                ∙ sym (um_get-missing hash m j valid nowhere)
          ]
