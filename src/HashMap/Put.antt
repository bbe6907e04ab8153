-- ===== src/HashMap/Put.antt =====
-- `um_set` in a map with room for one more key.
use arnel_lang.Prelude.{
  ℕ, ◌+◌, ◌≤◌, ◌<◌, ◌≡◌, ◌≢◌, refl, sym, ap, ◌∙◌, true, false, Option, some, List, [], ◌==◌, ◌>>=◌,
  arith, Bool-cases, ==_iff, inl, inr, length-set,
}
use mathlib.Core.Path.{subst}
use mathlib.Core.Option.{some-injective}
use arnel_lang.HashMap.{Slot, HashMap, bytes_eq, is_free, matches, um_get, put}
use arnel_lang.HashMap.Slots.{
  bytes_eq_iff, wrap, wrap_lt, wrap-injective, slot_at, get_elem?-slot_at, stops, on_path,
}
use arnel_lang.HashMap.Valid.{
  occupied-set, occupied-set_val, start, IsValid, start_lt, Reached, reached, um_get-held,
}
use arnel_lang.HashMap.Change.{
  bytes_ne, free-unmatched, held-other, stopped_free, matches-key, stops-key, unstopped, changed,
  changed_self, changed_ne, changed_all, changed-get,
}

module _ {ℓ} {A : Type ℓ} where
  module _ (hash : List ℕ → ℕ) where
    -- What a map with a new value for `key` has to do with the old one.
    pub record Sets (m : HashMap A) (key : List ℕ) (val : Option A) (m' : HashMap A) : Type ℓ where
      pub valid : IsValid hash m'
      pub same_cap : m'.cap ≡ m.cap
      pub len_le : m'.len ≤ m.len + 1
      pub gets_self : um_get hash m' key ≡ some val
      pub gets_ne : (j : List ℕ) → j ≢ [] → j ≢ key → um_get hash m' j ≡ um_get hash m j

    module _ (m : HashMap A) (key : List ℕ) (val : Option A) (valid : IsValid hash m)
        (solid : key ≢ []) (r : Reached hash m key) where
      abbrev target : ℕ
      target = wrap m.cap (start hash m key + r.offset)

      target_lt : target < m.cap
      target_lt = wrap_lt m.cap (start hash m key) r.offset (start_lt hash m key valid) r.inside

      -- The key is there: its value is replaced.
      abbrev replaced : Slot A
      replaced = record (slot_at m.values target) { val = val }

      abbrev with_replaced : HashMap A
      with_replaced = changed hash m m.len target replaced valid target_lt

      replaced_key : (y : ℕ) → (slot_at with_replaced.values y).key ≡ (slot_at m.values y).key
      replaced_key y =
          changed_all hash m m.len target replaced valid target_lt
            (λ z t. t.key ≡ (slot_at m.values z).key) refl (λ z _. refl) y

      replaced-IsValid : IsValid hash with_replaced
      replaced-IsValid = record {
        size = valid.size ∙ sym (length-set m.values target replaced);
        count = valid.count ∙ sym (occupied-set_val m.values target val);
        room = valid.room;
        order = (λ k full i j ij jc stop.
            matches-key k (slot_at with_replaced.values (wrap m.cap (start hash m k + j)))
              (slot_at m.values (wrap m.cap (start hash m k + j)))
              (replaced_key (wrap m.cap (start hash m k + j)))
            ∙ valid.order k full i j ij jc (
                sym (
                  stops-key k (slot_at with_replaced.values (wrap m.cap (start hash m k + i)))
                    (slot_at m.values (wrap m.cap (start hash m k + i)))
                    (replaced_key (wrap m.cap (start hash m k + i))))
                ∙ stop));
        filled = (λ i k e. valid.filled i k (sym (replaced_key i) ∙ e));
      }

      replaced-Sets : matches key (slot_at m.values target) ≡ true → Sets m key val with_replaced
      replaced-Sets held = record {
        valid = replaced-IsValid;
        same_cap = refl;
        len_le = omega arith;
        gets_self =
            um_get-held hash with_replaced key target replaced-IsValid solid target_lt (
              matches-key key (slot_at with_replaced.values target) (slot_at m.values target)
                (replaced_key target)
              ∙ held)
            ∙ ap (λ t. some t.val) (changed_self hash m m.len target replaced valid target_lt);
        gets_ne = (λ j full apart.
            let other = held-other j key (slot_at m.values target) apart held in
            changed-get hash m m.len target replaced valid target_lt j full replaced-IsValid other
              other);
      }

      -- The key is not there: the first free slot of its path takes it.
      abbrev new_slot : Slot A
      new_slot = record { key = some key; val = val }

      abbrev with_new : HashMap A
      with_new = changed hash m (m.len + 1) target new_slot valid target_lt

      new_ne : (y : ℕ) → y ≢ target → slot_at with_new.values y ≡ slot_at m.values y
      new_ne = changed_ne hash m (m.len + 1) target new_slot valid target_lt

      new_all :
          (P : ℕ → Slot A → Type 0)
          → P target new_slot
          → ((y : ℕ) → y ≢ target → P y (slot_at m.values y))
          → (y : ℕ) → P y (slot_at with_new.values y)
      new_all = changed_all hash m (m.len + 1) target new_slot valid target_lt

      off_target : (i : ℕ) → i < m.cap → i ≢ r.offset → wrap m.cap (start hash m key + i) ≢ target
      off_target i ic h e = h (
          wrap-injective m.cap (start hash m key) i r.offset (start_lt hash m key valid) ic r.inside
            e)

      order_key :
          (i j : ℕ)
          → i < j
          → j < m.cap
          → stops key (on_path with_new (start hash m key) i) ≡ true
          → matches key (on_path with_new (start hash m key) j) ≡ false
      order_key i j ij jc stop = elim (Bool-cases (i == r.offset)) [
        | inl e ↦
            let same = (==_iff i r.offset).0 e in
            ap (matches key) (new_ne _ (off_target j jc (λ k. ground arith)))
            ∙ valid.order key solid r.offset j (ground arith) jc r.stop
        | inr e ↦
            let old_stop : stops key (on_path m (start hash m key) i) ≡ true =
              sym (ap (stops key) (new_ne _ (off_target i (omega arith) (λ k. ground arith))))
              ∙ stop in
            elim (Bool-cases (j == r.offset)) [
              | inl k ↦ let moving = r.before i (ground arith) in absurd cc
              | inr k ↦
                  ap (matches key) (new_ne _ (off_target j jc (λ l. ground arith)))
                  ∙ valid.order key solid i j ij jc old_stop
            ]
      ]

      order_other :
          (k : List ℕ)
          → k ≢ key
          → k ≢ []
          → (i j : ℕ) → i < j
          → j < m.cap
          → stops k (on_path with_new (start hash m k) i) ≡ true
          → matches k (on_path with_new (start hash m k) j) ≡ false
      order_other k apart full i j ij jc stop =
          let new : matches k new_slot ≡ false = bytes_ne k key apart in
          let moving = unstopped k new_slot new refl in
          let old_stop =
            new_all (λ z t. stops k t ≡ true → stops k (slot_at m.values z) ≡ true) (λ h. absurd cc)
              (λ z _ h. h) _ stop in
          new_all (λ z t. matches k (slot_at m.values z) ≡ false → matches k t ≡ false) (λ _. new)
            (λ z _ h. h) _ (valid.order k full i j ij jc old_stop)

      new-IsValid :
          is_free (slot_at m.values target) ≡ true → m.len + 1 < m.cap → IsValid hash with_new
      new-IsValid free small = record {
        size = valid.size ∙ sym (length-set m.values target new_slot);
        count =
            ap (λ n. n + 1) valid.count
            ∙ sym (
                occupied-set m.values target new_slot
                  (let b = valid.size in let c = target_lt in omega arith) free refl);
        room = small;
        order = (λ k full i j ij jc. elim (Bool-cases (bytes_eq k key)) [
          | inl e ↦
              subst
                (λ k'.
                  stops k' (on_path with_new (start hash m k') i) ≡ true
                  → matches k' (on_path with_new (start hash m k') j) ≡ false)
                (sym ((bytes_eq_iff k key).0 e)) (order_key i j ij jc)
          | inr e ↦
              order_other k (λ same. let yes_same = (bytes_eq_iff k key).1 same in absurd cc) full i
                j ij jc
        ]);
        filled =
            new_all (λ z t. (k : List ℕ) → t.key ≡ some k → k ≢ [])
              (λ k e nil. solid (some-injective key k e ∙ nil)) (λ z _. valid.filled z);
      }

      new-Sets :
          is_free (slot_at m.values target) ≡ true → m.len + 1 < m.cap → Sets m key val with_new
      new-Sets free small =
          let valid' = new-IsValid free small in
          record {
            valid = valid';
            same_cap = refl;
            len_le = omega arith;
            gets_self =
                um_get-held hash with_new key target valid' solid target_lt (
                  ap (matches key) (changed_self hash m (m.len + 1) target new_slot valid target_lt)
                  ∙ (bytes_eq_iff key key).1 refl)
                ∙ ap (λ t. some t.val)
                    (changed_self hash m (m.len + 1) target new_slot valid target_lt);
            gets_ne = (λ j full apart.
                changed-get hash m (m.len + 1) target new_slot valid target_lt j full valid'
                  (free-unmatched j (slot_at m.values target) full free) (bytes_ne j key apart));
          }

    pub put-Sets :
        (m : HashMap A) (key : List ℕ) (val : Option A)
        → IsValid hash m
        → key ≢ []
        → m.len + 1 < m.cap
        → (m' : HashMap A) × (put hash m key val ≡ some m') × Sets m key val m'
    unfolding put
    put-Sets m key val valid solid small =
        let r = reached hash m key valid in
        let x = target m key val valid solid r in
        let here =
          get_elem?-slot_at m.values x
            (let b = valid.size in let c = target_lt m key val valid solid r in omega arith) in
        elim (Bool-cases (matches key (slot_at m.values x))) [
          | inl e ↦ (
            with_replaced m key val valid solid r,
            rw (r.run, ◌>>=◌, here, e) refl,
            replaced-Sets m key val valid solid r e,
          )
          | inr e ↦
              let free = stopped_free key (slot_at m.values x) r.stop e in
              (
                with_new m key val valid solid r,
                rw (r.run, ◌>>=◌, here, e) refl,
                new-Sets m key val valid solid r free small,
              )
        ]
