-- ===== src/HashMap.antt =====
-- hashmap.h: a hash map with open addressing.
--
-- A key is its bytes, `key` and `ksize` of the source. A value is a pointer, `none` for NULL. The
-- hash function is the one stored in the map. The test of the load, a division of `float`s in the
-- source, is exact here; the two agree for every capacity of the form 12 * 2 ^ k up to 12 * 2 ^ 19.
pub mod Slots
pub mod Valid
pub mod Change
pub mod Put
pub mod Rehash
pub mod Set
use arnel_lang.Prelude.{
  ℕ, zero, suc, ◌+◌, ◌-◌, ◌*◌, ◌%◌, ◌^◌, ◌≤◌, Bool, true, false, Option, none, some, List, [], ◌∷◌,
  ◌&&◌, ltb, ◌==◌, if◌then◌else◌, ◌>>=◌, get_elem?, set, replicate,
}
use arnel_lang.Prelude.Size.{mul_size}

-- `ksize == size && memcmp(…) == 0`
unfoldable pub bytes_eq : List ℕ → List ℕ → Bool
bytes_eq [] [] = true
bytes_eq (x ∷ xs) (y ∷ ys) = elim (x == y) [ true ↦ bytes_eq xs ys | false ↦ false ]
bytes_eq _ _ = false

-- `__default_naive_hash`: `char` is signed on the machines that the program is built for.
unfoldable pub default_naive_hash : List ℕ → ℕ
default_naive_hash [] = 0
default_naive_hash (c ∷ cs) =
    ((if ltb c 128 then c else c + 2 ^ 64 - 256) + default_naive_hash cs) % 2 ^ 64

-- `kval_t`; the size of no key is 0.
pub record Slot {ℓ} (A : Type ℓ) : Type ℓ where
  pub key : Option (List ℕ)
  pub val : Option A

pub record HashMap {ℓ} (A : Type ℓ) : Type ℓ where
  pub cap : ℕ
  pub len : ℕ
  pub values : List (Slot A)

module _ {ℓ} {A : Type ℓ} where
  abbrev pub empty_slot : Slot A
  empty_slot = record { key = none; val = none }

  abbrev pub is_free : Slot A → Bool
  is_free s = elim s.key [ none ↦ true | some _ ↦ false ]

  abbrev pub key_bytes : Slot A → List ℕ
  key_bytes s = elim s.key [ none ↦ [] | some k ↦ k ]

  abbrev pub matches : List ℕ → Slot A → Bool
  matches key s = bytes_eq key (key_bytes s)

  -- `um_init`, of an allocation that succeeds.
  abbrev pub init : HashMap A
  init = record { cap = 12; len = 0; values = replicate 12 empty_slot }

  -- The loop that `um_set` and `um_get` share, from slot `hashed`: where it ends, and whether by the
  -- first test. After `cap` rounds every slot has been looked at, and the loop has no end.
  unfoldable pub probe : ℕ → List ℕ → HashMap A → ℕ → Option (Bool × ℕ)
  probe zero key m hashed = none
  probe (suc n) key m hashed = get_elem? m.values hashed >>= λ s. elim (matches key s) [
    | true ↦ some (true, hashed)
    | false ↦ elim (is_free s) [
      | true ↦ some (false, hashed)
      | false ↦ probe n key m ((hashed + 1) % m.cap)
    ]
  ]

  module _ (hash : List ℕ → ℕ) where
    -- `um_get`; the outer `none` is a fault.
    unfoldable pub um_get : HashMap A → List ℕ → Option (Option A)
    um_get m key = probe m.cap key m (hash key % m.cap) >>= λ r.
        if r.0 then (get_elem? m.values r.1 >>= λ s. some s.val) else some none

    -- `um_set` from the second statement on.
    unfoldable pub put : HashMap A → List ℕ → Option A → Option (HashMap A)
    put m key val = probe m.cap key m (hash key % m.cap) >>= λ r. get_elem? m.values r.1 >>= λ s.
        some (
          if r.0
          then record m { values = set m.values r.1 (record s { val = val }) }
          else record m {
            len = m.len + 1;
            values = set m.values r.1 (record { key = some key; val = val });
          })

    -- `(float)m->len/(float)m->cap > HM_FREE_RATIO`
    abbrev pub is_loaded : HashMap A → Bool
    is_loaded m = ltb (7 * m.cap) (10 * m.len)

    -- The loop of `__rehash` over the old slots.
    unfoldable pub insert_all :
        (HashMap A → List ℕ → Option A → Option (HashMap A))
        → List (Slot A)
        → HashMap A
        → Option (HashMap A)
    insert_all set_in [] m = some m
    insert_all set_in (s ∷ ss) m = elim s.key [
      | none ↦ insert_all set_in ss m
      | some k ↦ set_in m k s.val >>= insert_all set_in ss
    ]

    -- `calloc(m->cap*=2, sizeof(kval_t))`, `m->len = 0`
    abbrev pub doubled : HashMap A → HashMap A
    doubled m =
        let cap = mul_size m.cap 2 in
        record { cap = cap; len = 0; values = replicate cap empty_slot }

    -- `um_set`, with at most `depth` calls of it on the stack.
    unfoldable pub um_set_at : ℕ → HashMap A → List ℕ → Option A → Option (HashMap A)
    um_set_at zero m key val = none
    um_set_at (suc depth) m key val =
        (elim (is_loaded m) [
          | true ↦ insert_all (um_set_at depth) m.values (doubled m)
          | false ↦ some m
        ])
        >>= λ m'. put m' key val

    -- A map of half the capacity fits without a second rehash.
    unfoldable pub um_set : HashMap A → List ℕ → Option A → Option (HashMap A)
    um_set m key val = um_set_at 2 m key val
