-- ===== src/Tests/Maps.antt =====
-- Hash maps at concrete keys.
use arnel_lang.Prelude.{ℕ, ◌≤◌, ◌≡◌, ◌≢◌, refl, Option, none, some, List, [], ◌∷◌, ◌>>=◌, arith}
use arnel_lang.Prelude.Size.{mul_size}
use arnel_lang.HashMap.{
  HashMap, default_naive_hash, init, um_get, um_set, um_set_at, put, probe, insert_all, bytes_eq,
}
use arnel_lang.HashMap.Valid.{IsValid}
use arnel_lang.HashMap.Rehash.{empty_map-IsValid}
use arnel_lang.HashMap.Set.{um_set-finite_map}

abbrev fresh : HashMap ℕ
fresh = init

fresh-IsValid : IsValid default_naive_hash fresh
fresh-IsValid = empty_map-IsValid {A = ℕ} default_naive_hash 12 (omega arith)

abbrev name : List ℕ
name = 110 ∷ []

name_solid : name ≢ []
name_solid e = absurd cc

um_set-finite_map_example :
    (m' : HashMap ℕ) × (um_set default_naive_hash fresh name (some 7) ≡ some m')
    × IsValid default_naive_hash m'
    × (12 ≤ m'.cap)
    × (um_get default_naive_hash m' name ≡ some (some 7))
    × ((j : List ℕ)
        → j ≢ []
        → j ≢ name
        → um_get default_naive_hash m' j ≡ um_get default_naive_hash fresh j)
um_set-finite_map_example =
    um_set-finite_map default_naive_hash fresh name (some 7) fresh-IsValid (omega arith)
      (omega arith) name_solid

-- Keys that collide: the hash of a key is the sum of its bytes.
abbrev set_all : List (List ℕ) → HashMap ℕ → Option (HashMap ℕ)
set_all [] m = some m
set_all (k ∷ ks) m = um_set default_naive_hash m k (some 5) >>= set_all ks

abbrev ten_keys : List (List ℕ)
ten_keys =
    (1 ∷ [])
    ∷ (2 ∷ [])
    ∷ (1 ∷ 1 ∷ [])
    ∷ (4 ∷ [])
    ∷ (1 ∷ 3 ∷ [])
    ∷ (13 ∷ [])
    ∷ (7 ∷ [])
    ∷ (8 ∷ [])
    ∷ (9 ∷ [])
    ∷ (23 ∷ [])
    ∷ []

-- The tenth key makes the map rehash.
rehashed : (set_all ten_keys fresh >>= λ m. some m.cap) ≡ some 24
unfolding um_set um_set_at put probe insert_all bytes_eq default_naive_hash mul_size
rehashed = refl

found : (set_all ten_keys fresh >>= λ m. um_get default_naive_hash m (13 ∷ [])) ≡ some (some 5)
unfolding um_set um_set_at um_get put probe insert_all bytes_eq default_naive_hash mul_size
found = refl

-- A key of no bytes equals a free slot: its value goes there, and the next key takes the slot.
lost :
    (um_set default_naive_hash fresh [] (some 3) >>= λ m.
    um_set default_naive_hash m (12 ∷ []) (some 4) >>= λ m'. um_get default_naive_hash m' [])
    ≡ some none
unfolding um_set um_set_at um_get put probe insert_all bytes_eq default_naive_hash
lost = refl
