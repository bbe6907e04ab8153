-- ===== src/Compiler/Locals.antt =====
-- The map from the names of a function's locals to their temporaries, as the compiler uses it:
-- `um_get` and `um_set` on `comp->locals`, with a name's bytes as the key.
use arnel_lang.Prelude.{ℕ, ◌+◌, ◌≤◌, List, [], ◌≡◌, ◌≢◌, Option, some}

-- `none` is a fault. `Room m n` says that `n` more names fit into the map; then the laws are those of
-- a finite map, for names with at least one byte.
pub record Locals : Type 1 where
  pub Map : Type 0
  pub get : Map → List ℕ → Option ℕ
  pub set : Map → List ℕ → ℕ → Option Map
  pub Room : Map → ℕ → Type 0
  pub room_less : (m : Map) (k n : ℕ) → k ≤ n → Room m n → Room m k
  pub set_some :
      (m : Map) (k : List ℕ) (v : ℕ) → k ≢ [] → Room m 1 → (m' : Map) × (set m k v ≡ some m')
  pub set-Room :
      (m m' : Map) (k : List ℕ) (v n : ℕ)
      → k ≢ []
      → set m k v ≡ some m'
      → Room m (n + 1)
      → Room m' n
  pub get-set_self :
      (m m' : Map) (k : List ℕ) (v : ℕ)
      → k ≢ []
      → Room m 1
      → set m k v ≡ some m'
      → get m' k ≡ some v
  pub get-set_ne :
      (m m' : Map) (k : List ℕ) (v : ℕ) (j : List ℕ)
      → k ≢ []
      → Room m 1
      → set m k v ≡ some m'
      → j ≢ []
      → j ≢ k
      → get m' j ≡ get m j
