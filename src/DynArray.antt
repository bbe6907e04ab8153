-- ===== src/DynArray.antt =====
-- The dynamic array of da.h, as lexer.c writes it out for tokens.
--
-- `slots` is the allocation. A slot that has not been written is `none`. A fault is `none` of the
-- outer `Option`; the Boolean beside a result says whether the returned pointer is not NULL.
pub mod Laws
pub mod Remove
use arnel_lang.Prelude.{
  ℕ, zero, suc, ◌+◌, ◌-◌, ◌*◌, Bool, true, false, Option, none, some, List, [], ◌∷◌, ◌++◌, ltb, leb,
  ◌==◌, if◌then◌else◌, ◌>>=◌, length, get_elem?, set, take, replicate,
}
use arnel_lang.Prelude.Size.{add_size, mul_size}

pub record DynArray {ℓ} (A : Type ℓ) : Type ℓ where
  pub cap : ℕ
  pub len : ℕ
  pub slots : List (Option A)

module _ {ℓ} {A : Type ℓ} where
  -- A reallocation that succeeds: the common prefix is kept, new slots are unset.
  abbrev pub resize : ℕ → List (Option A) → List (Option A)
  resize n slots = take n slots ++ replicate (n - length slots) none

  abbrev pub write_slot : List (Option A) → ℕ → A → Option (List (Option A))
  write_slot slots i a = if ltb i (length slots) then some (set slots i (some a)) else none

  -- `tokens_init`; `granted` says whether the allocation succeeds.
  unfoldable pub init : Bool → DynArray A → ℕ → Bool × DynArray A
  init granted da i =
      if granted
      then (true, record { cap = i; len = 0; slots = replicate i none })
      else (false, record da { slots = [] })

  -- The last lines of `tokens_append`.
  unfoldable pub put : DynArray A → A → Option (Bool × DynArray A)
  put da item = write_slot da.slots da.len item >>= λ slots.
      some (true, record da { slots = slots; len = add_size da.len 1 })

  -- `tokens_append`
  unfoldable pub append : Bool → DynArray A → A → Option (Bool × DynArray A)
  unfolding put
  append granted da item =
      if da.len == da.cap
      then (if granted
          then put
              (record da { slots = resize (mul_size da.cap 2) da.slots; cap = mul_size da.cap 2 })
              item
          else some (false, record da { slots = [] }))
      else put da item

  -- `tokens_get`: the item, or NULL out of range. The outer `none` is a read of an unset slot.
  unfoldable pub get : DynArray A → ℕ → Option (Option A)
  get da i =
      if ltb i da.len then (get_elem? da.slots i >>= λ s. s >>= λ a. some (some a)) else some none

  -- A read of slot `i`. `behind` is what a read behind the allocation gives; `none` is a fault.
  abbrev pub read_slot : Option (Option A) → List (Option A) → ℕ → Option (Option A)
  read_slot behind slots i = if ltb i (length slots) then get_elem? slots i else behind

  -- `for (; i < x; i++) items[i] = items[i + 1];` with the rounds left.
  unfoldable pub shift : Option (Option A) → ℕ → ℕ → List (Option A) → Option (List (Option A))
  shift behind zero i slots = some slots
  shift behind (suc n) i slots =
      read_slot behind slots (suc i) >>= λ s. shift behind n (suc i) (set slots i s)

  -- `tokens_remove`: the item that goes through `out`, or `none` where the code returns NULL.
  unfoldable pub remove : Option (Option A) → DynArray A → ℕ → Option (Option A × DynArray A)
  remove behind da i =
      if leb da.len i
      then some (none, da)
      else (get_elem? da.slots i >>= λ out. shift behind (da.len - i) i da.slots >>= λ slots.
          some (out, record da { slots = slots; len = da.len - 1 }))
