-- ===== src/Parser/Result.antt =====
-- How a piece of the parser ends.
use arnel_lang.Prelude.{Option, none, some}

-- A value; `exit(69)` behind a message; a read or a write through NULL or outside an allocation; or
-- the rounds that were given are used up.
pub data Result {ℓ} (A : Type ℓ) : Type ℓ where
  ok : A → Result A
  panic fault out_of_fuel : Result A

infixl 5 ◌>>=◌
abbrev pub ◌>>=◌ {ℓ κ} : {A : Type ℓ} {B : Type κ} → Result A → (A → Result B) → Result B
ok a >>= f = f a
panic >>= f = panic
fault >>= f = fault
out_of_fuel >>= f = out_of_fuel

abbrev pub or_fault {ℓ} : {A : Type ℓ} → Option A → Result A
or_fault none = fault
or_fault (some a) = ok a
