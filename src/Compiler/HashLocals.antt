-- ===== src/Compiler/HashLocals.antt =====
-- `comp->locals`, the hash map that `comp_sym` makes with `um_init`: `um_get` and `um_set` with the hash
-- function that it gets there. A name of no bytes, which the lexer never reads, is no key.
use arnel_lang.Prelude.{
  ℕ, ◌+◌, ◌*◌, ◌^◌, ◌<◌, ◌≤◌, ◌≡◌, ◌≢◌, sym, ap, ◌∙◌, Option, some, List, [], ◌>>=◌, inl, inr,
  arith,
}
use mathlib.Core.Path.{subst}
use mathlib.Core.Option.{some-injective}
use arnel_lang.Prelude.Size.{size_mod}
use arnel_lang.HashMap
use arnel_lang.HashMap.{HashMap, default_naive_hash, um_get, um_set}
use arnel_lang.HashMap.Valid.{IsValid}
use arnel_lang.HashMap.Rehash.{empty_map-IsValid}
use arnel_lang.HashMap.Set.{Added, um_set-Added}
use arnel_lang.Compiler.Locals.{Locals}

-- `local->arg` of what `um_get` finds; a name that is not there is read through NULL.
abbrev pub get_local : HashMap ℕ → List ℕ → Option ℕ
get_local m name = um_get default_naive_hash m name >>= λ found. found

abbrev pub set_local : HashMap ℕ → List ℕ → ℕ → Option (HashMap ℕ)
set_local m name arg = um_set default_naive_hash m name (some arg)

-- The slots that `n` more names can lead to fit into a word: every name takes at most ten halves.
pub record HasRoom (m : HashMap ℕ) (n : ℕ) : Type 0 where
  pub valid : IsValid default_naive_hash m
  pub big : 12 ≤ m.cap
  pub most : ℕ
  pub slots : 2 * m.cap ≤ most
  pub taken : 2 * m.cap + 10 * m.len ≤ most + 5 * m.cap
  pub fits : most + 10 * n < size_mod

pub HasRoom-less : (m : HashMap ℕ) (k n : ℕ) → k ≤ n → HasRoom m n → HasRoom m k
HasRoom-less m k n h r = record {
  valid = r.valid;
  big = r.big;
  most = r.most;
  slots = r.slots;
  taken = r.taken;
  fits = omega (arith, r.fits);
}

pub set_local-Added :
    (m : HashMap ℕ) (name : List ℕ) (arg : ℕ)
    → name ≢ []
    → HasRoom m 1
    → (m' : HashMap ℕ) × (set_local m name arg ≡ some m')
      × Added default_naive_hash m name (some arg) m'
set_local-Added m name arg solid r =
    um_set-Added default_naive_hash m name (some arg) r.valid r.big (omega (arith, r.slots, r.fits))
      solid

pub the_Added :
    (m m' : HashMap ℕ) (name : List ℕ) (arg : ℕ)
    → name ≢ []
    → HasRoom m 1
    → set_local m name arg ≡ some m'
    → Added default_naive_hash m name (some arg) m'
the_Added m m' name arg solid r made =
    let (m₁, run, added) = set_local-Added m name arg solid r in
    subst (Added default_naive_hash m name (some arg)) (some-injective _ _ (sym run ∙ made)) added

pub Added-HasRoom :
    (m m' : HashMap ℕ) (name : List ℕ) (arg n : ℕ)
    → Added default_naive_hash m name (some arg) m'
    → HasRoom m (n + 1)
    → HasRoom m' n
Added-HasRoom m m' name arg n a r = elim a.size [
  | inl (cap, len) ↦ record {
    valid = a.valid;
    big = omega (arith, r.big);
    most = r.most + 10;
    slots = omega (arith, r.slots);
    taken = omega (arith, r.taken);
    fits = omega (arith, r.fits);
  }
  | inr (cap, len, full) ↦ record {
    valid = a.valid;
    big = omega (arith, r.big);
    most = r.most + 10;
    slots = omega (arith, r.taken);
    taken = omega (arith, r.taken);
    fits = omega (arith, r.fits);
  }
]

abbrev pub hash_locals : Locals
hash_locals = record {
  Map = HashMap ℕ;
  get = get_local;
  set = set_local;
  Room = HasRoom;
  room_less = HasRoom-less;
  set_some =
      λ m name arg solid r. let (m', run, _) = set_local-Added m name arg solid r in (m', run);
  set-Room = λ m m' name arg n solid made r.
      Added-HasRoom m m' name arg n
        (the_Added m m' name arg solid (HasRoom-less m 1 (n + 1) (omega arith) r) made) r;
  get-set_self = λ m m' name arg solid r made.
      ap (λ o. o >>= λ found. found) (the_Added m m' name arg solid r made).gets_self;
  get-set_ne = λ m m' name arg j solid r made full apart.
      ap (λ o. o >>= λ found. found) ((the_Added m m' name arg solid r made).gets_ne j full apart);
}

-- `um_init(comp->locals)`
abbrev pub new_map : HashMap ℕ
new_map = HashMap.init

pub new_map-HasRoom : (n : ℕ) → n < 2 ^ 20 → HasRoom new_map n
new_map-HasRoom n h = record {
  valid = empty_map-IsValid default_naive_hash 12 (omega arith);
  big = omega arith;
  most = 24;
  slots = omega arith;
  taken = omega arith;
  fits = omega arith;
}
