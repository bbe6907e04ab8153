-- ===== src/View.antt =====
-- bytes.h: `view_t`, a pointer with a length, and its operations.
--
-- A `const char *` is the address with the bytes that are readable from it to the end of its
-- allocation: the pointer moves by dropping bytes, and a read beyond them is a fault. The length of
-- a view is a separate number that need not agree with what is readable.
pub mod Laws
use arnel_lang.Prelude.{
  ℕ, ◌%◌, ◌^◌, zero, suc, ◌+◌, ◌-◌, ◌<◌, ◌≤◌, Bool, true, false, Option, none, some, List, [], ◌∷◌,
  ◌++◌, ltb, leb, ◌==◌, ◌||◌, if◌then◌else◌, ◌>>=◌, get_elem?, take, drop, length,
}
use arnel_lang.Prelude.Size.{sub_size}

pub record Ptr : Type 0 where
  pub addr : ℕ
  pub bytes : List ℕ

abbrev pub null : Ptr
null = record { addr = 0; bytes = [] }

abbrev pub advance : Ptr → ℕ → Ptr
advance p n = record { addr = p.addr + n; bytes = drop n p.bytes }

pub record View : Type 0 where
  pub chars : Ptr
  pub len : ℕ

-- `(view_t){0}`
abbrev pub no_view : View
no_view = record { chars = null; len = 0 }

abbrev pub make : Ptr → ℕ → View
make p n = record { chars = p; len = n }

-- The bytes that a view stands for.
abbrev pub content : View → List ℕ
content v = take v.len v.chars.bytes

-- The result and the view after the call.
unfoldable pub chopn : View → ℕ → View × View
chopn v n =
    if ltb v.len n
    then (no_view, v)
    else (make v.chars n, record { chars = advance v.chars n; len = sub_size v.len n })

-- The loop of `view_chop_predicate`. The predicate of the lexer also changes a position, so it
-- takes and returns a state. The result is `end`.
unfoldable pub scan {ℓ} : {S : Type ℓ} → (ℕ → S → Bool × S) → List ℕ → S → Option (ℕ × S)
scan p [] s = none
scan p (c ∷ cs) s =
    let (more, s') = p c s in
    elim more [ true ↦ (scan p cs s' >>= λ r. some (suc r.0, r.1)) | false ↦ some (zero, s') ]

-- The result, the view after the call, and the predicate's state. The length is not looked at.
unfoldable pub chop_predicate {ℓ} :
    {S : Type ℓ} → (ℕ → S → Bool × S) → View → S → Option (View × View × S)
unfolding scan
chop_predicate p v s = scan p v.chars.bytes s >>= λ r.
    let end = r.0 in
    some (make v.chars end, record { chars = advance v.chars end; len = sub_size v.len end }, r.1)

-- `while (isspace(*view.chars)) view.chars++;` on the bytes at the pointer. The length stays.
unfoldable pub trim_left_from : (ℕ → Bool) → List ℕ → View → Option View
trim_left_from is_space [] v = none
trim_left_from is_space (c ∷ cs) v = elim (is_space c) [
  | true ↦ trim_left_from is_space cs (record v { chars = advance v.chars 1 })
  | false ↦ some v
]

unfoldable pub trim_left : (ℕ → Bool) → View → Option View
unfolding trim_left_from
trim_left is_space v = trim_left_from is_space v.chars.bytes v

-- `memcmp(a, b, n) == 0`: reads stop at the first difference.
unfoldable pub memcmp_eq : List ℕ → List ℕ → ℕ → Option Bool
memcmp_eq a b zero = some true
memcmp_eq (x ∷ a) (y ∷ b) (suc n) = elim (x == y) [ true ↦ memcmp_eq a b n | false ↦ some false ]
memcmp_eq _ _ (suc n) = none

-- `view_cmp(v, w) == 0`, the only use that the program makes of the result. The result is an `int`,
-- so of the difference of the lengths only the lowest 32 bits are left.
unfoldable pub cmp_eq : View → View → Option Bool
unfolding memcmp_eq
cmp_eq v w =
    if v.len == w.len
    then memcmp_eq v.chars.bytes w.chars.bytes v.len
    else some (sub_size v.len w.len % 2 ^ 32 == 0)

-- The view that is written through `out`, or `none` where the code returns NULL.
unfoldable pub slice : View → ℕ → ℕ → Option View
slice v start end =
    if leb v.len start || leb v.len end || leb end start
    then none
    else some (make (advance v.chars start) (end - start))

-- `memcpy` of `n` bytes out of `src`.
unfoldable pub read_bytes : List ℕ → ℕ → Option (List ℕ)
read_bytes src n = if ltb (length src) n then none else some (take n src)

-- The new C string, with its terminator; `malloc` succeeds.
unfoldable pub cstr : View → Option (List ℕ)
unfolding read_bytes
cstr v = read_bytes v.chars.bytes v.len >>= λ bs. some (bs ++ 0 ∷ [])
