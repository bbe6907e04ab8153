-- ===== src/Buf/Words.antt =====
-- The writes of 16, 32 and 64 bits, read back in the byte order that they are named for.
use arnel_lang.Prelude.{
  ℕ, ◌+◌, ◌*◌, ◌%◌, ◌^◌, ◌≤◌, ◌≡◌, refl, sym, ap, ◌∙◌, Option, none, some, List, [], ◌∷◌, ◌++◌,
  length, take, drop, arith, length-take, take-length-append, drop-length-append,
}
use arnel_lang.Buf.{
  Buf, Outcome, done, failed, Realloc, le_bytes, be_bytes, write_fixed, write_short_le,
  write_long_le, write_longlong_le, write_short_be, write_long_be, write_longlong_be, write_short,
  write_long, write_longlong,
}
use arnel_lang.Buf.Laws.{IsRealloc, IsValid, contents, Appends, write_fixed-Appends}

-- The number that bytes spell, the lowest first, and the highest first.
abbrev pub le_value : List ℕ → ℕ
le_value [] = 0
le_value (b ∷ bs) = b + 256 * le_value bs

abbrev pub be_value_from : ℕ → List ℕ → ℕ
be_value_from acc [] = acc
be_value_from acc (b ∷ bs) = be_value_from (acc * 256 + b) bs

abbrev pub be_value : List ℕ → ℕ
be_value = be_value_from 0

le_16 : (val : ℕ) → le_value (le_bytes 2 val) ≡ val % 2 ^ 16
le_16 val = omega arith

le_32 : (val : ℕ) → le_value (le_bytes 4 val) ≡ val % 2 ^ 32
le_32 val = omega arith

le_64 : (val : ℕ) → le_value (le_bytes 8 val) ≡ val % 2 ^ 64
le_64 val = omega arith

be_16 : (val : ℕ) → be_value (be_bytes 2 val) ≡ val % 2 ^ 16
be_16 val = omega arith

be_32 : (val : ℕ) → be_value (be_bytes 4 val) ≡ val % 2 ^ 32
be_32 val = omega arith

be_64 : (val : ℕ) → be_value (be_bytes 8 val) ≡ val % 2 ^ 64
be_64 val = omega arith

-- The buffer has grown by `n` bytes, which read as `k`, behind what it held; or the reallocation
-- failed.
abbrev pub ReadsBack : (List ℕ → ℕ) → Realloc → Buf → ℕ → ℕ → Outcome → Type 0
ReadsBack value r b n k (done b') =
    (b'.len ≡ b.len + n)
    × (take b.len (contents b') ≡ contents b)
    × (value (drop b.len (contents b')) ≡ k)
ReadsBack value r b n k (failed b') = r b.mem (b.cap + 10) ≡ none

module _ (r : Realloc) (law : IsRealloc r) (b : Buf) (v : IsValid b) where
  read_back :
      (value : List ℕ → ℕ) (bs : List ℕ) (k : ℕ)
      → value bs ≡ k
      → (o : Outcome) → Appends r (b.cap + 10) b bs o
      → ReadsBack value r b (length bs) k o
  read_back value bs k e (failed b') a = a.0
  read_back value bs k e (done b') (valid, same, len) =
      let n : length (contents b) ≡ b.len =
        length-take b.len b.mem (omega (arith, v.fits, v.allocated)) in
      (
        len,
        ap (take b.len) same
            ∙ ap (λ i. take i (contents b ++ bs)) (sym n)
            ∙ take-length-append (contents b) bs,
        ap value (
              ap (drop b.len) same
              ∙ ap (λ i. drop i (contents b ++ bs)) (sym n)
              ∙ drop-length-append (contents b) bs)
            ∙ e,
      )

  abbrev pub Writes : (List ℕ → ℕ) → ℕ → ℕ → Option Outcome → Type 0
  Writes value n k call = (o : Outcome) × (call ≡ some o) × ReadsBack value r b n k o

  fixed-Writes :
      (value : List ℕ → ℕ) (bs : List ℕ) (k : ℕ)
      → value bs ≡ k
      → length bs ≤ 10
      → Writes value (length bs) k (write_fixed r bs b)
  fixed-Writes value bs k e h =
      let (o, run, a) = write_fixed-Appends r law b v bs h in (o, run, read_back value bs k e o a)

  -- The little-endian writes append 2, 4 and 8 bytes that read back, lowest byte first, as the value
  -- at that width.
  pub write_le-Writes :
      (val : ℕ)
      → Writes le_value 2 (val % 2 ^ 16) (write_short_le r b val)
        × Writes le_value 4 (val % 2 ^ 32) (write_long_le r b val)
        × Writes le_value 8 (val % 2 ^ 64) (write_longlong_le r b val)
  unfolding write_short_le write_long_le write_longlong_le
  write_le-Writes val = (
    fixed-Writes le_value (le_bytes 2 val) _ (le_16 val) (omega arith),
    fixed-Writes le_value (le_bytes 4 val) _ (le_32 val) (omega arith),
    fixed-Writes le_value (le_bytes 8 val) _ (le_64 val) (omega arith),
  )

  -- The big-endian writes append 2, 4 and 8 bytes that read back, highest byte first, as the value
  -- at that width.
  pub write_be-Writes :
      (val : ℕ)
      → Writes be_value 2 (val % 2 ^ 16) (write_short_be r b val)
        × Writes be_value 4 (val % 2 ^ 32) (write_long_be r b val)
        × Writes be_value 8 (val % 2 ^ 64) (write_longlong_be r b val)
  unfolding write_short_be write_long_be write_longlong_be
  write_be-Writes val = (
    fixed-Writes be_value (be_bytes 2 val) _ (be_16 val) (omega arith),
    fixed-Writes be_value (be_bytes 4 val) _ (be_32 val) (omega arith),
    fixed-Writes be_value (be_bytes 8 val) _ (be_64 val) (omega arith),
  )

  -- The writes in the machine's order do the same as those that name the little-endian one.
  pub write_native-Writes :
      (val : ℕ)
      → (write_short r b val ≡ write_short_le r b val)
        × (write_long r b val ≡ write_long_le r b val)
        × (write_longlong r b val ≡ write_longlong_le r b val)
  unfolding write_short write_long write_longlong write_short_le write_long_le write_longlong_le
  write_native-Writes val = (refl, refl, refl)
