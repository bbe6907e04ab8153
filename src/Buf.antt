-- ===== src/Buf.antt =====
-- bytes.h: `buf_t`, a growing byte buffer, and its operations.
--
-- `mem` is the allocation behind `buf->buf`. A write outside it is a fault, `none`. `realloc` is a
-- parameter: the new allocation of a size, or none where it fails; the laws that it obeys are
-- `IsRealloc`. Where the code returns NULL the operation gives `failed`, with the buffer as it then is;
-- after a failed reallocation `buf->buf` is NULL, with no byte behind it.
-- Sizes are those of allocations, and their sums stay below 2 ^ 64.
pub mod Laws
pub mod Words
pub mod Slices
use arnel_lang.Prelude.{
  ℕ, zero, suc, ◌+◌, ◌-◌, ◌/◌, ◌%◌, ◌^◌, ◌≤◌, ◌≡◌, Bool, true, false, Option, none, some, List, [],
  ◌∷◌, ◌++◌, ltb, leb, if◌then◌else◌, ◌>>=◌, length, take, drop,
}
use arnel_lang.View.{View, Ptr, no_view, read_bytes}

pub record Buf : Type 0 where
  pub len : ℕ
  pub cap : ℕ
  pub mem : List ℕ

pub data Outcome : Type 0 where
  done : Buf → Outcome
  failed : Buf → Outcome

abbrev pub Realloc : Type 0
Realloc = List ℕ → ℕ → Option (List ℕ)

-- `memcpy` and the like: the bytes `bs` over those of `mem` from index `i` on.
unfoldable pub poke : List ℕ → ℕ → List ℕ → Option (List ℕ)
poke mem i bs =
    if ltb (length mem) (i + length bs)
    then none
    else some (take i mem ++ (bs ++ drop (i + length bs) mem))

-- `(val >> 8 * 0) & 0xff`, `(val >> 8 * 1) & 0xff`, … for `n` bytes.
abbrev pub le_bytes : ℕ → ℕ → List ℕ
le_bytes zero val = []
le_bytes (suc n) val = val % 256 ∷ le_bytes n (val / 256)

-- The same from `val >> 8 * (n - 1)` down.
abbrev pub be_bytes : ℕ → ℕ → List ℕ
be_bytes zero val = []
be_bytes (suc n) val = (val / 256 ^ n) % 256 ∷ be_bytes n val

module _ (realloc : Realloc) where
  -- `if (short) { buf->buf = realloc(buf->buf, buf->cap + extra); … }`. The capacity is counted up
  -- before the test for NULL where `early` is true, and behind it otherwise.
  unfoldable pub grow : Bool → Bool → ℕ → Buf → Outcome
  grow early short extra b =
      if short
      then (elim (realloc b.mem (b.cap + extra)) [
        | some mem ↦ done (record b { mem = mem; cap = b.cap + extra })
        | none ↦ failed (record b { mem = []; cap = if early then b.cap + extra else b.cap })
      ])
      else done b

  -- After the check of the room: the bytes go to `buf->buf[buf->len]` on.
  unfoldable pub store : List ℕ → Buf → Option Outcome
  store bs b =
      poke b.mem b.len bs >>= λ mem. some (done (record b { mem = mem; len = b.len + length bs }))

  abbrev pub with_room : Outcome → (Buf → Option Outcome) → Option Outcome
  with_room (failed b) k = some (failed b)
  with_room (done b) k = k b

  -- The fixed-size writes grow by 10.
  unfoldable pub write_fixed : List ℕ → Buf → Option Outcome
  write_fixed bs b = with_room (grow true (ltb b.cap (b.len + length bs)) 10 b) (store bs)

  unfoldable pub write_byte : Buf → ℕ → Option Outcome
  write_byte b v = write_fixed (v ∷ []) b

  unfoldable pub write_short_le : Buf → ℕ → Option Outcome
  write_short_le b val = write_fixed (le_bytes 2 val) b

  unfoldable pub write_long_le : Buf → ℕ → Option Outcome
  write_long_le b val = write_fixed (le_bytes 4 val) b

  unfoldable pub write_longlong_le : Buf → ℕ → Option Outcome
  write_longlong_le b val = write_fixed (le_bytes 8 val) b

  unfoldable pub write_short_be : Buf → ℕ → Option Outcome
  write_short_be b val = write_fixed (be_bytes 2 val) b

  unfoldable pub write_long_be : Buf → ℕ → Option Outcome
  write_long_be b val = write_fixed (be_bytes 4 val) b

  unfoldable pub write_longlong_be : Buf → ℕ → Option Outcome
  write_longlong_be b val = write_fixed (be_bytes 8 val) b

  -- The writes through a cast pointer, on the little-endian machines that the program is built for.
  unfoldable pub write_short : Buf → ℕ → Option Outcome
  write_short b sh = write_fixed (le_bytes 2 sh) b

  unfoldable pub write_long : Buf → ℕ → Option Outcome
  write_long b l = write_fixed (le_bytes 4 l) b

  unfoldable pub write_longlong : Buf → ℕ → Option Outcome
  write_longlong b ll = write_fixed (le_bytes 8 ll) b

  -- The writes of any size grow by that size.
  unfoldable pub write_sized : Buf → List ℕ → ℕ → Option Outcome
  write_sized b cstr size =
      with_room (grow true (leb b.cap (b.len + size)) size b)
        (λ b'. read_bytes cstr size >>= λ bs. store bs b')

  unfoldable pub write_view : Buf → View → Option Outcome
  write_view b v =
      with_room (grow true (leb b.cap (b.len + v.len)) v.len b)
        (λ b'. read_bytes v.chars.bytes v.len >>= λ bs. store bs b')

  -- The string goes with its terminator, which `buf->len` does not count.
  unfoldable pub write_cstr : Buf → List ℕ → Option Outcome
  write_cstr b str = with_room (grow true (leb b.cap (b.len + length str)) (length str) b) (λ b'.
      poke b'.mem b'.len (str ++ 0 ∷ []) >>= λ mem.
      some (done (record b' { mem = mem; len = b'.len + length str })))

  -- `text` is what `vsnprintf` makes of the format and the arguments; it is written as a C string.
  unfoldable pub write_format : Buf → List ℕ → Option Outcome
  write_format b text = write_cstr b text

  -- `buf_write_file`: `size` is what `ftell` gives at the end of the file and `input` what `fread`
  -- delivers, at most `size` bytes; no input is a file that cannot be opened.
  unfoldable pub write_file : Buf → ℕ → Option (List ℕ) → Option Outcome
  write_file b size none = some (failed b)
  write_file b size (some input) = with_room (grow false (leb b.cap (b.len + size)) size b) (λ b'.
      poke b'.mem b'.len input >>= λ mem.
      let b'' : Buf = record b' { mem = mem; len = b'.len + size } in
      some (if ltb (length input) size then failed b'' else done b''))

  -- The outcome and the offset of the space in the buffer.
  unfoldable pub alloc_to : Buf → ℕ → Outcome × ℕ
  alloc_to b size = elim (grow false (ltb b.cap (b.len + size)) size b) [
    | done b' ↦ (done (record b' { len = b'.len + size }), b'.len)
    | failed b' ↦ (failed b', 0)
  ]

unfoldable pub trunc : Buf → Buf
trunc b = record b { len = 0 }

unfoldable pub chop : Buf → ℕ → Buf
chop b num = if leb b.len num then record b { len = 0 } else record b { len = b.len - num }

-- `address` is that of `buf->buf`.
unfoldable pub get_view : ℕ → Buf → ℕ → ℕ → View
get_view address b start end =
    if ltb b.len end
    then no_view
    else if ltb b.len start
    then no_view
    else if leb end start
    then no_view
    else record {
      chars = record { addr = address + start; bytes = drop start b.mem };
      len = end - start;
    }

-- `alloc_buf`, with the allocations of the struct and of its bytes, or none where one fails.
unfoldable pub alloc_buf : Bool → Option (List ℕ) → ℕ → Option Buf
alloc_buf false mem initial_cap = none
alloc_buf true mem initial_cap = mem >>= λ m. some (record { len = 0; cap = initial_cap; mem = m })
