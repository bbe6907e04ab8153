-- ===== src/Buf/Laws.antt =====
-- Writes to a valid buffer append, and stay inside its allocation.
use arnel_lang.Prelude.{
  ℕ, zero, suc, ◌+◌, ◌≤◌, ◌≡◌, refl, sym, ap, ◌∙◌, Bool, true, false, none, some, List, [], ◌∷◌,
  ◌++◌, ltb, leb, if◌then◌else◌, length, take, drop, arith, length-append, length-take, length-drop,
  Option-cases, inl, inr, take-length-append, ge→ltb,
}
use mathlib.Core.List.{append_assoc}
use arnel_lang.View.{View, content, read_bytes}
use arnel_lang.View.Laws
use arnel_lang.Buf.{
  Buf, Outcome, done, failed, Realloc, poke, grow, store, with_room, write_fixed, write_sized,
  write_view, write_cstr,
}

-- `realloc`: a new allocation has the size asked for, and begins with the old bytes.
abbrev pub IsRealloc : Realloc → Type 0
IsRealloc r =
    (mem : List ℕ) (n : ℕ) (m : List ℕ)
    → r mem n ≡ some m
    → length mem ≤ n
    → (length m ≡ n) × (take (length mem) m ≡ mem)

pub record IsValid (b : Buf) : Type 0 where
  pub fits : b.len ≤ b.cap
  pub allocated : b.cap ≡ length b.mem

-- The bytes that the buffer holds.
abbrev pub contents : Buf → List ℕ
contents b = take b.len b.mem

-- The bytes `bs` have been appended, or the reallocation to `n` bytes has failed.
abbrev pub Appends : Realloc → ℕ → Buf → List ℕ → Outcome → Type 0
Appends r n b bs (done b') =
    IsValid b' × (contents b' ≡ contents b ++ bs) × (b'.len ≡ b.len + length bs)
Appends r n b bs (failed b') = (r b.mem n ≡ none) × (b'.mem ≡ [])

pub take-take {ℓ} : {A : Type ℓ} (i n : ℕ) (xs : List A) → i ≤ n → take i (take n xs) ≡ take i xs
take-take zero n xs h = refl
take-take (suc i) zero xs h = absurd (omega arith)
take-take (suc i) (suc n) [] h = refl
take-take (suc i) (suc n) (x ∷ xs) h = ap (◌∷◌ x) (take-take i n xs (omega arith))

take-append-left {ℓ} :
    {A : Type ℓ} (n : ℕ) (xs ys : List A) → n ≡ length xs → take n (xs ++ ys) ≡ xs
take-append-left n xs ys e = rw e (take-length-append xs ys)

poke-in_range :
    (mem bs : List ℕ) (i : ℕ)
    → i + length bs ≤ length mem
    → (m : List ℕ) × (poke mem i bs ≡ some m)
      × (length m ≡ length mem)
      × (take (i + length bs) m ≡ take i mem ++ bs)
unfolding poke
poke-in_range mem bs i h =
    let front : length (take i mem) ≡ i = length-take i mem (omega arith) in
    (
      take i mem ++ (bs ++ drop (i + length bs) mem),
      rw (ge→ltb _ _ h),
      omega (
        arith,
        length-append (take i mem) (bs ++ drop (i + length bs) mem),
        length-append bs (drop (i + length bs) mem),
        length-drop (i + length bs) mem,
        front,
      ),
      rw (← append_assoc) (
          take-append-left (i + length bs) (take i mem ++ bs) (drop (i + length bs) mem)
            (omega (arith, front, length-append (take i mem) bs))),
    )

module _ (r : Realloc) where
  store-Appends :
      (b : Buf) (bs : List ℕ)
      → IsValid b
      → b.len + length bs ≤ b.cap
      → (b' : Buf) × (store r bs b ≡ some (done b'))
        × IsValid b'
        × (contents b' ≡ contents b ++ bs)
        × (b'.len ≡ b.len + length bs)
  unfolding store
  store-Appends b bs v h =
      let (m, run, size, front) = poke-in_range b.mem bs b.len (omega (arith, v.allocated)) in
      (
        record b { mem = m; len = b.len + length bs },
        rw run,
        record { fits = h; allocated = v.allocated ∙ sym size },
        front,
        refl,
      )

  -- The buffer after `grow`: it has `n` bytes and the same contents, or the reallocation failed.
  record Grown (b : Buf) (n : ℕ) (b' : Buf) : Type 0 where
    valid : IsValid b'
    len : b'.len ≡ b.len
    cap : b'.cap ≡ n
    same : contents b' ≡ contents b

  abbrev Grows : Buf → ℕ → Outcome → Type 0
  Grows b n (done b') = Grown b n b'
  Grows b n (failed b') = (r b.mem n ≡ none) × (b'.mem ≡ [])

  module _ (law : IsRealloc r) (b : Buf) (v : IsValid b) where
    grow-short :
        (early : Bool) (extra : ℕ)
        → (o : Outcome) × (grow r early true extra b ≡ o) × Grows b (b.cap + extra) o
    unfolding grow
    grow-short early extra = elim (Option-cases (r b.mem (b.cap + extra))) [
      | inl e ↦ (
        failed (record b { mem = []; cap = if early then b.cap + extra else b.cap }),
        rw e,
        (e, refl),
      )
      | inr (m, e) ↦
          let (size, front) = law b.mem (b.cap + extra) m e (omega (arith, v.allocated)) in
          (
            done (record b { mem = m; cap = b.cap + extra }),
            rw e,
            record {
              valid = record { fits = omega (arith, v.fits); allocated = sym size };
              len = refl;
              cap = refl;
              same =
                  sym (take-take b.len (length b.mem) m (omega (arith, v.fits, v.allocated)))
                  ∙ ap (take b.len) front;
            },
          )
    ]

    -- Any write that makes room first: `extra` bytes more are enough, where it is short of room.
    pub with_room-Appends :
        (early short : Bool) (extra : ℕ) (bs : List ℕ)
        → (short ≡ false → b.len + length bs ≤ b.cap)
        → b.len + length bs ≤ b.cap + extra
        → (o : Outcome) × (with_room r (grow r early short extra b) (store r bs) ≡ some o)
          × Appends r (b.cap + extra) b bs o
    unfolding grow
    with_room-Appends early false extra bs fits room =
        let (b', stored, valid, same, len) = store-Appends b bs v (fits refl) in
        (done b', stored, (valid, same, len))
    with_room-Appends early true extra bs fits room = go (grow-short early extra)
      where
        go :
            ((o : Outcome) × (grow r early true extra b ≡ o) × Grows b (b.cap + extra) o)
            → (o : Outcome) × (with_room r (grow r early true extra b) (store r bs) ≡ some o)
              × Appends r (b.cap + extra) b bs o
        go (failed b', run, g) = (failed b', ap (λ o. with_room r o (store r bs)) run, g)
        go (done b', run, g) =
            let (b'', stored, valid, same, len) =
              store-Appends b' bs g.valid (omega (arith, g.len, g.cap)) in
            (
              done b'',
              ap (λ o. with_room r o (store r bs)) run ∙ stored,
              (valid, same ∙ ap (λ c. c ++ bs) g.same, omega (arith, len, g.len)),
            )

    -- A write of a fixed size of 10 bytes at most appends its bytes, never out of range, and only a
    -- failed reallocation makes it give NULL.
    pub write_fixed-Appends :
        (bs : List ℕ)
        → length bs ≤ 10
        → (o : Outcome) × (write_fixed r bs b ≡ some o) × Appends r (b.cap + 10) b bs o
    unfolding write_fixed
    write_fixed-Appends bs h =
        with_room-Appends true (ltb b.cap (b.len + length bs)) 10 bs (λ e. ground arith)
          (omega (arith, v.fits))

    -- `buf_write_sized` appends the first `size` bytes of its argument.
    pub write_sized-Appends :
        (cstr : List ℕ) (size : ℕ)
        → size ≤ length cstr
        → (o : Outcome) × (write_sized r b cstr size ≡ some o)
          × Appends r (b.cap + size) b (take size cstr) o
    unfolding write_sized read_bytes
    write_sized-Appends cstr size h =
        let n : length (take size cstr) ≡ size = length-take size cstr h in
        rw (ge→ltb (length cstr) size h) (
          with_room-Appends true (leb b.cap (b.len + size)) size (take size cstr)
            (λ e. ground (arith, n)) (omega (arith, v.fits, n)))

    -- `buf_write_view` appends the bytes of a valid view.
    pub write_view-Appends :
        (w : View)
        → Laws.IsValid w
        → (o : Outcome) × (write_view r b w ≡ some o) × Appends r (b.cap + w.len) b (content w) o
    unfolding write_view read_bytes
    write_view-Appends w h =
        let n : length (content w) ≡ w.len = length-take w.len w.chars.bytes h.readable in
        rw (ge→ltb (length w.chars.bytes) w.len h.readable) (
          with_room-Appends true (leb b.cap (b.len + w.len)) w.len (content w)
            (λ e. ground (arith, n)) (omega (arith, v.fits, n)))

    -- `buf_write_cstr` on a full buffer: the reallocation has no room for the terminator, which is
    -- written behind it.
    pub write_cstr-full :
        (str m : List ℕ)
        → b.len ≡ b.cap
        → r b.mem (b.cap + length str) ≡ some m
        → write_cstr r b str ≡ none
    unfolding write_cstr grow poke
    write_cstr-full str m full e =
        let short : leb b.cap (b.len + length str) ≡ true = ground arith in
        let (size, _) = law b.mem (b.cap + length str) m e (omega (arith, v.allocated)) in
        let over : ltb (length m) (b.len + length (str ++ 0 ∷ [])) ≡ true =
          ground (arith, size, length-append str (0 ∷ [])) in
        rw (short, e, over)
