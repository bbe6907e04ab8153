-- ===== src/Lexer/Refill.antt =====
-- lexer.c: the rounds of `peek_token` that put tokens into the queue.
use arnel_lang.Prelude.{
  ℕ, zero, suc, ◌+◌, ◌<◌, ◌≤◌, ◌≡◌, refl, sym, ap, ◌∙◌, Bool, true, Option, some, List, [], ◌∷◌,
  ◌++◌, map, ltb, ◌==◌, ◌>>=◌, length, arith, get_elem?, Bool-cases, inl, inr, >>=-eq-some,
  length-append,
}
use mathlib.Core.Path.{subst}
use mathlib.Core.Option.{some-injective}
use mathlib.Core.List.{append_assoc}
use arnel_lang.Prelude.Size.{mul_size}
use arnel_lang.DynArray
use arnel_lang.DynArray.{DynArray, write_slot, resize}
use arnel_lang.DynArray.Laws.{Holds, append-Holds}
use arnel_lang.Token.{Token}
use arnel_lang.Lexer.State.{Lexer}
use arnel_lang.Lexer.Next.{next_raw}
use arnel_lang.Lexer.Queue.{push_token, fill}
use arnel_lang.Lexer.Stream.{next_raw-toks, Yields, more, Yields-queue}

pub get_elem?-map-some {ℓ} :
    {A : Type ℓ} (xs : List A) (spare : List (Option A)) (k : ℕ) (a : A)
    → get_elem? xs k ≡ some a
    → get_elem? (map some xs ++ spare) k ≡ some (some a)
get_elem?-map-some [] spare k a h = cc
get_elem?-map-some (x ∷ xs) spare zero a h = ap some h
get_elem?-map-some (x ∷ xs) spare (suc k) a h = get_elem?-map-some xs spare k a h

pub get_elem?-append_left {ℓ} :
    {A : Type ℓ} (xs ys : List A) (k : ℕ) → k < length xs → get_elem? (xs ++ ys) k ≡ get_elem? xs k
get_elem?-append_left [] ys k h = absurd (omega arith)
get_elem?-append_left (x ∷ xs) ys zero h = refl
get_elem?-append_left (x ∷ xs) ys (suc k) h = get_elem?-append_left xs ys k (omega arith)

pub get_elem?-length {ℓ} :
    {A : Type ℓ} (xs : List A) (k : ℕ) (a : A) → get_elem? xs k ≡ some a → k < length xs
get_elem?-length [] k a h = cc
get_elem?-length (x ∷ xs) zero a h = omega arith
get_elem?-length (x ∷ xs) (suc k) a h = let rest = get_elem?-length xs k a h in omega arith

pub put_cap :
    (da da' : DynArray Token) (t : Token) (r : Bool)
    → DynArray.put da t ≡ some (r, da')
    → da'.cap ≡ da.cap
unfolding DynArray.put
put_cap da da' t r h =
    let (slots, _, last) = >>=-eq-some (write_slot da.slots da.len t) _ h in
    sym (ap (λ o. o.1.cap) (some-injective _ _ last))

-- A queue of at most one token stays small when one is added.
pub append_cap :
    (da da' : DynArray Token) (t : Token) (r : Bool)
    → DynArray.append true da t ≡ some (r, da')
    → da.len < 2
    → da.cap ≤ 4
    → da'.cap ≤ 4
unfolding DynArray.append mul_size
append_cap da da' t r h few small = elim (Bool-cases (da.len == da.cap)) [
  | inl e ↦
      let wide : DynArray Token = record da {
        slots = resize (mul_size da.cap 2) da.slots;
        cap = mul_size da.cap 2;
      } in
      let kept = put_cap wide da' t r (sym (rw e refl) ∙ h) in ground arith
  | inr e ↦ let kept = put_cap da da' t r (sym (rw e refl) ∙ h) in omega arith
]

pub Yields-inverse :
    (l : Lexer) (t : Token) (ts : List Token)
    → Yields l (t ∷ ts)
    → (l' : Lexer) × (next_raw l ≡ some (t, l')) × Yields l' ts
Yields-inverse l t ts (more {l' = l'} e rest) = (l', e, rest)

-- One round of the loop of `peek_token`.
fetch :
    (l : Lexer) (queue : List Token) (t : Token) (rest : List Token)
    → Holds l.toks queue
    → 0 < l.toks.cap
    → l.toks.cap ≤ 4
    → length queue < 2
    → Yields l (t ∷ rest)
    → (l₁ l₂ : Lexer) × (next_raw l ≡ some (t, l₁))
      × (push_token l₁ t ≡ some l₂)
      × Holds l₂.toks (queue ++ t ∷ [])
      × (0 < l₂.toks.cap)
      × (l₂.toks.cap ≤ 4)
      × Yields l₂ rest
unfolding push_token
fetch l queue t rest holds pos small few y =
    let (l₁, e, y₁) = Yields-inverse l t rest y in
    let same = next_raw-toks l l₁ t e in
    let (da, run, holds₂, grown) = append-Holds l.toks queue t holds pos (omega arith) in
    let run₁ : DynArray.append true l₁.toks t ≡ some (true, da) =
      ap (λ q. DynArray.append true q t) same ∙ run in
    (
      l₁,
      record l₁ { toks = da },
      e,
      rw run₁ refl,
      holds₂,
      omega arith,
      append_cap l.toks da t true run (let a = holds.len in omega arith) small,
      Yields-queue y₁ da,
    )

pub nonempty {ℓ} :
    {A : Type ℓ} (xs : List A) → 0 < length xs → (a : A) × (rest : List A) × (xs ≡ a ∷ rest)
nonempty [] h = absurd (omega arith)
nonempty (x ∷ xs) h = (x, xs, refl)

rejoin :
    (queue rest : List Token) (t : Token) (ts queue' rest' : List Token)
    → queue' ++ rest' ≡ (queue ++ t ∷ []) ++ ts
    → rest ≡ t ∷ ts
    → queue' ++ rest' ≡ queue ++ rest
rejoin queue rest t ts queue' rest' same shape =
    same ∙ append_assoc queue (t ∷ []) ts ∙ ap (λ k. queue ++ k) (sym shape)

fill_step :
    (fuel n : ℕ) (l l₁ l₂ : Lexer) (t : Token)
    → ltb l.toks.len n ≡ true
    → next_raw l ≡ some (t, l₁)
    → push_token l₁ t ≡ some l₂
    → fill (suc fuel) l n ≡ fill fuel l₂ n
unfolding fill
fill_step fuel n l l₁ l₂ t e e₁ e₂ =
    rw (e, fill)
      (ap (λ o. o >>= λ r. push_token r.1 r.0 >>= λ l'. fill fuel l' n) e₁
        ∙ ap (λ o. o >>= λ l'. fill fuel l' n) e₂)

-- The rounds of `peek_token` put the next tokens into the queue, until there are as many as wanted.
pub fill_lem :
    (fuel n : ℕ) (l : Lexer) (queue rest : List Token)
    → Holds l.toks queue
    → 0 < l.toks.cap
    → l.toks.cap ≤ 4
    → Yields l rest
    → n ≤ 2
    → n ≤ length queue + length rest
    → 0 < fuel
    → n < fuel + length queue
    → (l' : Lexer) × (queue' : List Token) × (rest' : List Token) × (fill fuel l n ≡ some l')
      × Holds l'.toks queue'
      × (0 < l'.toks.cap)
      × (l'.toks.cap ≤ 4)
      × Yields l' rest'
      × (queue' ++ rest' ≡ queue ++ rest)
      × (n ≤ length queue')
unfolding fill
fill_lem zero n l queue rest holds pos small y few enough some_fuel rounds = absurd (omega arith)
fill_lem (suc fuel) n l queue rest holds pos small y few enough some_fuel rounds =
    let a = holds.len in
    elim (Bool-cases (ltb l.toks.len n)) [
      | inr e ↦ (l, queue, rest, rw (e, fill) refl, holds, pos, small, y, refl, ground arith)
      | inl e ↦
          let (t, ts, shape) = nonempty rest (ground arith) in
          let (l₁, l₂, e₁, e₂, holds₂, pos₂, small₂, y₂) =
            fetch l queue t ts holds pos small (ground arith) (subst (Yields l) shape y) in
          let longer : length (queue ++ t ∷ []) ≡ length queue + 1 =
            omega (arith, length-append queue (t ∷ [])) in
          let count : length rest ≡ suc (length ts) = ap length shape in
          let (l', queue', rest', run, holds', pos', small', y', same, done) =
            fill_lem fuel n l₂ (queue ++ t ∷ []) ts holds₂ pos₂ small₂ y₂ few (ground arith)
              (ground arith) (ground arith) in
          (
            l',
            queue',
            rest',
            fill_step fuel n l l₁ l₂ t e e₁ e₂ ∙ run,
            holds',
            pos',
            small',
            y',
            rejoin queue rest t ts queue' rest' same shape,
            done,
          )
    ]
