-- ===== src/Types/Laws.antt =====
-- The table of types: ids are positions, and the table and the stack cannot grow.
use arnel_lang.Prelude.{
  ℕ, ◌^◌, zero, suc, ◌+◌, ◌*◌, ◌<◌, ◌≤◌, ◌≡◌, ◌↔◌, refl, ap, ◌∙◌, Bool, true, false, Option, none,
  some, List, [], ◌∷◌, ◌++◌, ltb, leb, ◌==◌, length, get_elem?, arith, length-append, ge→ltb,
}
use arnel_lang.View.{View, content, cmp_eq}
use arnel_lang.View.Laws as ViewLaws
use arnel_lang.Types.{
  TypeSystem, TypeEntry, TypeStack, entry_size, alloc_type, get_type, find_name, get_type_for_name,
  put_type,
}

-- Every entry stands at its id, and has a readable name.
abbrev pub Numbered : ℕ → List TypeEntry → Type 0
Numbered k [] = Unit
Numbered k (t ∷ ts) = (t.type_id ≡ k) × ViewLaws.IsValid t.typename × Numbered (suc k) ts

pub record IsValid (ts : TypeSystem) : Type 0 where
  pub count : ts.len ≡ length ts.types
  pub room : ts.cap * entry_size ≤ ts.bytes
  pub fits : ts.len ≤ ts.cap
  pub numbered : Numbered 0 ts.types

Numbered-append :
    (k : ℕ) (ts : List TypeEntry) (t : TypeEntry)
    → Numbered k ts
    → t.type_id ≡ k + length ts
    → ViewLaws.IsValid t.typename
    → Numbered k (ts ++ t ∷ [])
Numbered-append k [] t h e v = (omega (arith, e), v, tt)
Numbered-append k (x ∷ ts) t h e v =
    (h.0, h.1, Numbered-append (suc k) ts t h.2 (omega (arith, e)) v)

get_elem?-last {ℓ} :
    {A : Type ℓ} (xs : List A) (x : A) → get_elem? (xs ++ x ∷ []) (length xs) ≡ some x
get_elem?-last [] x = refl
get_elem?-last (y ∷ xs) x = get_elem?-last xs x

get_elem?-front {ℓ} :
    {A : Type ℓ} (xs ys : List A) (i : ℕ) → i < length xs → get_elem? (xs ++ ys) i ≡ get_elem? xs i
get_elem?-front [] ys i h = absurd (omega arith)
get_elem?-front (x ∷ xs) ys zero h = refl
get_elem?-front (x ∷ xs) ys (suc i) h = get_elem?-front xs ys i (omega arith)

-- With a free entry `alloc_type` succeeds: the new type has the next id, is found by it, and keeps
-- the others where they were; the table stays valid.
pub alloc_type-get_type :
    (ts : TypeSystem) (name : View)
    → IsValid ts
    → ts.len < ts.cap
    → ViewLaws.IsValid name
    → (ts' : TypeSystem) × (alloc_type ts name ≡ some (ts.len, ts'))
      × IsValid ts'
      × (get_type ts' ts.len
          ≡ some (some (record { typename = name; type_id = ts.len; type_info = none })))
      × ((i : ℕ) → i < ts.len → get_type ts' i ≡ get_type ts i)
unfolding alloc_type get_type
alloc_type-get_type ts name v h n =
    let free : (ts.len == ts.cap) ≡ false = ground arith in
    let inside : ltb ts.bytes ((ts.len + 1) * entry_size) ≡ false =
      ge→ltb _ _ (omega (arith, v.room)) in
    let t : TypeEntry = record { typename = name; type_id = ts.len; type_info = none } in
    (
      record ts { types = ts.types ++ t ∷ []; len = ts.len + 1 },
      rw (free, inside),
      record {
        count = omega (arith, v.count, length-append ts.types (t ∷ []));
        room = v.room;
        fits = omega arith;
        numbered = Numbered-append 0 ts.types t v.numbered (omega (arith, v.count)) n;
      },
      (let last : get_elem? (ts.types ++ t ∷ []) ts.len ≡ some t =
            ap (get_elem? (ts.types ++ t ∷ [])) v.count ∙ get_elem?-last ts.types t in
          let next : leb (ts.len + 1) ts.len ≡ false = ground arith in rw (next, last)),
      λ i k.
          let front = get_elem?-front ts.types (t ∷ []) i (omega (arith, v.count)) in
          let old : leb ts.len i ≡ false = ground arith in
          let new : leb (ts.len + 1) i ≡ false = ground arith in rw (old, new, front),
    )

-- A full table never grows: the reallocation counts bytes where it needs entries, and the write that
-- follows lies outside.
pub alloc_type-full : (ts : TypeSystem) (name : View) → ts.len ≡ ts.cap → alloc_type ts name ≡ none
unfolding alloc_type
alloc_type-full ts name h = ground arith

-- The same for the stack of ids, at every size; at 0, as the parser makes it, on the first push.
pub put_type-full : (s : TypeStack) (n : ℕ) → s.len ≡ s.cap → put_type s n ≡ none
unfolding put_type
put_type-full s n h = ground arith

-- The first entry whose name has the bytes of `name`, if any.
pub data FirstNamed (name : View) : List TypeEntry → Option TypeEntry → Type 0 where
  nowhere : FirstNamed name [] none
  here :
      {t : TypeEntry} {ts : List TypeEntry}
      → content name ≡ content t.typename
      → FirstNamed name (t ∷ ts) (some t)
  later :
      {t : TypeEntry} {ts : List TypeEntry} {r : Option TypeEntry}
      → (content name ≡ content t.typename → ⊥)
      → FirstNamed name ts r
      → FirstNamed name (t ∷ ts) r

-- Names of fewer than 2 ^ 32 bytes
abbrev pub AreShort : List TypeEntry → Type 0
AreShort [] = true ≡ true
AreShort (t ∷ ts) = (t.typename.len < 2 ^ 32) × AreShort ts

find_name-FirstNamed :
    (k : ℕ) (ts : List TypeEntry) (name : View)
    → Numbered k ts
    → ViewLaws.IsValid name
    → name.len < 2 ^ 32
    → AreShort ts
    → (r : Option TypeEntry) × (find_name ts name ≡ some r) × FirstNamed name ts r
unfolding find_name
find_name-FirstNamed k [] name h v short all = (none, refl, nowhere)
find_name-FirstNamed k (t ∷ ts) name h v short all =
    go (find_name-FirstNamed (suc k) ts name h.2 v short all.1)
      (ViewLaws.cmp_eq-content name t.typename v h.1 short all.0)
  where
    go :
        ((r : Option TypeEntry) × (find_name ts name ≡ some r) × FirstNamed name ts r)
        → ((eq : Bool) × (cmp_eq name t.typename ≡ some eq)
            × ((eq ≡ true) ↔ (content name ≡ content t.typename)))
        → (r : Option TypeEntry) × (find_name (t ∷ ts) name ≡ some r) × FirstNamed name (t ∷ ts) r
    go rest (true, run, iff) = (some t, rw run, here (iff.0 refl))
    go rest (false, run, iff) = (rest.0, rw run rest.1, later (λ e. cc (iff.1 e)) rest.2)

-- In a valid table, with names of fewer than 2 ^ 32 bytes, `get_type_for_name` gives the first entry whose name has the same bytes, or NULL
-- if none has, and reads nothing out of range.
pub get_type_for_name-FirstNamed :
    (ts : TypeSystem) (name : View)
    → IsValid ts
    → ViewLaws.IsValid name
    → name.len < 2 ^ 32
    → AreShort ts.types
    → (r : Option TypeEntry) × (get_type_for_name ts name ≡ some r) × FirstNamed name ts.types r
unfolding get_type_for_name
get_type_for_name-FirstNamed ts name v n short all =
    find_name-FirstNamed 0 ts.types name v.numbered n short all
