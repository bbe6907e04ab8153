-- ===== src/Lexer/Keyword/Spec.antt =====
-- The keywords of the language as a table, and `check_kw` against it.
use Prim.Native.String.{String}
use arnel_lang.Prelude.{
  ℕ, zero, suc, ◌+◌, ◌-◌, ◌<◌, ◌≤◌, ◌≡◌, refl, ap, Bool, true, false, some, List, [], ◌∷◌, ◌&&◌,
  ◌==◌, if◌then◌else◌, length, take, drop, arith, Bool-cases, inl, inr, ==_iff, length-drop,
  length-take,
}
use arnel_lang.View.{View, make, content, memcmp_eq}
use arnel_lang.View.Laws.{IsValid}
use arnel_lang.Lexer.Keyword.{codes, ident_check_kw, switch_second, check_kw}
use arnel_lang.Token.{
  TokenType, l_ident, l_const, l_else, l_export, l_if, l_nothing, l_return, l_true, l_var, l_void,
  l_while, l_false, l_for,
}

abbrev pub list_eq : List ℕ → List ℕ → Bool
list_eq [] [] = true
list_eq (x ∷ xs) (y ∷ ys) = x == y && list_eq xs ys
list_eq _ _ = false

abbrev pub find_keyword : List ℕ → List (String × TokenType) → TokenType
find_keyword bs [] = l_ident
find_keyword bs ((word, t) ∷ rest) = if list_eq bs (codes word) then t else find_keyword bs rest

abbrev pub keywords : List (String × TokenType)
keywords =
    ("const", l_const)
    ∷ ("else", l_else)
    ∷ ("export", l_export)
    ∷ ("if", l_if)
    ∷ ("nothing", l_nothing)
    ∷ ("return", l_return)
    ∷ ("true", l_true)
    ∷ ("var", l_var)
    ∷ ("void", l_void)
    ∷ ("while", l_while)
    ∷ ("false", l_false)
    ∷ ("for", l_for)
    ∷ []

-- What a word of the language is: the keyword that it spells, or an identifier.
unfoldable pub keyword_of : List ℕ → TokenType
keyword_of bs = find_keyword bs keywords

memcmp_eq-list_eq :
    (a b : List ℕ)
    → length b ≤ length a
    → memcmp_eq a b (length b) ≡ some (list_eq (take (length b) a) b)
unfolding memcmp_eq
memcmp_eq-list_eq a [] h = refl
memcmp_eq-list_eq [] (y ∷ b) h = absurd (omega arith)
memcmp_eq-list_eq (x ∷ a) (y ∷ b) h = ground (arith, memcmp_eq-list_eq a b)

list_eq-length : (a b : List ℕ) → list_eq a b ≡ true → length a ≡ length b
list_eq-length [] [] h = refl
list_eq-length [] (y ∷ b) h = cc
list_eq-length (x ∷ a) [] h = cc
list_eq-length (x ∷ a) (y ∷ b) h = ground (arith, list_eq-length a b)

drop-take {ℓ} : {A : Type ℓ} (n m : ℕ) (xs : List A) → drop n (take (n + m) xs) ≡ take m (drop n xs)
drop-take zero m xs = ap (λ k. take k xs) (omega arith)
drop-take {A} (suc n) m [] = go m (suc n + m)
  where
    take-nil : (k : ℕ) → take {A = A} k [] ≡ []
    take-nil zero = refl
    take-nil (suc k) = refl

    go : (m k : ℕ) → drop (suc n) (take {A = A} k []) ≡ take m []
    go m k = rw (take-nil k, take-nil m)
drop-take (suc n) m (x ∷ xs) =
    let e : suc n + m ≡ suc (n + m) = omega arith in rw e (drop-take n m xs)

-- The test of the rest of a word, as a test of the word's bytes.
pub ident_check_kw_lem :
    (v : View) (word : List ℕ) (n : ℕ) (t : TokenType)
    → IsValid v
    → n ≤ v.len
    → ident_check_kw v word n t ≡ some (if list_eq (drop n (content v)) word then t else l_ident)
unfolding ident_check_kw
ident_check_kw_lem v word n t h le = elim (Bool-cases (v.len == n + length word)) [
  | inl e ↦
      let same : v.len ≡ n + length word = (==_iff _ _).0 e in
      let rest : v.len - n ≡ length word = omega arith in
      rw (
        e,
        rest,
        memcmp_eq-list_eq (drop n v.chars.bytes) word
            (omega (arith, length-drop n v.chars.bytes, h.readable)),
        same,
        drop-take,
      )
  | inr e ↦ elim (Bool-cases (list_eq (drop n (content v)) word)) [
    | inl f ↦ absurd (differ e (list_eq-length _ _ f))
    | inr f ↦ rw (e, f)
  ]
]
  where
    differ : (v.len == n + length word) ≡ false → length (drop n (content v)) ≡ length word → ⊥
    differ e f =
        ground (arith, length-drop n (content v), length-take v.len v.chars.bytes h.readable)

list_eq-take-nil : (m : ℕ) (cs : List ℕ) → m ≤ length cs → list_eq (take m cs) [] ≡ suc (suc m) == 2
list_eq-take-nil zero cs h = refl
list_eq-take-nil (suc m) [] h = absurd (omega arith)
list_eq-take-nil (suc m) (c ∷ cs) h = ground arith

module _ (addr c : ℕ) where
  abbrev at_one : List ℕ → View
  at_one cs = make (record { addr = addr; bytes = c ∷ cs }) 1

  check_one :
      (cs : List ℕ) → IsValid (at_one cs) → check_kw (at_one cs) ≡ some (keyword_of (c ∷ []))
  unfolding check_kw keyword_of
  check_one cs h =
      let v = at_one cs in
      ground (
        arith,
        ident_check_kw_lem v (codes "othing") 1 l_nothing h,
        ident_check_kw_lem v (codes "eturn") 1 l_return h,
        ident_check_kw_lem v (codes "rue") 1 l_true h,
        ident_check_kw_lem v (codes "hile") 1 l_while h,
      )

  module _ (d : ℕ) (cs : List ℕ) (m : ℕ) where
    abbrev at_more : View
    at_more = make (record { addr = addr; bytes = c ∷ d ∷ cs }) (suc (suc m))

    check_more : IsValid at_more → check_kw at_more ≡ some (keyword_of (c ∷ d ∷ take m cs))
    unfolding check_kw switch_second keyword_of
    check_more h =
        let v = at_more in
        ground (
          arith,
          list_eq-take-nil m cs,
          ident_check_kw_lem v (codes "nst") 2 l_const h,
          ident_check_kw_lem v (codes "se") 2 l_else h,
          ident_check_kw_lem v (codes "port") 2 l_export h,
          ident_check_kw_lem v (codes "othing") 1 l_nothing h,
          ident_check_kw_lem v (codes "eturn") 1 l_return h,
          ident_check_kw_lem v (codes "rue") 1 l_true h,
          ident_check_kw_lem v (codes "hile") 1 l_while h,
          ident_check_kw_lem v (codes "r") 2 l_var h,
          ident_check_kw_lem v (codes "id") 2 l_void h,
          ident_check_kw_lem v (codes "lse") 2 l_false h,
          ident_check_kw_lem v (codes "r") 2 l_for h,
        )

check_kw_at :
    (addr : ℕ) (bs : List ℕ) (n : ℕ)
    → IsValid (make (record { addr = addr; bytes = bs }) n)
    → 0 < n
    → check_kw (make (record { addr = addr; bytes = bs }) n) ≡ some (keyword_of (take n bs))
check_kw_at addr bs zero h pos = absurd (omega arith)
check_kw_at addr [] (suc n) h pos = absurd (omega (arith, h.readable))
check_kw_at addr (c ∷ cs) (suc zero) h pos = check_one addr c cs h
check_kw_at addr (c ∷ []) (suc (suc m)) h pos = absurd (omega (arith, h.readable))
check_kw_at addr (c ∷ d ∷ cs) (suc (suc m)) h pos = check_more addr c d cs m h

-- On every valid view of at least one byte, `check_kw` reads in range and gives the keyword that the
-- view spells, or an identifier.
pub check_kw-keyword_of :
    {v : View} → IsValid v → 0 < v.len → check_kw v ≡ some (keyword_of (content v))
check_kw-keyword_of {v} h pos = check_kw_at v.chars.addr v.chars.bytes v.len h pos
