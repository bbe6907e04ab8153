-- ===== src/Compiler/Labels.antt =====
-- Where a label stands in lines, and lines in which every label stands once.
use arnel_lang.Prelude.{
  ◌≡◌, ◌≢◌, refl, sym, ap, ◌∙◌, Bool, true, false, ◌&&◌, Option, none, some, List, [], ◌∷◌, ◌++◌,
  ◌==◌, ==_refl, Bool-cases, ◌⊎◌, inl, inr, arith,
}
use mathlib.Core.Option.{some-injective}
use arnel_lang.Compiler.Code.{LabelName, start, loop, breac, iftr, iffl, out, Label, Line, label}
use arnel_lang.Compiler.Jumps.{same_name, same_label, find, IsLabelled}

same_name_refl : (a : LabelName) → same_name a a ≡ true
same_name_refl start = refl
same_name_refl loop = refl
same_name_refl breac = refl
same_name_refl iftr = refl
same_name_refl iffl = refl
same_name_refl out = refl

same_label_refl : (l : Label) → same_label l l ≡ true
same_label_refl l = rw (same_name_refl l.name, ==_refl l.id) refl

same_label_ne : (l k : Label) → l.id ≢ k.id → same_label l k ≡ false
same_label_ne l k ne = elim (Bool-cases (l.id == k.id)) [
  | inl e ↦ let same : l.id ≡ k.id = ground arith in absurd (ne same)
  | inr e ↦ rw e (and_false (same_name l.name k.name))
]
  where
    and_false : (b : Bool) → (b && false) ≡ false
    and_false b = ground arith

find_label :
    (l k : Label) (lines : List Line) (b : Bool) (r : Option (List Line))
    → same_label l k ≡ b
    → (elim b as (λ _. Option (List Line)) [ true ↦ some lines | false ↦ find l lines ]) ≡ r
    → find l (label k ∷ lines) ≡ r
unfolding find
find_label l k lines b r e h =
    ap (λ c. elim c as (λ _. Option (List Line)) [ true ↦ some lines | false ↦ find l lines ]) e ∙ h

pub other_label : (l k : Label) → l.id ≢ k.id → find l (label k ∷ []) ≡ none
unfolding find
other_label l k ne = find_label l k [] false none (same_label_ne l k ne) refl

pub find-none : (l : Label) (xs ys : List Line) → find l xs ≡ none → find l (xs ++ ys) ≡ find l ys
unfolding find
find-none l [] ys h = refl
find-none l (label k ∷ xs) ys h = elim (Bool-cases (same_label l k)) [
  | inl e ↦
      let clash : some xs ≡ none = sym (find_label l k xs true (some xs) e refl) ∙ h in absurd cc
  | inr e ↦
      find_label l k (xs ++ ys) false (find l ys) e
        (find-none l xs ys (sym (find_label l k xs false (find l xs) e refl) ∙ h))
]
find-none l (_ ∷ xs) ys h = find-none l xs ys h

find-some :
    (l : Label) (xs ys rest : List Line)
    → find l xs ≡ some rest
    → find l (xs ++ ys) ≡ some (rest ++ ys)
unfolding find
find-some l [] ys rest h = cc
find-some l (label k ∷ xs) ys rest h = elim (Bool-cases (same_label l k)) [
  | inl e ↦ find_label l k (xs ++ ys) true (some (rest ++ ys)) e (
      ap (λ r. some (r ++ ys))
        (some-injective _ _ (sym (find_label l k xs true (some xs) e refl) ∙ h)))
  | inr e ↦
      find_label l k (xs ++ ys) false (some (rest ++ ys)) e
        (find-some l xs ys rest (sym (find_label l k xs false (find l xs) e refl) ∙ h))
]
find-some l (_ ∷ xs) ys rest h = find-some l xs ys rest h

-- A label in front of a last line is that line or stands in front of it.
abbrev Parted : List Line → Line → List Line → Label → List Line → Type 0
Parted lines x before l after =
    ((before ≡ lines) × (x ≡ label l) × (after ≡ []))
    ⊎ ((rest : List Line) × (lines ≡ before ++ label l ∷ rest) × (after ≡ rest ++ x ∷ []))

parted :
    (lines : List Line) (x : Line) (before : List Line) (l : Label) (after : List Line)
    → lines ++ x ∷ [] ≡ before ++ label l ∷ after
    → Parted lines x before l after
parted [] x [] l after e = inl (refl, cc, cc)
parted [] x (b ∷ []) l after e = cc
parted [] x (b ∷ (b' ∷ bs)) l after e = cc
parted (o ∷ os) x [] l after e = inr (os, cc, cc)
parted (o ∷ os) x (b ∷ bs) l after e =
    let tails : os ++ x ∷ [] ≡ bs ++ label l ∷ after = cc in
    let heads : o ≡ b = cc in
    elim (parted os x bs l after tails) [
      | inl (p, q, r) ↦ inl (cc, q, r)
      | inr (rest, p, q) ↦ inr (rest, cc, q)
    ]

abbrev pub IsNew : Line → List Line → Type 0
IsNew x lines = (l : Label) → x ≡ label l → find l lines ≡ none

-- One more line, whose label is new if it is one
pub snoc-IsLabelled :
    (lines : List Line) (x : Line) → IsLabelled lines → IsNew x lines → IsLabelled (lines ++ x ∷ [])
snoc-IsLabelled lines x labelled new l before after e = elim (parted lines x before l after e) [
  | inl (p, q, r) ↦
      find-none l lines (x ∷ []) (new l q)
      ∙ ap (λ y. find l (y ∷ [])) q
      ∙ find_label l l [] true (some []) (same_label_refl l) refl
      ∙ ap some (sym r)
  | inr (rest, p, q) ↦ find-some l lines (x ∷ []) rest (labelled l before rest p) ∙ ap some (sym q)
]
