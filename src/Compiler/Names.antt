-- ===== src/Compiler/Names.antt =====
-- Names are the same when their bytes are.
use arnel_lang.Prelude.{
  ℕ, ◌≡◌, refl, sym, ap, ◌∙◌, Bool, true, false, List, [], ◌∷◌, ◌==◌, ==_refl, arith,
}

unfoldable pub same_names :
    (x y : ℕ) (xs ys : List ℕ) (b : Bool) → (x == y) ≡ b → Dec (xs ≡ ys) → Dec (x ∷ xs ≡ y ∷ ys)
same_names x y xs ys true e (yes p) = yes (let same : x ≡ y = ground arith in cc)
same_names x y xs ys true e (no p) = no (λ q. p cc)
same_names x y xs ys false e d = no (λ q.
    let same : x ≡ y = cc in
    let clash : true ≡ false = sym (==_refl x) ∙ ap (λ k. x == k) same ∙ e in absurd cc)

unfoldable pub name_discrete : Discrete (List ℕ)
name_discrete [] [] = yes refl
name_discrete [] (y ∷ ys) = no (λ e. cc)
name_discrete (x ∷ xs) [] = no (λ e. cc)
name_discrete (x ∷ xs) (y ∷ ys) = same_names x y xs ys (x == y) refl (name_discrete xs ys)
