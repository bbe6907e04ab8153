-- ===== src/Compiler/Meaning.antt =====
-- What a list of statements means: an interpreter of the syntax trees, and which names a tree may use.
use arnel_lang.Prelude.{
  ℕ, zero, suc, ◌≡◌, refl, Bool, true, false, ◌&&◌, Option, none, some, List, [], ◌∷◌, ◌>>=◌, ◌≢◌,
  ◌⊎◌, inl, inr, sym, ap, ◌∙◌,
}
use arnel_lang.View.{content}
use arnel_lang.Ast.{
  BinOp, Ast, int_literal, binary, ident, decl_local, decl_assignment, cond, assignment, while,
  block, expr_to_void, Child, absent, node, Nodes, nil, cons,
}
use arnel_lang.Compiler.Registers.{eval, eval_child}
use arnel_lang.Compiler.Names.{name_discrete}

-- The values of the names that have one.
abbrev pub Env : Type 0
Env = List ℕ → Option ℕ

abbrev pub assign : Env → List ℕ → Option ℕ → Env
assign env name v x = elim (name_discrete x name) [ yes _ ↦ v | no _ ↦ env x ]

module _ (eval_op : BinOp → ℕ → ℕ → ℕ) (truth : ℕ → Bool) where
  -- A loop with its rounds counted.
  unfoldable pub repeat : ℕ → (Env → Option ℕ) → (Env → Option Env) → Env → Option Env
  repeat zero test body env = none
  repeat (suc n) test body env =
      test env >>= λ v. elim (truth v) [ true ↦ body env >>= repeat n test body | false ↦ some env ]

  -- The names' values behind a node; every loop in it has at most `rounds` rounds.
  module _ (rounds : ℕ) where
    unfoldable mutual
      pub meaning : Ast → Env → Option Env
      meaning (decl_local name) env = some (assign env (content name) none)
      meaning (decl_assignment name value) env =
          eval_child eval_op env value >>= λ n. some (assign env (content name) (some n))
      meaning (assignment (node (ident name)) value) env =
          eval_child eval_op env value >>= λ n. some (assign env (content name) (some n))
      meaning (cond test yes_child no_child) env = eval_child eval_op env test >>= λ v.
          elim (truth v) [ true ↦ meaning_child yes_child env | false ↦ meaning_child no_child env ]
      meaning (while test body) env =
          repeat rounds (λ e. eval_child eval_op e test) (meaning_child body) env
      meaning (block nodes) env = meaning_nodes nodes env
      meaning expr_to_void env = some env
      meaning (int_literal n) env = some env
      meaning (ident name) env = eval eval_op env (ident name) >>= λ _. some env
      meaning (binary op right left) env = eval eval_op env (binary op right left) >>= λ _. some env
      meaning _ env = none

      -- No node does nothing.
      pub meaning_child : Child → Env → Option Env
      meaning_child absent env = some env
      meaning_child (node a) env = meaning a env

      pub meaning_nodes : Nodes → Env → Option Env
      meaning_nodes nil env = some env
      meaning_nodes (cons a nodes) env = meaning_child a env >>= meaning_nodes nodes

    unfoldable pub meaning_list : List Ast → Env → Option Env
    meaning_list [] env = some env
    meaning_list (a ∷ nodes) env = meaning a env >>= meaning_list nodes

-- The names in scope.
abbrev pub Scoping : Type 0
Scoping = List ℕ → Bool

abbrev pub with_name : Scoping → List ℕ → Scoping
with_name scope name x = elim (name_discrete x name) [ yes _ ↦ true | no _ ↦ scope x ]

-- An expression of literals, operators and names in scope.
unfoldable mutual
  pub is_readable : Scoping → Ast → Bool
  is_readable scope (int_literal n) = true
  is_readable scope (ident name) = scope (content name)
  is_readable scope (binary op right left) =
      is_readable_child scope right && is_readable_child scope left
  is_readable scope _ = false

  pub is_readable_child : Scoping → Child → Bool
  is_readable_child scope absent = false
  is_readable_child scope (node a) = is_readable scope a

-- The value of the expression is in a temporary.
abbrev pub is_busy : Ast → Bool
is_busy a = elim a [ int_literal _ ↦ false | _ ↦ true ]

pub with_name_cases :
    (scope : Scoping) (name x : List ℕ)
    → with_name scope name x ≡ true
    → (x ≡ name) ⊎ ((x ≢ name) × (scope x ≡ true))
with_name_cases scope name x h =
    elim (name_discrete x name)
        as (λ d.
          (elim d as (λ _. Bool) [ yes _ ↦ true | no _ ↦ scope x ]) ≡ true
          → (x ≡ name) ⊎ ((x ≢ name) × (scope x ≡ true))) [
            | yes p ↦ λ e. inl p
            | no p ↦ λ e. inr (p, e)
          ]
      h

pub with_name_wider :
    (scope : Scoping) (name x : List ℕ) → scope x ≡ true → with_name scope name x ≡ true
with_name_wider scope name x h =
    elim (name_discrete x name)
      as (λ d. (elim d as (λ _. Bool) [ yes _ ↦ true | no _ ↦ scope x ]) ≡ true) [
        | yes p ↦ refl
        | no p ↦ h
      ]

pub assign_self : (env : Env) (name x : List ℕ) (v : Option ℕ) → x ≡ name → assign env name v x ≡ v
assign_self env name x v e =
    elim (name_discrete x name)
      as (λ d. (elim d as (λ _. Option ℕ) [ yes _ ↦ v | no _ ↦ env x ]) ≡ v) [
        | yes p ↦ refl
        | no p ↦ absurd (p e)
      ]

pub assign_ne :
    (env : Env) (name x : List ℕ) (v : Option ℕ) → x ≢ name → assign env name v x ≡ env x
assign_ne env name x v e =
    elim (name_discrete x name)
      as (λ d. (elim d as (λ _. Option ℕ) [ yes _ ↦ v | no _ ↦ env x ]) ≡ env x) [
        | yes p ↦ absurd (e p)
        | no p ↦ refl
      ]

pub fresh_ne : (scope : Scoping) (name x : List ℕ) → scope name ≡ false → scope x ≡ true → x ≢ name
fresh_ne scope name x fresh h p = let clash : true ≡ false = sym h ∙ ap scope p ∙ fresh in absurd cc
