-- ===== src/Compiler/Scoping.antt =====
-- Which statements keep to their scopes.
use arnel_lang.Prelude.{ℕ, ◌+◌, ◌≡◌, ◌≢◌, refl, Bool, true, false, List, [], ◌∷◌}
use arnel_lang.View.{content, View}
use arnel_lang.Ast.{
  Ast, int_literal, binary, ident, decl_local, decl_assignment, cond, assignment, while, block,
  expr_to_void, Child, absent, node, Nodes, nil, cons,
}
use arnel_lang.Compiler.Registers.{size, size_child}
use arnel_lang.Compiler.Meaning.{Scoping, with_name, is_readable, is_readable_child}

-- Its value is given back by a node that voids it.
abbrev pub is_taken : Ast → Bool
is_taken a = elim a [ ident _ ↦ true | binary _ _ _ ↦ true | assignment _ _ ↦ true | _ ↦ false ]

-- Its value is in a temporary of its own.
abbrev pub is_held : Child → Bool
is_held e = elim e [ absent ↦ false | node a ↦ elim a [ int_literal _ ↦ false | _ ↦ true ] ]

-- Behind it the temporary of its value is in use. The value of a loop is that of its block, so only the
-- temporary of its test is.
abbrev pub is_solid : Ast → Bool
is_solid a = elim a [ while test _ ↦ is_held test | _ ↦ true ]

pub held_taken :
    (scope : Scoping) (a : Ast)
    → is_held (node a) ≡ true
    → is_readable scope a ≡ true
    → is_taken a ≡ true
unfolding is_readable
held_taken scope (int_literal n) h readable = cc
held_taken scope (ident name) h readable = refl
held_taken scope (binary op right left) h readable = refl
held_taken scope _ h readable = cc

pub taken_solid : (a : Ast) → is_taken a ≡ true → is_solid a ≡ true
taken_solid (ident name) h = refl
taken_solid (binary op right left) h = refl
taken_solid (assignment target value) h = refl
taken_solid _ h = cc

mutual
  -- A node that reads and assigns names in scope and declares names that are not, the scope behind it,
  -- and how many temporaries it takes at most.
  pub data IsNode : Scoping → Ast → Scoping → ℕ → Type 0 where
    value :
        {scope : Scoping} (e : Ast) → is_readable scope e ≡ true → IsNode scope e scope (size e + 1)
    assigns :
        {scope : Scoping} (x : View) (e : Child)
        → scope (content x) ≡ true
        → is_readable_child scope e ≡ true
        → IsNode scope (assignment (node (ident x)) e) scope (size_child e + 2)
    declares :
        {scope : Scoping} (x : View) (e : Child)
        → content x ≢ []
        → scope (content x) ≡ false
        → is_readable_child scope e ≡ true
        → IsNode scope (decl_assignment x e) (with_name scope (content x)) (size_child e + 2)
    local :
        {scope : Scoping} (x : View)
        → content x ≢ []
        → scope (content x) ≡ false
        → IsNode scope (decl_local x) (with_name scope (content x)) 1
    conditional :
        {scope : Scoping} (test : Child) (ns : Nodes) {w : ℕ}
        → is_readable_child scope test ≡ true
        → IsBlock true scope ns w
        → IsNode scope (cond test (node (block ns)) absent) scope (size_child test + w + 3)
    alternative :
        {scope : Scoping} (test : Child) (ns ms : Nodes) {w u : ℕ}
        → is_readable_child scope test ≡ true
        → IsBlock true scope ns w
        → IsBlock true scope ms u
        → IsNode scope
            (cond test (node (block ns)) (node (block ms)))
            scope
            (size_child test + w + u + 3)
    loops :
        {scope : Scoping} (solid : Bool) (test : Child) (ns : Nodes) {w : ℕ}
        → is_readable_child scope test ≡ true
        → IsBlock solid scope ns w
        → IsNode scope (while test (node (block ns))) scope (size_child test + w + 3)

  -- The nodes of a block, at least one. What they declare is out of scope behind it. A solid block leaves
  -- its value in a temporary in use; a block that ends in a voided node does not.
  pub data IsBlock : Bool → Scoping → Nodes → ℕ → Type 0 where
    last :
        {solid : Bool} {scope after : Scoping} (a : Ast) {w : ℕ}
        → IsNode scope a after w
        → is_solid a ≡ solid
        → IsBlock solid scope (cons (node a) nil) w
    ended :
        {scope : Scoping} (a : Ast) {w : ℕ}
        → IsNode scope a scope w
        → is_taken a ≡ true
        → IsBlock false scope (cons (node a) (cons (node expr_to_void) nil)) w
    next :
        {solid : Bool} {scope after : Scoping} (a : Ast) (b : Child) (rest : Nodes) {w u : ℕ}
        → IsNode scope a after w
        → IsBlock solid after (cons b rest) u
        → IsBlock solid scope (cons (node a) (cons b rest)) (w + u)
    voided :
        {solid : Bool} {scope : Scoping} (a : Ast) (b : Child) (rest : Nodes) {w u : ℕ}
        → IsNode scope a scope w
        → is_taken a ≡ true
        → IsBlock solid scope (cons b rest) u
        → IsBlock solid scope (cons (node a) (cons (node expr_to_void) (cons b rest))) (w + u)

-- The nodes of a function's body in front of its return.
pub data IsBody : Scoping → List Ast → Scoping → ℕ → Type 0 where
  nothing : {scope : Scoping} → IsBody scope [] scope 0
  next :
      {scope middle after : Scoping} (a : Ast) (rest : List Ast) {w u : ℕ}
      → IsNode scope a middle w
      → IsBody middle rest after u
      → IsBody scope (a ∷ rest) after (w + u)
  voided :
      {scope after : Scoping} (a : Ast) (rest : List Ast) {w u : ℕ}
      → IsNode scope a scope w
      → is_taken a ≡ true
      → IsBody scope rest after u
      → IsBody scope (a ∷ expr_to_void ∷ rest) after (w + u)
