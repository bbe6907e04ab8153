-- ===== src/Compiler.antt =====
-- compiler.c: code for functions, as lines of qbe's intermediate language.
pub mod Locals
pub mod HashLocals
pub mod Hashed
pub mod Code
pub mod State
pub mod Expr
pub mod Registers
pub mod Computes
pub mod Correct
pub mod Names
pub mod Scope
pub mod Unit
pub mod Texts
pub mod Jumps
pub mod Meaning
pub mod Scoping
pub mod Layout
pub mod Simulation
pub mod Leaves
pub mod Simple
pub mod Assigns
pub mod Branching
pub mod Looping
pub mod Branches
pub mod Conditionals
pub mod Alternatives
pub mod Loops
pub mod Sequence
pub mod Bodies
pub mod Params
pub mod Functions
pub mod Labels
pub mod Numbering
pub mod Unique
pub mod Numbers
pub mod Rounds
pub mod Symbols
pub mod Programs
pub mod Finishes
