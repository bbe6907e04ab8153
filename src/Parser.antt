-- ===== src/Parser.antt =====
-- parser.c: the parser, an operator-precedence machine with stacks of values and operators.
pub mod Result
pub mod Stack
pub mod Source
pub mod Prec
pub mod Node
pub mod State
pub mod Expr
pub mod Step
pub mod Program
pub mod Machine
pub mod Reading
pub mod Sums
pub mod Statements
pub mod Blocks
pub mod Braces
pub mod Declarations
pub mod Grammar
pub mod Forms
pub mod Body
pub mod Capacity
pub mod Calls
pub mod Limits
pub mod Signature
pub mod TopLevel
pub mod Listing
pub mod Whole
