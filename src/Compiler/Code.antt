-- ===== src/Compiler/Code.antt =====
-- compiler.h: `val_t`; compiler.c: the lines that the compiler prints, one constructor for each
-- format.
use arnel_lang.Prelude.{ℕ, Bool, true, false, List}
use arnel_lang.Ast.{BinOp}

pub data QbeType : Type 0 where
  t_w t_l t_s t_d t_data t_ret : QbeType

pub record Val : Type 0 where
  pub t : QbeType
  pub imm : Bool
  pub val : ℕ

-- `as_l(v)`, `ret`, `as_data(v)`, and the value of an integer literal.
abbrev pub as_l : ℕ → Val
as_l v = record { t = t_l; imm = false; val = v }

abbrev pub ret_val : Val
ret_val = record { t = t_ret; imm = true; val = 0 }

abbrev pub as_data : ℕ → Val
as_data v = record { t = t_data; imm = true; val = v }

abbrev pub literal : ℕ → Val
literal v = record { t = t_l; imm = true; val = v }

pub data LabelName : Type 0 where
  start loop breac iftr iffl out : LabelName

-- `@start3`, with the number that is printed: `%u` in `jnz` and `%d` elsewhere print the same numbers
-- below 2 ^ 31.
pub record Label : Type 0 where
  pub name : LabelName
  pub id : ℕ

pub data Line : Type 0 where
  -- `  %x1 =l add %x2, 3`
  operation : ℕ → BinOp → Val → Val → Line
  -- `  %x1 =l add 0, %x2`
  copy : ℕ → Val → Line
  -- `  ret %x1`
  return : Val → Line
  -- `@start3`, with the number that is printed: `%u` in `jnz` and `%d` elsewhere print the same numbers
  -- below 2 ^ 31.
  label : Label → Line
  -- `  jnz %x1, @iftr1, @iffl2`, with the line break that follows
  jnz : Val → Label → Label → Line
  -- `  jmp @start3`
  jmp : Label → Line
  -- `  %x1 =l call $name(l %x2, l 3)`
  call : ℕ → List ℕ → List Val → Line
