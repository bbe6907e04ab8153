-- ===== src/Parser/Prec.antt =====
-- parser.h: `prec_t`, the precedences that the parser gives to nodes.
use arnel_lang.Prelude.{ℕ}

abbrev pub stmt : ℕ
stmt = 0

abbrev pub none : ℕ
none = 1

abbrev pub assignment : ℕ
assignment = 2

abbrev pub comparison : ℕ
comparison = 6

abbrev pub term : ℕ
term = 7

abbrev pub call : ℕ
call = 10

abbrev pub primary : ℕ
primary = 11
