-- ===== src/Tests/Tokens.antt =====
-- Tokens, a lexer that is a list of tokens, and a table of types, for the parser's tests.
use Prim.Native.String.{String}
use arnel_lang.Prelude.{
  ℕ, zero, suc, ◌+◌, ◌-◌, ◌*◌, ◌≡◌, refl, ap, ◌∙◌, Option, none, some, List, [], ◌∷◌, ◌++◌, length,
  get_elem?, ◌>>=◌, if◌then◌else◌,
}
use arnel_lang.Ctype.{is_digit}
use arnel_lang.View.{View, make}
use arnel_lang.Token.{Token, TokenType}
use arnel_lang.Types.{TypeSystem, TypeEntry}
use arnel_lang.Lexer.Keyword.{codes}
use arnel_lang.Parser.Source.{Source}
use arnel_lang.Parser.State.{Parser, init}

abbrev pub view_of : String → View
view_of s = make (record { addr = 4096; bytes = codes s ++ 0 ∷ [] }) (length (codes s))

abbrev pub tok : TokenType → String → Token
tok t s = record { lexeme = view_of s; type = some t; line = 0; col = 0 }

-- The number that the digits at a pointer stand for.
abbrev digits : ℕ → List ℕ → ℕ
digits acc [] = acc
digits acc (c ∷ cs) = let rest = digits (acc * 10 + (c - 48)) cs in if is_digit c then rest else acc

abbrev pub decimal : List ℕ → ℕ
decimal bytes = digits 0 bytes

abbrev peek_list : List Token → ℕ → Option (Token × List Token)
peek_list ts zero = none
peek_list ts (suc k) = get_elem? ts k >>= λ t. some (t, ts)

abbrev next_list : List Token → Option (Token × List Token)
next_list [] = none
next_list (t ∷ ts) = some (t, ts)

pub peek_list-eq :
    (s : List Token) (k : ℕ) (t : Token) (ts : List Token)
    → s ≡ ts
    → get_elem? ts k ≡ some t
    → peek_list s (suc k) ≡ some (t, s)
peek_list-eq s k t ts h e = ap (λ o. o >>= λ u. some (u, s)) (ap (λ l. get_elem? l k) h ∙ e)

abbrev pub list_source : Source
list_source = record {
  State = List Token;
  next = next_list;
  peek = peek_list;
  Delivers = λ s ts. s ≡ ts;
  next-Delivers = λ s t ts h. (ts, ap next_list h, refl);
  peek-Delivers = λ s k t ts h few e. (s, peek_list-eq s k t ts h e, h);
}

abbrev pub int_entry : TypeEntry
int_entry = record { typename = view_of "int"; type_id = 0; type_info = none }

abbrev pub types : TypeSystem
types = record { types = int_entry ∷ []; bytes = 4096; len = 1; cap = 40 }

abbrev pub start : List Token → Parser list_source
start ts = init list_source ts types
