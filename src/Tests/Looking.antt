-- ===== src/Tests/Looking.antt =====
-- The lexer's look-ahead, and the parser on a text.
use arnel_lang.Prelude.{ℕ, suc, ◌≡◌, refl, none, some, [], ◌∷◌, ◌++◌, arith}
use arnel_lang.Prelude.Size.{add_size, sub_size}
use arnel_lang.Ctype.{is_digit, is_alnum, is_space}
use arnel_lang.View.{make, chopn, no_view}
use arnel_lang.Token.{Token, l_semicolon, l_plus}
use arnel_lang.Lexer.State.{Lexer, trim_left, trim_from, chop_one}
use arnel_lang.Lexer.Keyword.{codes}
use arnel_lang.Lexer.Next.{next_raw, dispatch, one_char_token}
use arnel_lang.Lexer.Queue.{next_token, peek_token}
use arnel_lang.Lexer.Stream.{nothing, more}
use arnel_lang.Lexer.Source.{Delivers, peek_token-Delivers, next_token-Delivers}

abbrev plus_token : Token
plus_token = record { lexeme = no_view; type = some l_plus; line = 0; col = 0 }

-- `; ;` behind a look-ahead of one token
abbrev two_semicolons : Lexer
two_semicolons = record {
  text = make (record { addr = 4096; bytes = codes ";;" ++ 0 ∷ [] }) 2;
  toks = record { cap = 1; len = 1; slots = some plus_token ∷ [] };
  line = 0;
  col = 1;
}

abbrev semicolon_at : ℕ → Token
semicolon_at col = record { lexeme = no_view; type = some l_semicolon; line = 0; col = col }

delivered : Delivers two_semicolons (plus_token ∷ semicolon_at 1 ∷ semicolon_at 2 ∷ [])
unfolding next_raw add_size sub_size is_digit is_alnum is_space chopn trim_left trim_from chop_one
    dispatch one_char_token
delivered = record {
  queue = plus_token ∷ [];
  rest = semicolon_at 1 ∷ semicolon_at 2 ∷ [];
  holds = record { spare = []; slots = refl; len = refl; cap = refl; small = omega arith };
  some_cap = omega arith;
  small_cap = omega arith;
  yields = more refl (more refl (nothing _));
  whole = refl;
}

peek_token-Delivers_example :
    (l' : Lexer) × (peek_token two_semicolons (suc 1) ≡ some (semicolon_at 1, l'))
    × Delivers l' (plus_token ∷ semicolon_at 1 ∷ semicolon_at 2 ∷ [])
peek_token-Delivers_example =
    peek_token-Delivers two_semicolons 1 (semicolon_at 1)
      (plus_token ∷ semicolon_at 1 ∷ semicolon_at 2 ∷ []) delivered (omega arith) refl

next_token-Delivers_example :
    (l' : Lexer) × (next_token (some none) two_semicolons ≡ some (plus_token, l'))
    × Delivers l' (semicolon_at 1 ∷ semicolon_at 2 ∷ [])
next_token-Delivers_example =
    next_token-Delivers none two_semicolons plus_token (semicolon_at 1 ∷ semicolon_at 2 ∷ [])
      delivered
