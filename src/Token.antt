-- ===== src/Token.antt =====
-- lexer.h: the kinds of token and the token record.
use arnel_lang.Prelude.{ℕ, Option}
use arnel_lang.View.{View}

pub data TokenType : Type 0 where
  l_integer l_float : TokenType
  l_string : TokenType
  l_ident : TokenType
  l_mult_eq : TokenType
  l_plus l_minus l_plus_eq l_minus_eq l_eq l_bang l_div l_div_eq l_backslash : TokenType
  l_plus2 l_minus2 l_eq2 l_bang_eq l_comma : TokenType
  l_less l_greater l_eq_greater l_eq_less : TokenType
  l_arrow_l l_arrow_r l_colon l_semicolon : TokenType
  l_rparen l_lparen l_rcurly l_lcurly l_rbrack l_lbrack : TokenType
  l_pipe : TokenType
  l_bor l_band l_bor_eq l_band_eq l_hat l_hat_eq l_tilda : TokenType
  l_question l_quot l_quot2 : TokenType
  l_true l_false : TokenType
  l_dot l_qdot l_star l_ref : TokenType
  l_backtick : TokenType
  l_symbol l_struct l_const l_var : TokenType
  l_dog l_percent l_export l_local l_return : TokenType
  l_void l_nothing l_undefined l_nan : TokenType
  l_extern l_static l_name l_names l_as : TokenType
  l_import : TokenType
  l_if l_else l_elif l_while l_for l_in : TokenType
  l_eof : TokenType

-- `type` is `none` where the code leaves the field of the new allocation unset. A lexeme whose
-- pointer is NULL has an unset length, which nothing reads.
pub record Token : Type 0 where
  pub lexeme : View
  pub type : Option TokenType
  pub line : ℕ
  pub col : ℕ
