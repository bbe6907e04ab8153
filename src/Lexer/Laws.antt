-- ===== src/Lexer/Laws.antt =====
-- What `__next_token` reads, for each form of token.
pub mod Trim
pub mod Words
pub mod Numbers
pub mod Operators
pub mod Strings
