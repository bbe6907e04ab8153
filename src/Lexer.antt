-- ===== src/Lexer.antt =====
-- lexer.c: the lexer's state and the functions that read one token, in the build of the Makefile
-- (`-DARNEL_DEBUG_BUILD`), which counts lines and columns.
pub mod Keyword
pub mod State
pub mod Number
pub mod Word
pub mod Next
pub mod Queue
pub mod Stream
pub mod Refill
pub mod Source
pub mod Laws
