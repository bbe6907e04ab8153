-- ===== src/Tests.antt =====
-- Runs of the definitions at concrete inputs, and the theorems at inputs that meet their hypotheses.
mod Lexing
mod Storage
mod Compiling
mod Maps
mod Tokens
mod Parsing
mod Misreading
mod Looking
mod Texts
mod Running
