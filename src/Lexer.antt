-- ===== src/Lexer.antt =====
-- The lexer of NTASM, from `letter` to `next` in bootstrap/quarantine/c/frontend.c. A pointer into the
-- source is an offset from its start.
pub mod Fuel
pub mod Literals
pub mod Loops
pub mod Digits
pub mod Numbers
pub mod Places
pub mod Progress
pub mod Stream
pub mod Text
pub mod Tokens
