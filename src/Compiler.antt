-- ===== src/Compiler.antt =====
-- The compiler of move/parser.c: recursive descent over the scanner's tokens, which writes bytecode.
pub mod Code
pub mod Tokens
pub mod Primary
pub mod Operators
pub mod Definitions
pub mod Expr
pub mod Growth
pub mod Reads
pub mod Grammar
