-- ===== src/Lexer.antt =====
-- The lexer of the compiler front end, src/cpp/v2/frontend/Lexer.cpp.
mod Tests
pub mod Token
pub mod Cursor
pub mod Scan
pub mod Tokenize
