-- ===== src/Bytecode.antt =====
-- Bytecode: the opcodes (src/cpp/ir/OpCode.hpp), the byte emitters (src/cpp/backend/Chunk.hpp and
-- src/cpp/v2/backend/MIRCompiler.cpp) and the linear decoder (src/cpp/backend/Disasm.cpp).
mod Tests
pub mod OpCode
pub mod Emit
pub mod Decode
