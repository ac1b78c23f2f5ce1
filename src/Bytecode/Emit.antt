-- ===== src/Bytecode/Emit.antt =====
-- The emitters of Chunk.hpp and MIRCompiler.cpp: how an instruction's operands become bytes.
use loxis_programming_langua.Prelude.{ℕ, ◌/◌, ◌%◌, ◌^◌, List, [], ◌∷◌, ◌++◌, ltb, if◌then◌else◌}
use loxis_programming_langua.Bytecode.OpCode.{OpCode, to_byte}

abbrev pub Bytes : Type 0
Bytes = List ℕ

-- `Chunk::emitU32`: four bytes, the lowest first.
unfoldable pub emit_u32 : ℕ → Bytes
emit_u32 value =
    (value / 2 ^ 0 % 256)
    ∷ (value / 2 ^ 8 % 256)
    ∷ (value / 2 ^ 16 % 256)
    ∷ (value / 2 ^ 24 % 256)
    ∷ []

-- `Chunk::emitI64`, on the two's complement bit pattern.
unfoldable pub emit_i64 : ℕ → Bytes
emit_i64 u =
    (u / 2 ^ 0 % 256)
    ∷ (u / 2 ^ 8 % 256)
    ∷ (u / 2 ^ 16 % 256)
    ∷ (u / 2 ^ 24 % 256)
    ∷ (u / 2 ^ 32 % 256)
    ∷ (u / 2 ^ 40 % 256)
    ∷ (u / 2 ^ 48 % 256)
    ∷ (u / 2 ^ 56 % 256)
    ∷ []

-- `enum class OperandTag`.
abbrev pub tag_reg : ℕ
tag_reg = 0x01

abbrev pub tag_imm64 : ℕ
tag_imm64 = 0x02

abbrev pub tag_str_idx : ℕ
tag_str_idx = 0x03

abbrev pub tag_addr : ℕ
tag_addr = 0x04

abbrev pub tag_null : ℕ
tag_null = 0x05

abbrev pub tag_float64 : ℕ
tag_float64 = 0x06

abbrev pub tag_wide_reg : ℕ
tag_wide_reg = 0x07

-- `MIRCompiler::emitReg`: one byte below 256, two above.
unfoldable pub emit_reg : ℕ → Bytes
emit_reg reg =
    if ltb reg 256
    then tag_reg ∷ (reg % 256) ∷ []
    else tag_wide_reg ∷ (reg % 256) ∷ (reg / 256 % 256) ∷ []

-- What the compiler writes as an operand: a register, an integer or a float bit pattern, an index
-- of the string pool, an address (as patched) or null.
pub data Operand : Type 0 where
  reg : ℕ → Operand
  imm64 : ℕ → Operand
  float64 : ℕ → Operand
  str_idx : ℕ → Operand
  addr : ℕ → Operand
  null : Operand

-- The operand that `emitOperandToReg` writes for a double, a string and null.
abbrev pub emit_float : ℕ → Bytes
emit_float bits = tag_float64 ∷ emit_i64 bits

abbrev pub emit_string : ℕ → Bytes
emit_string index = tag_str_idx ∷ emit_u32 index

abbrev pub emit_null : Bytes
emit_null = tag_null ∷ []

-- `emitReg`, `emitImm` and `emitAddr`, and these operands.
unfoldable pub emit_operand : Operand → Bytes
unfolding emit_reg emit_i64 emit_u32
emit_operand (reg r) = emit_reg r
emit_operand (imm64 v) = tag_imm64 ∷ emit_i64 v
emit_operand (float64 v) = emit_float v
emit_operand (str_idx i) = emit_string i
emit_operand (addr a) = tag_addr ∷ emit_u32 a
emit_operand null = emit_null

unfoldable pub emit_operands : List Operand → Bytes
emit_operands [] = []
emit_operands (x ∷ xs) = emit_operand x ++ emit_operands xs

pub record Instr : Type 0 where
  pub op : OpCode
  pub operands : List Operand

-- `m_chunk.emitByte(OpCode)` and then the operands.
unfoldable pub emit_instr : Instr → Bytes
emit_instr i = to_byte i.op ∷ emit_operands i.operands

unfoldable pub emit_code : List Instr → Bytes
emit_code [] = []
emit_code (i ∷ is) = emit_instr i ++ emit_code is
