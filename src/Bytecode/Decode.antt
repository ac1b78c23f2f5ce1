-- ===== src/Bytecode/Decode.antt =====
-- `operandCountFor`, `decodeOperandAt` and `decodeBytecode` of src/cpp/backend/Disasm.cpp. The
-- code from `ip` on is the list `rest`, so `ip >= code.size()` is `rest ≡ []`; the offset is kept
-- beside it. The code is shorter than 2^32 bytes, so that `ip` does not wrap.
pub mod Offsets
pub mod RoundTrip
use loxis_programming_langua.Prelude.{
  ℕ, zero, suc, ◌+◌, ◌-◌, ◌*◌, ◌^◌, Bool, false, List, [], ◌∷◌, Option, none, some, leb, ◌==◌,
  if◌then◌else◌, length,
}
use loxis_programming_langua.Bytecode.OpCode
use loxis_programming_langua.Bytecode.OpCode.{OpCode, of_byte}
use loxis_programming_langua.Bytecode.Emit.{
  Bytes, tag_reg, tag_imm64, tag_str_idx, tag_addr, tag_null, tag_float64, tag_wide_reg,
}

-- Tags as `DecodedOperand` keeps them; `WideReg` is folded into `Reg`.
pub data OperandTag : Type 0 where
  reg imm64 str_idx addr null float64 : OperandTag

-- `intVal` is a bit pattern of 64 bits.
pub record DecodedOperand : Type 0 where
  pub tag : OperandTag
  pub int_val : ℕ
  pub str_idx : ℕ

pub record DecodedInstr : Type 0 where
  pub op : OpCode
  pub byte_offset : ℕ
  pub operands : List DecodedOperand

abbrev starts_with_addr : Bytes → Bool
starts_with_addr [] = false
starts_with_addr (b ∷ _) = b == tag_addr

-- `operandCountFor`; `none` is its `false`.
unfoldable pub operand_count_for : OpCode → Bytes → Option ℕ
operand_count_for OpCode.nop rest = some 0
operand_count_for OpCode.ret rest = some 0
operand_count_for OpCode.try_pop rest = some 0
operand_count_for OpCode.halt rest = some 0
operand_count_for OpCode.jnz rest = some 1
operand_count_for OpCode.jz rest = some 1
operand_count_for OpCode.jn rest = some 1
operand_count_for OpCode.call rest = some 1
operand_count_for OpCode.write rest = some 1
operand_count_for OpCode.print rest = some 1
operand_count_for OpCode.push_r rest = some 1
operand_count_for OpCode.pop_r rest = some 1
operand_count_for OpCode.throw rest = some 1
operand_count_for OpCode.h_free rest = some 1
operand_count_for OpCode.syscall rest = some 1
operand_count_for OpCode.push rest = some 2
operand_count_for OpCode.mov rest = some 2
operand_count_for OpCode.cmp rest = some 2
operand_count_for OpCode.jmp rest = some 2
operand_count_for OpCode.g_load rest = some 2
operand_count_for OpCode.g_store rest = some 2
operand_count_for OpCode.i_to_f rest = some 2
operand_count_for OpCode.f_to_i rest = some 2
operand_count_for OpCode.f_neg rest = some 2
operand_count_for OpCode.null_chk rest = some 2
operand_count_for OpCode.type_of rest = some 2
operand_count_for OpCode.str_len rest = some 2
operand_count_for OpCode.to_str rest = some 2
operand_count_for OpCode.try_push rest = some 2
operand_count_for OpCode.call_ind rest = some 2
operand_count_for OpCode.add rest = some 3
operand_count_for OpCode.sub rest = some 3
operand_count_for OpCode.mul rest = some 3
operand_count_for OpCode.div rest = some 3
operand_count_for OpCode.h_store rest = some 3
operand_count_for OpCode.h_load rest = some 3
operand_count_for OpCode.alloc rest = some 3
operand_count_for OpCode.shl rest = some 3
operand_count_for OpCode.shr rest = some 3
operand_count_for OpCode.rem rest = some 3
operand_count_for OpCode.bit_and rest = some 3
operand_count_for OpCode.bit_or rest = some 3
operand_count_for OpCode.bit_xor rest = some 3
operand_count_for OpCode.f_add rest = some 3
operand_count_for OpCode.f_sub rest = some 3
operand_count_for OpCode.f_mul rest = some 3
operand_count_for OpCode.f_div rest = some 3
operand_count_for OpCode.is_a rest = some 3
operand_count_for OpCode.v_call rest = some 4
operand_count_for OpCode.i_call rest = some 5
operand_count_for OpCode.skip rest = some (if starts_with_addr rest then 1 else 0)
operand_count_for _ rest = none

-- Four bytes and eight bytes, the lowest first. The shifted bytes do not overlap, so `|=` adds.
unfoldable pub read_u32 : Bytes → Option (ℕ × Bytes)
read_u32 (a ∷ b ∷ c ∷ d ∷ rest) = some (a + b * 2 ^ 8 + c * 2 ^ 16 + d * 2 ^ 24, rest)
read_u32 _ = none

unfoldable pub read_u64 : Bytes → Option (ℕ × Bytes)
read_u64 (a ∷ b ∷ c ∷ d ∷ e ∷ f ∷ g ∷ h ∷ rest) = some (
  a + b * 2 ^ 8 + c * 2 ^ 16 + d * 2 ^ 24 + e * 2 ^ 32 + f * 2 ^ 40 + g * 2 ^ 48 + h * 2 ^ 56,
  rest,
)
read_u64 _ = none

abbrev pub int_operand : OperandTag → ℕ → DecodedOperand
int_operand t v = record { tag = t; int_val = v; str_idx = 0 }

abbrev pub str_operand : ℕ → DecodedOperand
str_operand i = record { tag = OperandTag.str_idx; int_val = 0; str_idx = i }

decode_wide : Bytes → Option (DecodedOperand × Bytes)
decode_wide (lo ∷ hi ∷ rest) =
    let v = lo + hi * 2 ^ 8 in
    if leb 4096 v then none else some (int_operand OperandTag.reg v, rest)
decode_wide _ = none

decode_narrow : Bytes → Option (DecodedOperand × Bytes)
decode_narrow [] = none
decode_narrow (r ∷ rest) = some (int_operand OperandTag.reg r, rest)

abbrev with_value : (ℕ → DecodedOperand) → Option (ℕ × Bytes) → Option (DecodedOperand × Bytes)
with_value f none = none
with_value f (some (v, rest)) = some (f v, rest)

-- `decodeOperandAt`, the switch behind the tag byte.
decode_tagged : ℕ → Bytes → Option (DecodedOperand × Bytes)
unfolding decode_wide decode_narrow
decode_tagged tag rest =
    if tag == tag_wide_reg
    then decode_wide rest
    else if tag == tag_reg
    then decode_narrow rest
    else if tag == tag_null
    then some (int_operand OperandTag.null 0, rest)
    else if tag == tag_float64
    then with_value (int_operand OperandTag.float64) (read_u64 rest)
    else if tag == tag_imm64
    then with_value (int_operand OperandTag.imm64) (read_u64 rest)
    else if tag == tag_str_idx
    then with_value str_operand (read_u32 rest)
    else if tag == tag_addr
    then with_value (int_operand OperandTag.addr) (read_u32 rest)
    else none

-- `decodeOperandAt`; `none` is its `false`.
unfoldable pub decode_operand_at : Bytes → Option (DecodedOperand × Bytes)
unfolding decode_tagged
decode_operand_at [] = none
decode_operand_at (tag ∷ rest) = decode_tagged tag rest

-- The `for` loop over the operands of one instruction, with what it read so far put in front.
unfoldable pub decode_operands : ℕ → Bytes → Option (List DecodedOperand × Bytes)
decode_operands zero rest = some ([], rest)
decode_operands (suc n) rest = elim (decode_operand_at rest) [
  | none ↦ none
  | some (x, rest') ↦ elim (decode_operands n rest') [
    | none ↦ none
    | some (xs, rest'') ↦ some (x ∷ xs, rest'')
  ]
]

-- What `decodeBytecode` returns: the instructions, or the offset at which it gave up and why.
pub data Decoded : Type 0 where
  decoded : List DecodedInstr → Decoded
  unknown_opcode : ℕ → Decoded
  malformed_operand : ℕ → Decoded
  out_of_fuel : Decoded

abbrev pub cons_instr : DecodedInstr → Decoded → Decoded
cons_instr i (decoded is) = decoded (i ∷ is)
cons_instr i (unknown_opcode o) = unknown_opcode o
cons_instr i (malformed_operand o) = malformed_operand o
cons_instr i out_of_fuel = out_of_fuel

-- One round of the `while` loop on the opcode byte `b` at offset `ip`: the instruction and the
-- bytes behind it, or the error.
pub data Step : Type 0 where
  instr : DecodedInstr → Bytes → Step
  bad_opcode bad_operand : Step

step_operands : OpCode → ℕ → Option ℕ → Bytes → Step
step_operands o ip none rest = Step.bad_opcode
step_operands o ip (some n) rest = elim (decode_operands n rest) [
  | none ↦ Step.bad_operand
  | some (xs, rest') ↦ Step.instr (record { op = o; byte_offset = ip; operands = xs }) rest'
]

step_op : Option OpCode → ℕ → Bytes → Step
step_op none ip rest = Step.bad_opcode
step_op (some o) ip rest = step_operands o ip (operand_count_for o rest) rest

unfoldable pub decode_step : ℕ → ℕ → Bytes → Step
unfolding step_op step_operands
decode_step ip b rest = step_op (of_byte b) ip rest

-- The offset behind what was consumed.
abbrev pub offset_after : ℕ → Bytes → Bytes → ℕ
offset_after ip rest rest' = ip + suc (length rest) - length rest'

-- The `while` loop; one unit of fuel for an instruction.
unfoldable pub decode_from : ℕ → ℕ → Bytes → Decoded
decode_from fuel ip [] = decoded []
decode_from zero ip (b ∷ rest) = out_of_fuel
decode_from (suc fuel) ip (b ∷ rest) = elim (decode_step ip b rest) [
  | Step.instr i rest' ↦ cons_instr i (decode_from fuel (offset_after ip rest rest') rest')
  | Step.bad_opcode ↦ unknown_opcode ip
  | Step.bad_operand ↦ malformed_operand ip
]

-- `decodeBytecode`: no instruction is shorter than a byte, so the code's length is fuel enough.
unfoldable pub decode_bytecode : Bytes → Decoded
decode_bytecode code = decode_from (length code) 0 code
