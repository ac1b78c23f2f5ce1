-- ===== src/Vm/Exec.antt =====
-- What the opcodes share in `execJitInstruction`: operands, jumps, and the table of jump targets that
-- `tryBuildJit` makes.
pub mod Keeps
pub mod Control
pub mod Memory
pub mod Calls
pub mod Arith
pub mod Text
pub mod Syscall
pub mod Dispatch
pub mod Targets
use loxis_programming_langua.Prelude.{
  ℕ, zero, suc, ◌+◌, ◌%◌, ◌^◌, Bool, List, [], ◌∷◌, Option, none, some, update, get_elem?,
}
use loxis_programming_langua.Bytecode.Decode.{
  DecodedInstr, DecodedOperand, OperandTag, Decoded, decoded, decode_bytecode,
}
use loxis_programming_langua.Bytecode.Emit.{Bytes}
use loxis_programming_langua.Vm.Data.{Value, Program, Machine, Vm}
use loxis_programming_langua.Vm.Action.{
  Action, ok, panicked, undefined, pure, stop, gets, or_stop, modify, ◌>>=◌, ◌>>◌,
}
use loxis_programming_langua.Vm.Roots.{read_reg}
use loxis_programming_langua.Vm.Unwind.{set_ip}

-- `m_jitIpMap[offset] = index` for each instruction in turn.
unfoldable pub jit_ip_map : List DecodedInstr → ℕ → (ℕ → Option ℕ) → ℕ → Option ℕ
jit_ip_map [] index map = map
jit_ip_map (i ∷ is) index map = jit_ip_map is (index + 1) (update map i.byte_offset (some index))

-- `tryBuildJit`: the code is the decoded one; `none` is its `false`.
unfoldable pub try_build_jit : Bytes → Option (List DecodedInstr)
try_build_jit code = elim (decode_bytecode code) [ decoded is ↦ some is | _ ↦ none ]

unfoldable pub resolve_jit_target : Program → ℕ → Option ℕ
unfolding jit_ip_map
resolve_jit_target p offset = jit_ip_map p.jit_code 0 (λ _. none) offset

-- The casts of an operand to uint16_t and to uint32_t.
abbrev pub reg_of : DecodedOperand → ℕ
reg_of o = o.int_val % 2 ^ 16

abbrev pub imm32 : DecodedOperand → ℕ
imm32 o = o.int_val % 2 ^ 32

abbrev pub Operands : Type 0
Operands = List DecodedOperand

module _ {G : Type 0} where
  -- `instr.operands[i]`, undefined past the end.
  unfoldable pub operand : Operands → ℕ → Action G DecodedOperand
  operand os i = or_stop (get_elem? os i) undefined

  int_of : OperandTag → DecodedOperand → Action G ℕ
  int_of OperandTag.reg o = do v ← read_reg (reg_of o); pure v.value
  int_of OperandTag.imm64 o = pure o.int_val
  int_of _ o = stop panicked

  unfoldable pub read_int_operand : DecodedOperand → Action G ℕ
  unfolding int_of
  read_int_operand o = int_of o.tag o

  -- `m_jitIp++`.
  unfoldable pub next_ip : Action G Unit
  next_ip = modify (λ s. record s { jit_ip = s.jit_ip + 1 })

  -- A jump to a byte offset, a panic if no instruction starts there.
  unfoldable pub jump : Program → ℕ → Action G Unit
  jump p offset = do target ← or_stop (resolve_jit_target p offset) panicked; set_ip target
