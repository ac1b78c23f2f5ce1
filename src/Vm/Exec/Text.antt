-- ===== src/Vm/Exec/Text.antt =====
-- The opcodes of `execJitInstruction` for output and strings.
pub mod Keeps
use loxis_programming_langua.Prelude.{
  ℕ, ◌%◌, ◌^◌, List, [], ◌∷◌, ◌++◌, Option, none, some, ◌==◌, if◌then◌else◌, length, get_elem?,
}
use loxis_programming_langua.Heap.State.{tag_int, tag_str}
use loxis_programming_langua.Bytecode.Emit.{Bytes}
use loxis_programming_langua.Bytecode.Decode.{DecodedOperand, OperandTag}
use loxis_programming_langua.Vm.Data.{Value, int_value, handle_of, Machine, Vm}
use loxis_programming_langua.Vm.Action.{
  Action, panicked, pure, stop, gets, or_stop, modify, ◌>>=◌, ◌>>◌,
}
use loxis_programming_langua.Vm.Roots.{read_reg, set_reg}
use loxis_programming_langua.Vm.Unwind.{intern_runtime_string, string_at}
use loxis_programming_langua.Vm.Exec.{Operands, operand, reg_of, next_ip}

module _ {G : Type 0} (m : Machine G) where
  -- What `Write` prints for a value: an integer or a string, a panic for another tag.
  unfoldable pub shown : Value → Vm G → Option Bytes
  shown v s =
      if v.tag == tag_int
      then some (m.host.to_string v.value)
      else if v.tag == tag_str
      then string_at m.program s (handle_of v)
      else none

  unfoldable pub put_output : Bytes → Action G Unit
  put_output text = modify (λ s. record s { output = s.output ++ text })

module _ {G : Type 0} (m : Machine G) (os : Operands) where
  text_of : DecodedOperand → OperandTag → Action G Bytes
  text_of o OperandTag.imm64 = pure (m.host.to_string o.int_val)
  text_of o OperandTag.str_idx = or_stop (get_elem? m.program.strings o.str_idx) panicked
  text_of o OperandTag.reg = do
    v ← read_reg (reg_of o)
    s ← gets (λ s. s)
    or_stop (shown m v s) panicked
  text_of o _ = stop panicked

  -- `Write`, and `Print`, which ends the line.
  unfoldable pub exec_write : Bytes → Action G Unit
  unfolding text_of
  exec_write suffix = do
    o0 ← operand os 0
    text ← text_of o0 o0.tag
    put_output m (text ++ suffix)
    next_ip

  length_or_zero : Option Bytes → ℕ
  length_or_zero none = 0
  length_or_zero (some t) = length t

  -- A string that is not there has length 0.
  string_length : DecodedOperand → OperandTag → Action G ℕ
  unfolding length_or_zero
  string_length o OperandTag.str_idx = pure (length_or_zero (get_elem? m.program.strings o.str_idx))
  string_length o OperandTag.reg = do
    v ← read_reg (reg_of o)
    s ← gets (λ s. s)
    pure (if v.tag == tag_str then length_or_zero (string_at m.program s (handle_of v)) else 0)
  string_length o _ = pure 0

  unfoldable pub exec_str_len : Action G Unit
  unfolding string_length length_or_zero
  exec_str_len = do
    o0 ← operand os 0
    o1 ← operand os 1
    n ← string_length o0 o0.tag
    set_reg m.backend (reg_of o1) (int_value n)
    next_ip

  string_or_empty : Option Bytes → Bytes
  string_or_empty none = []
  string_or_empty (some t) = t

  -- A value without a text becomes the empty string.
  converted : DecodedOperand → OperandTag → Action G Bytes
  unfolding string_or_empty
  converted o OperandTag.str_idx = pure (string_or_empty (get_elem? m.program.strings o.str_idx))
  converted o OperandTag.reg = do
    v ← read_reg (reg_of o)
    s ← gets (λ s. s)
    pure (string_or_empty (shown m v s))
  converted o OperandTag.imm64 = pure (m.host.to_string o.int_val)
  converted o _ = pure []

  unfoldable pub exec_to_str : Action G Unit
  unfolding converted string_or_empty
  exec_to_str = do
    o0 ← operand os 0
    o1 ← operand os 1
    text ← converted o0 o0.tag
    i ← intern_runtime_string text
    set_reg m.backend (reg_of o1) (record { value = i; tag = tag_str })
    next_ip
