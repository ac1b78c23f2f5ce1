-- ===== src/Vm/Exec/Text/Keeps.antt =====
-- The opcodes of Vm.Exec.Text keep every stable invariant.
use loxis_programming_langua.Bytecode.Emit.{Bytes}
use loxis_programming_langua.Bytecode.Decode.{DecodedOperand, OperandTag}
use loxis_programming_langua.Vm.Data.{Machine, Vm}
use loxis_programming_langua.Vm.Keeps.{Keeps, Keeps-modify, keeps_rules}
use loxis_programming_langua.Vm.Stable.{IsStable}
use loxis_programming_langua.Vm.Exec.Keeps.{stable_rules, opcode_rules, read_reg-Keeps}
use loxis_programming_langua.Vm.Exec.{Operands}
use loxis_programming_langua.Vm.Exec.Text.{
  put_output, text_of, string_length, converted, exec_write, exec_str_len, exec_to_str,
}

module _ {G : Type 0} (m : Machine G) {I : Vm G → Type 0} (L : IsStable m I) where
  pub put_output-Keeps : (text : Bytes) → Keeps I (put_output m text)
  unfolding put_output
  put_output-Keeps text = Keeps-modify _ (λ s h. L.output_law s _ h)

module _ {G : Type 0} (m : Machine G) {I : Vm G → Type 0} (L : IsStable m I) (os : Operands) where
  text_of-Keeps : (o : DecodedOperand) (t : OperandTag) → Keeps I (text_of m os o t)
  unfolding text_of
  text_of-Keeps o OperandTag.reg = search (keeps_rules, read_reg-Keeps)
  text_of-Keeps o OperandTag.imm64 = search (keeps_rules)
  text_of-Keeps o OperandTag.null = search (keeps_rules)
  text_of-Keeps o OperandTag.float64 = search (keeps_rules)
  text_of-Keeps o OperandTag.str_idx = search (keeps_rules)
  text_of-Keeps o OperandTag.addr = search (keeps_rules)

  string_length-Keeps : (o : DecodedOperand) (t : OperandTag) → Keeps I (string_length m os o t)
  unfolding string_length
  string_length-Keeps o OperandTag.reg = search (keeps_rules, read_reg-Keeps)
  string_length-Keeps o OperandTag.imm64 = search (keeps_rules)
  string_length-Keeps o OperandTag.null = search (keeps_rules)
  string_length-Keeps o OperandTag.float64 = search (keeps_rules)
  string_length-Keeps o OperandTag.str_idx = search (keeps_rules)
  string_length-Keeps o OperandTag.addr = search (keeps_rules)

  converted-Keeps : (o : DecodedOperand) (t : OperandTag) → Keeps I (converted m os o t)
  unfolding converted
  converted-Keeps o OperandTag.reg = search (keeps_rules, read_reg-Keeps)
  converted-Keeps o OperandTag.imm64 = search (keeps_rules)
  converted-Keeps o OperandTag.null = search (keeps_rules)
  converted-Keeps o OperandTag.float64 = search (keeps_rules)
  converted-Keeps o OperandTag.str_idx = search (keeps_rules)
  converted-Keeps o OperandTag.addr = search (keeps_rules)

  ruleset text_rules = (put_output-Keeps, text_of-Keeps, string_length-Keeps, converted-Keeps)

  pub exec_write-Keeps : (suffix : Bytes) → Keeps I (exec_write m os suffix)
  unfolding exec_write
  exec_write-Keeps suffix =
      search (keeps_rules, stable_rules, opcode_rules, text_rules, L) depth 40 fits 4000

  pub exec_str_len-Keeps : Keeps I (exec_str_len m os)
  unfolding exec_str_len
  exec_str_len-Keeps =
      search (keeps_rules, stable_rules, opcode_rules, text_rules, L) depth 40 fits 4000

  pub exec_to_str-Keeps : Keeps I (exec_to_str m os)
  unfolding exec_to_str
  exec_to_str-Keeps =
      search (keeps_rules, stable_rules, opcode_rules, text_rules, L) depth 40 fits 4000
