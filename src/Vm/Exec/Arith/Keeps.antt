-- ===== src/Vm/Exec/Arith/Keeps.antt =====
-- The opcodes of Vm.Exec.Arith keep every stable invariant.
use loxis_programming_langua.Prelude.{ℕ, Bool, Option}
use loxis_programming_langua.Bytecode.Emit.{Bytes}
use loxis_programming_langua.Bytecode.Decode.{DecodedOperand, OperandTag}
use loxis_programming_langua.Vm.Data.{Value, Machine, Vm}
use loxis_programming_langua.Vm.Keeps.{Keeps, Keeps-modify, keeps_rules}
use loxis_programming_langua.Vm.Stable.{IsStable}
use loxis_programming_langua.Vm.Exec.Keeps.{stable_rules, opcode_rules, read_reg-Keeps}
use loxis_programming_langua.Vm.Exec.{Operands}
use loxis_programming_langua.Vm.Exec.Arith.{
  pool_string, read_string_operand, add_ints, join, add_by, set_flags, compare_strings,
  compare_values, exec_binary, exec_shift, exec_divide, exec_float, exec_convert, exec_add,
  exec_f_add, exec_cmp, exec_sub, exec_mul, exec_bit_and, exec_bit_or, exec_bit_xor, exec_shl,
  exec_shr, exec_div, exec_rem, exec_f_sub, exec_f_mul, exec_f_div, exec_i_to_f, exec_f_to_i,
  exec_f_neg,
}

module _ {G : Type 0} (m : Machine G) {I : Vm G → Type 0} (L : IsStable m I) (os : Operands) where
  pool_string-Keeps :
      (o : DecodedOperand) (t : OperandTag) (s : Vm G) → Keeps I (pool_string m os o t s)
  unfolding pool_string
  pool_string-Keeps o OperandTag.reg s = search (keeps_rules, read_reg-Keeps)
  pool_string-Keeps o OperandTag.imm64 s = search (keeps_rules)
  pool_string-Keeps o OperandTag.null s = search (keeps_rules)
  pool_string-Keeps o OperandTag.float64 s = search (keeps_rules)
  pool_string-Keeps o OperandTag.str_idx s = search (keeps_rules)
  pool_string-Keeps o OperandTag.addr s = search (keeps_rules)

  read_string_operand-Keeps : (o : DecodedOperand) → Keeps I (read_string_operand m os o)
  unfolding read_string_operand
  read_string_operand-Keeps o = search (keeps_rules, pool_string-Keeps)

  add_ints-Keeps :
      (dst : DecodedOperand) (x : Value) (val : DecodedOperand) → Keeps I (add_ints m os dst x val)
  unfolding add_ints
  add_ints-Keeps dst x val = search (keeps_rules, stable_rules, opcode_rules, L) depth 40 fits 4000

  join-Keeps : (dst src val : DecodedOperand) → Keeps I (join m os dst src val)
  unfolding join
  join-Keeps dst src val =
      search (keeps_rules, stable_rules, opcode_rules, read_string_operand-Keeps, L) depth 40 fits
        4000

  add_by-Keeps :
      (dst src val : DecodedOperand) (x : Value) (t : OperandTag)
      → Keeps I (add_by m os dst src val x t)
  unfolding add_by
  add_by-Keeps dst src val x OperandTag.reg =
      search (keeps_rules, read_reg-Keeps, join-Keeps, add_ints-Keeps)
  add_by-Keeps dst src val x OperandTag.imm64 = search (keeps_rules, add_ints-Keeps)
  add_by-Keeps dst src val x OperandTag.null = search (keeps_rules, add_ints-Keeps)
  add_by-Keeps dst src val x OperandTag.float64 = search (keeps_rules, add_ints-Keeps)
  add_by-Keeps dst src val x OperandTag.str_idx = search (keeps_rules, add_ints-Keeps)
  add_by-Keeps dst src val x OperandTag.addr = search (keeps_rules, add_ints-Keeps)

  set_flags-Keeps : (z n : Bool) → Keeps I (set_flags m os z n)
  unfolding set_flags
  set_flags-Keeps z n = Keeps-modify _ (λ s h. L.flags_law s z n h)

  compare_strings-Keeps : (o0 o1 : DecodedOperand) → Keeps I (compare_strings m os o0 o1)
  unfolding compare_strings
  compare_strings-Keeps o0 o1 = search (keeps_rules, read_string_operand-Keeps, set_flags-Keeps)

  compare_values-Keeps :
      (o0 o1 : DecodedOperand) (x y : Value) → Keeps I (compare_values m os o0 o1 x y)
  unfolding compare_values
  compare_values-Keeps o0 o1 x y = search (keeps_rules, compare_strings-Keeps, set_flags-Keeps)

  ruleset arith_rules = (add_by-Keeps, compare_values-Keeps)

  pub exec_binary-Keeps : (f : ℕ → ℕ → ℕ) → Keeps I (exec_binary m os f)
  unfolding exec_binary
  exec_binary-Keeps f = search (keeps_rules, stable_rules, opcode_rules, L) depth 40 fits 4000

  pub exec_shift-Keeps : (f : ℕ → ℕ → Option ℕ) → Keeps I (exec_shift m os f)
  unfolding exec_shift
  exec_shift-Keeps f = search (keeps_rules, stable_rules, opcode_rules, L) depth 40 fits 4000

  pub exec_divide-Keeps : (f : ℕ → ℕ → ℕ) (error : Bytes) → Keeps I (exec_divide m os f error)
  unfolding exec_divide
  exec_divide-Keeps f error = search (keeps_rules, stable_rules, opcode_rules, L) depth 40 fits 4000

  pub exec_float-Keeps : (f : ℕ → ℕ → ℕ) → Keeps I (exec_float m os f)
  unfolding exec_float
  exec_float-Keeps f = search (keeps_rules, stable_rules, opcode_rules, L) depth 40 fits 4000

  pub exec_convert-Keeps : (f : ℕ → Value) → Keeps I (exec_convert m os f)
  unfolding exec_convert
  exec_convert-Keeps f = search (keeps_rules, stable_rules, opcode_rules, L) depth 40 fits 4000

  pub exec_add-Keeps : Keeps I (exec_add m os)
  unfolding exec_add
  exec_add-Keeps = search (keeps_rules, stable_rules, opcode_rules, arith_rules) depth 40 fits 4000

  pub exec_f_add-Keeps : Keeps I (exec_f_add m os)
  unfolding exec_f_add
  exec_f_add-Keeps =
      search (keeps_rules, stable_rules, opcode_rules, arith_rules, L) depth 40 fits 4000

  pub exec_cmp-Keeps : Keeps I (exec_cmp m os)
  unfolding exec_cmp
  exec_cmp-Keeps =
      search (keeps_rules, stable_rules, opcode_rules, arith_rules, L) depth 40 fits 4000

  pub exec_sub-Keeps : Keeps I (exec_sub m os)
  unfolding exec_sub
  exec_sub-Keeps = exec_binary-Keeps _

  pub exec_mul-Keeps : Keeps I (exec_mul m os)
  unfolding exec_mul
  exec_mul-Keeps = exec_binary-Keeps _

  pub exec_bit_and-Keeps : Keeps I (exec_bit_and m os)
  unfolding exec_bit_and
  exec_bit_and-Keeps = exec_binary-Keeps _

  pub exec_bit_or-Keeps : Keeps I (exec_bit_or m os)
  unfolding exec_bit_or
  exec_bit_or-Keeps = exec_binary-Keeps _

  pub exec_bit_xor-Keeps : Keeps I (exec_bit_xor m os)
  unfolding exec_bit_xor
  exec_bit_xor-Keeps = exec_binary-Keeps _

  pub exec_shl-Keeps : Keeps I (exec_shl m os)
  unfolding exec_shl
  exec_shl-Keeps = exec_shift-Keeps _

  pub exec_shr-Keeps : Keeps I (exec_shr m os)
  unfolding exec_shr
  exec_shr-Keeps = exec_shift-Keeps _

  pub exec_div-Keeps : Keeps I (exec_div m os)
  unfolding exec_div
  exec_div-Keeps = exec_divide-Keeps _ _

  pub exec_rem-Keeps : Keeps I (exec_rem m os)
  unfolding exec_rem
  exec_rem-Keeps = exec_divide-Keeps _ _

  pub exec_f_sub-Keeps : Keeps I (exec_f_sub m os)
  unfolding exec_f_sub
  exec_f_sub-Keeps = exec_float-Keeps _

  pub exec_f_mul-Keeps : Keeps I (exec_f_mul m os)
  unfolding exec_f_mul
  exec_f_mul-Keeps = exec_float-Keeps _

  pub exec_f_div-Keeps : Keeps I (exec_f_div m os)
  unfolding exec_f_div
  exec_f_div-Keeps = exec_float-Keeps _

  pub exec_i_to_f-Keeps : Keeps I (exec_i_to_f m os)
  unfolding exec_i_to_f
  exec_i_to_f-Keeps = exec_convert-Keeps _

  pub exec_f_to_i-Keeps : Keeps I (exec_f_to_i m os)
  unfolding exec_f_to_i
  exec_f_to_i-Keeps = exec_convert-Keeps _

  pub exec_f_neg-Keeps : Keeps I (exec_f_neg m os)
  unfolding exec_f_neg
  exec_f_neg-Keeps = exec_convert-Keeps _
