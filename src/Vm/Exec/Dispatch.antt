-- ===== src/Vm/Exec/Dispatch.antt =====
-- The switch of `execJitInstruction`.
pub mod Keeps
use loxis_programming_langua.Prelude.{Bool, true, false, [], ◌∷◌}
use loxis_programming_langua.Bytecode.OpCode
use loxis_programming_langua.Bytecode.OpCode.{OpCode}
use loxis_programming_langua.Bytecode.Decode.{DecodedInstr}
use loxis_programming_langua.Vm.Data.{Machine}
use loxis_programming_langua.Vm.Action.{Action, panicked, pure, stop, ◌>>=◌, ◌>>◌}
use loxis_programming_langua.Vm.Exec.{Operands, next_ip}
use loxis_programming_langua.Vm.Exec.Control.{
  exec_try_push, exec_try_pop, exec_throw, exec_jmp, exec_jnz, exec_jz, exec_jn, exec_null_chk,
  exec_skip,
}
use loxis_programming_langua.Vm.Exec.Calls.{
  exec_call, exec_call_ind, exec_v_call, exec_i_call, exec_ret,
}
use loxis_programming_langua.Vm.Exec.Memory.{
  exec_push, exec_mov, exec_push_r, exec_pop_r, exec_alloc, exec_h_free, exec_h_store, exec_h_load,
  exec_g_load, exec_g_store, exec_type_of, exec_is_a,
}
use loxis_programming_langua.Vm.Exec.Arith.{
  exec_sub, exec_mul, exec_bit_and, exec_bit_or, exec_bit_xor, exec_shl, exec_shr, exec_div,
  exec_rem, exec_add, exec_f_add, exec_f_sub, exec_f_mul, exec_f_div, exec_i_to_f, exec_f_to_i,
  exec_f_neg, exec_cmp,
}
use loxis_programming_langua.Vm.Exec.Text.{exec_write, exec_str_len, exec_to_str}
use loxis_programming_langua.Vm.Exec.Syscall.{exec_syscall}

module _ {G : Type 0} (m : Machine G) where
  -- The opcodes that do not halt.
  exec_running : OpCode → Operands → Action G Unit
  exec_running OpCode.nop os = next_ip
  exec_running OpCode.pop os = next_ip
  exec_running OpCode.try_push os = exec_try_push m os
  exec_running OpCode.try_pop os = exec_try_pop m os
  exec_running OpCode.throw os = exec_throw m os
  exec_running OpCode.is_a os = exec_is_a m os
  exec_running OpCode.push os = exec_push m os
  exec_running OpCode.push_r os = exec_push_r m os
  exec_running OpCode.pop_r os = exec_pop_r m os
  exec_running OpCode.alloc os = exec_alloc m os
  exec_running OpCode.h_free os = exec_h_free m os
  exec_running OpCode.h_store os = exec_h_store m os
  exec_running OpCode.h_load os = exec_h_load m os
  exec_running OpCode.mov os = exec_mov m os
  exec_running OpCode.g_load os = exec_g_load m os
  exec_running OpCode.g_store os = exec_g_store m os
  exec_running OpCode.add os = exec_add m os
  exec_running OpCode.sub os = exec_sub m os
  exec_running OpCode.mul os = exec_mul m os
  exec_running OpCode.div os = exec_div m os
  exec_running OpCode.shl os = exec_shl m os
  exec_running OpCode.shr os = exec_shr m os
  exec_running OpCode.rem os = exec_rem m os
  exec_running OpCode.bit_and os = exec_bit_and m os
  exec_running OpCode.bit_or os = exec_bit_or m os
  exec_running OpCode.bit_xor os = exec_bit_xor m os
  exec_running OpCode.f_add os = exec_f_add m os
  exec_running OpCode.f_sub os = exec_f_sub m os
  exec_running OpCode.f_mul os = exec_f_mul m os
  exec_running OpCode.f_div os = exec_f_div m os
  exec_running OpCode.i_to_f os = exec_i_to_f m os
  exec_running OpCode.f_to_i os = exec_f_to_i m os
  exec_running OpCode.f_neg os = exec_f_neg m os
  exec_running OpCode.cmp os = exec_cmp m os
  exec_running OpCode.jmp os = exec_jmp m os
  exec_running OpCode.jnz os = exec_jnz m os
  exec_running OpCode.jz os = exec_jz m os
  exec_running OpCode.jn os = exec_jn m os
  exec_running OpCode.call os = exec_call m os
  exec_running OpCode.null_chk os = exec_null_chk m os
  exec_running OpCode.call_ind os = exec_call_ind m os
  exec_running OpCode.write os = exec_write m os []
  exec_running OpCode.print os = exec_write m os (10 ∷ [])
  exec_running OpCode.str_len os = exec_str_len m os
  exec_running OpCode.to_str os = exec_to_str m os
  exec_running OpCode.v_call os = exec_v_call m os
  exec_running OpCode.i_call os = exec_i_call m os
  exec_running OpCode.type_of os = exec_type_of m os
  exec_running OpCode.syscall os = exec_syscall m os
  exec_running _ os = stop panicked

  -- Whether the machine halts.
  exec_op : OpCode → Operands → Action G Bool
  unfolding exec_running
  exec_op OpCode.halt os = pure true
  exec_op OpCode.skip os = exec_skip m os
  exec_op OpCode.ret os = exec_ret m
  exec_op op os = do exec_running op os; pure false

  unfoldable pub exec_jit_instruction : DecodedInstr → Action G Bool
  unfolding exec_op exec_running
  exec_jit_instruction i = exec_op i.op i.operands
