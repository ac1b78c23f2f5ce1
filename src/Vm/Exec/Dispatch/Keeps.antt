-- ===== src/Vm/Exec/Dispatch/Keeps.antt =====
-- The switch of `execJitInstruction` keeps every stable invariant.
use loxis_programming_langua.Prelude.{true, false}
use loxis_programming_langua.Bytecode.OpCode.{OpCode}
use loxis_programming_langua.Bytecode.Decode.{DecodedInstr}
use loxis_programming_langua.Vm.Data.{Machine, Vm}
use loxis_programming_langua.Vm.Keeps.{Keeps, Keeps-bind, Keeps-pure, Keeps-stop, panicked_end}
use loxis_programming_langua.Vm.Stable.{IsStable}
use loxis_programming_langua.Vm.Exec.{Operands}
use loxis_programming_langua.Vm.Exec.Keeps.{next_ip-Keeps}
use loxis_programming_langua.Vm.Exec.Dispatch.{exec_running, exec_op, exec_jit_instruction}
use loxis_programming_langua.Vm.Exec.Control.Keeps.{
  exec_try_push-Keeps, exec_try_pop-Keeps, exec_throw-Keeps, exec_jmp-Keeps, exec_jnz-Keeps,
  exec_jz-Keeps, exec_jn-Keeps, exec_null_chk-Keeps, exec_skip-Keeps,
}
use loxis_programming_langua.Vm.Exec.Calls.Keeps.{
  exec_call-Keeps, exec_call_ind-Keeps, exec_v_call-Keeps, exec_i_call-Keeps,
}
use loxis_programming_langua.Vm.Exec.Memory.Keeps.{
  exec_push-Keeps, exec_mov-Keeps, exec_push_r-Keeps, exec_pop_r-Keeps, exec_alloc-Keeps,
  exec_h_free-Keeps, exec_h_store-Keeps, exec_h_load-Keeps, exec_g_load-Keeps, exec_g_store-Keeps,
  exec_type_of-Keeps, exec_is_a-Keeps,
}
use loxis_programming_langua.Vm.Exec.Arith.Keeps.{
  exec_sub-Keeps, exec_mul-Keeps, exec_bit_and-Keeps, exec_bit_or-Keeps, exec_bit_xor-Keeps,
  exec_shl-Keeps, exec_shr-Keeps, exec_div-Keeps, exec_rem-Keeps, exec_add-Keeps, exec_f_add-Keeps,
  exec_f_sub-Keeps, exec_f_mul-Keeps, exec_f_div-Keeps, exec_i_to_f-Keeps, exec_f_to_i-Keeps,
  exec_f_neg-Keeps, exec_cmp-Keeps,
}
use loxis_programming_langua.Vm.Exec.Text.Keeps.{
  exec_write-Keeps, exec_str_len-Keeps, exec_to_str-Keeps,
}
use loxis_programming_langua.Vm.Exec.Syscall.Keeps.{exec_syscall-Keeps}

module _ {G : Type 0} (m : Machine G) {I : Vm G → Type 0} (L : IsStable m I) where
  exec_running-Keeps : (op : OpCode) (os : Operands) → Keeps I (exec_running m op os)
  unfolding exec_running
  exec_running-Keeps OpCode.nop os = next_ip-Keeps m L
  exec_running-Keeps OpCode.push os = exec_push-Keeps m L os
  exec_running-Keeps OpCode.pop os = next_ip-Keeps m L
  exec_running-Keeps OpCode.mov os = exec_mov-Keeps m L os
  exec_running-Keeps OpCode.push_r os = exec_push_r-Keeps m L os
  exec_running-Keeps OpCode.pop_r os = exec_pop_r-Keeps m L os
  exec_running-Keeps OpCode.alloc os = exec_alloc-Keeps m L os
  exec_running-Keeps OpCode.h_free os = exec_h_free-Keeps m L os
  exec_running-Keeps OpCode.h_store os = exec_h_store-Keeps m L os
  exec_running-Keeps OpCode.h_load os = exec_h_load-Keeps m L os
  exec_running-Keeps OpCode.shl os = exec_shl-Keeps m L os
  exec_running-Keeps OpCode.shr os = exec_shr-Keeps m L os
  exec_running-Keeps OpCode.rem os = exec_rem-Keeps m L os
  exec_running-Keeps OpCode.bit_and os = exec_bit_and-Keeps m L os
  exec_running-Keeps OpCode.bit_or os = exec_bit_or-Keeps m L os
  exec_running-Keeps OpCode.bit_xor os = exec_bit_xor-Keeps m L os
  exec_running-Keeps OpCode.add os = exec_add-Keeps m L os
  exec_running-Keeps OpCode.sub os = exec_sub-Keeps m L os
  exec_running-Keeps OpCode.mul os = exec_mul-Keeps m L os
  exec_running-Keeps OpCode.div os = exec_div-Keeps m L os
  exec_running-Keeps OpCode.f_add os = exec_f_add-Keeps m L os
  exec_running-Keeps OpCode.f_sub os = exec_f_sub-Keeps m L os
  exec_running-Keeps OpCode.f_mul os = exec_f_mul-Keeps m L os
  exec_running-Keeps OpCode.f_div os = exec_f_div-Keeps m L os
  exec_running-Keeps OpCode.i_to_f os = exec_i_to_f-Keeps m L os
  exec_running-Keeps OpCode.f_to_i os = exec_f_to_i-Keeps m L os
  exec_running-Keeps OpCode.f_neg os = exec_f_neg-Keeps m L os
  exec_running-Keeps OpCode.g_load os = exec_g_load-Keeps m L os
  exec_running-Keeps OpCode.g_store os = exec_g_store-Keeps m L os
  exec_running-Keeps OpCode.cmp os = exec_cmp-Keeps m L os
  exec_running-Keeps OpCode.jmp os = exec_jmp-Keeps m L os
  exec_running-Keeps OpCode.jnz os = exec_jnz-Keeps m L os
  exec_running-Keeps OpCode.jz os = exec_jz-Keeps m L os
  exec_running-Keeps OpCode.skip os = Keeps-stop panicked_end
  exec_running-Keeps OpCode.call os = exec_call-Keeps m L os
  exec_running-Keeps OpCode.ret os = Keeps-stop panicked_end
  exec_running-Keeps OpCode.br os = Keeps-stop panicked_end
  exec_running-Keeps OpCode.jn os = exec_jn-Keeps m L os
  exec_running-Keeps OpCode.null_chk os = exec_null_chk-Keeps m L os
  exec_running-Keeps OpCode.call_ind os = exec_call_ind-Keeps m L os
  exec_running-Keeps OpCode.v_call os = exec_v_call-Keeps m L os
  exec_running-Keeps OpCode.i_call os = exec_i_call-Keeps m L os
  exec_running-Keeps OpCode.type_of os = exec_type_of-Keeps m L os
  exec_running-Keeps OpCode.try_push os = exec_try_push-Keeps m L os
  exec_running-Keeps OpCode.try_pop os = exec_try_pop-Keeps m L os
  exec_running-Keeps OpCode.throw os = exec_throw-Keeps m L os
  exec_running-Keeps OpCode.is_a os = exec_is_a-Keeps m L os
  exec_running-Keeps OpCode.print os = exec_write-Keeps m L os _
  exec_running-Keeps OpCode.write os = exec_write-Keeps m L os _
  exec_running-Keeps OpCode.syscall os = exec_syscall-Keeps m L os
  exec_running-Keeps OpCode.str_len os = exec_str_len-Keeps m L os
  exec_running-Keeps OpCode.to_str os = exec_to_str-Keeps m L os
  exec_running-Keeps OpCode.halt os = Keeps-stop panicked_end

  exec_op-Keeps : (op : OpCode) (os : Operands) → Keeps I (exec_op m op os)
  unfolding exec_op
  exec_op-Keeps OpCode.nop os =
      Keeps-bind (exec_running-Keeps OpCode.nop os) (λ _. Keeps-pure false)
  exec_op-Keeps OpCode.push os =
      Keeps-bind (exec_running-Keeps OpCode.push os) (λ _. Keeps-pure false)
  exec_op-Keeps OpCode.pop os =
      Keeps-bind (exec_running-Keeps OpCode.pop os) (λ _. Keeps-pure false)
  exec_op-Keeps OpCode.mov os =
      Keeps-bind (exec_running-Keeps OpCode.mov os) (λ _. Keeps-pure false)
  exec_op-Keeps OpCode.push_r os =
      Keeps-bind (exec_running-Keeps OpCode.push_r os) (λ _. Keeps-pure false)
  exec_op-Keeps OpCode.pop_r os =
      Keeps-bind (exec_running-Keeps OpCode.pop_r os) (λ _. Keeps-pure false)
  exec_op-Keeps OpCode.alloc os =
      Keeps-bind (exec_running-Keeps OpCode.alloc os) (λ _. Keeps-pure false)
  exec_op-Keeps OpCode.h_free os =
      Keeps-bind (exec_running-Keeps OpCode.h_free os) (λ _. Keeps-pure false)
  exec_op-Keeps OpCode.h_store os =
      Keeps-bind (exec_running-Keeps OpCode.h_store os) (λ _. Keeps-pure false)
  exec_op-Keeps OpCode.h_load os =
      Keeps-bind (exec_running-Keeps OpCode.h_load os) (λ _. Keeps-pure false)
  exec_op-Keeps OpCode.shl os =
      Keeps-bind (exec_running-Keeps OpCode.shl os) (λ _. Keeps-pure false)
  exec_op-Keeps OpCode.shr os =
      Keeps-bind (exec_running-Keeps OpCode.shr os) (λ _. Keeps-pure false)
  exec_op-Keeps OpCode.rem os =
      Keeps-bind (exec_running-Keeps OpCode.rem os) (λ _. Keeps-pure false)
  exec_op-Keeps OpCode.bit_and os =
      Keeps-bind (exec_running-Keeps OpCode.bit_and os) (λ _. Keeps-pure false)
  exec_op-Keeps OpCode.bit_or os =
      Keeps-bind (exec_running-Keeps OpCode.bit_or os) (λ _. Keeps-pure false)
  exec_op-Keeps OpCode.bit_xor os =
      Keeps-bind (exec_running-Keeps OpCode.bit_xor os) (λ _. Keeps-pure false)
  exec_op-Keeps OpCode.add os =
      Keeps-bind (exec_running-Keeps OpCode.add os) (λ _. Keeps-pure false)
  exec_op-Keeps OpCode.sub os =
      Keeps-bind (exec_running-Keeps OpCode.sub os) (λ _. Keeps-pure false)
  exec_op-Keeps OpCode.mul os =
      Keeps-bind (exec_running-Keeps OpCode.mul os) (λ _. Keeps-pure false)
  exec_op-Keeps OpCode.div os =
      Keeps-bind (exec_running-Keeps OpCode.div os) (λ _. Keeps-pure false)
  exec_op-Keeps OpCode.f_add os =
      Keeps-bind (exec_running-Keeps OpCode.f_add os) (λ _. Keeps-pure false)
  exec_op-Keeps OpCode.f_sub os =
      Keeps-bind (exec_running-Keeps OpCode.f_sub os) (λ _. Keeps-pure false)
  exec_op-Keeps OpCode.f_mul os =
      Keeps-bind (exec_running-Keeps OpCode.f_mul os) (λ _. Keeps-pure false)
  exec_op-Keeps OpCode.f_div os =
      Keeps-bind (exec_running-Keeps OpCode.f_div os) (λ _. Keeps-pure false)
  exec_op-Keeps OpCode.i_to_f os =
      Keeps-bind (exec_running-Keeps OpCode.i_to_f os) (λ _. Keeps-pure false)
  exec_op-Keeps OpCode.f_to_i os =
      Keeps-bind (exec_running-Keeps OpCode.f_to_i os) (λ _. Keeps-pure false)
  exec_op-Keeps OpCode.f_neg os =
      Keeps-bind (exec_running-Keeps OpCode.f_neg os) (λ _. Keeps-pure false)
  exec_op-Keeps OpCode.g_load os =
      Keeps-bind (exec_running-Keeps OpCode.g_load os) (λ _. Keeps-pure false)
  exec_op-Keeps OpCode.g_store os =
      Keeps-bind (exec_running-Keeps OpCode.g_store os) (λ _. Keeps-pure false)
  exec_op-Keeps OpCode.cmp os =
      Keeps-bind (exec_running-Keeps OpCode.cmp os) (λ _. Keeps-pure false)
  exec_op-Keeps OpCode.jmp os =
      Keeps-bind (exec_running-Keeps OpCode.jmp os) (λ _. Keeps-pure false)
  exec_op-Keeps OpCode.jnz os =
      Keeps-bind (exec_running-Keeps OpCode.jnz os) (λ _. Keeps-pure false)
  exec_op-Keeps OpCode.jz os = Keeps-bind (exec_running-Keeps OpCode.jz os) (λ _. Keeps-pure false)
  exec_op-Keeps OpCode.skip os = exec_skip-Keeps m L os
  exec_op-Keeps OpCode.call os =
      Keeps-bind (exec_running-Keeps OpCode.call os) (λ _. Keeps-pure false)
  exec_op-Keeps OpCode.ret os = L.ret_law
  exec_op-Keeps OpCode.br os = Keeps-bind (exec_running-Keeps OpCode.br os) (λ _. Keeps-pure false)
  exec_op-Keeps OpCode.jn os = Keeps-bind (exec_running-Keeps OpCode.jn os) (λ _. Keeps-pure false)
  exec_op-Keeps OpCode.null_chk os =
      Keeps-bind (exec_running-Keeps OpCode.null_chk os) (λ _. Keeps-pure false)
  exec_op-Keeps OpCode.call_ind os =
      Keeps-bind (exec_running-Keeps OpCode.call_ind os) (λ _. Keeps-pure false)
  exec_op-Keeps OpCode.v_call os =
      Keeps-bind (exec_running-Keeps OpCode.v_call os) (λ _. Keeps-pure false)
  exec_op-Keeps OpCode.i_call os =
      Keeps-bind (exec_running-Keeps OpCode.i_call os) (λ _. Keeps-pure false)
  exec_op-Keeps OpCode.type_of os =
      Keeps-bind (exec_running-Keeps OpCode.type_of os) (λ _. Keeps-pure false)
  exec_op-Keeps OpCode.try_push os =
      Keeps-bind (exec_running-Keeps OpCode.try_push os) (λ _. Keeps-pure false)
  exec_op-Keeps OpCode.try_pop os =
      Keeps-bind (exec_running-Keeps OpCode.try_pop os) (λ _. Keeps-pure false)
  exec_op-Keeps OpCode.throw os =
      Keeps-bind (exec_running-Keeps OpCode.throw os) (λ _. Keeps-pure false)
  exec_op-Keeps OpCode.is_a os =
      Keeps-bind (exec_running-Keeps OpCode.is_a os) (λ _. Keeps-pure false)
  exec_op-Keeps OpCode.print os =
      Keeps-bind (exec_running-Keeps OpCode.print os) (λ _. Keeps-pure false)
  exec_op-Keeps OpCode.write os =
      Keeps-bind (exec_running-Keeps OpCode.write os) (λ _. Keeps-pure false)
  exec_op-Keeps OpCode.syscall os =
      Keeps-bind (exec_running-Keeps OpCode.syscall os) (λ _. Keeps-pure false)
  exec_op-Keeps OpCode.str_len os =
      Keeps-bind (exec_running-Keeps OpCode.str_len os) (λ _. Keeps-pure false)
  exec_op-Keeps OpCode.to_str os =
      Keeps-bind (exec_running-Keeps OpCode.to_str os) (λ _. Keeps-pure false)
  exec_op-Keeps OpCode.halt os = Keeps-pure true

  -- Every instruction keeps an invariant that the primitives keep, whether it returns or unwinds.
  pub exec_jit_instruction-Keeps : (i : DecodedInstr) → Keeps I (exec_jit_instruction m i)
  unfolding exec_jit_instruction
  exec_jit_instruction-Keeps i = exec_op-Keeps i.op i.operands
