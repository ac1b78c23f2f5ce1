-- ===== src/Vm/Exec/Control.antt =====
-- The opcodes of `execJitInstruction` that jump, and those of exception handlers.
pub mod Keeps
use loxis_programming_langua.Prelude.{
  ℕ, ◌+◌, ◌%◌, ◌^◌, Bool, true, false, not, List, [], ◌∷◌, ◌==◌, if◌then◌else◌, length,
}
use loxis_programming_langua.Heap.State.{tag_null}
use loxis_programming_langua.Bytecode.Decode.{DecodedOperand, OperandTag}
use loxis_programming_langua.Vm.Data.{Value, ExceptionHandler, Machine, Vm}
use loxis_programming_langua.Vm.Action.{
  Action, panicked, pure, stop, gets, or_stop, modify, ◌>>=◌, ◌>>◌,
}
use loxis_programming_langua.Vm.Roots.{read_reg}
use loxis_programming_langua.Vm.Unwind.{throw_value}
use loxis_programming_langua.Vm.Exec.{
  Operands, operand, reg_of, imm32, next_ip, jump, resolve_jit_target,
}

module _ {G : Type 0} (m : Machine G) (os : Operands) where
  push_handler : ℕ → ℕ → Action G Unit
  push_handler target reg = modify (λ s. record s {
    handlers =
        record {
          target_ip = target;
          exception_reg = reg;
          call_depth = length s.call_stack;
          data_depth = length s.data_stack;
        }
        ∷ s.handlers;
  })

  unfoldable pub exec_try_push : Action G Unit
  unfolding push_handler
  exec_try_push = do
    o0 ← operand os 0
    target ← or_stop (resolve_jit_target m.program (imm32 o0)) panicked
    o1 ← operand os 1
    push_handler target (reg_of o1)
    next_ip

  drop_handler : List ExceptionHandler → Action G Unit
  drop_handler [] = stop panicked
  drop_handler (_ ∷ rest) = modify (λ s. record s { handlers = rest })

  unfoldable pub exec_try_pop : Action G Unit
  unfolding drop_handler
  exec_try_pop = do s ← gets (λ s. s); drop_handler s.handlers; next_ip

  unfoldable pub exec_throw : Action G Unit
  exec_throw = do o0 ← operand os 0; v ← read_reg (reg_of o0); throw_value m v

  unfoldable pub exec_jmp : Action G Unit
  exec_jmp = do o0 ← operand os 0; jump m.program (imm32 o0)

  -- `Jnz`, `Jz` and `Jn` differ in the test.
  unfoldable pub exec_jump_if : (Vm G → Bool) → Action G Unit
  exec_jump_if test = do
    o0 ← operand os 0
    s ← gets (λ s. s)
    if test s then jump m.program (imm32 o0) else next_ip

  unfoldable pub exec_jnz : Action G Unit
  unfolding exec_jump_if
  exec_jnz = exec_jump_if (λ s. not s.flag_zero)

  unfoldable pub exec_jz : Action G Unit
  unfolding exec_jump_if
  exec_jz = exec_jump_if (λ s. s.flag_zero)

  unfoldable pub exec_jn : Action G Unit
  unfolding exec_jump_if
  exec_jn = exec_jump_if (λ s. s.flag_neg)

  null_test : OperandTag → ℕ → Action G Bool
  null_test OperandTag.reg r = do v ← read_reg r; pure (v.tag == tag_null)
  null_test OperandTag.null r = pure true
  null_test _ r = pure false

  unfoldable pub exec_null_chk : Action G Unit
  unfolding null_test
  exec_null_chk = do
    o0 ← operand os 0
    is_null ← null_test o0.tag (reg_of o0)
    if is_null then (do o1 ← operand os 1; jump m.program (imm32 o1)) else next_ip

  -- `Skip` halts if it has no operand; the result tells whether it does.
  skip_to : Operands → Action G Bool
  skip_to [] = pure true
  skip_to (o ∷ _) = do jump m.program (imm32 o); pure false

  unfoldable pub exec_skip : Action G Bool
  unfolding skip_to
  exec_skip = skip_to os
