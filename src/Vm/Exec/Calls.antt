-- ===== src/Vm/Exec/Calls.antt =====
-- The opcodes of `execJitInstruction` that call and return.
pub mod Keeps
use loxis_programming_langua.Prelude.{
  ℕ, zero, suc, ◌+◌, ◌%◌, ◌^◌, Bool, true, false, ◌&&◌, List, [], ◌∷◌, Option, none, some, ltb, leb,
  ◌==◌, if◌then◌else◌, length, get_elem?,
}
use loxis_programming_langua.Heap.State.{get_type_id}
use loxis_programming_langua.Heap.Cells.{load_cell}
use loxis_programming_langua.Vm.Data.{
  Value, handle_of, is_heap, CallFrame, ExceptionHandler, ItableEntry, VtableEntry, Program,
  Machine, Vm,
}
use loxis_programming_langua.Vm.Action.{
  Action, panicked, pure, stop, gets, or_stop, modify, ◌>>=◌, ◌>>◌,
}
use loxis_programming_langua.Vm.Roots.{read_reg, set_reg, push_call_frame}
use loxis_programming_langua.Vm.Unwind.{restore_call_frame, set_ip}
use loxis_programming_langua.Vm.Exec.{Operands, operand, reg_of, imm32, next_ip, resolve_jit_target}

-- The method of a virtual call and of an interface call. An interface entry that does not fit, or whose
-- method does not resolve, is passed over.
method_of : Program → ℕ → Option VtableEntry → Option ℕ
method_of p slot none = none
method_of p slot (some entry) = elim (get_elem? entry.method_offsets slot) [
  | none ↦ none
  | some offset ↦ resolve_jit_target p offset
]

unfoldable pub virtual_target : Program → ℕ → ℕ → Option ℕ
unfolding method_of
virtual_target p type_id slot = method_of p slot (get_elem? p.vtables type_id)

entry_target : Program → ℕ → ℕ → ItableEntry → Option ℕ
entry_target p interface_id method e =
    if e.interface_type_id == interface_id
    then (elim (get_elem? e.method_offsets method) [
      | none ↦ none
      | some offset ↦ resolve_jit_target p offset
    ])
    else none

unfoldable pub itable_target : Program → ℕ → ℕ → List ItableEntry → Option ℕ
unfolding entry_target
itable_target p interface_id method [] = none
itable_target p interface_id method (e ∷ es) = elim (entry_target p interface_id method e) [
  | some target ↦ some target
  | none ↦ itable_target p interface_id method es
]

unfoldable pub interface_target : Program → ℕ → ℕ → ℕ → Option ℕ
interface_target p type_id interface_id method = elim (get_elem? p.vtables type_id) [
  | none ↦ none
  | some entry ↦ itable_target p interface_id method entry.itable
]

module _ {G : Type 0} (m : Machine G) (os : Operands) where
  -- The frame is pushed once the target is known.
  enter : ℕ → ℕ → Action G Unit
  enter return_ip target = do s ← gets (λ s. s); push_call_frame m return_ip s.jit_ip; set_ip target

  enter_next : ℕ → Action G Unit
  unfolding enter
  enter_next target = do s ← gets (λ s. s); enter (s.jit_ip + 1) target

  unfoldable pub exec_call : Action G Unit
  unfolding enter_next enter
  exec_call = do
    o0 ← operand os 0
    target ← or_stop (resolve_jit_target m.program (imm32 o0)) panicked
    enter_next target

  -- The arguments move up by one register, the last first, to make room for the closure.
  unfoldable pub shift_arguments : ℕ → Action G Unit
  shift_arguments zero = pure tt
  shift_arguments (suc n) = do
    v ← read_reg (suc n % 2 ^ 8)
    set_reg m.backend ((suc n + 1) % 2 ^ 8) v
    shift_arguments n

  -- The count is cast to int, so that from 2^31 on nothing moves.
  abbrev argument_count : ℕ → ℕ
  argument_count n = if ltb n (2 ^ 31) then n else 0

  -- The byte offset that `CallInd` goes to.
  closure_target : ℕ → ℕ → Value → Action G ℕ
  closure_target reg nargs f = do
    s ← gets (λ s. s)
    cell ← or_stop (load_cell s.heap (handle_of f) 0) panicked
    shift_arguments (argument_count nargs)
    v ← read_reg reg
    set_reg m.backend 1 v
    pure (cell.0 % 2 ^ 32)

  unfoldable pub exec_call_ind : Action G Unit
  unfolding closure_target enter_next enter
  exec_call_ind = do
    o0 ← operand os 0
    o1 ← operand os 1
    f ← read_reg (reg_of o0)
    offset ← if is_heap f then closure_target (reg_of o0) (imm32 o1) f else pure (handle_of f)
    target ← or_stop (resolve_jit_target m.program offset) panicked
    enter_next target

  -- The object's type decides, then the return address is resolved.
  enter_method : ℕ → Option ℕ → Action G Unit
  unfolding enter
  enter_method i found = do
    target ← or_stop found panicked
    o ← operand os i
    resume ← or_stop (resolve_jit_target m.program (imm32 o)) panicked
    enter resume target

  unfoldable pub exec_v_call : Action G Unit
  unfolding enter_method enter
  exec_v_call = do
    o0 ← operand os 0
    o1 ← operand os 1
    v ← read_reg (reg_of o0)
    s ← gets (λ s. s)
    enter_method 3 (virtual_target m.program (get_type_id s.heap (handle_of v)) (imm32 o1))

  unfoldable pub exec_i_call : Action G Unit
  unfolding enter_method enter
  exec_i_call = do
    o0 ← operand os 0
    o1 ← operand os 1
    o2 ← operand os 2
    v ← read_reg (reg_of o0)
    s ← gets (λ s. s)
    enter_method 4
        (interface_target m.program (get_type_id s.heap (handle_of v)) (imm32 o1) (imm32 o2))

-- The handlers that a return leaves: those of the call that ends are dropped.
unfoldable pub drop_handlers : ℕ → List ExceptionHandler → List ExceptionHandler
drop_handlers depth [] = []
drop_handlers depth (h ∷ hs) = if leb depth h.call_depth then drop_handlers depth hs else h ∷ hs

module _ {G : Type 0} (m : Machine G) where
  unfoldable pub leave_handlers : Action G Unit
  leave_handlers =
      modify (λ s. record s { handlers = drop_handlers (length s.call_stack) s.handlers })

  unfoldable pub return_to : List CallFrame → Action G Bool
  return_to [] = pure true
  return_to (frame ∷ _) = do restore_call_frame m.backend; set_ip frame.return_ip; pure false

  -- `Ret` halts at an empty call stack.
  unfoldable pub exec_ret : Action G Bool
  unfolding leave_handlers return_to
  exec_ret = do leave_handlers; s ← gets (λ s. s); return_to s.call_stack
