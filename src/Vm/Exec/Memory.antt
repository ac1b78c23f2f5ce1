-- ===== src/Vm/Exec/Memory.antt =====
-- The opcodes of `execJitInstruction` that move values between registers, globals, the data stack and
-- the heap.
pub mod Keeps
pub mod Subtypes
use loxis_programming_langua.Prelude.{
  ℕ, zero, suc, ◌+◌, ◌-◌, ◌%◌, ◌^◌, Bool, true, false, not, ◌&&◌, List, [], ◌∷◌, Option, none, some,
  ltb, leb, ◌==◌, if◌then◌else◌, length, get_elem?,
}
use loxis_programming_langua.Heap.State.{
  tag_int, tag_str, tag_heap, tag_float, tag_null, valid, get_type_id, invalid,
}
use loxis_programming_langua.Heap.Cells.{load_cell}
use loxis_programming_langua.Lexer.Token.{codes}
use loxis_programming_langua.Bytecode.Decode.{DecodedOperand, OperandTag}
use loxis_programming_langua.Vm.Data.{Value, int_value, handle_of, is_heap, Machine, Vm}
use loxis_programming_langua.Vm.Action.{
  Action, ok, panicked, diverged, pure, stop, gets, or_stop, ◌>>=◌, ◌>>◌,
}
use loxis_programming_langua.Vm.Roots.{
  call, read_reg, read_global, set_reg, set_global, push_data, pop_data, same_ref,
}
use loxis_programming_langua.Vm.Unwind.{raise_runtime, alloc_object, store_object}
use loxis_programming_langua.Vm.Exec.{Operands, operand, reg_of, imm32, read_int_operand, next_ip}

-- The loop of `IsA` over the superclasses of a type, a unit of fuel for a round; `none` if the fuel is not
-- enough.
abbrev pub no_type : ℕ
no_type = 2 ^ 32 - 1

unfoldable pub matches_from : ℕ → List ℕ → ℕ → ℕ → Option Bool
matches_from zero parents target type = none
matches_from (suc n) parents target type =
    if type == no_type
    then some false
    else if type == target
    then some true
    else elim (get_elem? parents type) [
      | none ↦ some false
      | some parent ↦ matches_from n parents target parent
    ]

unfoldable pub type_matches : List ℕ → ℕ → ℕ → Option Bool
unfolding matches_from
type_matches parents target type = matches_from (length parents + 2) parents target type

module _ {G : Type 0} (m : Machine G) (os : Operands) where
  -- The value that `Push` and `Mov` put into the register; other tags leave it alone.
  push_value : DecodedOperand → OperandTag → Action G (Option Value)
  push_value o OperandTag.reg = do v ← read_reg (reg_of o); pure (some v)
  push_value o OperandTag.imm64 = pure (some (int_value o.int_val))
  push_value o OperandTag.null = pure (some (record { value = 0; tag = tag_null }))
  push_value o OperandTag.float64 = pure (some (record { value = o.int_val; tag = tag_float }))
  push_value o OperandTag.str_idx = pure (some (record { value = o.str_idx; tag = tag_str }))
  push_value o OperandTag.addr = pure (some (int_value o.int_val))

  mov_value : DecodedOperand → OperandTag → Action G (Option Value)
  mov_value o OperandTag.reg = do v ← read_reg (reg_of o); pure (some v)
  mov_value o OperandTag.imm64 = pure (some (int_value o.int_val))
  mov_value o OperandTag.addr = pure (some (int_value o.int_val))
  mov_value o _ = pure none

  set_if : ℕ → Option Value → Action G Unit
  set_if r none = pure tt
  set_if r (some v) = set_reg m.backend r v

  unfoldable pub exec_push : Action G Unit
  unfolding push_value set_if
  exec_push = do
    dst ← operand os 0
    val ← operand os 1
    v ← push_value val val.tag
    set_if (reg_of dst) v
    next_ip

  unfoldable pub exec_mov : Action G Unit
  unfolding mov_value set_if
  exec_mov = do
    dst ← operand os 0
    val ← operand os 1
    v ← mov_value val val.tag
    set_if (reg_of dst) v
    next_ip

  unfoldable pub exec_push_r : Action G Unit
  exec_push_r = do o0 ← operand os 0; push_data m.backend (reg_of o0); next_ip

  unfoldable pub exec_pop_r : Action G Unit
  exec_pop_r = do o0 ← operand os 0; pop_data m.backend (reg_of o0); next_ip

  unfoldable pub exec_alloc : Action G Unit
  exec_alloc = do
    o0 ← operand os 0
    o1 ← operand os 1
    size ← read_int_operand o1
    o2 ← operand os 2
    handle ← alloc_object (size % 2 ^ 32) (imm32 o0)
    if handle == invalid
        then raise_runtime m (codes "heap exhausted (slot space full)")
        else pure tt
    call (m.backend.on_alloc handle)
    set_reg m.backend (reg_of o2) (record { value = handle; tag = tag_heap })
    next_ip

  unfoldable pub exec_h_free : Action G Unit
  exec_h_free = do
    o0 ← operand os 0
    v ← read_reg (reg_of o0)
    call (m.backend.on_explicit_free (handle_of v))
    next_ip

  -- A heap cell gets a new value: the old value's edge goes, the cell is stored, the new value's edge
  -- comes. `HStore` and the syscall share these steps.
  unfoldable pub write_cell : ℕ → ℕ → Value → Value → Action G Unit
  write_cell base off old new = if same_ref old new then pure tt else (do
    if is_heap old then call (m.backend.edge_remove base (handle_of old)) else pure tt
    done ← store_object base off new
    if done then pure tt else stop panicked
    if is_heap new then call (m.backend.edge_add base (handle_of new)) else pure tt)

  -- The cell that is there now; an exception without one.
  cell_or_raise : Option (ℕ × ℕ) → Bool → Action G Value
  cell_or_raise (some (value, tag)) writes = pure (record { value = value; tag = tag })
  cell_or_raise none writes = raise_runtime m (
      if writes
      then codes "heap write out of bounds or through an invalid handle"
      else codes "heap read out of bounds or through an invalid handle")

  unfoldable pub load_or_raise : ℕ → ℕ → Bool → Action G Value
  unfolding cell_or_raise
  load_or_raise base off writes = do
    s ← gets (λ s. s)
    cell_or_raise (load_cell s.heap base off) writes

  unfoldable pub exec_h_store : Action G Unit
  exec_h_store = do
    o0 ← operand os 0
    o1 ← operand os 1
    o2 ← operand os 2
    base ← read_reg (reg_of o0)
    off ← read_reg (reg_of o1)
    old ← load_or_raise (handle_of base) (handle_of off) true
    new ← read_reg (reg_of o2)
    write_cell (handle_of base) (handle_of off) old new
    next_ip

  unfoldable pub exec_h_load : Action G Unit
  exec_h_load = do
    o0 ← operand os 0
    o1 ← operand os 1
    o2 ← operand os 2
    base ← read_reg (reg_of o0)
    off ← read_reg (reg_of o1)
    v ← load_or_raise (handle_of base) (handle_of off) false
    set_reg m.backend (reg_of o2) v
    next_ip

  unfoldable pub exec_g_load : Action G Unit
  exec_g_load = do
    o0 ← operand os 0
    slot ← read_int_operand o0
    o1 ← operand os 1
    if leb 256 (slot % 2 ^ 32) then stop panicked else pure tt
    v ← read_global (slot % 2 ^ 32)
    set_reg m.backend (reg_of o1) v
    next_ip

  unfoldable pub exec_g_store : Action G Unit
  exec_g_store = do
    o0 ← operand os 0
    slot ← read_int_operand o0
    o1 ← operand os 1
    if leb 256 (slot % 2 ^ 32) then stop panicked else pure tt
    v ← read_reg (reg_of o1)
    set_global m.backend (slot % 2 ^ 32) v
    next_ip

  unfoldable pub exec_type_of : Action G Unit
  exec_type_of = do
    o0 ← operand os 0
    o1 ← operand os 1
    v ← read_reg (reg_of o0)
    s ← gets (λ s. s)
    set_reg m.backend (reg_of o1) (int_value (get_type_id s.heap (handle_of v)))
    next_ip

  abbrev as_int : Bool → Value
  as_int true = int_value 1
  as_int false = int_value 0

  -- A panic for an object that is gone.
  instance_test : ℕ → Value → Vm G → Action G Bool
  instance_test target v s =
      if not (is_heap v)
      then pure false
      else if valid s.heap (handle_of v)
      then or_stop (type_matches m.program.type_parents target (get_type_id s.heap (handle_of v)))
          diverged
      else stop panicked

  unfoldable pub exec_is_a : Action G Unit
  unfolding instance_test
  exec_is_a = do
    o0 ← operand os 0
    o1 ← operand os 1
    target ← read_int_operand o1
    o2 ← operand os 2
    v ← read_reg (reg_of o0)
    s ← gets (λ s. s)
    found ← instance_test (target % 2 ^ 32) v s
    set_reg m.backend (reg_of o2) (as_int found)
    next_ip
