-- ===== src/Vm/Exec/Memory/Keeps.antt =====
-- The opcodes of Vm.Exec.Memory keep every stable invariant.
use loxis_programming_langua.Prelude.{ℕ, Bool, false, Option, none, some}
use loxis_programming_langua.Bytecode.Decode.{DecodedOperand, OperandTag}
use loxis_programming_langua.Vm.Data.{Value, Machine, Vm}
use loxis_programming_langua.Vm.Keeps.{
  Keeps, keeps_rules, Keeps-some, Keeps-if, Keeps-pure, Keeps-stop, panicked_end,
}
use loxis_programming_langua.Vm.Action.{or_stop, diverged}
use loxis_programming_langua.Vm.Stable.{IsStable}
use loxis_programming_langua.Vm.Exec.Keeps.{stable_rules, raise_runtime-Keeps}
use loxis_programming_langua.Vm.Exec.{Operands}
use loxis_programming_langua.Vm.Exec.Memory.{
  type_matches, push_value, mov_value, set_if, write_cell, cell_or_raise, load_or_raise,
  instance_test, exec_push, exec_mov, exec_push_r, exec_pop_r, exec_alloc, exec_h_free,
  exec_h_store, exec_h_load, exec_g_load, exec_g_store, exec_type_of, exec_is_a,
}

module _ {G : Type 0} (m : Machine G) {I : Vm G → Type 0} (L : IsStable m I) (os : Operands) where
  push_value-Keeps : (o : DecodedOperand) (t : OperandTag) → Keeps I (push_value m os o t)
  unfolding push_value
  push_value-Keeps o OperandTag.reg = search (keeps_rules, stable_rules)
  push_value-Keeps o OperandTag.imm64 = search (keeps_rules)
  push_value-Keeps o OperandTag.null = search (keeps_rules)
  push_value-Keeps o OperandTag.float64 = search (keeps_rules)
  push_value-Keeps o OperandTag.str_idx = search (keeps_rules)
  push_value-Keeps o OperandTag.addr = search (keeps_rules)

  set_if-Keeps : (r : ℕ) (v : Option Value) → Keeps I (set_if m os r v)
  unfolding set_if
  set_if-Keeps r none = search (keeps_rules)
  set_if-Keeps r (some v) = search (stable_rules, L) depth 40 fits 4000

  mov_value-Keeps : (o : DecodedOperand) (t : OperandTag) → Keeps I (mov_value m os o t)
  unfolding mov_value
  mov_value-Keeps o OperandTag.reg = search (keeps_rules, stable_rules)
  mov_value-Keeps o OperandTag.imm64 = search (keeps_rules)
  mov_value-Keeps o OperandTag.null = search (keeps_rules)
  mov_value-Keeps o OperandTag.float64 = search (keeps_rules)
  mov_value-Keeps o OperandTag.str_idx = search (keeps_rules)
  mov_value-Keeps o OperandTag.addr = search (keeps_rules)

  pub write_cell-Keeps :
      (base off : ℕ) (old new : Value) → Keeps I (write_cell m os base off old new)
  unfolding write_cell
  write_cell-Keeps base off old new = search (keeps_rules, stable_rules, L) depth 40 fits 4000

  cell_or_raise-Keeps : (c : Option (ℕ × ℕ)) (w : Bool) → Keeps I (cell_or_raise m os c w)
  unfolding cell_or_raise
  cell_or_raise-Keeps none w = search (raise_runtime-Keeps, L) depth 40 fits 4000
  cell_or_raise-Keeps (some (v, t)) w = search (keeps_rules)

  pub load_or_raise-Keeps : (base off : ℕ) (w : Bool) → Keeps I (load_or_raise m os base off w)
  unfolding load_or_raise
  load_or_raise-Keeps base off w = search (keeps_rules, cell_or_raise-Keeps)

  -- The loop over the superclasses ends.
  test-Keeps :
      (target type_id : ℕ)
      → Keeps I (or_stop (type_matches m.program.type_parents target type_id) diverged)
  test-Keeps target type_id = Keeps-some _ diverged (L.superclasses_law target type_id)

  instance_test-Keeps :
      (target : ℕ) (v : Value) (s : Vm G) → Keeps I (instance_test m os target v s)
  unfolding instance_test
  instance_test-Keeps target v s =
      Keeps-if _ (Keeps-pure false) (Keeps-if _ (test-Keeps target _) (Keeps-stop panicked_end))

  ruleset memory_rules = (
    push_value-Keeps, mov_value-Keeps, set_if-Keeps, write_cell-Keeps, load_or_raise-Keeps,
    instance_test-Keeps, raise_runtime-Keeps,
  )

  pub exec_push-Keeps : Keeps I (exec_push m os)
  unfolding exec_push
  exec_push-Keeps = search (keeps_rules, stable_rules, memory_rules, L) depth 40 fits 4000

  pub exec_mov-Keeps : Keeps I (exec_mov m os)
  unfolding exec_mov
  exec_mov-Keeps = search (keeps_rules, stable_rules, memory_rules, L) depth 40 fits 4000

  pub exec_push_r-Keeps : Keeps I (exec_push_r m os)
  unfolding exec_push_r
  exec_push_r-Keeps = search (keeps_rules, stable_rules, memory_rules, L) depth 40 fits 4000

  pub exec_pop_r-Keeps : Keeps I (exec_pop_r m os)
  unfolding exec_pop_r
  exec_pop_r-Keeps = search (keeps_rules, stable_rules, memory_rules, L) depth 40 fits 4000

  pub exec_alloc-Keeps : Keeps I (exec_alloc m os)
  unfolding exec_alloc
  exec_alloc-Keeps = search (keeps_rules, stable_rules, memory_rules, L) depth 40 fits 4000

  pub exec_h_free-Keeps : Keeps I (exec_h_free m os)
  unfolding exec_h_free
  exec_h_free-Keeps = search (keeps_rules, stable_rules, memory_rules, L) depth 40 fits 4000

  pub exec_h_store-Keeps : Keeps I (exec_h_store m os)
  unfolding exec_h_store
  exec_h_store-Keeps = search (keeps_rules, stable_rules, memory_rules, L) depth 40 fits 4000

  pub exec_h_load-Keeps : Keeps I (exec_h_load m os)
  unfolding exec_h_load
  exec_h_load-Keeps = search (keeps_rules, stable_rules, memory_rules, L) depth 40 fits 4000

  pub exec_g_load-Keeps : Keeps I (exec_g_load m os)
  unfolding exec_g_load
  exec_g_load-Keeps = search (keeps_rules, stable_rules, memory_rules, L) depth 40 fits 4000

  pub exec_g_store-Keeps : Keeps I (exec_g_store m os)
  unfolding exec_g_store
  exec_g_store-Keeps = search (keeps_rules, stable_rules, memory_rules, L) depth 40 fits 4000

  pub exec_type_of-Keeps : Keeps I (exec_type_of m os)
  unfolding exec_type_of
  exec_type_of-Keeps = search (keeps_rules, stable_rules, memory_rules, L) depth 40 fits 4000

  pub exec_is_a-Keeps : Keeps I (exec_is_a m os)
  unfolding exec_is_a
  exec_is_a-Keeps = search (keeps_rules, stable_rules, memory_rules, L) depth 40 fits 4000
