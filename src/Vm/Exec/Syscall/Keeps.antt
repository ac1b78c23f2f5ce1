-- ===== src/Vm/Exec/Syscall/Keeps.antt =====
-- The calls of Vm.Exec.Syscall keep every stable invariant.
use loxis_programming_langua.Prelude.{ℕ, Bool, []}
use loxis_programming_langua.Bytecode.Emit.{Bytes}
use loxis_programming_langua.Vm.Data.{Value, Machine, Vm}
use loxis_programming_langua.Vm.Keeps.{Keeps, keeps_rules}
use loxis_programming_langua.Vm.Stable.{IsStable}
use loxis_programming_langua.Vm.Exec.Keeps.{
  stable_rules, opcode_rules, read_reg-Keeps, set_reg-Keeps,
}
use loxis_programming_langua.Vm.Exec.{Operands}
use loxis_programming_langua.Vm.Exec.Memory.{load_or_raise, write_cell}
use loxis_programming_langua.Vm.Exec.Memory.Keeps.{load_or_raise-Keeps, write_cell-Keeps}
use loxis_programming_langua.Vm.Exec.Text.Keeps.{put_output-Keeps}
use loxis_programming_langua.Vm.Exec.Syscall.{
  reg_string, set_result, string_result, invoke_syscall, exec_syscall, sys_type_of, sys_chr,
  sys_halloc, sys_hread, sys_hset, sys_hfree, sys_strlen, sys_i2s, sys_strchar, sys_strslice,
  sys_strindexof, sys_error, sys_write,
}

module _ {G : Type 0} (m : Machine G) {I : Vm G → Type 0} (L : IsStable m I) where
  reg_string-Keeps : (r : ℕ) → Keeps I (reg_string m r)
  unfolding reg_string
  reg_string-Keeps r = search (keeps_rules, read_reg-Keeps)

  set_result-Keeps : (v : Value) → Keeps I (set_result m v)
  unfolding set_result
  set_result-Keeps v = set_reg-Keeps m L 0 v

  string_result-Keeps : (t : Bytes) → Keeps I (string_result m t)
  unfolding string_result
  string_result-Keeps t = search (keeps_rules, stable_rules, opcode_rules, L) depth 40 fits 4000

  load_cell-Keeps : (base off : ℕ) (w : Bool) → Keeps I (load_or_raise m [] base off w)
  load_cell-Keeps = load_or_raise-Keeps m L []

  write_cell_at-Keeps :
      (base off : ℕ) (old new : Value) → Keeps I (write_cell m [] base off old new)
  write_cell_at-Keeps = write_cell-Keeps m L []

  ruleset syscall_rules = (
    reg_string-Keeps, set_result-Keeps, string_result-Keeps, load_cell-Keeps, write_cell_at-Keeps,
    put_output-Keeps,
  )

  sys_type_of-Keeps : Keeps I (sys_type_of m)
  unfolding sys_type_of
  sys_type_of-Keeps =
      search (keeps_rules, stable_rules, opcode_rules, syscall_rules, L) depth 40 fits 4000

  sys_chr-Keeps : Keeps I (sys_chr m)
  unfolding sys_chr
  sys_chr-Keeps = search (keeps_rules, stable_rules, opcode_rules, syscall_rules) depth 40 fits 4000

  sys_halloc-Keeps : Keeps I (sys_halloc m)
  unfolding sys_halloc
  sys_halloc-Keeps =
      search (keeps_rules, stable_rules, opcode_rules, syscall_rules, L) depth 40 fits 4000

  sys_hread-Keeps : Keeps I (sys_hread m)
  unfolding sys_hread
  sys_hread-Keeps =
      search (keeps_rules, stable_rules, opcode_rules, syscall_rules) depth 40 fits 4000

  sys_hset-Keeps : Keeps I (sys_hset m)
  unfolding sys_hset
  sys_hset-Keeps =
      search (keeps_rules, stable_rules, opcode_rules, syscall_rules) depth 40 fits 4000

  sys_hfree-Keeps : Keeps I (sys_hfree m)
  unfolding sys_hfree
  sys_hfree-Keeps =
      search (keeps_rules, stable_rules, opcode_rules, syscall_rules, L) depth 40 fits 4000

  sys_strlen-Keeps : Keeps I (sys_strlen m)
  unfolding sys_strlen
  sys_strlen-Keeps =
      search (keeps_rules, stable_rules, opcode_rules, syscall_rules, L) depth 40 fits 4000

  sys_i2s-Keeps : Keeps I (sys_i2s m)
  unfolding sys_i2s
  sys_i2s-Keeps = search (keeps_rules, stable_rules, opcode_rules, syscall_rules) depth 40 fits 4000

  sys_strchar-Keeps : Keeps I (sys_strchar m)
  unfolding sys_strchar
  sys_strchar-Keeps =
      search (keeps_rules, stable_rules, opcode_rules, syscall_rules, L) depth 40 fits 4000

  sys_strslice-Keeps : Keeps I (sys_strslice m)
  unfolding sys_strslice
  sys_strslice-Keeps =
      search (keeps_rules, stable_rules, opcode_rules, syscall_rules) depth 40 fits 4000

  sys_strindexof-Keeps : Keeps I (sys_strindexof m)
  unfolding sys_strindexof
  sys_strindexof-Keeps =
      search (keeps_rules, stable_rules, opcode_rules, syscall_rules, L) depth 40 fits 4000

  sys_error-Keeps : Keeps I (sys_error m)
  unfolding sys_error
  sys_error-Keeps =
      search (keeps_rules, stable_rules, opcode_rules, syscall_rules, L) depth 40 fits 4000

  sys_write-Keeps : (suffix : Bytes) → Keeps I (sys_write m suffix)
  unfolding sys_write
  sys_write-Keeps suffix =
      search (keeps_rules, stable_rules, opcode_rules, syscall_rules, L) depth 40 fits 4000

  ruleset call_table = (
    sys_type_of-Keeps, sys_chr-Keeps, sys_halloc-Keeps, sys_hread-Keeps, sys_hset-Keeps,
    sys_hfree-Keeps, sys_strlen-Keeps, sys_i2s-Keeps, sys_strchar-Keeps, sys_strslice-Keeps,
    sys_strindexof-Keeps, sys_error-Keeps, sys_write-Keeps,
  )

  pub invoke_syscall-Keeps : (op : ℕ) → Keeps I (invoke_syscall m op)
  unfolding invoke_syscall
  invoke_syscall-Keeps op = search (keeps_rules, call_table) depth 40 fits 4000

module _ {G : Type 0} (m : Machine G) {I : Vm G → Type 0} (L : IsStable m I) (os : Operands) where
  pub exec_syscall-Keeps : Keeps I (exec_syscall m os)
  unfolding exec_syscall
  exec_syscall-Keeps =
      search (keeps_rules, stable_rules, opcode_rules, invoke_syscall-Keeps, L) depth 40 fits 4000
