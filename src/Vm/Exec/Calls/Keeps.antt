-- ===== src/Vm/Exec/Calls/Keeps.antt =====
-- The calls of Vm.Exec.Calls keep every stable invariant.
use loxis_programming_langua.Prelude.{ℕ, Option, suc, zero}
use loxis_programming_langua.Vm.Data.{Value, Machine, Vm}
use loxis_programming_langua.Vm.Keeps.{Keeps, Keeps-bind, Keeps-pure, keeps_rules}
use loxis_programming_langua.Vm.Stable.{IsStable}
use loxis_programming_langua.Vm.Exec.Keeps.{
  stable_rules, opcode_rules, read_reg-Keeps, set_reg-Keeps,
}
use loxis_programming_langua.Vm.Exec.{Operands}
use loxis_programming_langua.Vm.Exec.Calls.{
  shift_arguments, enter, enter_next, closure_target, enter_method, exec_call, exec_call_ind,
  exec_v_call, exec_i_call,
}

module _ {G : Type 0} (m : Machine G) {I : Vm G → Type 0} (L : IsStable m I) (os : Operands) where
  shift_arguments-Keeps : (n : ℕ) → Keeps I (shift_arguments m os n)
  unfolding shift_arguments
  shift_arguments-Keeps zero = Keeps-pure tt
  shift_arguments-Keeps (suc n) =
      Keeps-bind (read_reg-Keeps _)
        (λ v. Keeps-bind (set_reg-Keeps m L _ v) (λ _. shift_arguments-Keeps n))

  enter-Keeps : (ip target : ℕ) → Keeps I (enter m os ip target)
  unfolding enter
  enter-Keeps ip target = search (keeps_rules, stable_rules, opcode_rules, L) depth 40 fits 4000

  enter_next-Keeps : (target : ℕ) → Keeps I (enter_next m os target)
  unfolding enter_next
  enter_next-Keeps target = search (keeps_rules, enter-Keeps)

  closure_target-Keeps : (reg nargs : ℕ) (f : Value) → Keeps I (closure_target m os reg nargs f)
  unfolding closure_target
  closure_target-Keeps reg nargs f =
      search (keeps_rules, stable_rules, opcode_rules, shift_arguments-Keeps, L) depth 40 fits 4000

  enter_method-Keeps : (i : ℕ) (found : Option ℕ) → Keeps I (enter_method m os i found)
  unfolding enter_method
  enter_method-Keeps i found =
      search (keeps_rules, stable_rules, opcode_rules, enter-Keeps) depth 40 fits 4000

  ruleset call_rules = (enter_next-Keeps, closure_target-Keeps, enter_method-Keeps)

  pub exec_call-Keeps : Keeps I (exec_call m os)
  unfolding exec_call
  exec_call-Keeps = search (keeps_rules, stable_rules, opcode_rules, call_rules) depth 40 fits 4000

  pub exec_call_ind-Keeps : Keeps I (exec_call_ind m os)
  unfolding exec_call_ind
  exec_call_ind-Keeps =
      search (keeps_rules, stable_rules, opcode_rules, call_rules) depth 40 fits 4000

  pub exec_v_call-Keeps : Keeps I (exec_v_call m os)
  unfolding exec_v_call
  exec_v_call-Keeps =
      search (keeps_rules, stable_rules, opcode_rules, call_rules) depth 40 fits 4000

  pub exec_i_call-Keeps : Keeps I (exec_i_call m os)
  unfolding exec_i_call
  exec_i_call-Keeps =
      search (keeps_rules, stable_rules, opcode_rules, call_rules) depth 40 fits 4000
