-- ===== src/Vm/Exec/Control/Keeps.antt =====
-- The opcodes of Vm.Exec.Control keep every stable invariant.
use loxis_programming_langua.Prelude.{ℕ, Bool, true, false, List, [], ◌∷◌, ◌≡◌, ap, sym}
use loxis_programming_langua.Bytecode.Decode.{OperandTag}
use loxis_programming_langua.Vm.Data.{ExceptionHandler, Machine, Vm}
use loxis_programming_langua.Vm.Keeps.{
  Keeps, Keeps-modify, Keeps-bind, Keeps-pure, keeps_rules, Leads-bind, of_leads, Leads-state,
  to_leads,
}
use loxis_programming_langua.Vm.Stable.{IsStable}
use loxis_programming_langua.Vm.Exec.Keeps.{
  stable_rules, opcode_rules, read_reg-Keeps, next_ip-Keeps, jump-Keeps,
}
use loxis_programming_langua.Vm.Exec.{Operands}
use loxis_programming_langua.Vm.Action.{stop, modify}
use loxis_programming_langua.Vm.Keeps.{Ends}
use loxis_programming_langua.Vm.Exec.Control.{
  drop_handler, push_handler, null_test, skip_to, exec_try_push, exec_try_pop, exec_throw, exec_jmp,
  exec_jump_if, exec_jnz, exec_jz, exec_jn, exec_null_chk, exec_skip,
}

module _ {G : Type 0} (m : Machine G) {I : Vm G → Type 0} (L : IsStable m I) (os : Operands) where
  drop_handler_at :
      (s : Vm G) (hs : List ExceptionHandler)
      → s.handlers ≡ hs
      → I s
      → Ends I (λ _. I) (drop_handler m os hs s).0 (drop_handler m os hs s).1
  unfolding drop_handler stop modify
  drop_handler_at s [] e i = tt
  drop_handler_at s (h ∷ rest) e i = L.try_pop_law s h rest e i

  push_handler-Keeps : (target reg : ℕ) → Keeps I (push_handler m os target reg)
  unfolding push_handler
  push_handler-Keeps target reg = Keeps-modify _ (λ s h. L.try_push_law s target reg h)

  null_test-Keeps : (t : OperandTag) (r : ℕ) → Keeps I (null_test m os t r)
  unfolding null_test
  null_test-Keeps OperandTag.reg r = search (keeps_rules, read_reg-Keeps)
  null_test-Keeps OperandTag.imm64 r = search (keeps_rules)
  null_test-Keeps OperandTag.null r = search (keeps_rules)
  null_test-Keeps OperandTag.float64 r = search (keeps_rules)
  null_test-Keeps OperandTag.str_idx r = search (keeps_rules)
  null_test-Keeps OperandTag.addr r = search (keeps_rules)

  skip_to-Keeps : (xs : Operands) → Keeps I (skip_to m os xs)
  unfolding skip_to
  skip_to-Keeps [] = Keeps-pure true
  skip_to-Keeps (o ∷ _) = Keeps-bind (jump-Keeps m L _) (λ _. Keeps-pure false)

  ruleset control_rules = (push_handler-Keeps, null_test-Keeps, skip_to-Keeps)

  pub exec_try_push-Keeps : Keeps I (exec_try_push m os)
  unfolding exec_try_push
  exec_try_push-Keeps =
      search (keeps_rules, stable_rules, opcode_rules, control_rules, L) depth 40 fits 4000

  pub exec_throw-Keeps : Keeps I (exec_throw m os)
  unfolding exec_throw
  exec_throw-Keeps =
      search (keeps_rules, stable_rules, opcode_rules, control_rules, L) depth 40 fits 4000

  pub exec_jmp-Keeps : Keeps I (exec_jmp m os)
  unfolding exec_jmp
  exec_jmp-Keeps =
      search (keeps_rules, stable_rules, opcode_rules, control_rules, L) depth 40 fits 4000

  pub exec_null_chk-Keeps : Keeps I (exec_null_chk m os)
  unfolding exec_null_chk
  exec_null_chk-Keeps =
      search (keeps_rules, stable_rules, opcode_rules, control_rules, L) depth 40 fits 4000

  pub exec_try_pop-Keeps : Keeps I (exec_try_pop m os)
  unfolding exec_try_pop
  exec_try_pop-Keeps = of_leads (
      Leads-state (λ s.
        Leads-bind
          (record { at = λ t h. drop_handler_at t s.handlers (ap (λ u. u.handlers) (sym h.0)) h.1 })
          (λ _. to_leads (next_ip-Keeps m L))))

  pub exec_jump_if-Keeps : (test : Vm G → Bool) → Keeps I (exec_jump_if m os test)
  unfolding exec_jump_if
  exec_jump_if-Keeps test = search (keeps_rules, stable_rules, opcode_rules, L) depth 40 fits 4000

  pub exec_skip-Keeps : Keeps I (exec_skip m os)
  unfolding exec_skip
  exec_skip-Keeps = skip_to-Keeps os

  pub exec_jnz-Keeps : Keeps I (exec_jnz m os)
  unfolding exec_jnz
  exec_jnz-Keeps = exec_jump_if-Keeps _

  pub exec_jz-Keeps : Keeps I (exec_jz m os)
  unfolding exec_jz
  exec_jz-Keeps = exec_jump_if-Keeps _

  pub exec_jn-Keeps : Keeps I (exec_jn m os)
  unfolding exec_jn
  exec_jn-Keeps = exec_jump_if-Keeps _
