-- ===== src/Vm/Exec/Keeps.antt =====
-- What the opcodes share keeps every stable invariant.
use loxis_programming_langua.Prelude.{ℕ}
use loxis_programming_langua.Bytecode.Emit.{Bytes}
use loxis_programming_langua.Bytecode.Decode.{DecodedOperand, OperandTag}
use loxis_programming_langua.Vm.Data.{Value, Machine, Vm}
use loxis_programming_langua.Vm.Keeps.{
  Keeps, Keeps-modify, keeps_rules, Keeps-bind, Keeps-gets, Keeps-pure,
}
use loxis_programming_langua.Vm.Stable.{IsStable}
use loxis_programming_langua.Vm.Roots.{
  call, read_reg, read_global, set_reg, set_global, push_data, pop_data, push_call_frame,
}
use loxis_programming_langua.Vm.Unwind.{
  set_ip, throw_value, alloc_object, store_object, intern_runtime_string, raise_runtime,
}
use loxis_programming_langua.Vm.Exec.{Operands, operand, read_int_operand, int_of, next_ip, jump}

module _ {G : Type 0} {I : Vm G → Type 0} where
  pub read_reg-Keeps : (r : ℕ) → Keeps I (read_reg r)
  unfolding read_reg
  read_reg-Keeps r = search (keeps_rules)

  pub read_global-Keeps : (r : ℕ) → Keeps I (read_global r)
  unfolding read_global
  read_global-Keeps r = search (keeps_rules)

  pub operand-Keeps : (os : Operands) (i : ℕ) → Keeps I (operand os i)
  unfolding operand
  operand-Keeps os i = search (keeps_rules)

  int_of-Keeps : (t : OperandTag) (o : DecodedOperand) → Keeps I (int_of t o)
  unfolding int_of
  int_of-Keeps OperandTag.reg o = search (keeps_rules, read_reg-Keeps)
  int_of-Keeps OperandTag.imm64 o = search (keeps_rules)
  int_of-Keeps OperandTag.null o = search (keeps_rules)
  int_of-Keeps OperandTag.float64 o = search (keeps_rules)
  int_of-Keeps OperandTag.str_idx o = search (keeps_rules)
  int_of-Keeps OperandTag.addr o = search (keeps_rules)

  pub read_int_operand-Keeps : (o : DecodedOperand) → Keeps I (read_int_operand o)
  unfolding read_int_operand
  read_int_operand-Keeps o = int_of-Keeps o.tag o

module _ {G : Type 0} (m : Machine G) {I : Vm G → Type 0} (L : IsStable m I) where
  pub set_reg-Keeps : (r : ℕ) (v : Value) → Keeps I (set_reg m.backend r v)
  set_reg-Keeps = L.set_reg_law

  pub set_global-Keeps : (r : ℕ) (v : Value) → Keeps I (set_global m.backend r v)
  set_global-Keeps = L.set_global_law

  pub push_data-Keeps : (r : ℕ) → Keeps I (push_data m.backend r)
  push_data-Keeps = L.push_data_law

  pub pop_data-Keeps : (r : ℕ) → Keeps I (pop_data m.backend r)
  pop_data-Keeps = L.pop_data_law

  pub push_call_frame-Keeps :
      (return_ip call_ip : ℕ) → Keeps I (push_call_frame m return_ip call_ip)
  push_call_frame-Keeps = L.push_call_frame_law

  pub throw_value-Keeps : (v : Value) → Keeps I (throw_value m v)
  throw_value-Keeps = L.throw_value_law

  pub on_alloc-Keeps : (h : ℕ) → Keeps I (call (m.backend.on_alloc h))
  on_alloc-Keeps = L.on_alloc_law

  pub on_explicit_free-Keeps : (h : ℕ) → Keeps I (call (m.backend.on_explicit_free h))
  on_explicit_free-Keeps = L.on_explicit_free_law

  pub edge_add-Keeps : (h k : ℕ) → Keeps I (call (m.backend.edge_add h k))
  edge_add-Keeps = L.edge_add_law

  pub edge_remove-Keeps : (h k : ℕ) → Keeps I (call (m.backend.edge_remove h k))
  edge_remove-Keeps = L.edge_remove_law

  pub alloc_object-Keeps : (size type_id : ℕ) → Keeps I (alloc_object size type_id)
  alloc_object-Keeps = L.alloc_object_law

  pub store_object-Keeps : (h offset : ℕ) (v : Value) → Keeps I (store_object h offset v)
  store_object-Keeps = L.store_object_law

  pub set_ip-Keeps : (ip : ℕ) → Keeps I (set_ip ip)
  unfolding set_ip
  set_ip-Keeps ip = Keeps-modify _ (λ s h. L.ip_law s ip h)

  pub next_ip-Keeps : Keeps I next_ip
  unfolding next_ip
  next_ip-Keeps = Keeps-modify _ (λ s h. L.ip_law s _ h)

  pub intern_runtime_string-Keeps : (t : Bytes) → Keeps I (intern_runtime_string t)
  unfolding intern_runtime_string
  intern_runtime_string-Keeps t =
      Keeps-bind (Keeps-gets _)
        (λ _. Keeps-bind (Keeps-modify _ (λ s h. L.strings_law s _ h)) (λ _. Keeps-pure _))

pub ruleset stable_rules = (
  read_reg-Keeps, read_global-Keeps, operand-Keeps, read_int_operand-Keeps, set_reg-Keeps,
  set_global-Keeps, push_data-Keeps, pop_data-Keeps, push_call_frame-Keeps, throw_value-Keeps,
  on_alloc-Keeps, on_explicit_free-Keeps, edge_add-Keeps, edge_remove-Keeps, alloc_object-Keeps,
  store_object-Keeps, set_ip-Keeps, next_ip-Keeps, intern_runtime_string-Keeps,
)

module _ {G : Type 0} (m : Machine G) {I : Vm G → Type 0} (L : IsStable m I) where
  pub jump-Keeps : (offset : ℕ) → Keeps I (jump m.program offset)
  unfolding jump
  jump-Keeps offset = search (keeps_rules, stable_rules, L) depth 40 fits 4000

  pub raise_runtime-Keeps : {A : Type 0} (t : Bytes) → Keeps I (raise_runtime {A = A} m t)
  unfolding raise_runtime
  raise_runtime-Keeps t = search (keeps_rules, stable_rules, L) depth 40 fits 4000

pub ruleset opcode_rules = (jump-Keeps, raise_runtime-Keeps)
