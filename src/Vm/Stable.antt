-- ===== src/Vm/Stable.antt =====
-- What an invariant of the machine has to survive for every instruction to keep it: the primitives of
-- VM.cpp.
use loxis_programming_langua.Prelude.{ℕ, ◌≡◌, Bool, List, ◌∷◌, none, length}
use loxis_programming_langua.Bytecode.Emit.{Bytes}
use loxis_programming_langua.Vm.Data.{Value, ExceptionHandler, Machine, Vm}
use loxis_programming_langua.Vm.Keeps.{Keeps}
use loxis_programming_langua.Vm.Roots.{
  call, set_reg, set_global, push_data, pop_data, push_call_frame,
}
use loxis_programming_langua.Vm.Unwind.{throw_value, alloc_object, store_object}
use loxis_programming_langua.Vm.Exec.Memory.{type_matches}
use loxis_programming_langua.Vm.Exec.Calls.{exec_ret}

-- The handler that `TryPush` makes.
abbrev pub handler_at : {G : Type 0} → Vm G → ℕ → ℕ → ExceptionHandler
handler_at s target reg = record {
  target_ip = target;
  exception_reg = reg;
  call_depth = length s.call_stack;
  data_depth = length s.data_stack;
}

pub record IsStable {G : Type 0} (m : Machine G) (I : Vm G → Type 0) : Type 0 where
  pub superclasses_law :
      (target type_id : ℕ) → (type_matches m.program.type_parents target type_id ≡ none) → ⊥
  pub set_reg_law : (r : ℕ) (v : Value) → Keeps I (set_reg m.backend r v)
  pub set_global_law : (r : ℕ) (v : Value) → Keeps I (set_global m.backend r v)
  pub push_data_law : (r : ℕ) → Keeps I (push_data m.backend r)
  pub pop_data_law : (r : ℕ) → Keeps I (pop_data m.backend r)
  pub push_call_frame_law : (return_ip call_ip : ℕ) → Keeps I (push_call_frame m return_ip call_ip)
  pub throw_value_law : (v : Value) → Keeps I (throw_value m v)
  pub ret_law : Keeps I (exec_ret m)
  pub on_alloc_law : (h : ℕ) → Keeps I (call (m.backend.on_alloc h))
  pub on_explicit_free_law : (h : ℕ) → Keeps I (call (m.backend.on_explicit_free h))
  pub edge_add_law : (h k : ℕ) → Keeps I (call (m.backend.edge_add h k))
  pub edge_remove_law : (h k : ℕ) → Keeps I (call (m.backend.edge_remove h k))
  pub alloc_object_law : (size type_id : ℕ) → Keeps I (alloc_object size type_id)
  pub store_object_law : (h offset : ℕ) (v : Value) → Keeps I (store_object h offset v)
  pub ip_law : (s : Vm G) (ip : ℕ) → I s → I (record s { jit_ip = ip })
  pub flags_law : (s : Vm G) (z n : Bool) → I s → I (record s { flag_zero = z; flag_neg = n })
  pub output_law : (s : Vm G) (o : Bytes) → I s → I (record s { output = o })
  pub strings_law : (s : Vm G) (ts : List Bytes) → I s → I (record s { runtime_strings = ts })
  pub try_push_law :
      (s : Vm G) (target reg : ℕ)
      → I s
      → I (record s { handlers = handler_at s target reg ∷ s.handlers })
  pub try_pop_law :
      (s : Vm G) (h : ExceptionHandler) (rest : List ExceptionHandler)
      → s.handlers ≡ h ∷ rest
      → I s
      → I (record s { handlers = rest })
