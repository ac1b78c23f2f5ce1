-- ===== src/Vm/Balance/Stable.antt =====
-- Every instruction and every run of the machine keeps the account right, and the handlers in order.
use loxis_programming_langua.Prelude.{ℕ, ◌≡◌, ◌≤◌, arith, List, ◌∷◌, Option, none, length}
use loxis_programming_langua.Heap.State.{Heap}
use loxis_programming_langua.Vm.Data.{Value, ExceptionHandler, Machine, Vm}
use loxis_programming_langua.Vm.Keeps.{Keeps, of_leads}
use loxis_programming_langua.Vm.Roots.{call}
use loxis_programming_langua.Vm.Unwind.{alloc_object, store_object}
use loxis_programming_langua.Vm.Exec.Memory.{type_matches}
use loxis_programming_langua.Vm.Stable.{IsStable}
use loxis_programming_langua.Vm.Balance.{Ledger, tracked_machine, noting}
use loxis_programming_langua.Vm.Balance.Primitives.{call-Leads, set_reg-Leads, set_global-Leads}
use loxis_programming_langua.Vm.Balance.Unwind.{HandlersFit, Fits, Fits-mono, IsSound}
use loxis_programming_langua.Vm.Balance.Stacks.{push_data-Owes, pop_data-Owes}
use loxis_programming_langua.Vm.Balance.Calls.{
  push_call_frame-Owes, throw_value-Owes, exec_ret-Owes,
}

module _ {G : Type 0} (m : Machine G) where
  alloc_object-Keeps :
      (size type_id : ℕ) → Keeps IsSound (alloc_object {G = G × Ledger} size type_id)
  unfolding alloc_object
  alloc_object-Keeps size type_id = record {
    at = λ s h. record { account = h.account; frame = h.frame };
  }

  store_object-Keeps :
      (h offset : ℕ) (v : Value) → Keeps IsSound (store_object {G = G × Ledger} h offset v)
  unfolding store_object
  store_object-Keeps h offset v = record {
    at = λ s h. record { account = h.account; frame = h.frame };
  }

  silent-Keeps : (c : G × Heap → Option (G × Heap)) → Keeps IsSound (call (noting (λ l. l) c))
  silent-Keeps c = of_leads (call-Leads (λ l. l) c (λ l n x a. a))

  try_pop-Fits :
      (s : Vm (G × Ledger)) (h : ExceptionHandler) (rest : List ExceptionHandler)
      → s.handlers ≡ h ∷ rest
      → Fits (length s.call_stack) s.handlers
      → Fits (length s.call_stack) rest
  try_pop-Fits s h rest e f =
      let both : (h.call_depth ≤ length s.call_stack) × Fits h.call_depth rest = rw e at f in
      Fits-mono rest both.0 both.1

  pub IsSound-IsStable :
      ((target type_id : ℕ) → type_matches m.program.type_parents target type_id ≡ none → ⊥)
      → IsStable (tracked_machine m) IsSound
  IsSound-IsStable ends = record {
    superclasses_law = ends;
    set_reg_law = λ r v.
        of_leads (set_reg-Leads m.backend r v _ HandlersFit HandlersFit (λ w f _. f) (λ w f. f));
    set_global_law = λ r v.
        of_leads (set_global-Leads m.backend r v _ HandlersFit HandlersFit (λ w f _. f) (λ w f. f));
    push_data_law = λ r. of_leads (push_data-Owes m.backend r);
    pop_data_law = λ r. of_leads (pop_data-Owes m.backend r);
    push_call_frame_law = λ return_ip call_ip. of_leads (push_call_frame-Owes m return_ip call_ip);
    throw_value_law = λ v. of_leads (throw_value-Owes m v);
    ret_law = of_leads (exec_ret-Owes m);
    on_alloc_law = λ h. silent-Keeps (m.backend.on_alloc h);
    on_explicit_free_law = λ h. silent-Keeps (m.backend.on_explicit_free h);
    edge_add_law = λ h k. silent-Keeps (m.backend.edge_add h k);
    edge_remove_law = λ h k. silent-Keeps (m.backend.edge_remove h k);
    alloc_object_law = alloc_object-Keeps;
    store_object_law = store_object-Keeps;
    ip_law = λ s ip h. record { account = h.account; frame = h.frame };
    flags_law = λ s z n h. record { account = h.account; frame = h.frame };
    output_law = λ s o h. record { account = h.account; frame = h.frame };
    strings_law = λ s ts h. record { account = h.account; frame = h.frame };
    try_push_law = λ s target reg h. record { account = h.account; frame = (omega arith, h.frame) };
    try_pop_law =
        λ s h rest e i. record { account = i.account; frame = try_pop-Fits s h rest e i.frame };
  }
