-- ===== src/Vm/Roots/Sees.antt =====
-- What the primitives of Vm.Roots do to registers and stacks, under any collector.
use loxis_programming_langua.Prelude.{ℕ, ◌≡◌, ap, true, Option, none, some, ltb, update}
use loxis_programming_langua.Heap.State.{Heap}
use loxis_programming_langua.Vm.Data.{Value, is_heap, Backend, Vm, reg_count}
use loxis_programming_langua.Vm.Keeps.{
  Ends, Leads, Leads-pure, Leads-bind, Leads-modify, Leads-state, Leads-if, Leads-stop,
  undefined_end,
}
use loxis_programming_langua.Vm.Roots.{
  call, after_call, retain, drop_ref, read_reg, set_reg, same_ref,
}
use loxis_programming_langua.Vm.Balance.{View, view}

abbrev pub Sees : {G : Type 0} → (View → Type 0) → Vm G → Type 0
Sees F s = F (view s)

call-Sees_end :
    {G : Type 0} (I : Vm G → Type 0) (s : Vm G) (o : Option (G × Heap)) (F : View → Type 0)
    → F (view s)
    → Ends I (λ _. Sees F) (after_call s o).0 (after_call s o).1
unfolding after_call
call-Sees_end I s none F f = tt
call-Sees_end I s (some (g, heap)) F f = f

module _ {G : Type 0} {I : Vm G → Type 0} where
  call-Sees :
      (c : G × Heap → Option (G × Heap)) (F : View → Type 0)
      → Leads I (Sees F) (call c) (λ _. Sees F)
  unfolding call
  call-Sees c F = record { at = λ s f. call-Sees_end I s (c (s.gc, s.heap)) F f }

  pub retain-Sees :
      (b : Backend G) (v : Value) (F : View → Type 0) → Leads I (Sees F) (retain b v) (λ _. Sees F)
  unfolding retain
  retain-Sees b v F =
      Leads-if (is_heap v) (λ _. call-Sees (b.root_add _) F) (λ _. Leads-pure tt (λ s f. f))

  pub drop_ref-Sees :
      (b : Backend G) (v : Value) (F : View → Type 0)
      → Leads I (Sees F) (drop_ref b v) (λ _. Sees F)
  unfolding drop_ref
  drop_ref-Sees b v F =
      Leads-if (is_heap v) (λ _. call-Sees (b.root_remove _) F) (λ _. Leads-pure tt (λ s f. f))

  pub read_reg-Sees :
      (r : ℕ) (F : View → Type 0)
      → Leads I (Sees F) (read_reg r) (λ v. Sees (λ w. (v ≡ w.regs r) × F w))
  unfolding read_reg
  read_reg-Sees r F = Leads-state (λ a.
      Leads-if (ltb r reg_count) (λ _. Leads-pure _ (λ s h. (ap (λ u. u.regs r) h.0, h.1)))
        (λ _. Leads-stop undefined_end))

  -- The register holds the value afterwards, and all else is as it was.
  pub set_reg-Sees :
      (b : Backend G) (r : ℕ) (v : Value) (F F' : View → Type 0)
      → ((w : View) → F w → same_ref (w.regs r) v ≡ true → F' w)
      → ((w : View) → F w → F' (record w { regs = update w.regs r v }))
      → Leads I (Sees F) (set_reg b r v) (λ _. Sees F')
  unfolding set_reg
  set_reg-Sees b r v F F' same changed = Leads-bind (read_reg-Sees r F) (λ old.
      Leads-if (same_ref old v) (λ t. Leads-pure tt (λ s h. same (view s) h.1 (rw (← h.0) t)))
        (λ _. Leads-bind (retain-Sees b v (λ w. (old ≡ w.regs r) × F w)) (λ _.
          Leads-bind (Leads-modify _ (λ s h. changed (view s) h.1)) (λ _. drop_ref-Sees b old F'))))
