-- ===== src/Vm/Balance/Frames.antt =====
-- The account through the saving and giving back of registers.
use loxis_programming_langua.Prelude.{ℕ, zero, suc, ◌+◌, List, [], ◌∷◌, arith}
use loxis_programming_langua.Vm.Data.{Value, SavedRegister, Backend, Vm}
use loxis_programming_langua.Vm.Action.{◌>>=◌}
use loxis_programming_langua.Vm.Keeps.{Leads, Leads-pure, Leads-bind, Leads-if, Leads-weaken}
use loxis_programming_langua.Vm.Roots.{
  set_reg, drop_ref, clear_regs, restore_locals, save_locals, is_scratch,
}
use loxis_programming_langua.Vm.Balance.{Ledger, tracked, refs, refs_saved, View, Owes}
use loxis_programming_langua.Vm.Balance.Primitives.{
  Owes-shift, retain-Leads, drop_ref-Leads, read_reg-Leads, set_reg-Leads,
}

-- What is known of the stacks only.
abbrev pub IsQuiet : (View → Type 0) → Type 0
IsQuiet F = (w : View) (f : ℕ → Value) → F w → F (record w { regs = f })

module _ {G : Type 0} {I : Vm (G × Ledger) → Type 0} (b : Backend G) (F : View → Type 0)
    (q : IsQuiet F) where
  pub set_reg-Owes :
      (r : ℕ) (v : Value) (e : ℕ → ℕ) → Leads I (Owes e F) (set_reg (tracked b) r v) (λ _. Owes e F)
  set_reg-Owes r v e = set_reg-Leads b r v e F F (λ w f _. f) (λ w f. q w _ f)

  pub clear_regs-Owes :
      (n r : ℕ) (e : ℕ → ℕ) → Leads I (Owes e F) (clear_regs (tracked b) n r) (λ _. Owes e F)
  unfolding clear_regs
  clear_regs-Owes zero r e = Leads-pure tt (λ s h. h)
  clear_regs-Owes (suc n) r e = Leads-bind (set_reg-Owes r _ e) (λ _. clear_regs-Owes n (r + 1) e)

  -- A value goes back to its register, and its own reference is then dropped.
  pub give_back-Owes :
      (v : SavedRegister) (e : ℕ → ℕ)
      → Leads I
          (Owes (λ x. refs v.saved x + e x) F)
          (set_reg (tracked b) v.reg v.saved >>= λ _. drop_ref (tracked b) v.saved)
          (λ _. Owes e F)
  give_back-Owes v e = Leads-bind (set_reg-Owes v.reg v.saved _) (λ _. drop_ref-Leads b v.saved e F)

  pub restore_locals-Owes :
      (vs : List SavedRegister) (e : ℕ → ℕ)
      → Leads I
          (Owes (λ x. refs_saved vs x + e x) F)
          (restore_locals (tracked b) vs)
          (λ _. Owes e F)
  unfolding restore_locals refs_saved
  restore_locals-Owes [] e = Leads-pure tt (λ s h. Owes-shift (λ x. omega arith) h)
  restore_locals-Owes (v ∷ vs) e =
      Leads-weaken (λ s h. Owes-shift (λ x. omega arith) h)
        (Leads-bind (set_reg-Owes v.reg v.saved _) (λ _.
          Leads-bind (drop_ref-Leads b v.saved (λ x. refs_saved vs x + e x) F)
            (λ _. restore_locals-Owes vs e)))

  pub save_locals-Owes :
      (n r : ℕ) (e : ℕ → ℕ)
      → Leads I (Owes e F) (save_locals (tracked b) n r) (λ vs. Owes (λ x. refs_saved vs x + e x) F)
  unfolding save_locals refs_saved
  save_locals-Owes zero r e = Leads-pure [] (λ s h. Owes-shift (λ x. omega arith) h)
  save_locals-Owes (suc n) r e =
      Leads-if (is_scratch r) (λ _. save_locals-Owes n (r + 1) e)
        (λ _. Leads-bind (read_reg-Leads r e F) (λ v.
          Leads-bind
            (Leads-weaken (λ s h. record { account = h.account; frame = h.frame.2 })
              (retain-Leads b v e F))
            (λ _.
              Leads-bind (save_locals-Owes n (r + 1) (λ x. refs v x + e x))
                (λ vs. Leads-pure _ (λ s h. Owes-shift (λ x. omega arith) h)))))
