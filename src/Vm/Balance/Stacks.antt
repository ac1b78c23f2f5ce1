-- ===== src/Vm/Balance/Stacks.antt =====
-- The account and the depths of the exception handlers, through the data stack, calls and exceptions.
use loxis_programming_langua.Prelude.{
  ℕ, zero, suc, ◌+◌, ◌<◌, ◌≤◌, ◌≡◌, refl, sym, ap, List, [], ◌∷◌, ltb, ltb→lt, ◌==◌, length, arith,
}
use loxis_programming_langua.Vm.Data.{SavedRegister, Backend, Vm}
use loxis_programming_langua.Vm.Keeps.{
  Leads, Leads-pure, Leads-bind, Leads-modify, Leads-state, Leads-if, Leads-stop, Leads-weaken,
  panicked_end,
}
use loxis_programming_langua.Vm.Roots.{push_data, pop_data, pop_from}
use loxis_programming_langua.Vm.Unwind.{unspill, unspill_top, unwind_data}
use loxis_programming_langua.Vm.Data.{Value}
use loxis_programming_langua.Vm.Balance.{View, view, Ledger, tracked, refs_saved, Owes}
use loxis_programming_langua.Vm.Balance.Primitives.{retain-Leads, move-Leads, read_reg-Leads}
use loxis_programming_langua.Vm.Balance.Frames.{give_back-Owes}
use loxis_programming_langua.Vm.Balance.Unwind.{not_above, not_below, HandlersFit, IsSound}

-- What does not depend on the registers or the data stack.
abbrev pub IsStacked : (View → Type 0) → Type 0
IsStacked F =
    (w : View) (f : ℕ → Value) (stack : List SavedRegister)
    → F w
    → F (record w { regs = f; data_stack = stack })

module _ {G : Type 0} {I : Vm (G × Ledger) → Type 0} (b : Backend G) where
  -- The top of the data stack comes into hand.
  unspill-Owes :
      (stack : List SavedRegister) (n depth : ℕ) (F : View → Type 0) (e : ℕ → ℕ)
      → IsStacked F
      → Leads I
          (Owes e (λ w.
            (w.data_stack ≡ stack) × (depth < length stack) × (length stack ≤ suc n + depth) × F w))
          (unspill (tracked b) stack)
          (λ _. Owes e (λ w. (length w.data_stack ≤ n + depth) × F w))
  unfolding unspill refs_saved
  unspill-Owes [] n depth F e q = record { at = λ s h. absurd (omega (arith, h.frame.1)) }
  unspill-Owes (v ∷ rest) n depth F e q =
      Leads-bind
        (move-Leads _ (λ s. refl) (λ s h x. rw h.0 (omega arith))
          (λ s h. (omega (arith, h.2), q (view s) s.regs rest h.3)))
        (λ _.
          give_back-Owes b (λ w. (length w.data_stack ≤ n + depth) × F w)
            (λ w f h. (h.0, q w f w.data_stack h.1)) v e)

  unspill_top-Owes :
      (n depth : ℕ) (F : View → Type 0) (e : ℕ → ℕ)
      → IsStacked F
      → Leads I
          (Owes e
            (λ w. (depth < length w.data_stack) × ((length w.data_stack ≤ suc n + depth) × F w)))
          (unspill_top (tracked b))
          (λ _. Owes e (λ w. (length w.data_stack ≤ n + depth) × F w))
  unfolding unspill_top
  unspill_top-Owes n depth F e q = Leads-state (λ s.
      Leads-weaken
        (λ t h.
          let same : t.data_stack ≡ s.data_stack = ap (λ u. u.data_stack) (sym h.0) in
          record {
            account = h.1.account;
            frame = (same, rw (← same) h.1.frame.0, rw (← same) h.1.frame.1.0, h.1.frame.1.1);
          })
        (unspill-Owes s.data_stack n depth F e q))

  -- The fuel that `land` gives is enough.
  pub unwind_data-Owes :
      (n depth : ℕ) (F : View → Type 0) (e : ℕ → ℕ)
      → IsStacked F
      → Leads I
          (Owes e (λ w. (length w.data_stack ≤ n + depth) × F w))
          (unwind_data (tracked b) n depth)
          (λ _. Owes e (λ w. (length w.data_stack ≤ depth) × F w))
  unfolding unwind_data
  unwind_data-Owes zero depth F e q = Leads-state (λ s.
      Leads-if (ltb depth (length s.data_stack))
        (λ more. record {
          at = λ t h.
              absurd (not_above (ltb→lt _ _ more) (ap (λ u. length u.data_stack) h.0) h.1.frame.0);
        })
        (λ done. Leads-pure tt (λ t h. record {
          account = h.1.account;
          frame = (not_below done (ap (λ u. length u.data_stack) h.0), h.1.frame.1);
        })))
  unwind_data-Owes (suc n) depth F e q = Leads-state (λ s.
      Leads-if (ltb depth (length s.data_stack))
        (λ more.
          Leads-bind
            (Leads-weaken
              (λ t h. record {
                account = h.1.account;
                frame = (rw (← (ap (λ u. length u.data_stack) h.0)) (ltb→lt _ _ more), h.1.frame);
              })
              (unspill_top-Owes n depth F e q))
            (λ _. unwind_data-Owes n depth F e q))
        (λ done. Leads-pure tt (λ t h. record {
          account = h.1.account;
          frame = (not_below done (ap (λ u. length u.data_stack) h.0), h.1.frame.1);
        })))

  pub push_data-Owes : (r : ℕ) → Leads I IsSound (push_data (tracked b) r) (λ _. IsSound)
  unfolding push_data refs_saved
  push_data-Owes r = Leads-bind (read_reg-Leads r _ HandlersFit) (λ v.
      Leads-bind (retain-Leads b v _ _)
        (λ _. move-Leads _ (λ s. refl) (λ s h x. omega arith) (λ s h. h.2)))

  pop_from-Owes :
      (r : ℕ) (stack : List SavedRegister)
      → Leads I
          (Owes (λ _. 0) (λ w. (w.data_stack ≡ stack) × HandlersFit w))
          (pop_from (tracked b) r stack)
          (λ _. IsSound)
  unfolding pop_from refs_saved
  pop_from-Owes r [] = Leads-pure tt (λ s h. record { account = h.account; frame = h.frame.1 })
  pop_from-Owes r (v ∷ rest) =
      Leads-if (v.reg == r)
        (λ _.
          Leads-bind (move-Leads _ (λ s. refl) (λ s h x. rw h.0 (omega arith)) (λ s h. h.1))
            (λ _. give_back-Owes b HandlersFit (λ w f h. h) v (λ _. 0)))
        (λ _.
          Leads-bind (Leads-modify {Q = λ _ _. Unit} _ (λ s h. tt)) (λ _. Leads-stop panicked_end))

  pub pop_data-Owes : (r : ℕ) → Leads I IsSound (pop_data (tracked b) r) (λ _. IsSound)
  unfolding pop_data
  pop_data-Owes r = Leads-state (λ s.
      Leads-weaken
        (λ t h. record {
          account = h.1.account;
          frame = (ap (λ u. u.data_stack) (sym h.0), h.1.frame);
        })
        (pop_from-Owes r s.data_stack))
