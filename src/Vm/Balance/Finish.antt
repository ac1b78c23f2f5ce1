-- ===== src/Vm/Balance/Finish.antt =====
-- What `finishGC` leaves: registers, globals and the data stack hold no reference any more.
use loxis_programming_langua.Prelude.{
  ℕ, zero, suc, ◌+◌, ◌<◌, ◌≡◌, refl, sym, ap, true, false, Bool-cases, inl, inr, List, [], ◌∷◌,
  ◌==◌, update, arith,
}
use loxis_programming_langua.Vm.Data.{
  Value, int_value, is_heap, SavedRegister, CallFrame, Backend, Vm, reg_count, global_count,
}
use loxis_programming_langua.Vm.Keeps.{
  Leads, Leads-pure, Leads-bind, Leads-state, Leads-weaken, Leads-map,
}
use loxis_programming_langua.Vm.Roots.{same_ref, clear_regs}
use loxis_programming_langua.Vm.Run.{clear_globals, clear_stack, drop_roots, finish_gc}
use loxis_programming_langua.Vm.Balance.{
  Ledger, tracked, refs_below, refs_saved, refs_frames, View, Owes,
}
use loxis_programming_langua.Vm.Balance.Primitives.{
  call-Leads, drop_ref-Leads, move-Leads, set_reg-Leads, set_global-Leads,
}
use loxis_programming_langua.Vm.Balance.Unwind.{IsSound}

-- No reference in the first `n` places.
abbrev pub Cleared : (ℕ → Value) → ℕ → Type 0
Cleared f n = (q : ℕ) → q < n → is_heap (f q) ≡ false

pub refs_below-Cleared : (f : ℕ → Value) (n x : ℕ) → Cleared f n → refs_below f n x ≡ 0
unfolding refs_below
refs_below-Cleared f zero x c = refl
refs_below-Cleared f (suc n) x c =
    let here = c n (omega arith) in
    let rest = refs_below-Cleared f n x (λ q lt. c q (omega arith)) in rw (here, rest) (omega arith)

Cleared-update : (f : ℕ → Value) (n : ℕ) → Cleared f n → Cleared (update f n (int_value 0)) (n + 1)
Cleared-update f n c q lt = elim (Bool-cases (n == q)) [
  | inl e ↦ rw e
  | inr e ↦ rw e (c q (ground arith))
]

not_same : (v : Value) → same_ref v (int_value 0) ≡ true → ⊥
unfolding same_ref
not_same v e = ground arith

-- The globals, when the registers are clear.
abbrev Clear : List CallFrame → ℕ → View → Type 0
Clear calls n w = Cleared w.regs reg_count × Cleared w.globals n × (w.call_stack ≡ calls)

-- The account where only the frames of calls hold references.
abbrev pub LeftInFrames : {G : Type 0} → Vm (G × Ledger) → Type 0
LeftInFrames s = (x : ℕ) → s.gc.1.adds x ≡ s.gc.1.removes x + refs_frames s.call_stack x

left_in_frames :
    {G : Type 0} (calls : List CallFrame) (s : Vm (G × Ledger))
    → Owes (λ _. 0) (λ w. (w.data_stack ≡ []) × Clear calls global_count w) s
    → LeftInFrames s
unfolding refs_saved
left_in_frames calls s h x =
    let regs = refs_below-Cleared s.regs reg_count x h.frame.1.0 in
    let globals = refs_below-Cleared s.globals global_count x h.frame.1.1 in
    let saved : refs_saved s.data_stack x ≡ 0 = rw h.frame.0 in
    let account = h.account x in omega (arith, regs, globals, saved, account)

module _ {G : Type 0} {I : Vm (G × Ledger) → Type 0} (b : Backend G) (calls : List CallFrame) where
  clear_regs-Leads :
      (n r k : ℕ)
      → k ≡ n + r
      → Leads I
          (Owes (λ _. 0) (λ w. Cleared w.regs r × (w.call_stack ≡ calls)))
          (clear_regs (tracked b) n r)
          (λ _. Owes (λ _. 0) (λ w. Cleared w.regs k × (w.call_stack ≡ calls)))
  unfolding clear_regs
  clear_regs-Leads zero r k e = Leads-pure tt (λ s h. record {
    account = h.account;
    frame = ((λ q lt. h.frame.0 q (omega arith)), h.frame.1);
  })
  clear_regs-Leads (suc n) r k e =
      Leads-bind
        (set_reg-Leads b r (int_value 0) _ _ (λ w. Cleared w.regs (r + 1) × (w.call_stack ≡ calls))
          (λ w f t. absurd (not_same (w.regs r) t)) (λ w f. (Cleared-update w.regs r f.0, f.1)))
        (λ _. clear_regs-Leads n (r + 1) k (omega arith))

  clear_globals-Leads :
      (n r k : ℕ)
      → k ≡ n + r
      → Leads I
          (Owes (λ _. 0) (Clear calls r))
          (clear_globals (tracked b) n r)
          (λ _. Owes (λ _. 0) (Clear calls k))
  unfolding clear_globals
  clear_globals-Leads zero r k e = Leads-pure tt (λ s h. record {
    account = h.account;
    frame = (h.frame.0, (λ q lt. h.frame.1 q (omega arith)), h.frame.2);
  })
  clear_globals-Leads (suc n) r k e =
      Leads-bind
        (set_global-Leads b r (int_value 0) _ _ (Clear calls (r + 1))
          (λ w f t. absurd (not_same (w.globals r) t))
          (λ w f. (f.0, Cleared-update w.globals r f.1, f.2)))
        (λ _. clear_globals-Leads n (r + 1) k (omega arith))

  clear_stack-Leads :
      (stack : List SavedRegister)
      → Leads I
          (Owes (λ _. 0) (λ w. (w.data_stack ≡ stack) × Clear calls global_count w))
          (clear_stack (tracked b) stack)
          (λ _. Owes (λ _. 0) (λ w. (w.data_stack ≡ []) × Clear calls global_count w))
  unfolding clear_stack refs_saved
  clear_stack-Leads [] = Leads-pure tt (λ s h. h)
  clear_stack-Leads (v ∷ rest) =
      Leads-bind
        (move-Leads _ {F' = λ w. (w.data_stack ≡ rest) × Clear calls global_count w} (λ s. refl)
          (λ s h x. rw h.0 (omega arith)) (λ s h. (refl, h.1)))
        (λ _. Leads-bind (drop_ref-Leads b v.saved (λ _. 0) _) (λ _. clear_stack-Leads rest))

  drop_roots-Leads :
      Leads I
        (Owes (λ _. 0) (λ w. w.call_stack ≡ calls))
        (drop_roots (tracked b))
        (λ _. Owes (λ _. 0) (λ w. (w.data_stack ≡ []) × Clear calls global_count w))
  unfolding drop_roots
  drop_roots-Leads =
      Leads-bind
        (Leads-weaken
          (λ s h. record { account = h.account; frame = ((λ q lt. absurd (omega arith)), h.frame) })
          (clear_regs-Leads reg_count 0 reg_count (omega arith)))
        (λ _.
          Leads-bind
            (Leads-weaken
              (λ s h. record {
                account = h.account;
                frame = (h.frame.0, (λ q lt. absurd (omega arith)), h.frame.1);
              })
              (clear_globals-Leads global_count 0 global_count (omega arith)))
            (λ _. Leads-state (λ s.
              Leads-weaken
                (λ t h. record {
                  account = h.1.account;
                  frame = (ap (λ u. u.data_stack) (sym h.0), h.1.frame);
                })
                (clear_stack-Leads s.data_stack))))

  finish_from :
      Leads I
        (Owes (λ _. 0) (λ w. w.call_stack ≡ calls))
        (finish_gc (tracked b))
        (λ _. LeftInFrames)
  unfolding finish_gc
  finish_from =
      Leads-map (λ _ s. left_in_frames calls s)
        (Leads-bind drop_roots-Leads (λ _. call-Leads (λ l. l) b.shutdown (λ l n x a. a)))

module _ {G : Type 0} {I : Vm (G × Ledger) → Type 0} (b : Backend G) where
  pub finish_gc-Leads : Leads I IsSound (finish_gc (tracked b)) (λ _. LeftInFrames)
  finish_gc-Leads = record {
    at = λ s h. (finish_from b s.call_stack).at s (record { account = h.account; frame = refl });
  }
