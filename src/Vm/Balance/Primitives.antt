-- ===== src/Vm/Balance/Primitives.antt =====
-- What the primitives of Vm.Roots do to the account.
use loxis_programming_langua.Prelude.{
  ℕ, zero, suc, ◌+◌, ◌<◌, ◌≤◌, ◌≡◌, refl, ap, true, Option, none, some, ltb, ltb→lt, ◌==◌, ==_iff,
  Bool-cases, inl, inr, update, arith,
}
use loxis_programming_langua.Heap.State.{Heap}
use loxis_programming_langua.Vm.Data.{Value, is_heap, Backend, Vm, reg_count, global_count}
use loxis_programming_langua.Vm.Action.{modify}
use loxis_programming_langua.Vm.Keeps.{
  Ends, Leads, Leads-pure, Leads-bind, Leads-modify, Leads-state, Leads-if, Leads-stop,
  undefined_end,
}
use loxis_programming_langua.Vm.Roots.{
  same_ref, call, after_call, retain, drop_ref, read_reg, set_reg, read_global, set_global,
}
use loxis_programming_langua.Vm.Balance.{
  Ledger, add_noted, remove_noted, with_ledger, noting, tracked, refs, refs_below, View, view, held,
  Owes,
}

refs_below-update_out :
    (f : ℕ → Value) (r : ℕ) (v : Value) (x n : ℕ)
    → n ≤ r
    → refs_below (update f r v) n x ≡ refs_below f n x
unfolding refs_below
refs_below-update_out f r v x zero le = refl
refs_below-update_out f r v x (suc n) le =
    let rest = refs_below-update_out f r v x n (omega arith) in
    let at : update f r v n ≡ f n = ground arith in rw (at, rest)

-- One place of the registers changes.
pub refs_below-update :
    (f : ℕ → Value) (r : ℕ) (v : Value) (x n : ℕ)
    → r < n
    → refs_below (update f r v) n x + refs (f r) x ≡ refs_below f n x + refs v x
unfolding refs_below
refs_below-update f r v x zero lt = omega arith
refs_below-update f r v x (suc n) lt = elim (Bool-cases (r == n)) [
  | inl e ↦
      let same : r ≡ n = (==_iff r n).0 e in
      let at : update f r v n ≡ v = rw e in
      let here : f r ≡ f n = ap f same in
      let rest = refs_below-update_out f r v x n (omega arith) in rw (at, rest, here) (omega arith)
  | inr e ↦
      let at : update f r v n ≡ f n = rw e in
      let rest = refs_below-update f r v x n (ground arith) in rw at (omega arith)
]

pub Owes-shift :
    {G : Type 0} {e e' : ℕ → ℕ} {F : View → Type 0} {s : Vm (G × Ledger)}
    → ((x : ℕ) → e x ≡ e' x)
    → Owes e F s
    → Owes e' F s
Owes-shift {s = s} k a = record { account = λ x. rw (← (k x)) (a.account x); frame = a.frame }

-- The end of a call that notes what it owes.
call-Ends :
    {G : Type 0} (I : Vm (G × Ledger) → Type 0) (s : Vm (G × Ledger)) (l : Ledger)
    (o : Option (G × Heap)) (e' : ℕ → ℕ) (F : View → Type 0)
    → ((x : ℕ) → l.adds x ≡ l.removes x + (held (view s) x + e' x))
    → F (view s)
    → Ends I (λ _. Owes e' F) (after_call s (with_ledger l o)).0 (after_call s (with_ledger l o)).1
unfolding after_call with_ledger
call-Ends I s l none e' F a f = tt
call-Ends I s l (some (g, heap)) e' F a f = record { account = a; frame = f }

module _ {G : Type 0} {I : Vm (G × Ledger) → Type 0} where
  pub call-Leads :
      (f : Ledger → Ledger) (c : G × Heap → Option (G × Heap)) {e e' : ℕ → ℕ} {F : View → Type 0}
      → ((l : Ledger) (n x : ℕ)
          → l.adds x ≡ l.removes x + (n + e x)
          → (f l).adds x ≡ (f l).removes x + (n + e' x))
      → Leads I (Owes e F) (call (noting f c)) (λ _. Owes e' F)
  unfolding call
  call-Leads f c {e' = e'} {F = F} k = record {
    at = λ s h.
        call-Ends I s (f s.gc.1) (c (s.gc.0, s.heap)) e' F
          (λ x. k s.gc.1 (held (view s) x) x (h.account x)) h.frame;
  }

  -- What is in hand grows by a reference that is retained, and shrinks by one that is dropped.
  pub retain-Leads :
      (b : Backend G) (v : Value) (e : ℕ → ℕ) (F : View → Type 0)
      → Leads I (Owes e F) (retain (tracked b) v) (λ _. Owes (λ x. refs v x + e x) F)
  unfolding retain
  retain-Leads b v e F = elim (Bool-cases (is_heap v)) [
    | inl h ↦ rw h (call-Leads (add_noted _) (b.root_add _) (λ l n x a. omega arith))
    | inr h ↦ rw h (Leads-pure tt (λ s a. Owes-shift (λ x. omega arith) a))
  ]

  pub drop_ref-Leads :
      (b : Backend G) (v : Value) (e : ℕ → ℕ) (F : View → Type 0)
      → Leads I (Owes (λ x. refs v x + e x) F) (drop_ref (tracked b) v) (λ _. Owes e F)
  unfolding drop_ref
  drop_ref-Leads b v e F = elim (Bool-cases (is_heap v)) [
    | inl h ↦ rw h (call-Leads (remove_noted _) (b.root_remove _) (λ l n x a. omega arith))
    | inr h ↦ rw h (Leads-pure tt (λ s a. Owes-shift (λ x. omega arith) a))
  ]

  -- A change of the state that moves references between what is held and what is in hand.
  pub move-Leads :
      (f : Vm (G × Ledger) → Vm (G × Ledger)) {e e' : ℕ → ℕ} {F F' : View → Type 0}
      → ((s : Vm (G × Ledger)) → (f s).gc ≡ s.gc)
      → ((s : Vm (G × Ledger))
          → F (view s)
          → (x : ℕ) → held (view (f s)) x + e' x ≡ held (view s) x + e x)
      → ((s : Vm (G × Ledger)) → F (view s) → F' (view (f s)))
      → Leads I (Owes e F) (modify f) (λ _. Owes e' F')
  move-Leads f same moved kept = Leads-modify f (λ s h. record {
    account = λ x. rw (same s) (rw (moved s h.frame x) (h.account x));
    frame = kept s h.frame;
  })

  pub read_reg-Leads :
      (r : ℕ) (e : ℕ → ℕ) (F : View → Type 0)
      → Leads I (Owes e F) (read_reg r) (λ v. Owes e (λ w. (r < reg_count) × (v ≡ w.regs r) × F w))
  unfolding read_reg
  read_reg-Leads r e F = Leads-state (λ a.
      Leads-if (ltb r reg_count)
        (λ lt. Leads-pure _ (λ s h. record {
          account = h.1.account;
          frame = (ltb→lt r reg_count lt, ap (λ u. u.regs r) h.0, h.1.frame);
        }))
        (λ _. Leads-stop undefined_end))

  -- `setReg` leaves the account as it is. What is known of the view has to hold with the register changed.
  pub set_reg-Leads :
      (b : Backend G) (r : ℕ) (v : Value) (e : ℕ → ℕ) (F F' : View → Type 0)
      → ((w : View) → F w → same_ref (w.regs r) v ≡ true → F' w)
      → ((w : View) → F w → F' (record w { regs = update w.regs r v }))
      → Leads I (Owes e F) (set_reg (tracked b) r v) (λ _. Owes e F')
  unfolding set_reg
  set_reg-Leads b r v e F F' same changed = Leads-bind (read_reg-Leads r e F) (λ old.
      Leads-if (same_ref old v)
        (λ t. Leads-pure tt (λ s h. record {
          account = h.account;
          frame = same (view s) h.frame.2 (rw (← h.frame.1) t);
        }))
        (λ _. Leads-bind (retain-Leads b v e _) (λ _.
          Leads-bind
            (move-Leads _ (λ s. refl)
              (λ s h x. rw h.1 (omega (arith, refs_below-update s.regs r v x reg_count h.0)))
              (λ s h. changed (view s) h.2))
            (λ _. drop_ref-Leads b old e F'))))

  pub read_global-Leads :
      (r : ℕ) (e : ℕ → ℕ) (F : View → Type 0)
      → Leads I
          (Owes e F)
          (read_global r)
          (λ v. Owes e (λ w. (r < global_count) × (v ≡ w.globals r) × F w))
  unfolding read_global
  read_global-Leads r e F = Leads-state (λ a.
      Leads-if (ltb r global_count)
        (λ lt. Leads-pure _ (λ s h. record {
          account = h.1.account;
          frame = (ltb→lt r global_count lt, ap (λ u. u.globals r) h.0, h.1.frame);
        }))
        (λ _. Leads-stop undefined_end))

  -- `setGlobal` does the same.
  pub set_global-Leads :
      (b : Backend G) (r : ℕ) (v : Value) (e : ℕ → ℕ) (F F' : View → Type 0)
      → ((w : View) → F w → same_ref (w.globals r) v ≡ true → F' w)
      → ((w : View) → F w → F' (record w { globals = update w.globals r v }))
      → Leads I (Owes e F) (set_global (tracked b) r v) (λ _. Owes e F')
  unfolding set_global
  set_global-Leads b r v e F F' same changed = Leads-bind (read_global-Leads r e F) (λ old.
      Leads-if (same_ref old v)
        (λ t. Leads-pure tt (λ s h. record {
          account = h.account;
          frame = same (view s) h.frame.2 (rw (← h.frame.1) t);
        }))
        (λ _. Leads-bind (retain-Leads b v e _) (λ _.
          Leads-bind
            (move-Leads _ (λ s. refl)
              (λ s h x. rw h.1 (omega (arith, refs_below-update s.globals r v x global_count h.0)))
              (λ s h. changed (view s) h.2))
            (λ _. drop_ref-Leads b old e F'))))
