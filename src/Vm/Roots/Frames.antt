-- ===== src/Vm/Roots/Frames.antt =====
-- A call saves the registers from 16 on that its caller uses, and the return brings them back.
use loxis_programming_langua.Prelude.{
  ℕ, zero, suc, ◌+◌, ◌-◌, ◌≤◌, ◌<◌, ◌≡◌, refl, ap, true, false, Bool-cases, inl, inr, List, [], ◌∷◌,
  ◌==◌, ==_iff, subst, ◌∙◌, if◌then◌else◌, update, arith,
}
use loxis_programming_langua.Vm.Data.{Value, SavedRegister, CallFrame, Backend, Machine, Vm}
use loxis_programming_langua.Vm.Action.{ok, gets, ◌>>=◌}
use loxis_programming_langua.Vm.Keeps.{
  Ends, Leads, Leads-pure, Leads-bind, Leads-modify, Leads-stop, Leads-weaken, Leads-map,
  panicked_end,
}
use loxis_programming_langua.Vm.Roots.{
  save_locals, push_call_frame, restore_locals, clear_regs, max_register, is_scratch,
}
use loxis_programming_langua.Vm.Roots.Sees.{
  Sees, retain-Sees, drop_ref-Sees, read_reg-Sees, set_reg-Sees,
}
use loxis_programming_langua.Vm.Unwind.{restore_from, restore_call_frame}
use loxis_programming_langua.Vm.Balance.{View, view}
use loxis_programming_langua.Vm.Balance.Calls.{same_ref_eq}

-- `n` registers from `r` on with their values, without the scratch registers.
unfoldable pub saved_from : (ℕ → Value) → ℕ → ℕ → List SavedRegister
saved_from f zero r = []
saved_from f (suc n) r =
    if is_scratch r
    then saved_from f n (r + 1)
    else (record { reg = r; saved = f r } ∷ saved_from f n (r + 1))

-- The registers from `low` to below `high` hold what `f` says, but for the scratch registers.
abbrev Restored : (ℕ → Value) → ℕ → ℕ → View → Type 0
Restored f low high w = (q : ℕ) → low ≤ q → q < high → is_scratch q ≡ false → w.regs q ≡ f q

locals_of :
    (a b : CallFrame) (above below : List CallFrame) → a ∷ above ≡ b ∷ below → a.locals ≡ b.locals
locals_of a b above below e =
    ap (λ (xs : List CallFrame). elim xs [ [] ↦ a.locals | x ∷ _ ↦ x.locals ]) e

Restored-same :
    (f : ℕ → Value) (low r : ℕ) (w : View)
    → Restored f low r w
    → w.regs r ≡ f r
    → Restored f low (r + 1) w
Restored-same f low r w h e q le lt ns = elim (Bool-cases (r == q)) [
  | inl same ↦ subst (λ x. w.regs x ≡ f x) ((==_iff r q).0 same) e
  | inr other ↦ h q le (ground arith) ns
]

Restored-update :
    (f : ℕ → Value) (low r : ℕ) (w : View)
    → Restored f low r w
    → Restored f low (r + 1) (record w { regs = update w.regs r (f r) })
Restored-update f low r w h q le lt ns = elim (Bool-cases (r == q)) [
  | inl same ↦ rw same (ap f ((==_iff r q).0 same))
  | inr other ↦ rw other (h q le (ground arith) ns)
]

Restored-scratch :
    (f : ℕ → Value) (low r : ℕ) (w : View)
    → is_scratch r ≡ true
    → Restored f low r w
    → Restored f low (r + 1) w
Restored-scratch f low r w scratch h q le lt ns = elim (Bool-cases (r == q)) [
  | inl same ↦
      let clash = subst (λ x. is_scratch x ≡ true) ((==_iff r q).0 same) scratch in ground arith
  | inr other ↦ h q le (ground arith) ns
]

module _ {G : Type 0} {I : Vm G → Type 0} (b : Backend G) where
  save_locals-saved_from :
      (n r : ℕ) (F : View → Type 0) (f : ℕ → Value)
      → ((w : View) → F w → w.regs ≡ f)
      → Leads I (Sees F) (save_locals b n r) (λ vs. Sees (λ w. (vs ≡ saved_from f n r) × F w))
  unfolding save_locals saved_from
  save_locals-saved_from zero r F f k = Leads-pure [] (λ s h. (refl, h))
  save_locals-saved_from (suc n) r F f k = elim (Bool-cases (is_scratch r)) [
    | inl e ↦ rw e (save_locals-saved_from n (r + 1) F f k)
    | inr e ↦ rw e (
        Leads-bind (read_reg-Sees r F) (λ v.
          Leads-bind (retain-Sees b v (λ w. (v ≡ w.regs r) × F w)) (λ _.
            Leads-bind
              (save_locals-saved_from n (r + 1) (λ w. (v ≡ w.regs r) × F w) f (λ w h. k w h.1))
              (λ rest. Leads-pure _ (λ s h.
                let value : v ≡ f r = h.1.0 ∙ ap (λ g. g r) (k (view s) h.1.1) in
                (rw (h.0, value), h.1.1))))))
  ]

  restore_locals-Restored :
      (n r low high : ℕ) (f : ℕ → Value)
      → high ≡ n + r
      → Leads I
          (Sees (Restored f low r))
          (restore_locals b (saved_from f n r))
          (λ _. Sees (Restored f low high))
  unfolding restore_locals saved_from
  restore_locals-Restored zero r low high f e =
      Leads-pure tt (λ s h q le lt ns. h q le (omega arith) ns)
  restore_locals-Restored (suc n) r low high f e = elim (Bool-cases (is_scratch r)) [
    | inl scratch ↦ rw scratch (
        Leads-weaken (λ s. Restored-scratch f low r (view s) scratch)
          (restore_locals-Restored n (r + 1) low high f (omega arith)))
    | inr plain ↦ rw plain (
        Leads-bind
          (set_reg-Sees b r (f r) _ (Restored f low (r + 1))
            (λ w h t. Restored-same f low r w h (same_ref_eq _ _ t))
            (λ w h. Restored-update f low r w h))
          (λ _.
            Leads-bind (drop_ref-Sees b (f r) (Restored f low (r + 1)))
              (λ _. restore_locals-Restored n (r + 1) low high f (omega arith))))
  ]

-- The frame that a call pushes has the registers of its caller.
abbrev IsFrame : (ℕ → Value) → ℕ → List CallFrame → Type 0
IsFrame f n calls =
    (frame : CallFrame) × (rest : List CallFrame) × (calls ≡ frame ∷ rest)
    × (frame.locals ≡ saved_from f n 16)

abbrev Nothing : {G : Type 0} → Vm G → Type 0
Nothing s = Unit

abbrev frame_size : {G : Type 0} → Machine G → ℕ → ℕ
frame_size m call_ip = max_register m.program call_ip + 1 - 16

push_call_frame-IsFrame :
    {G : Type 0} (m : Machine G) (return_ip call_ip : ℕ) (f : ℕ → Value)
    → Leads Nothing
        (Sees (λ w. w.regs ≡ f))
        (push_call_frame m return_ip call_ip)
        (λ _. Sees (λ w. IsFrame f (frame_size m call_ip) w.call_stack))
unfolding push_call_frame
push_call_frame-IsFrame m return_ip call_ip f =
    Leads-bind
      (save_locals-saved_from m.backend (frame_size m call_ip) 16 (λ w. w.regs ≡ f) f (λ w h. h))
      (λ vs. Leads-modify _ (λ s h. (_, _, refl, h.0)))

clear_regs-Sees :
    {G : Type 0} {I : Vm G → Type 0} (b : Backend G) (n r : ℕ)
    → Leads I (Sees (λ _. Unit)) (clear_regs b n r) (λ _. Sees (λ _. Unit))
unfolding clear_regs
clear_regs-Sees b zero r = Leads-pure tt (λ s h. tt)
clear_regs-Sees b (suc n) r =
    Leads-bind (set_reg-Sees b r _ (λ _. Unit) (λ _. Unit) (λ w _ _. tt) (λ w _. tt))
      (λ _. clear_regs-Sees b n (r + 1))

restore_from-Restored :
    {G : Type 0} (b : Backend G) (f : ℕ → Value) (n : ℕ) (calls : List CallFrame)
    → IsFrame f n calls
    → Leads Nothing (Sees (λ _. Unit)) (restore_from b calls) (λ _. Sees (Restored f 16 (n + 16)))
unfolding restore_from
restore_from-Restored b f n [] i = Leads-stop panicked_end
restore_from-Restored b f n (frame ∷ rest) (top, below, same, locals) =
    let here : frame.locals ≡ saved_from f n 16 = locals_of frame top rest below same ∙ locals in
    Leads-bind (Leads-modify _ (λ s h. tt)) (λ _. Leads-bind (clear_regs-Sees b 10 1) (λ _.
      Leads-bind (clear_regs-Sees b 16 240) (λ _. rw here (
        Leads-weaken (λ s h q le lt ns. absurd (omega arith))
          (restore_locals-Restored b n 16 16 (n + 16) f refl)))))

restore_call_frame-Restored :
    {G : Type 0} (b : Backend G) (f : ℕ → Value) (n : ℕ) (calls : List CallFrame)
    → IsFrame f n calls
    → Leads Nothing
        (λ t. t.call_stack ≡ calls)
        (restore_call_frame b)
        (λ _. Sees (Restored f 16 (n + 16)))
unfolding restore_call_frame ◌>>=◌ gets
restore_call_frame-Restored b f n calls i = record {
  at = λ t e. (restore_from-Restored b f n t.call_stack (rw e i)).at t tt;
}

-- A register of the caller from 16 on, no scratch register and not above the highest that its function
-- uses, holds after the return what it held at the call, if both return, whatever the callee did, as
-- long as the call stack is at the return what it was after the call.
pub push_call_frame-restore_call_frame :
    {G : Type 0} (m : Machine G) (return_ip call_ip q : ℕ) (s s' t : Vm G)
    → push_call_frame m return_ip call_ip s ≡ (ok tt, s')
    → t.call_stack ≡ s'.call_stack
    → 16 ≤ q
    → q ≤ max_register m.program call_ip
    → is_scratch q ≡ false
    → Ends
        (λ _. Unit)
        (λ _ u. u.regs q ≡ s.regs q)
        (restore_call_frame m.backend t).0
        (restore_call_frame m.backend t).1
push_call_frame-restore_call_frame m return_ip call_ip q s s' t pushed same low high plain =
    let frame = rw pushed at ((push_call_frame-IsFrame m return_ip call_ip s.regs).at s refl) in
    (Leads-map (λ _ u restored. restored q low (omega arith) plain)
        (restore_call_frame-Restored m.backend s.regs (frame_size m call_ip) t.call_stack
          (rw same frame))).at
      t refl
