-- ===== src/Vm/Balance/Calls.antt =====
-- The account and the depths of the exception handlers, through calls, returns and exceptions.
use loxis_programming_langua.Prelude.{
  ℕ, suc, ◌-◌, ◌+◌, ◌∙◌, ◌≤◌, ◌≡◌, refl, sym, ap, true, false, List, [], ◌∷◌, Option, none, some,
  leb, Bool-cases, inl, inr, length, arith,
}
use loxis_programming_langua.Bytecode.Emit.{Bytes}
use loxis_programming_langua.Vm.Data.{Value, CallFrame, ExceptionHandler, Program, Machine, Vm}
use loxis_programming_langua.Vm.Keeps.{
  Leads, Leads-pure, Leads-bind, Leads-state, Leads-stop, Leads-weaken, Leads-map, Leads-modify,
  panicked_end, uncaught_end, IsEnd,
}
use loxis_programming_langua.Vm.Roots.{push_call_frame, same_ref, set_reg}
use loxis_programming_langua.Vm.Unwind.{land, throw_to, throw_value, report, set_ip}
use loxis_programming_langua.Vm.Exec.Calls.{exec_ret, return_to, drop_handlers, leave_handlers}
use loxis_programming_langua.Vm.Balance.{
  Ledger, tracked, tracked_machine, refs, view, refs_frames, View, Owes,
}
use loxis_programming_langua.Vm.Balance.Primitives.{
  retain-Leads, drop_ref-Leads, move-Leads, set_reg-Leads,
}
use loxis_programming_langua.Vm.Balance.Frames.{save_locals-Owes}
use loxis_programming_langua.Vm.Balance.Stacks.{unwind_data-Owes}
use loxis_programming_langua.Vm.Balance.Unwind.{
  AtDepth, AtDepth-HandlersFit, Fits, Fits-mono, HandlersFit, IsSound, restore_call_frame-Owes,
  unwind_calls-Owes,
}

-- The handlers that a return leaves fit one frame below.
abbrev Left : View → Type 0
Left w = Fits (length w.call_stack - 1) w.handlers

drop_handlers-Fits :
    (n k : ℕ) (hs : List ExceptionHandler) → k ≤ n → Fits k hs → Fits (n - 1) (drop_handlers n hs)
unfolding drop_handlers
drop_handlers-Fits n k [] le f = tt
drop_handlers-Fits n k (h ∷ hs) le f = elim (Bool-cases (leb n h.call_depth)) [
  | inl e ↦ rw e (drop_handlers-Fits n h.call_depth hs (omega (arith, f.0)) f.1)
  | inr e ↦ rw e (ground arith, f.1)
]

report-IsEnd :
    {G : Type 0} (p : Program) (s : Vm G) (v : Value) (o : Option Bytes) → IsEnd (report p s v o)
unfolding report
report-IsEnd p s v none = panicked_end
report-IsEnd p s v (some t) = uncaught_end _ t

-- Where an exception lands: its value stands in the handler's register, the stacks are at the handler's
-- depths, and the handlers below it are left.
abbrev pub Landing : Value → ExceptionHandler → List ExceptionHandler → View → Type 0
Landing v h rest w =
    (w.regs h.exception_reg ≡ v)
    × (length w.data_stack ≤ h.data_depth)
    × AtDepth h.call_depth rest w

pub same_ref_eq : (a b : Value) → same_ref a b ≡ true → a ≡ b
unfolding same_ref
same_ref_eq a b e =
    let values : a.value ≡ b.value = ground arith in
    let tags : a.tag ≡ b.tag = ground arith in
    ap (λ (x : ℕ). record { value = x; tag = a.tag }) values
    ∙ ap (λ (x : ℕ). record { value = b.value; tag = x }) tags

module _ {G : Type 0} {I : Vm (G × Ledger) → Type 0} (m : Machine G) where
  install-Owes :
      (v : Value) (h : ExceptionHandler) (rest : List ExceptionHandler)
      → Leads I
          (Owes
            (λ x. refs v x + 0)
            (λ w. (length w.data_stack ≤ h.data_depth) × AtDepth h.call_depth rest w))
          (set_reg (tracked m.backend) h.exception_reg v)
          (λ _. Owes (λ x. refs v x + 0) (Landing v h rest))
  install-Owes v h rest =
      set_reg-Leads m.backend h.exception_reg v _ _ (Landing v h rest)
        (λ w f same. (same_ref_eq (w.regs h.exception_reg) v same, f.0, f.1))
        (λ w f. (ground arith, f.0, f.1))

  pub push_call_frame-Owes :
      (return_ip call_ip : ℕ)
      → Leads I IsSound (push_call_frame (tracked_machine m) return_ip call_ip) (λ _. IsSound)
  unfolding push_call_frame refs_frames
  push_call_frame-Owes return_ip call_ip =
      Leads-bind (save_locals-Owes m.backend HandlersFit (λ w f h. h) _ 16 (λ _. 0)) (λ vs.
        move-Leads _ (λ s. refl) (λ s h x. omega arith)
          (λ s h. Fits-mono s.handlers (omega arith) h))

  -- An exception goes to the handler on top, whose call depth the machine returns to.
  pub land-Owes :
      (v : Value) (h : ExceptionHandler) (rest : List ExceptionHandler)
      → Leads I
          (Owes (λ _. 0) (λ w. (h.call_depth ≤ length w.call_stack) × Fits h.call_depth rest))
          (land (tracked_machine m) v h rest)
          (λ _ s. Owes (λ _. 0) (Landing v h rest) s × (s.jit_ip ≡ h.target_ip))
  unfolding land set_ip
  land-Owes v h rest =
      Leads-bind (move-Leads _ (λ s. refl) (λ s f x. refl) (λ s f. (f.0, refl, f.1))) (λ _.
        Leads-bind
          (retain-Leads m.backend v _ (λ w.
            (h.call_depth ≤ length w.call_stack) × (w.handlers ≡ rest) × Fits h.call_depth rest))
          (λ _. Leads-state (λ s.
            Leads-bind
              (Leads-weaken
                (λ t a. record {
                  account = a.1.account;
                  frame = (
                    a.1.frame.0,
                    rw (ap (λ u. length u.call_stack) a.0) (omega arith),
                    a.1.frame.1,
                    a.1.frame.2,
                  );
                })
                (unwind_calls-Owes m.backend (length s.call_stack) h.call_depth rest _))
              (λ _. Leads-state (λ t.
                Leads-bind
                  (Leads-weaken
                    (λ u a. record {
                      account = a.1.account;
                      frame = (rw (ap (λ u. length u.data_stack) a.0) (omega arith), a.1.frame);
                    })
                    (unwind_data-Owes m.backend (length t.data_stack) h.data_depth
                      (AtDepth h.call_depth rest) _ (λ w f stack k. k)))
                  (λ _. Leads-bind (install-Owes v h rest) (λ _.
                    Leads-bind (drop_ref-Leads m.backend v (λ _. 0) (Landing v h rest)) (λ _.
                      Leads-modify _
                        (λ s f. (record { account = f.account; frame = f.frame }, refl))))))))))

  throw_to-Owes :
      (v : Value) (s : Vm (G × Ledger)) (hs : List ExceptionHandler)
      → Leads I
          (Owes (λ _. 0) (λ w. Fits (length w.call_stack) hs))
          (throw_to (tracked_machine m) v s hs)
          (λ _. IsSound)
  unfolding throw_to
  throw_to-Owes v s [] = Leads-stop (report-IsEnd m.program s v _)
  throw_to-Owes v s (h ∷ rest) =
      Leads-map
        (λ _ t l. record {
          account = l.0.account;
          frame = AtDepth-HandlersFit h.call_depth rest (view t) l.0.frame.2;
        })
        (land-Owes v h rest)

  pub throw_value-Owes :
      (v : Value) → Leads I IsSound (throw_value (tracked_machine m) v) (λ _. IsSound)
  unfolding throw_value
  throw_value-Owes v = Leads-state (λ s.
      Leads-weaken
        (λ t h. record { account = h.1.account; frame = rw (ap (λ u. u.handlers) h.0) h.1.frame })
        (throw_to-Owes v s s.handlers))

  leave_handlers-Owes :
      Leads I IsSound (leave_handlers (tracked_machine m)) (λ _. Owes (λ _. 0) Left)
  unfolding leave_handlers
  leave_handlers-Owes =
      move-Leads _ (λ s. refl) (λ s f x. refl)
        (λ s f.
          drop_handlers-Fits (length s.call_stack) (length s.call_stack) s.handlers (omega arith) f)

  return_to-Owes :
      (calls : List CallFrame)
      → Leads I
          (Owes (λ _. 0) (λ w. (w.call_stack ≡ calls) × Left w))
          (return_to (tracked_machine m) calls)
          (λ _. IsSound)
  unfolding return_to set_ip
  return_to-Owes [] =
      Leads-pure true (λ s h. record {
        account = h.account;
        frame = Fits-mono s.handlers (omega arith) h.frame.1;
      })
  return_to-Owes (frame ∷ more) =
      Leads-bind
        (restore_call_frame-Owes m.backend (λ _. 0) (λ w. (w.call_stack ≡ frame ∷ more) × Left w)
          HandlersFit (λ w f h. h)
          (λ w fr rest eq h.
            let below : length w.call_stack ≡ suc (length rest) = ap length eq in
            Fits-mono w.handlers (omega arith) h.1))
        (λ _.
          Leads-bind (move-Leads _ (λ s. refl) (λ s f x. refl) (λ s f. f))
            (λ _. Leads-pure false (λ s h. h)))

  pub exec_ret-Owes : Leads I IsSound (exec_ret (tracked_machine m)) (λ _. IsSound)
  unfolding exec_ret
  exec_ret-Owes = Leads-bind leave_handlers-Owes (λ _. Leads-state (λ s.
      Leads-weaken
        (λ t h. record {
          account = h.1.account;
          frame = (ap (λ u. u.call_stack) (sym h.0), h.1.frame);
        })
        (return_to-Owes s.call_stack)))
