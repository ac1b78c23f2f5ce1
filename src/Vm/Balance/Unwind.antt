-- ===== src/Vm/Balance/Unwind.antt =====
-- The account and the depths of the exception handlers, through the unwinding of calls.
use loxis_programming_langua.Prelude.{
  false, ℕ, zero, suc, ◌+◌, ◌<◌, ◌≤◌, ◌≡◌, refl, sym, ap, List, [], ◌∷◌, ltb, ltb→lt, length, arith,
}
use loxis_programming_langua.Vm.Data.{CallFrame, ExceptionHandler, Backend, Vm}
use loxis_programming_langua.Vm.Keeps.{
  Leads, Leads-pure, Leads-bind, Leads-state, Leads-if, Leads-stop, Leads-weaken, panicked_end,
}
use loxis_programming_langua.Vm.Unwind.{restore_from, restore_call_frame, unwind_calls}
use loxis_programming_langua.Vm.Balance.{Ledger, tracked, refs_frames, View, view, Owes}
use loxis_programming_langua.Vm.Balance.Primitives.{move-Leads}
use loxis_programming_langua.Vm.Balance.Frames.{IsQuiet, clear_regs-Owes, restore_locals-Owes}

-- The call depths of the handlers fall, and the first is at most `depth`.
abbrev pub Fits : ℕ → List ExceptionHandler → Type 0
Fits depth [] = Unit
Fits depth (h ∷ hs) = (h.call_depth ≤ depth) × Fits h.call_depth hs

pub Fits-mono : {m n : ℕ} (hs : List ExceptionHandler) → m ≤ n → Fits m hs → Fits n hs
Fits-mono [] le f = tt
Fits-mono (h ∷ hs) le f = (omega (arith, f.0), f.1)

abbrev pub HandlersFit : View → Type 0
HandlersFit w = Fits (length w.call_stack) w.handlers

-- Between calls of the machine: nothing is in hand.
abbrev pub IsSound : {G : Type 0} → Vm (G × Ledger) → Type 0
IsSound s = Owes (λ _. 0) HandlersFit s

-- At a handler's depth, with the handlers below it.
abbrev pub AtDepth : ℕ → List ExceptionHandler → View → Type 0
AtDepth depth hs w = (length w.call_stack ≡ depth) × (w.handlers ≡ hs) × Fits depth hs

pub AtDepth-HandlersFit :
    (depth : ℕ) (hs : List ExceptionHandler) (w : View) → AtDepth depth hs w → HandlersFit w
AtDepth-HandlersFit depth hs w h = rw (h.0, h.1) h.2

-- On the way down to it, at most `n` frames above it.
abbrev pub Above : ℕ → ℕ → List ExceptionHandler → View → Type 0
Above n depth hs w =
    (depth ≤ length w.call_stack)
    × (length w.call_stack ≤ n + depth)
    × (w.handlers ≡ hs)
    × Fits depth hs

pub not_above : {d n k : ℕ} → d < n → n ≡ k → k ≤ 0 + d → ⊥
not_above lt e le = omega arith

-- The test of a loop failed at a state that is this one.
pub not_below : {d n k : ℕ} → ltb d n ≡ false → n ≡ k → k ≤ d
not_below e same = ground arith

module _ {G : Type 0} {I : Vm (G × Ledger) → Type 0} (b : Backend G) where
  restore_from-Owes :
      (calls : List CallFrame) (e : ℕ → ℕ) (F F' : View → Type 0)
      → IsQuiet F'
      → ((w : View) (frame : CallFrame) (rest : List CallFrame)
          → w.call_stack ≡ frame ∷ rest
          → F w
          → F' (record w { call_stack = rest }))
      → Leads I
          (Owes e (λ w. (w.call_stack ≡ calls) × F w))
          (restore_from (tracked b) calls)
          (λ _. Owes e F')
  unfolding restore_from refs_frames
  restore_from-Owes [] e F F' q k = Leads-stop panicked_end
  restore_from-Owes (frame ∷ rest) e F F' q k =
      Leads-bind
        (move-Leads _ (λ s. refl) (λ s h x. rw h.0 (omega arith))
          (λ s h. k (view s) frame rest h.0 h.1))
        (λ _. Leads-bind (clear_regs-Owes b F' q 10 1 _) (λ _.
          Leads-bind (clear_regs-Owes b F' q 16 240 _)
            (λ _. restore_locals-Owes b F' q frame.locals e)))

  pub restore_call_frame-Owes :
      (e : ℕ → ℕ) (F F' : View → Type 0)
      → IsQuiet F'
      → ((w : View) (frame : CallFrame) (rest : List CallFrame)
          → w.call_stack ≡ frame ∷ rest
          → F w
          → F' (record w { call_stack = rest }))
      → Leads I (Owes e F) (restore_call_frame (tracked b)) (λ _. Owes e F')
  unfolding restore_call_frame
  restore_call_frame-Owes e F F' q k = Leads-state (λ s.
      Leads-weaken
        (λ t h. record {
          account = h.1.account;
          frame = (ap (λ u. u.call_stack) (sym h.0), h.1.frame);
        })
        (restore_from-Owes s.call_stack e F F' q k))

  -- The fuel that `land` gives is enough, and the unwinding stops at the handler's depth.
  pub unwind_calls-Owes :
      (n depth : ℕ) (hs : List ExceptionHandler) (e : ℕ → ℕ)
      → Leads I
          (Owes e (Above n depth hs))
          (unwind_calls (tracked b) n depth)
          (λ _. Owes e (AtDepth depth hs))
  unfolding unwind_calls
  unwind_calls-Owes zero depth hs e = Leads-state (λ s.
      Leads-if (ltb depth (length s.call_stack))
        (λ more. record {
          at = λ t h.
              absurd (not_above (ltb→lt _ _ more) (ap (λ u. length u.call_stack) h.0) h.1.frame.1);
        })
        (λ done. Leads-pure tt (λ t h.
          let low = not_below done (ap (λ u. length u.call_stack) h.0) in
          record {
            account = h.1.account;
            frame = (omega (arith, h.1.frame.0, low), h.1.frame.2, h.1.frame.3);
          })))
  unwind_calls-Owes (suc n) depth hs e = Leads-state (λ s.
      Leads-if (ltb depth (length s.call_stack))
        (λ more.
          Leads-bind
            (Leads-weaken
              (λ t h. record {
                account = h.1.account;
                frame = (rw (← (ap (λ u. length u.call_stack) h.0)) (ltb→lt _ _ more), h.1.frame);
              })
              (restore_call_frame-Owes e
                (λ w. (depth < length w.call_stack) × Above (suc n) depth hs w) (Above n depth hs)
                (λ w f h. h)
                (λ w frame rest eq h.
                  let below : length w.call_stack ≡ suc (length rest) = ap length eq in
                  (omega (arith, h.0), omega (arith, h.1.1), h.1.2, h.1.3))))
            (λ _. unwind_calls-Owes n depth hs e))
        (λ done. Leads-pure tt (λ t h.
          let low = not_below done (ap (λ u. length u.call_stack) h.0) in
          record {
            account = h.1.account;
            frame = (omega (arith, h.1.frame.0, low), h.1.frame.2, h.1.frame.3);
          })))
