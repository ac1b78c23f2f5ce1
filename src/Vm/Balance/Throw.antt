-- ===== src/Vm/Balance/Throw.antt =====
-- `throwValue` of VM.cpp with a handler.
use loxis_programming_langua.Prelude.{◌≡◌, List, ◌∷◌, length}
use loxis_programming_langua.Vm.Data.{Value, ExceptionHandler, Machine, Vm}
use loxis_programming_langua.Vm.Keeps.{Ends, Leads}
use loxis_programming_langua.Vm.Action.{gets, ◌>>=◌}
use loxis_programming_langua.Vm.Unwind.{throw_to, throw_value, land}
use loxis_programming_langua.Vm.Balance.{Ledger, tracked_machine, Owes}
use loxis_programming_langua.Vm.Balance.Unwind.{IsSound, Fits}
use loxis_programming_langua.Vm.Balance.Calls.{Landing, land-Owes}

-- The machine goes on at the handler's target, with a right account.
abbrev pub Landed :
    {G : Type 0} → Value → ExceptionHandler → List ExceptionHandler → Vm (G × Ledger) → Type 0
Landed v h rest s = Owes (λ _. 0) (Landing v h rest) s × (s.jit_ip ≡ h.target_ip)

module _ {G : Type 0} (m : Machine G) where
  throw_to_handler :
      (v : Value) (s : Vm (G × Ledger)) (h : ExceptionHandler) (rest : List ExceptionHandler)
      → Leads IsSound
          (Owes (λ _. 0) (λ w. Fits (length w.call_stack) (h ∷ rest)))
          (throw_to (tracked_machine m) v s (h ∷ rest))
          (λ _. Landed v h rest)
  unfolding throw_to
  throw_to_handler v s h rest = land-Owes m v h rest

  -- From a state whose account is right and whose handlers' call depths fall to at most the depth of the
  -- call stack, a throw that returns has put its value into the register of the handler on top, has left
  -- that handler, stands at its target with the call stack at its depth and the data stack at its depth
  -- or below, and the account is right. The unwinding ends.
  pub throw_value-Landed :
      (v : Value) (s : Vm (G × Ledger)) (h : ExceptionHandler) (rest : List ExceptionHandler)
      → s.handlers ≡ h ∷ rest
      → IsSound s
      → Ends IsSound
          (λ _. Landed v h rest)
          (throw_value (tracked_machine m) v s).0
          (throw_value (tracked_machine m) v s).1
  unfolding throw_value ◌>>=◌ gets land
  throw_value-Landed v s h rest e sound = rw e (
      (throw_to_handler v s h rest).at s
        (record { account = sound.account; frame = rw e at sound.frame }))
