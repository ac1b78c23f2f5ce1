-- ===== src/Vm/Run/Keeps.antt =====
-- A run keeps every stable invariant.
use loxis_programming_langua.Prelude.{ℕ, zero, suc, ◌+◌, Bool, Option, none, some}
use loxis_programming_langua.Bytecode.Decode.{DecodedInstr}
use loxis_programming_langua.Vm.Data.{Machine, Vm}
use loxis_programming_langua.Vm.Action.{
  Result, ok, unwound, panicked, undefined, diverged, left_out, uncaught, Action,
}
use loxis_programming_langua.Vm.Keeps.{Ends, Keeps, Keeps-bind, Keeps-pure, Keeps-gets, Keeps-if}
use loxis_programming_langua.Vm.Stable.{IsStable}
use loxis_programming_langua.Vm.Exec.Keeps.{set_ip-Keeps}
use loxis_programming_langua.Vm.Exec.Dispatch.Keeps.{exec_jit_instruction-Keeps}
use loxis_programming_langua.Vm.Run.{go_on, caught, run_round, run_loop, run_jit}

go_on-Ends :
    {G : Type 0} (I : Vm G → Type 0) (r : Result Bool) (s : Vm G)
    → Ends I (λ _. I) r s
    → Ends I (λ _. I) (go_on r) s
unfolding go_on
go_on-Ends I (ok a) s e = e
go_on-Ends I unwound s e = e
go_on-Ends I panicked s e = e
go_on-Ends I undefined s e = e
go_on-Ends I diverged s e = e
go_on-Ends I left_out s e = e
go_on-Ends I (uncaught t n) s e = e

caught-Keeps : {G : Type 0} {I : Vm G → Type 0} {a : Action G Bool} → Keeps I a → Keeps I (caught a)
unfolding caught
caught-Keeps {I = I} {a = a} k = record { at = λ s h. go_on-Ends I (a s).0 (a s).1 (k.at s h) }

module _ {G : Type 0} (m : Machine G) {I : Vm G → Type 0} (L : IsStable m I) where
  run_round-Keeps :
      (count : ℕ) (again : Action G (Bool × ℕ))
      → Keeps I again
      → (o : Option DecodedInstr) → Keeps I (run_round m count again o)
  unfolding run_round
  run_round-Keeps count again k none = Keeps-pure _
  run_round-Keeps count again k (some i) =
      Keeps-bind (caught-Keeps (exec_jit_instruction-Keeps m L i))
        (λ halted. Keeps-if halted (Keeps-pure _) k)

  run_loop-Keeps : (n count : ℕ) → Keeps I (run_loop m n count)
  unfolding run_loop
  run_loop-Keeps zero count = Keeps-pure _
  run_loop-Keeps (suc n) count =
      Keeps-bind (Keeps-gets _)
        (λ s. run_round-Keeps count (run_loop m n (count + 1)) (run_loop-Keeps n (count + 1)) _)

  pub run_jit-Keeps : (max : ℕ) → Keeps I (run_jit m max)
  unfolding run_jit
  run_jit-Keeps max =
      Keeps-bind (set_ip-Keeps m L 0) (λ _. Keeps-bind (run_loop-Keeps max 0) (λ _. Keeps-pure _))
