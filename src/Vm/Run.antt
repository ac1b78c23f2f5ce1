-- ===== src/Vm/Run.antt =====
-- `runJit` and `finishGC` of VM.cpp: the loop over the decoded code, and the end of a run.
pub mod Keeps
pub mod Bounds
use loxis_programming_langua.Prelude.{
  ℕ, zero, suc, ◌+◌, ◌-◌, Bool, true, false, not, ◌&&◌, ◌||◌, List, [], ◌∷◌, Option, none, some,
  ltb, leb, if◌then◌else◌, get_elem?,
}
use loxis_programming_langua.Bytecode.Decode.{DecodedInstr}
use loxis_programming_langua.Vm.Data.{
  int_value, handle_of, is_heap, SavedRegister, Backend, Machine, Vm, reg_count, global_count,
}
use loxis_programming_langua.Vm.Action.{
  Result, ok, unwound, panicked, undefined, diverged, left_out, uncaught, Action, pure, gets,
  modify, ◌>>=◌, ◌>>◌,
}
use loxis_programming_langua.Vm.Roots.{call, drop_ref, set_global, clear_regs}
use loxis_programming_langua.Vm.Unwind.{set_ip}
use loxis_programming_langua.Vm.Exec.Dispatch.{exec_jit_instruction}

-- How many instructions a run executed, and whether it stopped at its limit.
pub record RunEnd : Type 0 where
  pub executed : ℕ
  pub truncated : Bool

-- The `catch (const RuntimeUnwind &)`.
go_on : Result Bool → Result Bool
go_on unwound = ok false
go_on r = r

module _ {G : Type 0} where
  unfoldable pub caught : Action G Bool → Action G Bool
  unfolding go_on
  caught a s = let (r, s') = a s in (go_on r, s')

  -- `finishGC`: every register, every global and the data stack, then the collector's end.
  unfoldable pub clear_globals : Backend G → ℕ → ℕ → Action G Unit
  clear_globals b zero slot = pure tt
  clear_globals b (suc n) slot = do set_global b slot (int_value 0); clear_globals b n (slot + 1)

  rest_of : List SavedRegister → Action G Unit
  rest_of stack = modify (λ s. record s { data_stack = stack })

  unfoldable pub clear_stack : Backend G → List SavedRegister → Action G Unit
  unfolding rest_of
  clear_stack b [] = pure tt
  clear_stack b (v ∷ rest) = do rest_of rest; drop_ref b v.saved; clear_stack b rest

  unfoldable pub drop_roots : Backend G → Action G Unit
  drop_roots b = do
    clear_regs b reg_count 0
    clear_globals b global_count 0
    s ← gets (λ s. s)
    clear_stack b s.data_stack

  unfoldable pub finish_gc : Backend G → Action G Unit
  finish_gc b = do drop_roots b; call b.shutdown

module _ {G : Type 0} (m : Machine G) where
  -- The loop, with the rounds that are left and those that are done; the result tells whether the
  -- machine halted, and the rounds.
  run_round : ℕ → Action G (Bool × ℕ) → Option DecodedInstr → Action G (Bool × ℕ)
  run_round count again none = pure (false, count)
  run_round count again (some i) = do
    halted ← caught (exec_jit_instruction m i)
    if halted then pure (true, count + 1) else again

  unfoldable pub run_loop : ℕ → ℕ → Action G (Bool × ℕ)
  unfolding run_round
  run_loop zero count = pure (false, count)
  run_loop (suc n) count = do
    s ← gets (λ s. s)
    run_round count (run_loop n (count + 1)) (get_elem? m.program.jit_code s.jit_ip)

  unfoldable pub run_jit : ℕ → Action G RunEnd
  run_jit max = do
    set_ip 0
    end ← run_loop max 0
    pure (record { executed = end.1; truncated = not end.0 && leb max end.1 })
