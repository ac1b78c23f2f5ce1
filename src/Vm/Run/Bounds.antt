-- ===== src/Vm/Run/Bounds.antt =====
-- A run stays within its instruction limit.
use loxis_programming_langua.Prelude.{
  ℕ, zero, suc, ◌+◌, ◌≤◌, ◌≡◌, ◌⊎◌, Bool, true, false, not, ◌&&◌, Bool-cases, inl, inr, Option,
  none, some, leb, if◌then◌else◌, subst, arith,
}
use loxis_programming_langua.Bytecode.Decode.{DecodedInstr}
use loxis_programming_langua.Vm.Data.{Machine, Vm}
use loxis_programming_langua.Vm.Action.{
  Result, ok, unwound, panicked, undefined, diverged, left_out, uncaught, Action, pure, gets,
  modify, continue, ◌>>=◌,
}
use loxis_programming_langua.Vm.Unwind.{set_ip}
use loxis_programming_langua.Vm.Exec.Dispatch.{exec_jit_instruction}
use loxis_programming_langua.Vm.Run.{RunEnd, caught, run_round, run_loop, run_jit}

-- What holds of the value where there is one.
unfoldable pub OfValue : {A : Type 0} → (A → Type 0) → Result A → Type 0
OfValue P (ok a) = P a
OfValue P _ = Unit

OfValue-continue :
    {G A B : Type 0} (P : B → Type 0) (f : A → Action G B) (r : Result A) (s : Vm G)
    → ((a : A) → OfValue P (f a s).0)
    → OfValue P (continue r f s).0
unfolding OfValue
OfValue-continue P f (ok a) s k = k a
OfValue-continue P f unwound s k = tt
OfValue-continue P f panicked s k = tt
OfValue-continue P f undefined s k = tt
OfValue-continue P f diverged s k = tt
OfValue-continue P f left_out s k = tt
OfValue-continue P f (uncaught t n) s k = tt

to_end :
    {G : Type 0} (max : ℕ) (r : Result (Bool × ℕ)) (s : Vm G)
    → OfValue (λ (end : Bool × ℕ). end.1 ≤ 0 + max) r
    → OfValue
        (λ (end : RunEnd). (end.executed ≤ max) × ((end.truncated ≡ false) ⊎ (end.executed ≡ max)))
        (continue r
          (λ end. pure (record { executed = end.1; truncated = not end.0 && leb max end.1 }))
          s).0
unfolding OfValue pure
to_end max (ok (halted, n)) s le = elim (Bool-cases (not halted && leb max n)) [
  | inl e ↦ (omega arith, inr (ground arith))
  | inr e ↦ (omega arith, inl e)
]
to_end max unwound s le = tt
to_end max panicked s le = tt
to_end max undefined s le = tt
to_end max diverged s le = tt
to_end max left_out s le = tt
to_end max (uncaught t n) s le = tt

module _ {G : Type 0} (m : Machine G) where
  run_round-OfValue :
      (count high : ℕ) (again : Action G (Bool × ℕ)) (o : Option DecodedInstr) (s : Vm G)
      → count + 1 ≤ high
      → ((t : Vm G) → OfValue (λ (end : Bool × ℕ). end.1 ≤ high) (again t).0)
      → OfValue (λ (end : Bool × ℕ). end.1 ≤ high) (run_round m count again o s).0
  unfolding run_round ◌>>=◌ pure OfValue
  run_round-OfValue count high again none s le k = omega (arith, le)
  run_round-OfValue count high again (some i) s le k =
      OfValue-continue _ _ (caught (exec_jit_instruction m i) s).0
        (caught (exec_jit_instruction m i) s).1
        (λ halted.
          elim halted
            as (λ b.
              OfValue (λ (end : Bool × ℕ). end.1 ≤ high)
                ((if b then pure (true, count + 1) else again)
                  (caught (exec_jit_instruction m i) s).1).0) [
                    | true ↦ le
                    | false ↦ k (caught (exec_jit_instruction m i) s).1
                  ])

  run_loop-OfValue :
      (n count : ℕ) (s : Vm G)
      → OfValue (λ (end : Bool × ℕ). end.1 ≤ count + n) (run_loop m n count s).0
  unfolding run_loop ◌>>=◌ gets pure OfValue
  run_loop-OfValue zero count s = omega arith
  run_loop-OfValue (suc n) count s =
      run_round-OfValue count (count + suc n) (run_loop m n (count + 1)) _ s (omega arith) (λ t.
        let high : (count + 1) + n ≡ count + suc n = omega arith in
        subst (λ x. OfValue (λ (end : Bool × ℕ). end.1 ≤ x) (run_loop m n (count + 1) t).0) high
          (run_loop-OfValue n (count + 1) t))

  -- A run that returns executed at most as many instructions as its limit, and counts as truncated only
  -- if it executed that many.
  pub run_jit-OfValue :
      (max : ℕ) (s : Vm G)
      → OfValue
          (λ (end : RunEnd).
            (end.executed ≤ max) × ((end.truncated ≡ false) ⊎ (end.executed ≡ max)))
          (run_jit m max s).0
  unfolding run_jit ◌>>=◌ pure set_ip modify
  run_jit-OfValue max s =
      to_end max (run_loop m max 0 (record s { jit_ip = 0 })).0
        (run_loop m max 0 (record s { jit_ip = 0 })).1
        (run_loop-OfValue max 0 (record s { jit_ip = 0 }))
