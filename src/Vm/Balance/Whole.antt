-- ===== src/Vm/Balance/Whole.antt =====
-- The runs of the machine: `runJit` and `finishGC` of VM.cpp.
use loxis_programming_langua.Prelude.{
  ℕ, zero, suc, ◌+◌, ◌<◌, ◌≤◌, ◌≡◌, ◌≢◌, refl, Bool, true, false, ◌&&◌, ◌||◌, Bool-cases, inl, inr,
  ◌⊎◌, List, [], ◌∷◌, Option, none, some, ltb, ◌==◌, get_elem?, length, arith,
}
use loxis_programming_langua.Heap.State.{Heap}
use loxis_programming_langua.Vm.Data.{Machine, Vm, new_vm, reg_count, global_count}
use loxis_programming_langua.Vm.Action.{Action, ◌>>=◌, ◌>>◌, pure}
use loxis_programming_langua.Vm.Keeps.{Ends, Leads-bind, Leads-pure}
use loxis_programming_langua.Vm.Exec.Memory.{matches_from, type_matches, no_type}
use loxis_programming_langua.Vm.Run.{RunEnd, run_jit, finish_gc}
use loxis_programming_langua.Vm.Run.Keeps.{run_jit-Keeps}
use loxis_programming_langua.Vm.Balance.{
  Ledger, new_ledger, tracked, tracked_machine, refs_saved, refs_frames,
}
use loxis_programming_langua.Vm.Balance.Unwind.{IsSound}
use loxis_programming_langua.Vm.Balance.Stable.{IsSound-IsStable}
use loxis_programming_langua.Vm.Balance.Finish.{refs_below-Cleared, LeftInFrames, finish_gc-Leads}

-- A type's superclass has a smaller index, or is none.
unfoldable pub superclasses_first : ℕ → List ℕ → Bool
superclasses_first i [] = true
superclasses_first i (p ∷ ps) = (ltb p i || p == no_type) && superclasses_first (i + 1) ps

some≢none : {A : Type 0} {a : A} → some a ≢ none
some≢none e = ground arith

superclass_first :
    (parents : List ℕ) (i type_id p : ℕ)
    → superclasses_first i parents ≡ true
    → get_elem? parents type_id ≡ some p
    → (p < type_id + i) ⊎ (p ≡ no_type)
unfolding superclasses_first
superclass_first [] i type_id p ok e = ground arith
superclass_first (q ∷ parents) i zero p ok e = ground arith
superclass_first (q ∷ parents) i (suc n) p ok e =
    let rest = superclass_first parents (i + 1) n p in ground arith

get_elem?-lt : (xs : List ℕ) (i x : ℕ) → get_elem? xs i ≡ some x → i < length xs
get_elem?-lt [] i x e = ground arith
get_elem?-lt (y ∷ xs) zero x e = omega arith
get_elem?-lt (y ∷ xs) (suc i) x e = omega (arith, get_elem?-lt xs i x e)

-- The loop goes on at the superclass, if there is one.
parent_ends :
    (n : ℕ) (parents : List ℕ) (target type_id : ℕ) (o : Option ℕ)
    → superclasses_first 0 parents ≡ true
    → get_elem? parents type_id ≡ o
    → type_id ≢ no_type
    → (type_id ≢ no_type → type_id < length parents → type_id + 2 ≤ suc n)
    → ((p : ℕ)
        → 1 ≤ n
        → (p ≢ no_type → p < length parents → p + 2 ≤ n)
        → matches_from n parents target p ≢ none)
    → elim o [ none ↦ some false | some p ↦ matches_from n parents target p ] ≢ none
parent_ends n parents target type_id none ok at not_none enough next = some≢none
parent_ends n parents target type_id (some p) ok at not_none enough next =
    let room = enough not_none (get_elem?-lt parents type_id p at) in
    next p (omega arith) (λ p_not_none _. elim (superclass_first parents 0 type_id p ok at) [
      | inl lt ↦ omega arith
      | inr same ↦ absurd (p_not_none same)
    ])

matches_from-ends :
    (n : ℕ) (parents : List ℕ) (target type_id : ℕ)
    → superclasses_first 0 parents ≡ true
    → 1 ≤ n
    → (type_id ≢ no_type → type_id < length parents → type_id + 2 ≤ n)
    → matches_from n parents target type_id ≢ none
unfolding matches_from
matches_from-ends zero parents target type_id ok one enough = absurd (omega arith)
matches_from-ends (suc n) parents target type_id ok one enough =
    let next = λ (p : ℕ). matches_from-ends n parents target p ok in
    elim (Bool-cases (type_id == no_type)) [
      | inl t ↦ rw t some≢none
      | inr f ↦ elim (Bool-cases (type_id == target)) [
        | inl t ↦ rw (f, t) some≢none
        | inr g ↦
            let not_none : type_id ≢ no_type = λ same. ground arith in
            rw (f, g) (parent_ends n parents target type_id _ ok refl not_none enough next)
      ]
    ]

-- The loop of `IsA` over the superclasses ends, whatever type it starts from, where the superclass of
-- each type has a smaller index: its fuel, a unit for each type and two more, is enough.
pub type_matches-ends :
    (parents : List ℕ) (target type_id : ℕ)
    → superclasses_first 0 parents ≡ true
    → type_matches parents target type_id ≢ none
unfolding type_matches
type_matches-ends parents target type_id ok =
    matches_from-ends (length parents + 2) parents target type_id ok (omega arith)
      (λ _ lt. omega arith)

module _ {G : Type 0} (m : Machine G) where
  pub new_vm-IsSound :
      (g : G) (heap : Heap) → IsSound (new_vm (tracked_machine m) (g, new_ledger) heap)
  unfolding new_vm refs_saved refs_frames
  new_vm-IsSound g heap = record {
    account = λ x.
        rw
          (
            refs_below-Cleared _ reg_count x (λ _ _. refl),
            refs_below-Cleared _ global_count x (λ _ _. refl),
          )
          (omega arith);
    frame = tt;
  }

  -- From a state whose account is right and whose handlers' call depths fall to at most the depth of the
  -- call stack, a run of the machine ends in such a state if it returns, and it does not run out of the
  -- model's own fuel: unwinding and the search for a superclass end. The superclass of each type of the
  -- program has a smaller index.
  pub run_jit-IsSound :
      (max : ℕ) (s : Vm (G × Ledger))
      → superclasses_first 0 m.program.type_parents ≡ true
      → IsSound s
      → Ends IsSound
          (λ _. IsSound)
          (run_jit (tracked_machine m) max s).0
          (run_jit (tracked_machine m) max s).1
  run_jit-IsSound max s ok sound =
      let ends =
        λ (target type_id : ℕ). type_matches-ends m.program.type_parents target type_id ok in
      (run_jit-Keeps (tracked_machine m) (IsSound-IsStable m ends) max).at s sound

  -- A run from a new machine, and the end of its collector.
  abbrev pub run_and_finish : ℕ → Action (G × Ledger) RunEnd
  run_and_finish max = do
    end ← run_jit (tracked_machine m) max
    finish_gc (tracked m.backend)
    pure end

  -- From a new machine, once the run has returned and the collector was told that it ends, each handle
  -- had as many roots removed as were added, less those that the registers saved in the frames of calls
  -- still hold. The superclass of each type of the program has a smaller index.
  pub run_and_finish-LeftInFrames :
      (max : ℕ) (g : G) (heap : Heap)
      → superclasses_first 0 m.program.type_parents ≡ true
      → let s = new_vm (tracked_machine m) (g, new_ledger) heap in
        Ends IsSound (λ _. LeftInFrames) (run_and_finish max s).0 (run_and_finish max s).1
  run_and_finish-LeftInFrames max g heap ok =
      (Leads-bind (record { at = λ s h. run_jit-IsSound max s ok h })
          (λ end. Leads-bind (finish_gc-Leads m.backend) (λ _. Leads-pure end (λ s h. h)))).at
        (new_vm (tracked_machine m) (g, new_ledger) heap) (new_vm-IsSound g heap)
