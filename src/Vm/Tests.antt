-- ===== src/Vm/Tests.antt =====
-- Small programs on a machine whose collector does nothing.
use loxis_programming_langua.Prelude.{
  ℕ, ◌+◌, true, false, List, [], ◌∷◌, some, none, ◌≡◌, ◌≢◌, refl,
}
use loxis_programming_langua.Heap.State.{new_heap}
use loxis_programming_langua.Bytecode.OpCode.{OpCode}
use loxis_programming_langua.Bytecode.Decode.{DecodedInstr, DecodedOperand, OperandTag}
use loxis_programming_langua.Vm.Data.{Backend, Host, Program, Machine, Vm, new_vm}
use loxis_programming_langua.Prelude.{◌↔◌, ◌≤◌, get_elem?, arith}
use loxis_programming_langua.Vm.Data.{int_value, ExceptionHandler}
use loxis_programming_langua.Bytecode.OpCode.{of_byte}
use loxis_programming_langua.Bytecode.Decode.{
  decode_bytecode, decode_from, decode_step, operand_count_for, decode_operands,
}
use loxis_programming_langua.Prelude.{update}
use loxis_programming_langua.Heap.State.{Heap}
use loxis_programming_langua.Heap.State.{valid}
use loxis_programming_langua.Heap.Alloc.{alloc, cells_for, free_list}
use loxis_programming_langua.Heap.Alloc.Fresh.{Fits, alloc-IsValid}
use loxis_programming_langua.Heap.Owners.{IsValid, new_heap-IsValid}
use loxis_programming_langua.Vm.Gc.{Arc, arc_release, reclaim, out_of_fuel}
use loxis_programming_langua.Vm.Gc.Reclaim.{reclaim-ne-out_of_fuel}
use loxis_programming_langua.Vm.Gc.Release.{KeptBy, arc_release-KeptBy}
use loxis_programming_langua.Prelude.{◌⊎◌}
use loxis_programming_langua.Vm.Run.{RunEnd}
use loxis_programming_langua.Vm.Run.Bounds.{OfValue, run_jit-OfValue}
use loxis_programming_langua.Vm.Exec.Memory.Subtypes.{IsSubtype, type_matches_lem}
use loxis_programming_langua.Vm.Keeps.{Ends}
use loxis_programming_langua.Vm.Action.{ok, pure, gets, modify, ◌>>=◌}
use loxis_programming_langua.Vm.Roots.{
  push_call_frame, max_register, max_in, save_locals, retain, read_reg,
}
use loxis_programming_langua.Vm.Roots.Frames.{push_call_frame-restore_call_frame}
use loxis_programming_langua.Vm.Unwind.{throw_value, restore_call_frame}
use loxis_programming_langua.Vm.Exec.{try_build_jit, resolve_jit_target}
use loxis_programming_langua.Vm.Exec.Targets.{resolve_jit_target_lem}
use loxis_programming_langua.Vm.Balance.Throw.{Landed, throw_value-Landed}
use loxis_programming_langua.Vm.Run.{run_jit}
use loxis_programming_langua.Vm.Exec.Memory.{type_matches}
use loxis_programming_langua.Vm.Balance.{Ledger, new_ledger, tracked_machine}
use loxis_programming_langua.Vm.Balance.Unwind.{IsSound}
use loxis_programming_langua.Vm.Balance.Finish.{LeftInFrames}
use loxis_programming_langua.Vm.Balance.Whole.{
  superclasses_first, type_matches-ends, run_jit-IsSound, run_and_finish,
  run_and_finish-LeftInFrames, new_vm-IsSound,
}

abbrev idle : Backend Unit
idle = record {
  on_alloc = λ _ s. some s;
  root_add = λ _ s. some s;
  root_remove = λ _ s. some s;
  edge_add = λ _ _ s. some s;
  edge_remove = λ _ _ s. some s;
  on_explicit_free = λ _ s. some s;
  shutdown = λ s. some s;
}

abbrev host : Host
host = record {
  float_add = λ x y. x;
  float_sub = λ x y. x;
  float_mul = λ x y. x;
  float_div = λ x y. x;
  float_neg = λ x. x;
  float_eq = λ x y. false;
  float_lt = λ x y. false;
  int_to_float = λ x. x;
  float_to_int = λ x. x;
  to_string = λ x. (x + 48) ∷ [];
  find = λ s needle. none;
}

abbrev reg : ℕ → DecodedOperand
reg r = record { tag = OperandTag.reg; int_val = r; str_idx = 0 }

abbrev imm : ℕ → DecodedOperand
imm n = record { tag = OperandTag.imm64; int_val = n; str_idx = 0 }

abbrev instr : ℕ → OpCode → List DecodedOperand → DecodedInstr
instr offset op os = record { op = op; byte_offset = offset; operands = os }

-- An object goes to register 1, to a global and to the data stack; then a function is called, which
-- ends the program in the middle of the call.
abbrev code : List DecodedInstr
code =
    instr 0 OpCode.alloc (imm 0 ∷ imm 9 ∷ reg 1 ∷ [])
    ∷ instr 20 OpCode.g_store (imm 3 ∷ reg 1 ∷ [])
    ∷ instr 30 OpCode.push (reg 16 ∷ reg 1 ∷ [])
    ∷ instr 35 OpCode.push_r (reg 1 ∷ [])
    ∷ instr 40 OpCode.call (imm 50 ∷ [])
    ∷ instr 50 OpCode.halt []
    ∷ []

abbrev program : Program
program = record {
  jit_code = code;
  strings = [];
  functions = record { start = 0; end_offset = 50; max_local_register = 17 } ∷ [];
  type_names = [];
  type_parents = 0xFFFFFFFF ∷ 0 ∷ [];
  vtables = [];
}

abbrev machine : Machine Unit
machine = record { backend = idle; program = program; host = host }

table_ok : superclasses_first 0 program.type_parents ≡ true
unfolding superclasses_first
table_ok = refl

abbrev start : Vm (Unit × Ledger)
start = new_vm (tracked_machine machine) (tt, new_ledger) new_heap

start-IsSound : IsSound start
start-IsSound = new_vm-IsSound machine tt new_heap

run_jit-IsSound_example :
    Ends IsSound
      (λ _. IsSound)
      (run_jit (tracked_machine machine) 100 start).0
      (run_jit (tracked_machine machine) 100 start).1
run_jit-IsSound_example = run_jit-IsSound machine 100 start table_ok start-IsSound

run_and_finish-LeftInFrames_example :
    Ends IsSound
      (λ _. LeftInFrames)
      (run_and_finish machine 100 start).0
      (run_and_finish machine 100 start).1
run_and_finish-LeftInFrames_example = run_and_finish-LeftInFrames machine 100 tt new_heap table_ok

type_matches-ends_example : type_matches program.type_parents 0 1 ≢ none
type_matches-ends_example = type_matches-ends program.type_parents 0 1 table_ok

-- A throw to a handler of the outermost level, from a state without calls.
abbrev handler : ExceptionHandler
handler = record { target_ip = 5; exception_reg = 2; call_depth = 0; data_depth = 0 }

abbrev guarded : Vm (Unit × Ledger)
guarded = record start { handlers = handler ∷ [] }

guarded-IsSound : IsSound guarded
guarded-IsSound = record { account = start-IsSound.account; frame = (omega arith, tt) }

throw_value-Landed_example :
    Ends IsSound
      (λ _. Landed (int_value 7) handler [])
      (throw_value (tracked_machine machine) (int_value 7) guarded).0
      (throw_value (tracked_machine machine) (int_value 7) guarded).1
throw_value-Landed_example =
    throw_value-Landed machine (int_value 7) guarded handler [] refl guarded-IsSound

-- A call from the instruction at index 4 saves registers 16 and 17; the callee overwrites register 16.
abbrev caller : Vm Unit
caller = record (new_vm machine tt new_heap) { regs = λ r. int_value (r + 1) }

abbrev called : Vm Unit
called = (push_call_frame machine 5 4 caller).1

caller-called : push_call_frame machine 5 4 caller ≡ (ok tt, called)
unfolding push_call_frame max_register max_in save_locals retain read_reg ◌>>=◌ pure gets modify
caller-called = refl

abbrev overwritten : Vm Unit
overwritten = record called { regs = λ r. int_value 0 }

highest : 16 ≤ max_register machine.program 4
unfolding max_register max_in
highest = omega arith

push_call_frame-restore_call_frame_example :
    Ends
      (λ _. Unit)
      (λ _ u. u.regs 16 ≡ int_value 17)
      (restore_call_frame machine.backend overwritten).0
      (restore_call_frame machine.backend overwritten).1
push_call_frame-restore_call_frame_example =
    push_call_frame-restore_call_frame machine 5 4 16 caller called overwritten caller-called refl
      (omega arith) highest refl

-- Two instructions of one byte: `nop` and `halt`.
abbrev two : Program
two = record program { jit_code = instr 0 OpCode.nop [] ∷ instr 1 OpCode.halt [] ∷ [] }

two_built : try_build_jit (0x00 ∷ 0xff ∷ []) ≡ some two.jit_code
unfolding try_build_jit decode_bytecode decode_from decode_step of_byte operand_count_for
    decode_operands
two_built = refl

resolve_jit_target_lem_example :
    (resolve_jit_target two 1 ≡ some 1)
    ↔ (i : DecodedInstr) × (get_elem? two.jit_code 1 ≡ some i) × (i.byte_offset ≡ 1)
resolve_jit_target_lem_example = resolve_jit_target_lem (0x00 ∷ 0xff ∷ []) two 1 1 two_built

-- Two objects, the first with one reference and the second with two.
abbrev one_object : Heap
one_object = (alloc new_heap 18 7).1

abbrev objects : Heap
objects = (alloc one_object 9 5).1

one_object-Fits : Fits new_heap 18
unfolding cells_for
one_object-Fits = record {
  size_small = omega arith;
  arena_small = omega arith;
  table_small = omega arith;
}

objects-Fits : Fits one_object 9
unfolding alloc cells_for free_list
objects-Fits = record {
  size_small = omega arith;
  arena_small = omega arith;
  table_small = omega arith;
}

objects-IsValid : IsValid objects
objects-IsValid =
    alloc-IsValid one_object 9 5 objects-Fits
      (alloc-IsValid new_heap 18 7 one_object-Fits new_heap-IsValid)

second_live : valid objects 2 ≡ true
unfolding alloc cells_for free_list valid
second_live = refl

abbrev arc : Arc
arc = record {
  rc = update (update (λ _. 0) 1 1) 2 2;
  rc_size = 3;
  metrics = record {
    allocations = 2;
    root_adds = 3;
    root_removes = 0;
    edge_adds = 0;
    edge_removes = 0;
    reclaimed_objects = 0;
    explicit_frees_ignored = 0;
    invalid_handle_ops = 0;
  };
}

arc_release-KeptBy_example : KeptBy 1 2 0 arc objects (arc_release 1 arc objects)
arc_release-KeptBy_example = arc_release-KeptBy 1 2 0 arc objects objects-IsValid second_live

reclaim-ne-out_of_fuel_example : reclaim 3 (update arc.rc 1 0) 1 objects ≢ out_of_fuel
reclaim-ne-out_of_fuel_example = reclaim-ne-out_of_fuel 3 (update arc.rc 1 0) 1 objects

type_matches_lem_example :
    (type_matches program.type_parents 0 1 ≡ some true) ↔ IsSubtype program.type_parents 0 1
type_matches_lem_example = type_matches_lem program.type_parents 0 1 table_ok

run_jit-OfValue_example :
    OfValue
      (λ (end : RunEnd). (end.executed ≤ 3) × ((end.truncated ≡ false) ⊎ (end.executed ≡ 3)))
      (run_jit machine 3 caller).0
run_jit-OfValue_example = run_jit-OfValue machine 3 caller
