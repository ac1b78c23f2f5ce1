-- ===== src/Vm/Unwind.antt =====
-- `restoreCallFrame`, `throwValue` and `raiseRuntime` of VM.cpp.
use loxis_programming_langua.Prelude.{
  ℕ, zero, suc, ◌+◌, ◌%◌, ◌^◌, Bool, not, List, [], ◌∷◌, ◌++◌, Option, none, some, ltb, ◌==◌,
  if◌then◌else◌, length, get_elem?,
}
use loxis_programming_langua.Heap.State.{
  Heap, tag_heap, tag_str, valid, get_type_id, slot_size, invalid,
}
use loxis_programming_langua.Heap.Alloc.{alloc}
use loxis_programming_langua.Heap.Cells.{load_cell, store_cell}
use loxis_programming_langua.Bytecode.Emit.{Bytes}
use loxis_programming_langua.Lexer.Token.{bytes_eq, codes}
use loxis_programming_langua.Vm.Data.{
  Value, handle_of, is_heap, SavedRegister, CallFrame, ExceptionHandler, Program, Backend, Machine,
  Vm,
}
use loxis_programming_langua.Vm.Action.{
  Result, ok, unwound, panicked, undefined, diverged, uncaught, Action, pure, stop, gets, or_stop,
  modify, ◌>>=◌, ◌>>◌,
}
use loxis_programming_langua.Vm.Roots.{call, retain, drop_ref, set_reg, clear_regs, restore_locals}

-- The first index of a name (`typeNames`).
unfoldable pub find_name : List Bytes → Bytes → Option ℕ
find_name [] name = none
find_name (x ∷ xs) name =
    if bytes_eq x name
    then some 0
    else elim (find_name xs name) [ none ↦ none | some i ↦ some (i + 1) ]

-- A string of the run, or else of the pool.
abbrev pub first_of_pools : Option Bytes → Option Bytes → Option Bytes
first_of_pools (some t) o = some t
first_of_pools none o = o

unfoldable pub string_at : {G : Type 0} → Program → Vm G → ℕ → Option Bytes
string_at p s i = first_of_pools (get_elem? s.runtime_strings i) (get_elem? p.strings i)

module _ {G : Type 0} where
  -- `internRuntimeString`.
  add_string : Bytes → Action G Unit
  add_string t = modify (λ s. record s { runtime_strings = s.runtime_strings ++ (t ∷ []) })

  unfoldable pub intern_runtime_string : Bytes → Action G ℕ
  unfolding add_string
  intern_runtime_string t = do
    s ← gets (λ s. s)
    add_string t
    pure (length s.runtime_strings % 2 ^ 32)

  set_calls : List CallFrame → Action G Unit
  set_calls frames = modify (λ s. record s { call_stack = frames })

  unfoldable pub restore_from : Backend G → List CallFrame → Action G Unit
  unfolding set_calls
  restore_from b [] = stop panicked
  restore_from b (frame ∷ rest) = do
    set_calls rest
    clear_regs b 10 1
    clear_regs b 16 240
    restore_locals b frame.locals

  unfoldable pub restore_call_frame : Backend G → Action G Unit
  unfolding restore_from set_calls
  restore_call_frame b = do s ← gets (λ s. s); restore_from b s.call_stack

  -- `while (m_callStack.size() > depth) restoreCallFrame();`, a unit of fuel for a round.
  unfoldable pub unwind_calls : Backend G → ℕ → ℕ → Action G Unit
  unwind_calls b zero depth = do
    s ← gets (λ s. s)
    if ltb depth (length s.call_stack) then stop diverged else pure tt
  unwind_calls b (suc n) depth = do
    s ← gets (λ s. s)
    if ltb depth (length s.call_stack)
        then (do restore_call_frame b; unwind_calls b n depth)
        else pure tt

  -- The same for the data stack, whose values go back to their registers.
  set_data : List SavedRegister → Action G Unit
  set_data stack = modify (λ s. record s { data_stack = stack })

  unfoldable pub unspill : Backend G → List SavedRegister → Action G Unit
  unfolding set_data
  unspill b [] = stop undefined
  unspill b (v ∷ rest) = do set_data rest; set_reg b v.reg v.saved; drop_ref b v.saved

  unfoldable pub unspill_top : Backend G → Action G Unit
  unfolding unspill set_data
  unspill_top b = do s ← gets (λ s. s); unspill b s.data_stack

  unfoldable pub unwind_data : Backend G → ℕ → ℕ → Action G Unit
  unwind_data b zero depth = do
    s ← gets (λ s. s)
    if ltb depth (length s.data_stack) then stop diverged else pure tt
  unwind_data b (suc n) depth = do
    s ← gets (λ s. s)
    if ltb depth (length s.data_stack) then (do unspill_top b; unwind_data b n depth) else pure tt

  -- What an exception without a handler is reported with: its type's name and its message.
  type_name : Program → Vm G → Value → Bytes
  type_name p s v =
      if is_heap v
      then name_or (get_elem? p.type_names (get_type_id s.heap (handle_of v)))
      else codes "Exception"
    where
      name_or : Option Bytes → Bytes
      name_or none = codes "Exception"
      name_or (some []) = codes "Exception"
      name_or (some (c ∷ name)) = c ∷ name

  message_in : Program → Vm G → Option (ℕ × ℕ) → Option Bytes
  message_in p s none = none
  message_in p s (some (raw, tag)) =
      if tag == tag_str then string_at p s (raw % 2 ^ 32) else some []

  -- `none` is a panic.
  message : Program → Vm G → Value → Option Bytes
  message p s v =
      if not (is_heap v)
      then some []
      else if valid s.heap (handle_of v)
      then message_in p s (load_cell s.heap (handle_of v) 0)
      else none

  unfoldable pub report : Program → Vm G → Value → Option Bytes → Result Unit
  unfolding type_name
  report p s v none = panicked
  report p s v (some text) = uncaught (type_name p s v) text

  set_handlers : List ExceptionHandler → Action G Unit
  set_handlers handlers = modify (λ s. record s { handlers = handlers })

  unfoldable pub set_ip : ℕ → Action G Unit
  set_ip ip = modify (λ s. record s { jit_ip = ip })

  -- The branch of `throwValue` for a handler.
  unfoldable pub land : Machine G → Value → ExceptionHandler → List ExceptionHandler → Action G Unit
  unfolding set_handlers
  land m v handler rest = do
    set_handlers rest
    retain m.backend v
    s ← gets (λ s. s)
    unwind_calls m.backend (length s.call_stack) handler.call_depth
    s' ← gets (λ s. s)
    unwind_data m.backend (length s'.data_stack) handler.data_depth
    set_reg m.backend handler.exception_reg v
    drop_ref m.backend v
    set_ip handler.target_ip

  unfoldable pub throw_to : Machine G → Value → Vm G → List ExceptionHandler → Action G Unit
  unfolding report message message_in type_name
  throw_to m v s [] = stop (report m.program s v (message m.program s v))
  throw_to m v s (handler ∷ rest) = land m v handler rest

  unfoldable pub throw_value : Machine G → Value → Action G Unit
  unfolding throw_to report message message_in type_name
  throw_value m v = do s ← gets (λ s. s); throw_to m v s s.handlers

  -- `m_heap.alloc`, with a heap that changes also where it gives INVALID.
  unfoldable pub alloc_object : ℕ → ℕ → Action G ℕ
  alloc_object size type_id s =
      let (handle, heap) = alloc s.heap size type_id in (ok handle, record s { heap = heap })

  store_at : Bool × Heap → Vm G → Result Bool × Vm G
  store_at (done, heap) s = (ok done, record s { heap = heap })

  unfoldable pub store_object : ℕ → ℕ → Value → Action G Bool
  unfolding store_at
  store_object handle offset v s = store_at (store_cell s.heap handle offset v.value v.tag) s

  -- `raiseRuntime` always throws: to the loop, if a handler took the exception.
  unfoldable pub raise_runtime : {A : Type 0} → Machine G → Bytes → Action G A
  raise_runtime m text = do
    type_id ← or_stop (find_name m.program.type_names (codes "RuntimeException")) panicked
    handle ← alloc_object slot_size type_id
    if handle == invalid then stop panicked else pure tt
    call (m.backend.on_alloc handle)
    string_id ← intern_runtime_string text
    done ← store_object handle 0 (record { value = string_id; tag = tag_str })
    if done then pure tt else stop panicked
    throw_value m (record { value = handle; tag = tag_heap })
    stop unwound
