-- ===== src/Vm/Roots.antt =====
-- The primitives of VM.cpp through which every reference that the machine holds is taken and dropped:
-- `setReg`, `setGlobal`, the data stack, the call frames and the unwinding.
pub mod Sees
pub mod Frames
use loxis_programming_langua.Prelude.{
  ℕ, zero, suc, ◌+◌, ◌-◌, Bool, ◌&&◌, List, [], ◌∷◌, Option, none, some, ltb, leb, ◌==◌,
  if◌then◌else◌, update, get_elem?,
}
use loxis_programming_langua.Heap.State.{Heap}
use loxis_programming_langua.Bytecode.Decode.{DecodedInstr}
use loxis_programming_langua.Vm.Data.{
  Value, int_value, handle_of, is_heap, SavedRegister, CallFrame, FunctionInfo, Program, Backend,
  Machine, Vm, reg_count, global_count,
}
use loxis_programming_langua.Vm.Action.{
  Result, ok, panicked, undefined, Action, pure, stop, gets, modify, ◌>>=◌, ◌>>◌,
}

-- The test of `setReg` for the same reference, which needs no barrier.
unfoldable pub same_ref : Value → Value → Bool
same_ref old new = is_heap old && is_heap new && old.value == new.value

-- The highest local register of the function at a call, 15 if there is none.
unfoldable pub max_in : List FunctionInfo → ℕ → ℕ
max_in [] offset = 15
max_in (f ∷ fs) offset =
    if leb f.start offset && ltb offset f.end_offset then f.max_local_register else max_in fs offset

max_at : Program → Option DecodedInstr → ℕ
max_at p none = 15
max_at p (some i) = max_in p.functions i.byte_offset

unfoldable pub max_register : Program → ℕ → ℕ
unfolding max_at
max_register p call_ip = max_at p (get_elem? p.jit_code call_ip)

-- The scratch registers 240 to 255, which a call does not save.
abbrev pub is_scratch : ℕ → Bool
is_scratch reg = leb 240 reg && leb reg 255

module _ {G : Type 0} where
  -- A call of the collector, which may throw a `HeapInvariantError`; the loop turns that into a panic.
  unfoldable pub after_call : Vm G → Option (G × Heap) → Result Unit × Vm G
  after_call s none = (panicked, s)
  after_call s (some (gc, heap)) = (ok tt, record s { gc = gc; heap = heap })

  unfoldable pub call : (G × Heap → Option (G × Heap)) → Action G Unit
  unfolding after_call
  call f s = after_call s (f (s.gc, s.heap))

  -- `if (tag == TAG_HEAP) m_gc->rootAdd(value)`, and the same for `rootRemove`.
  unfoldable pub retain : Backend G → Value → Action G Unit
  retain b v = if is_heap v then call (b.root_add (handle_of v)) else pure tt

  unfoldable pub drop_ref : Backend G → Value → Action G Unit
  drop_ref b v = if is_heap v then call (b.root_remove (handle_of v)) else pure tt

  -- An index past the array is undefined in C++.
  unfoldable pub read_reg : ℕ → Action G Value
  read_reg r = do s ← gets (λ s. s); if ltb r reg_count then pure (s.regs r) else stop undefined

  put_reg : ℕ → Value → Action G Unit
  put_reg r v = modify (λ s. record s { regs = update s.regs r v })

  put_global : ℕ → Value → Action G Unit
  put_global r v = modify (λ s. record s { globals = update s.globals r v })

  -- Acquire before release; nothing to do for the same reference.
  change_reg : Backend G → ℕ → Value → Value → Action G Unit
  change_reg b r new old =
      if same_ref old new then pure tt else (do retain b new; put_reg r new; drop_ref b old)

  unfoldable pub set_reg : Backend G → ℕ → Value → Action G Unit
  unfolding change_reg put_reg
  set_reg b r new = do old ← read_reg r; change_reg b r new old

  change_global : Backend G → ℕ → Value → Value → Action G Unit
  change_global b slot new old =
      if same_ref old new then pure tt else (do retain b new; put_global slot new; drop_ref b old)

  unfoldable pub read_global : ℕ → Action G Value
  read_global slot = do
    s ← gets (λ s. s)
    if ltb slot global_count then pure (s.globals slot) else stop undefined

  unfoldable pub set_global : Backend G → ℕ → Value → Action G Unit
  unfolding change_global put_global
  set_global b slot new = do old ← read_global slot; change_global b slot new old

  -- `m_dataStack.push` of a register, with a reference of its own (`PushR`).
  push_saved : SavedRegister → Action G Unit
  push_saved v = modify (λ s. record s { data_stack = v ∷ s.data_stack })

  unfoldable pub push_data : Backend G → ℕ → Action G Unit
  unfolding push_saved
  push_data b r = do v ← read_reg r; retain b v; push_saved (record { reg = r; saved = v })

  -- The top of the data stack goes back to its register: acquire, then release.
  drop_saved : List SavedRegister → Action G Unit
  drop_saved rest = modify (λ s. record s { data_stack = rest })

  install : Backend G → SavedRegister → List SavedRegister → Action G Unit
  install b v rest = do drop_saved rest; set_reg b v.reg v.saved; drop_ref b v.saved

  unfoldable pub pop_from : Backend G → ℕ → List SavedRegister → Action G Unit
  unfolding install drop_saved
  pop_from b r [] = pure tt
  pop_from b r (v ∷ rest) =
      if v.reg == r then install b v rest else (do drop_saved rest; stop panicked)

  -- `PopR`.
  unfoldable pub pop_data : Backend G → ℕ → Action G Unit
  unfolding pop_from install drop_saved
  pop_data b r = do s ← gets (λ s. s); pop_from b r s.data_stack

  -- `pushCallFrame` saves `n` registers from `reg` on.
  unfoldable pub save_locals : Backend G → ℕ → ℕ → Action G (List SavedRegister)
  save_locals b zero reg = pure []
  save_locals b (suc n) reg = if is_scratch reg then save_locals b n (reg + 1) else (do
    v ← read_reg reg
    retain b v
    rest ← save_locals b n (reg + 1)
    pure (record { reg = reg; saved = v } ∷ rest))

  push_frame : CallFrame → Action G Unit
  push_frame f = modify (λ s. record s { call_stack = f ∷ s.call_stack })

  unfoldable pub push_call_frame : Machine G → ℕ → ℕ → Action G Unit
  unfolding push_frame
  push_call_frame m return_ip call_ip = do
    locals ← save_locals m.backend (max_register m.program call_ip + 1 - 16) 16
    push_frame (record { return_ip = return_ip; call_ip = call_ip; locals = locals })

  -- `restoreCallFrame`: the loops over registers, and the whole.
  unfoldable pub clear_regs : Backend G → ℕ → ℕ → Action G Unit
  clear_regs b zero reg = pure tt
  clear_regs b (suc n) reg = do set_reg b reg (int_value 0); clear_regs b n (reg + 1)

  unfoldable pub restore_locals : Backend G → List SavedRegister → Action G Unit
  restore_locals b [] = pure tt
  restore_locals b (v ∷ rest) = do
    set_reg b v.reg v.saved
    drop_ref b v.saved
    restore_locals b rest
