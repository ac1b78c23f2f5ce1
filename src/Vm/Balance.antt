-- ===== src/Vm/Balance.antt =====
-- A collector's account: for each handle, how often the machine added a root and how often it removed
-- one, beside what the machine holds: registers, globals, the data stack and the frames of calls.
pub mod Primitives
pub mod Frames
pub mod Unwind
pub mod Stacks
pub mod Calls
pub mod Stable
pub mod Finish
pub mod Whole
pub mod Throw
use loxis_programming_langua.Prelude.{
  ℕ, zero, suc, ◌+◌, ◌≡◌, Option, none, some, List, [], ◌∷◌, ◌==◌, if◌then◌else◌,
}
use loxis_programming_langua.Heap.State.{Heap}
use loxis_programming_langua.Vm.Data.{
  Value, handle_of, is_heap, SavedRegister, CallFrame, ExceptionHandler, Backend, Machine, Vm,
  reg_count, global_count,
}

pub record Ledger : Type 0 where
  pub adds : ℕ → ℕ
  pub removes : ℕ → ℕ

abbrev pub new_ledger : Ledger
new_ledger = record { adds = λ _. 0; removes = λ _. 0 }

abbrev pub hit : ℕ → ℕ → ℕ
hit h x = if h == x then 1 else 0

abbrev pub add_noted : ℕ → Ledger → Ledger
add_noted h l = record l { adds = λ x. l.adds x + hit h x }

abbrev pub remove_noted : ℕ → Ledger → Ledger
remove_noted h l = record l { removes = λ x. l.removes x + hit h x }

module _ {G : Type 0} where
  unfoldable pub with_ledger : Ledger → Option (G × Heap) → Option ((G × Ledger) × Heap)
  with_ledger l none = none
  with_ledger l (some (g, heap)) = some ((g, l), heap)

  abbrev pub noting :
      (Ledger → Ledger)
      → (G × Heap → Option (G × Heap))
      → (G × Ledger) × Heap
      → Option ((G × Ledger) × Heap)
  noting f c s = with_ledger (f s.0.1) (c (s.0.0, s.1))

  -- The collector with its account, which changes nothing that it does.
  abbrev pub tracked : Backend G → Backend (G × Ledger)
  tracked b = record {
    on_alloc = λ h. noting (λ l. l) (b.on_alloc h);
    root_add = λ h. noting (add_noted h) (b.root_add h);
    root_remove = λ h. noting (remove_noted h) (b.root_remove h);
    edge_add = λ h k. noting (λ l. l) (b.edge_add h k);
    edge_remove = λ h k. noting (λ l. l) (b.edge_remove h k);
    on_explicit_free = λ h. noting (λ l. l) (b.on_explicit_free h);
    shutdown = noting (λ l. l) b.shutdown;
  }

  abbrev pub tracked_machine : Machine G → Machine (G × Ledger)
  tracked_machine m = record { backend = tracked m.backend; program = m.program; host = m.host }

-- How often a value, registers and saved registers refer to a handle.
abbrev pub refs : Value → ℕ → ℕ
refs v x = if is_heap v then hit (handle_of v) x else 0

unfoldable pub refs_below : (ℕ → Value) → ℕ → ℕ → ℕ
refs_below f zero x = 0
refs_below f (suc n) x = refs (f n) x + refs_below f n x

unfoldable pub refs_saved : List SavedRegister → ℕ → ℕ
refs_saved [] x = 0
refs_saved (v ∷ vs) x = refs v.saved x + refs_saved vs x

unfoldable pub refs_frames : List CallFrame → ℕ → ℕ
refs_frames [] x = 0
refs_frames (f ∷ fs) x = refs_saved f.locals x + refs_frames fs x

-- The part of the state that the account is about.
pub record View : Type 0 where
  pub regs : ℕ → Value
  pub globals : ℕ → Value
  pub data_stack : List SavedRegister
  pub call_stack : List CallFrame
  pub handlers : List ExceptionHandler

abbrev pub view : {G : Type 0} → Vm G → View
view s = record {
  regs = s.regs;
  globals = s.globals;
  data_stack = s.data_stack;
  call_stack = s.call_stack;
  handlers = s.handlers;
}

abbrev pub held : View → ℕ → ℕ
held w x =
    refs_below w.regs reg_count x
    + refs_below w.globals global_count x
    + (refs_saved w.data_stack x + refs_frames w.call_stack x)

-- The account is right but for the references `e`, which a primitive has in hand.
pub record Owes {G : Type 0} (e : ℕ → ℕ) (F : View → Type 0) (s : Vm (G × Ledger)) : Type 0 where
  pub account : (x : ℕ) → s.gc.1.adds x ≡ s.gc.1.removes x + (held (view s) x + e x)
  pub frame : F (view s)
