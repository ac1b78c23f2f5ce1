-- ===== src/Vm/Data.antt =====
-- The state of the virtual machine (src/cpp/vm/VM.hpp), the tables of the program that it runs
-- (src/cpp/backend/Chunk.hpp), and what it calls: a collector (src/cpp/vm/GC.hpp) and the host's
-- arithmetic on floats and text.
use loxis_programming_langua.Prelude.{ℕ, ◌%◌, ◌^◌, Bool, false, List, [], Option, ◌==◌}
use loxis_programming_langua.Bytecode.Emit.{Bytes}
use loxis_programming_langua.Bytecode.Decode.{DecodedInstr}
use loxis_programming_langua.Heap.State.{Heap, tag_int, tag_heap}

-- A register or a cell: the 64-bit pattern and its tag.
pub record Value : Type 0 where
  pub value : ℕ
  pub tag : ℕ

abbrev pub int_value : ℕ → Value
int_value n = record { value = n; tag = tag_int }

-- `static_cast<uint32_t>` of a value, and whether the value is a reference.
abbrev pub handle_of : Value → ℕ
handle_of v = v.value % 2 ^ 32

abbrev pub is_heap : Value → Bool
is_heap v = v.tag == tag_heap

pub record SavedRegister : Type 0 where
  pub reg : ℕ
  pub saved : Value

pub record CallFrame : Type 0 where
  pub return_ip : ℕ
  pub call_ip : ℕ
  pub locals : List SavedRegister

pub record ExceptionHandler : Type 0 where
  pub target_ip : ℕ
  pub exception_reg : ℕ
  pub call_depth : ℕ
  pub data_depth : ℕ

-- `FunctionDebugInfo`, `RuntimeItableEntry` and `VTableEntry`.
pub record FunctionInfo : Type 0 where
  pub start : ℕ
  pub end_offset : ℕ
  pub max_local_register : ℕ

pub record ItableEntry : Type 0 where
  pub interface_type_id : ℕ
  pub method_offsets : List ℕ

pub record VtableEntry : Type 0 where
  pub method_offsets : List ℕ
  pub itable : List ItableEntry

-- The chunk, with `m_jitCode` for its code.
pub record Program : Type 0 where
  pub jit_code : List DecodedInstr
  pub strings : List Bytes
  pub functions : List FunctionInfo
  pub type_names : List Bytes
  pub type_parents : List ℕ
  pub vtables : List VtableEntry

-- `GCBackend`: each call may change the collector's state and free objects of the heap. `none` is a
-- `HeapInvariantError`.
pub record Backend (G : Type 0) : Type 0 where
  pub on_alloc : ℕ → G × Heap → Option (G × Heap)
  pub root_add : ℕ → G × Heap → Option (G × Heap)
  pub root_remove : ℕ → G × Heap → Option (G × Heap)
  pub edge_add : ℕ → ℕ → G × Heap → Option (G × Heap)
  pub edge_remove : ℕ → ℕ → G × Heap → Option (G × Heap)
  pub on_explicit_free : ℕ → G × Heap → Option (G × Heap)
  pub shutdown : G × Heap → Option (G × Heap)

-- The host's doubles, on bit patterns, `std::to_string` of an int64_t, and `std::string::find`.
pub record Host : Type 0 where
  pub float_add : ℕ → ℕ → ℕ
  pub float_sub : ℕ → ℕ → ℕ
  pub float_mul : ℕ → ℕ → ℕ
  pub float_div : ℕ → ℕ → ℕ
  pub float_neg : ℕ → ℕ
  pub float_eq : ℕ → ℕ → Bool
  pub float_lt : ℕ → ℕ → Bool
  pub int_to_float : ℕ → ℕ
  pub float_to_int : ℕ → ℕ
  pub to_string : ℕ → Bytes
  pub find : Bytes → Bytes → Option ℕ

-- What the machine is built from.
pub record Machine (G : Type 0) : Type 0 where
  pub backend : Backend G
  pub program : Program
  pub host : Host

-- `m_flags` is two Booleans; a stack's top is its list's head; `output` is what went to standard
-- output.
pub record Vm (G : Type 0) : Type 0 where
  pub regs : ℕ → Value
  pub globals : ℕ → Value
  pub flag_zero : Bool
  pub flag_neg : Bool
  pub call_stack : List CallFrame
  pub data_stack : List SavedRegister
  pub handlers : List ExceptionHandler
  pub heap : Heap
  pub gc : G
  pub runtime_strings : List Bytes
  pub jit_ip : ℕ
  pub output : Bytes

-- The sizes of `m_regs` and `m_globals`.
abbrev pub reg_count : ℕ
reg_count = 4096

abbrev pub global_count : ℕ
global_count = 256

-- `VM::VM`: the registers and globals hold the integer 0.
unfoldable pub new_vm : {G : Type 0} → Machine G → G → Heap → Vm G
new_vm m gc heap = record {
  regs = λ _. int_value 0;
  globals = λ _. int_value 0;
  flag_zero = false;
  flag_neg = false;
  call_stack = [];
  data_stack = [];
  handlers = [];
  heap = heap;
  gc = gc;
  runtime_strings = m.program.strings;
  jit_ip = 0;
  output = [];
}
