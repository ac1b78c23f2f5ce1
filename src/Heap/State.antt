-- ===== src/Heap/State.antt =====
-- The state of the VM's object heap, src/cpp/vm/Heap.hpp: a table of slots with generations over
-- one arena of bytes, with free lists by cell count. Vectors that are indexed are functions beside
-- their size; a stack's top (`back()`) is its list's head.
pub use loxis_programming_langua.Prelude.{update, sub64}
use loxis_programming_langua.Prelude.{
  ℕ, zero, suc, ◌+◌, ◌-◌, ◌%◌, ◌^◌, Bool, false, ◌&&◌, List, [], ◌∷◌, ltb, if◌then◌else◌,
}

-- uint32_t and uint64_t arithmetic.
abbrev pub add32 : ℕ → ℕ → ℕ
add32 a b = (a + b) % 2 ^ 32

abbrev pub add64 : ℕ → ℕ → ℕ
add64 a b = (a + b) % 2 ^ 64

abbrev pub tag_int : ℕ
tag_int = 0

abbrev pub tag_str : ℕ
tag_str = 1

abbrev pub tag_heap : ℕ
tag_heap = 2

abbrev pub tag_float : ℕ
tag_float = 3

abbrev pub tag_null : ℕ
tag_null = 4

-- `Heap::INVALID`, `Heap::SLOT_SIZE`, `Heap::SMALL_CLASSES`.
abbrev pub invalid : ℕ
invalid = 0xFFFFFFFF

abbrev pub slot_size : ℕ
slot_size = 9

abbrev pub small_classes : ℕ
small_classes = 65

pub record ObjectSlot : Type 0 where
  pub payload_offset : ℕ
  pub cells : ℕ
  pub logical_size : ℕ
  pub type_id : ℕ
  pub generation : ℕ
  pub live : Bool

abbrev pub empty_slot : ObjectSlot
empty_slot = record {
  payload_offset = invalid;
  cells = 0;
  logical_size = 0;
  type_id = 0;
  generation = 0;
  live = false;
}

pub record Stats : Type 0 where
  pub allocations : ℕ
  pub reuses : ℕ
  pub frees : ℕ
  pub live_objects : ℕ
  pub peak_live_objects : ℕ
  pub bytes_committed : ℕ
  pub bytes_live : ℕ
  pub bytes_reused : ℕ

-- `memory_` and `slots_` with their sizes; a free list that was never made is empty.
pub record Heap : Type 0 where
  pub memory : ℕ → ℕ
  pub memory_size : ℕ
  pub slots : ℕ → ObjectSlot
  pub slot_count : ℕ
  pub free_handles : List ℕ
  pub slot_cap : ℕ
  pub free_small : ℕ → List ℕ
  pub free_large : ℕ → List ℕ
  pub stats : Stats

-- `Heap()`: slot 0 is made and never handed out.
abbrev pub empty_stats : Stats
empty_stats = record {
  allocations = 0;
  reuses = 0;
  frees = 0;
  live_objects = 0;
  peak_live_objects = 0;
  bytes_committed = 0;
  bytes_live = 0;
  bytes_reused = 0;
}

abbrev pub new_heap : Heap
new_heap = record {
  memory = λ _. 0;
  memory_size = 0;
  slots = λ _. empty_slot;
  slot_count = 1;
  free_handles = [];
  slot_cap = 0;
  free_small = λ _. [];
  free_large = λ _. [];
  stats = empty_stats;
}

-- The loop of `reserveSlots`: `n` rounds from handle `i` on.
unfoldable pub push_handles : ℕ → ℕ → List ℕ → List ℕ
push_handles zero i handles = handles
push_handles (suc n) i handles = push_handles n (i + 1) (i ∷ handles)

-- `resize` makes the slots from `old` on anew.
unfoldable pub fresh_slots : (ℕ → ObjectSlot) → ℕ → ℕ → ObjectSlot
fresh_slots slots old i = if ltb i old then slots i else empty_slot

-- `Heap::reserveSlots`.
unfoldable pub reserve_slots : Heap → ℕ → Heap
unfolding push_handles fresh_slots
reserve_slots h n =
    if ltb h.slot_count n
    then record h {
      slots = fresh_slots h.slots h.slot_count;
      slot_count = n;
      free_handles = push_handles (n - h.slot_count) h.slot_count h.free_handles;
      slot_cap = n;
    }
    else record h { slot_cap = n }

-- `Heap::valid`.
unfoldable pub valid : Heap → ℕ → Bool
valid h handle = ltb handle h.slot_count && (h.slots handle).live

-- `Heap::getTypeId`, `Heap::cellCount`.
unfoldable pub get_type_id : Heap → ℕ → ℕ
get_type_id h handle = if ltb handle h.slot_count then (h.slots handle).type_id else 0

unfoldable pub cell_count : Heap → ℕ → ℕ
cell_count h handle = if ltb handle h.slot_count then (h.slots handle).cells else 0

-- `resetStats`.
unfoldable pub reset_stats : Heap → Heap
reset_stats heap = record heap { stats = empty_stats }
