-- ===== src/Heap/Alloc.antt =====
-- `Heap::alloc` and `Heap::freePayload` of src/cpp/vm/Heap.hpp.
pub mod Promise
pub mod Release
pub mod Fresh
pub mod Keeps
pub mod Payload
use loxis_programming_langua.Prelude.{
  ℕ, zero, suc, ◌+◌, ◌-◌, ◌*◌, ◌/◌, ◌%◌, ◌^◌, Bool, true, false, not, ◌&&◌, List, [], ◌∷◌, Option,
  none, some, ltb, leb, ◌==◌, if◌then◌else◌,
}
use loxis_programming_langua.Heap.State.{
  add32, add64, sub64, tag_int, tag_str, tag_heap, tag_float, tag_null, invalid, slot_size,
  small_classes, ObjectSlot, empty_slot, Stats, Heap, update, new_heap, reserve_slots, valid,
  get_type_id, cell_count,
}

-- The cells that `alloc` takes for a size in bytes; the sum is one of uint32_t.
unfoldable pub cells_for : ℕ → ℕ
cells_for size_bytes =
    let cells = add32 size_bytes (slot_size - 1) / slot_size in if cells == 0 then 1 else cells

-- The free list of a cell count, and the heap with another one in its place.
unfoldable pub free_list : Heap → ℕ → List ℕ
free_list h cells = if ltb cells small_classes then h.free_small cells else h.free_large cells

unfoldable pub set_free_list : Heap → ℕ → List ℕ → Heap
set_free_list h cells l =
    let small = ltb cells small_classes in
    record h {
      free_small = if small then update h.free_small cells l else h.free_small;
      free_large = if small then h.free_large else update h.free_large cells l;
    }

-- `std::fill` with zeros.
unfoldable pub zeroed : (ℕ → ℕ) → ℕ → ℕ → ℕ → ℕ
zeroed memory start bytes b = if leb start b && ltb b (start + bytes) then 0 else memory b

-- The first half of `alloc`: a payload, from the free list or by growing the arena.
unfoldable pub take_payload : Heap → ℕ → List ℕ → ℕ × Heap
unfolding set_free_list zeroed
take_payload h cells (offset ∷ rest) =
    let g = set_free_list h cells rest in
    let s = g.stats in
    let bytes = cells * slot_size in
    (
      offset,
      record g {
        memory = zeroed g.memory offset bytes;
        stats = record s { reuses = add64 s.reuses 1; bytes_reused = add64 s.bytes_reused bytes };
      },
    )
take_payload h cells [] =
    let bytes = cells * slot_size in
    (
      h.memory_size % 2 ^ 32,
      record h {
        memory = zeroed h.memory h.memory_size bytes;
        memory_size = h.memory_size + bytes;
      },
    )

-- A handle: the top of the free handles, or a new slot unless the table is full.
unfoldable pub take_handle : Heap → List ℕ → Option (ℕ × Heap)
take_handle h (handle ∷ rest) = some (handle, record h { free_handles = rest })
take_handle h [] =
    if not (h.slot_cap == 0) && leb h.slot_cap h.slot_count
    then none
    else some (
      h.slot_count % 2 ^ 32,
      record h { slots = update h.slots h.slot_count empty_slot; slot_count = h.slot_count + 1 },
    )

-- The rest of `alloc`: the slot is filled in and the counters move.
unfoldable pub occupy : Heap → ℕ → ℕ → ℕ → ℕ → ℕ → Heap
occupy h handle offset cells size_bytes type_id =
    let old = h.slots handle in
    let s = h.stats in
    let now_live = add64 s.live_objects 1 in
    record h {
      slots = update h.slots handle (record old {
        payload_offset = offset;
        cells = cells;
        logical_size = size_bytes;
        type_id = type_id;
        live = true;
      });
      stats = record s {
        allocations = add64 s.allocations 1;
        live_objects = now_live;
        bytes_live = add64 s.bytes_live (cells * slot_size);
        peak_live_objects =
            if ltb s.peak_live_objects now_live then now_live else s.peak_live_objects;
        bytes_committed = h.memory_size;
      };
    }

-- `Heap::alloc`. At `INVALID` the payload has been taken already.
unfoldable pub finish_alloc : ℕ → Heap → Option (ℕ × Heap) → ℕ → ℕ → ℕ → ℕ × Heap
finish_alloc offset h none cells size_bytes type_id = (invalid, h)
finish_alloc offset h (some (handle, g)) cells size_bytes type_id =
    (handle, occupy g handle offset cells size_bytes type_id)

unfoldable pub alloc : Heap → ℕ → ℕ → ℕ × Heap
unfolding take_payload take_handle finish_alloc occupy free_list cells_for
alloc h size_bytes type_id =
    let cells = cells_for size_bytes in
    let (offset, g) = take_payload h cells (free_list h cells) in
    finish_alloc offset g (take_handle g g.free_handles) cells size_bytes type_id

-- `Heap::freePayload`.
unfoldable pub release_slot : Heap → ℕ → Heap
unfolding set_free_list free_list
release_slot h handle =
    let s = h.slots handle in
    let g = set_free_list h s.cells (s.payload_offset ∷ free_list h s.cells) in
    let t = g.stats in
    record g {
      slots = update g.slots handle (record s {
        payload_offset = invalid;
        cells = 0;
        logical_size = 0;
        type_id = 0;
        generation = add32 s.generation 1;
        live = false;
      });
      free_handles = handle ∷ g.free_handles;
      stats = record t {
        bytes_live = sub64 t.bytes_live (s.cells * slot_size);
        frees = add64 t.frees 1;
        live_objects = sub64 t.live_objects 1;
      };
    }

unfoldable pub free_payload : Heap → ℕ → Heap
unfolding release_slot valid
free_payload h handle = if not (valid h handle) then h else release_slot h handle
