-- ===== src/Heap/Cells.antt =====
-- `Heap::storeCell`, `Heap::loadCell` and `Heap::cellAt` of src/cpp/vm/Heap.hpp.
pub mod RoundTrip
use loxis_programming_langua.Prelude.{
  ℕ, zero, suc, ◌+◌, ◌-◌, ◌*◌, ◌/◌, ◌%◌, ◌^◌, Bool, true, false, not, ◌&&◌, List, [], ◌∷◌, Option,
  none, some, ltb, leb, ◌==◌, if◌then◌else◌,
}
use loxis_programming_langua.Heap.State.{
  add32, add64, sub64, tag_int, tag_str, tag_heap, tag_float, tag_null, invalid, slot_size,
  small_classes, ObjectSlot, empty_slot, Stats, Heap, update, new_heap, reserve_slots, valid,
  get_type_id, cell_count,
}

-- The guards that `storeCell` and `loadCell` share, on the slot table and its size.
unfoldable pub in_bounds : (ℕ → ObjectSlot) → ℕ → ℕ → ℕ → Bool
in_bounds slots slot_count handle byte_off =
    let s = slots handle in
    ltb handle slot_count
    && s.live
    && not (s.payload_offset == invalid)
    && leb byte_off s.logical_size
    && leb slot_size (s.logical_size - byte_off)

-- Consecutive bytes, the first at `offset + i`.
unfoldable pub write_bytes : (ℕ → ℕ) → ℕ → ℕ → List ℕ → ℕ → ℕ
write_bytes memory offset i [] = memory
write_bytes memory offset i (b ∷ bs) =
    write_bytes (update memory (add32 offset i) b) offset (i + 1) bs

-- The eight bytes of a value and its tag.
unfoldable pub cell_bytes : ℕ → ℕ → List ℕ
cell_bytes u tag =
    (u / 2 ^ 0 % 256)
    ∷ (u / 2 ^ 8 % 256)
    ∷ (u / 2 ^ 16 % 256)
    ∷ (u / 2 ^ 24 % 256)
    ∷ (u / 2 ^ 32 % 256)
    ∷ (u / 2 ^ 40 % 256)
    ∷ (u / 2 ^ 48 % 256)
    ∷ (u / 2 ^ 56 % 256)
    ∷ tag
    ∷ []

-- `Heap::storeCell`; a value is its 64-bit pattern.
unfoldable pub store_cell : Heap → ℕ → ℕ → ℕ → ℕ → Bool × Heap
store_cell h handle byte_off val tag =
    if in_bounds h.slots h.slot_count handle byte_off
    then (
      true,
      record h {
        memory =
            write_bytes h.memory (add32 (h.slots handle).payload_offset byte_off) 0
              (cell_bytes val tag);
      },
    )
    else (false, h)

unfoldable pub read_cell : (ℕ → ℕ) → ℕ → ℕ × ℕ
read_cell memory offset = (
  memory (add32 offset 0)
      + memory (add32 offset 1) * 2 ^ 8
      + memory (add32 offset 2) * 2 ^ 16
      + memory (add32 offset 3) * 2 ^ 24
      + memory (add32 offset 4) * 2 ^ 32
      + memory (add32 offset 5) * 2 ^ 40
      + memory (add32 offset 6) * 2 ^ 48
      + memory (add32 offset 7) * 2 ^ 56,
  memory (add32 offset 8),
)

-- `Heap::loadCell`.
unfoldable pub load_cell : Heap → ℕ → ℕ → Option (ℕ × ℕ)
load_cell h handle byte_off =
    if in_bounds h.slots h.slot_count handle byte_off
    then some (read_cell h.memory (add32 (h.slots handle).payload_offset byte_off))
    else none

-- `Heap::cellAt`; `none` is its `HeapInvariantError`.
unfoldable pub cell_at : Heap → ℕ → ℕ → Option (ℕ × ℕ)
cell_at h handle index = load_cell h handle (index * slot_size % 2 ^ 32)
