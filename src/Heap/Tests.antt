-- ===== src/Heap/Tests.antt =====
-- A heap with two objects, and one whose first object was freed.
use loxis_programming_langua.Prelude.{true, some, ◌≡◌, ◌≢◌, refl, arith}
use loxis_programming_langua.Heap.State.{Heap, new_heap, valid, invalid, tag_int}
use loxis_programming_langua.Heap.Alloc.{alloc, cells_for, free_payload, free_list, release_slot}
use loxis_programming_langua.Heap.Alloc.Fresh.{Fits, alloc-IsValid}
use loxis_programming_langua.Heap.Alloc.Promise.{
  IsNew, alloc-IsNew, alloc_zeroed, alloc_others, IsStale, free_payload-IsStale,
  free_payload_others,
}
use loxis_programming_langua.Heap.Alloc.Release.{free_payload-IsValid}
use loxis_programming_langua.Heap.Cells.{store_cell, load_cell, in_bounds}
use loxis_programming_langua.Heap.Cells.RoundTrip.{load_cell-store_cell}
use loxis_programming_langua.Heap.Frame.{load_cell-store_cell_other}
use loxis_programming_langua.Heap.Owners.{IsValid, new_heap-IsValid}

abbrev one : Heap
one = (alloc new_heap 18 7).1

abbrev two : Heap
two = (alloc one 9 5).1

abbrev freed : Heap
freed = free_payload two 1

one-Fits : Fits new_heap 18
unfolding cells_for
one-Fits = record { size_small = omega arith; arena_small = omega arith; table_small = omega arith }

two-Fits : Fits one 9
unfolding alloc cells_for free_list
two-Fits = record { size_small = omega arith; arena_small = omega arith; table_small = omega arith }

freed-Fits : Fits freed 18
unfolding alloc cells_for free_list free_payload release_slot valid
freed-Fits = record {
  size_small = omega arith;
  arena_small = omega arith;
  table_small = omega arith;
}

one-IsValid : IsValid one
one-IsValid = alloc-IsValid new_heap 18 7 one-Fits new_heap-IsValid

two-IsValid : IsValid two
two-IsValid = alloc-IsValid one 9 5 two-Fits one-IsValid

two_live : (valid two 1 ≡ true) × (valid two 2 ≡ true)
unfolding alloc cells_for free_list valid
two_live = (refl, refl)

freed-IsValid : IsValid freed
freed-IsValid = free_payload-IsValid two 1 two-IsValid

-- The freed handle and its block are used again.
reused : (alloc freed 18 3).0 ≡ 1
unfolding alloc cells_for free_list free_payload release_slot valid
reused = refl

alloc-IsValid_example : IsValid (alloc freed 18 3).1
alloc-IsValid_example = alloc-IsValid freed 18 3 freed-Fits freed-IsValid

reused-ne-invalid : (alloc freed 18 3).0 ≢ invalid
reused-ne-invalid = rw reused (omega arith)

alloc-IsNew_example : IsNew freed 18 3 (alloc freed 18 3)
alloc-IsNew_example = alloc-IsNew freed 18 3 freed-Fits freed-IsValid reused-ne-invalid

alloc_zeroed_example : load_cell (alloc freed 18 3).1 (alloc freed 18 3).0 9 ≡ some (0, tag_int)
alloc_zeroed_example =
    alloc_zeroed freed 18 3 9 freed-Fits freed-IsValid reused-ne-invalid (omega arith)

second_live : valid freed 2 ≡ true
unfolding alloc cells_for free_list free_payload release_slot valid
second_live = refl

alloc_others_example :
    (valid (alloc freed 18 3).1 2 ≡ true)
    × (load_cell (alloc freed 18 3).1 2 0 ≡ load_cell freed 2 0)
alloc_others_example = alloc_others freed 18 3 2 0 freed-Fits freed-IsValid second_live

free_payload-IsValid_example : IsValid (free_payload two 1)
free_payload-IsValid_example = free_payload-IsValid two 1 two-IsValid

free_payload-IsStale_example : IsStale two 1 (free_payload two 1)
free_payload-IsStale_example = free_payload-IsStale two 1 two-IsValid two_live.0

free_payload_others_example :
    (valid (free_payload two 1) 2 ≡ true) × (load_cell (free_payload two 1) 2 0 ≡ load_cell two 2 0)
free_payload_others_example =
    free_payload_others two 1 2 0 two-IsValid two_live.0 two_live.1 (omega arith)

store_accepted : (store_cell two 1 9 300 2).0 ≡ true
unfolding alloc cells_for free_list store_cell in_bounds
store_accepted = refl

load_cell-store_cell_example : load_cell (store_cell two 1 9 300 2).1 1 9 ≡ some (300, 2)
load_cell-store_cell_example = load_cell-store_cell two 1 9 300 2 (omega arith) store_accepted

load_cell-store_cell_other_example : load_cell (store_cell two 1 9 300 2).1 2 0 ≡ load_cell two 2 0
load_cell-store_cell_other_example =
    load_cell-store_cell_other two 2 1 9 0 300 2 two-IsValid two_live.1 two_live.0 (omega arith)
