-- ===== src/Heap/Alloc/Promise.antt =====
-- What `Heap::alloc` and `Heap::freePayload` of src/cpp/vm/Heap.hpp promise their callers.
use loxis_programming_langua.Prelude.{ℕ, ◌+◌, ◌≤◌, ◌<◌, true, false, none, some, ◌≡◌, ◌≢◌}
use loxis_programming_langua.Heap.State.{
  Heap, invalid, slot_size, tag_int, add32, valid, get_type_id, cell_count,
}
use loxis_programming_langua.Heap.Alloc.{alloc, cells_for, free_payload}
use loxis_programming_langua.Heap.Alloc.Fresh.{Fits, alloc-Allocated}
use loxis_programming_langua.Heap.Alloc.Release.{free_payload-Freed}
use loxis_programming_langua.Heap.Cells.{load_cell, store_cell}
use loxis_programming_langua.Heap.Owners.{IsValid}

-- A new object: its handle is not 0, was not in use and now is, and it has the type and the rounded
-- number of cells.
pub record IsNew (h : Heap) (size type_id : ℕ) (r : ℕ × Heap) : Type 0 where
  pub nonzero : 0 < r.0
  pub was_free : valid h r.0 ≡ false
  pub now_live : valid r.1 r.0 ≡ true
  pub typed : get_type_id r.1 r.0 ≡ type_id
  pub sized : cell_count r.1 r.0 ≡ cells_for size

-- In a well-formed heap, if the request fits and `alloc` does not return INVALID, it returns a handle that is not 0, was not
-- in use and now is, of an object of the wanted type and the rounded number of cells.
pub alloc-IsNew :
    (h : Heap) (size type_id : ℕ)
    → Fits h size
    → IsValid h
    → (alloc h size type_id).0 ≢ invalid
    → IsNew h size type_id (alloc h size type_id)
alloc-IsNew h size type_id f v ne =
    let made = alloc-Allocated h size type_id f v in
    record {
      nonzero = made.nonzero;
      was_free = made.was_free ne;
      now_live = made.now_live ne;
      typed = made.typed ne;
      sized = made.sized ne;
    }

-- In a well-formed heap, if the request fits and `alloc` does not return INVALID, every cell inside the requested size
-- reads as the integer 0, whether the payload is a reused block or new.
pub alloc_zeroed :
    (h : Heap) (size type_id off : ℕ)
    → Fits h size
    → IsValid h
    → (alloc h size type_id).0 ≢ invalid
    → off + slot_size ≤ size
    → load_cell (alloc h size type_id).1 (alloc h size type_id).0 off ≡ some (0, tag_int)
alloc_zeroed h size type_id off f v ne inside =
    (alloc-Allocated h size type_id f v).zeroed_cells ne off inside

-- In a well-formed heap, if the request fits, then each object that was live before `alloc` stays live and keeps all its
-- cells, also when `alloc` returns INVALID.
pub alloc_others :
    (h : Heap) (size type_id i off : ℕ)
    → Fits h size
    → IsValid h
    → valid h i ≡ true
    → (valid (alloc h size type_id).1 i ≡ true)
      × (load_cell (alloc h size type_id).1 i off ≡ load_cell h i off)
alloc_others h size type_id i off f v e = (alloc-Allocated h size type_id f v).others i off e

-- A handle that went stale: it is not valid, its generation moved, and it reads and writes nothing.
pub record IsStale (h : Heap) (handle : ℕ) (g : Heap) : Type 0 where
  pub dead : valid g handle ≡ false
  pub generation : (g.slots handle).generation ≡ add32 (h.slots handle).generation 1
  pub no_load : (off : ℕ) → load_cell g handle off ≡ none
  pub no_store : (off val tag : ℕ) → store_cell g handle off val tag ≡ (false, g)

-- In a well-formed heap, a live handle that is freed is stale: it is not valid, its generation is one higher, every load from it fails,
-- and every store to it is refused and changes nothing.
pub free_payload-IsStale :
    (h : Heap) (handle : ℕ)
    → IsValid h
    → valid h handle ≡ true
    → IsStale h handle (free_payload h handle)
free_payload-IsStale h handle v e =
    let freed = free_payload-Freed h handle v e in
    record {
      dead = freed.stale;
      generation = freed.generation;
      no_load = freed.no_load;
      no_store = freed.no_store;
    }

-- In a well-formed heap, freeing one live object leaves every other live object live, with all its cells.
pub free_payload_others :
    (h : Heap) (handle i off : ℕ)
    → IsValid h
    → valid h handle ≡ true
    → valid h i ≡ true
    → handle ≢ i
    → (valid (free_payload h handle) i ≡ true)
      × (load_cell (free_payload h handle) i off ≡ load_cell h i off)
free_payload_others h handle i off v e f ne = (free_payload-Freed h handle v e).others i off f ne
