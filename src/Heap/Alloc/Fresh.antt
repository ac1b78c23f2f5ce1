-- ===== src/Heap/Alloc/Fresh.antt =====
-- `alloc` keeps the invariant, hands out a fresh zeroed object, and leaves the others alone.
use loxis_programming_langua.Prelude.{
  ℕ, ◌+◌, ◌*◌, ◌^◌, ◌≤◌, ◌<◌, true, false, Option, none, some, ◌≡◌, ◌≢◌, refl, sym, ap, ◌∙◌, arith,
  Bool-cases, inl, inr,
}
use loxis_programming_langua.Heap.State.{
  Heap, slot_size, invalid, valid, cell_count, get_type_id, add32, tag_int,
}
use loxis_programming_langua.Heap.Owners.{Owner, taken, object, retag, IsObject, IsOwned, IsValid}
use loxis_programming_langua.Heap.Alloc.{
  free_list, cells_for, take_payload, take_handle, occupy, finish_alloc, alloc,
}
use loxis_programming_langua.Heap.Alloc.Payload.{IsTaken, owner_after, take_payload-IsTaken}
use loxis_programming_langua.Heap.Alloc.Keeps.{
  HasHandle, take_handle-HasHandle, occupy-IsOwned, occupy_other, occupy_slot,
}
use loxis_programming_langua.Heap.Cells.{load_cell, in_bounds, read_cell}
use loxis_programming_langua.Heap.Frame.{load_cell_same, valid-live}

-- The request fits: its size does not wrap when it is rounded up, the arena stays within 32 bits, and
-- so does the table.
pub record Fits (h : Heap) (size : ℕ) : Type 0 where
  pub size_small : size + slot_size ≤ 2 ^ 32
  pub arena_small : h.memory_size + cells_for size * slot_size ≤ 2 ^ 32
  pub table_small : h.slot_count < invalid

cells_for_lem :
    (size : ℕ)
    → size + slot_size ≤ 2 ^ 32
    → (size ≤ cells_for size * slot_size) × (0 < cells_for size)
unfolding cells_for
cells_for_lem size h = ground arith

-- What `alloc` promises about its result.
pub record Allocated (h : Heap) (size type_id : ℕ) (r : ℕ × Heap) : Type 0 where
  pub was_free : r.0 ≢ invalid → valid h r.0 ≡ false
  pub now_live : r.0 ≢ invalid → valid r.1 r.0 ≡ true
  pub nonzero : 0 < r.0
  pub typed : r.0 ≢ invalid → get_type_id r.1 r.0 ≡ type_id
  pub sized : r.0 ≢ invalid → cell_count r.1 r.0 ≡ cells_for size
  pub zeroed_cells :
      r.0 ≢ invalid → (off : ℕ) → off + slot_size ≤ size → load_cell r.1 r.0 off ≡ some (0, tag_int)
  pub others :
      (i off : ℕ)
      → valid h i ≡ true
      → (valid r.1 i ≡ true) × (load_cell r.1 i off ≡ load_cell h i off)

pub valid_intro : (h : Heap) (i : ℕ) → i < h.slot_count → (h.slots i).live ≡ true → valid h i ≡ true
unfolding valid
valid_intro h i lt live = ground arith

valid_dead : (h : Heap) (i : ℕ) → (h.slots i).live ≡ false → valid h i ≡ false
unfolding valid
valid_dead h i dead = ground arith

get_type_id_intro : (h : Heap) (i : ℕ) → i < h.slot_count → get_type_id h i ≡ (h.slots i).type_id
unfolding get_type_id
get_type_id_intro h i lt = ground arith

cell_count_intro : (h : Heap) (i : ℕ) → i < h.slot_count → cell_count h i ≡ (h.slots i).cells
unfolding cell_count
cell_count_intro h i lt = ground arith

-- Zeroed bytes read as the integer 0.
read_cell_zeros :
    (m : ℕ → ℕ) (at : ℕ) → ((k : ℕ) → k < 9 → m (add32 at k) ≡ 0) → read_cell m at ≡ (0, tag_int)
unfolding read_cell
read_cell_zeros m at e = rw (
  e 0 (omega arith),
  e 1 (omega arith),
  e 2 (omega arith),
  e 3 (omega arith),
  e 4 (omega arith),
  e 5 (omega arith),
  e 6 (omega arith),
  e 7 (omega arith),
  e 8 (omega arith),
)

load_zeroed :
    (h : Heap) (handle off size n p : ℕ)
    → handle < h.slot_count
    → (h.slots handle).live ≡ true
    → (h.slots handle).payload_offset ≡ p
    → (h.slots handle).logical_size ≡ size
    → p + n * slot_size ≤ 2 ^ 32
    → off + slot_size ≤ size
    → size ≤ n * slot_size
    → ((k : ℕ) → k < n * slot_size → h.memory (p + k) ≡ 0)
    → load_cell h handle off ≡ some (0, tag_int)
unfolding load_cell
load_zeroed h handle off size n p lt live at sized room inside holds zeros =
    let open_cell : in_bounds h.slots h.slot_count handle off ≡ true =
      unfold in_bounds in ground arith in
    let far : add32 p off ≡ p + off = omega arith in
    rw (open_cell, at, far)
      (ap some (
        read_cell_zeros h.memory (p + off) (λ k k9.
          let assoc : add32 (p + off) k ≡ p + (off + k) = omega (arith, k9) in
          rw assoc (zeros (off + k) (omega arith)))))

object-ne-taken : {i : ℕ} → object i ≢ taken
object-ne-taken = cc

pub dead-ne-live : (h : Heap) (i j : ℕ) → (h.slots i).live ≡ false → (h.slots j).live ≡ true → i ≢ j
dead-ne-live h i j dead live e = absurd (ground arith)

module _ (h : Heap) (size type_id : ℕ) (f : Fits h size) (owner : ℕ → Owner)
    (v : IsOwned owner h) where
  abbrev cells : ℕ
  cells = cells_for size

  abbrev taken_from : ℕ × Heap
  taken_from = take_payload h cells (free_list h cells)

  abbrev owner' : ℕ → Owner
  owner' = owner_after owner h cells (free_list h cells)

  got : IsTaken owner' cells h taken_from
  got =
      take_payload-IsTaken owner h cells (free_list h cells) refl v
        (cells_for_lem size f.size_small).1 f.arena_small

  handle_for : HasHandle owner' taken_from.1 (take_handle taken_from.1 taken_from.1.free_handles)
  handle_for =
      take_handle-HasHandle owner' taken_from.1 _ refl got.valid (rw got.same_count f.table_small)

  finish-IsValid :
      (o : Option (ℕ × Heap))
      → HasHandle owner' taken_from.1 o
      → IsValid (finish_alloc taken_from.0 taken_from.1 o cells size type_id).1
  unfolding finish_alloc
  finish-IsValid none x = (owner', got.valid)
  finish-IsValid (some (handle, g)) x = (
    retag owner' taken_from.0 (cells * slot_size) (object handle),
    occupy-IsOwned owner' g handle taken_from.0 cells size type_id x.valid got.owned
        (rw x.same_size got.fits) (cells_for_lem size f.size_small).0
        (cells_for_lem size f.size_small).1 x.in_table x.nonzero x.once,
  )

  -- The object `i` in the heap whose payload has been taken.
  object_of_valid : (i : ℕ) → valid h i ≡ true → IsObject owner' taken_from.1 i
  object_of_valid i e = got.valid.objects i (rw got.same_slots (valid-live h i e))

  load_cell_taken :
      (i off : ℕ) → valid h i ≡ true → load_cell taken_from.1 i off ≡ load_cell h i off
  load_cell_taken i off e = sym (
      load_cell_same owner' taken_from.1 h i got.valid (object_of_valid i e)
        (rw got.same_slots refl) (v.objects i (valid-live h i e)).in_table
        (λ b own. sym (got.kept b (λ t. absurd (object-ne-taken (sym own ∙ t))))) off)

  finish-Allocated :
      (o : Option (ℕ × Heap))
      → HasHandle owner' taken_from.1 o
      → Allocated h size type_id (finish_alloc taken_from.0 taken_from.1 o cells size type_id)
  unfolding finish_alloc occupy
  finish-Allocated none x = record {
    was_free = λ ne. absurd (ne refl);
    now_live = λ ne. absurd (ne refl);
    nonzero = omega arith;
    typed = λ ne. absurd (ne refl);
    sized = λ ne. absurd (ne refl);
    zeroed_cells = λ ne. absurd (ne refl);
    others = λ i off e. (
      valid_intro _ i (object_of_valid i e).in_table (rw got.same_slots (valid-live h i e)),
      load_cell_taken i off e,
    );
  }
  finish-Allocated (some (handle, g)) x = record {
    was_free = λ ne. elim (Bool-cases (h.slots handle).live) [
      | inr dead ↦ valid_dead h handle dead
      | inl live ↦ absurd (dead-ne-live g handle handle x.dead (slot_of handle live) refl)
    ];
    now_live = λ ne. valid_intro after handle x.in_table (rw slot);
    nonzero = x.nonzero;
    typed = λ ne. get_type_id_intro after handle x.in_table ∙ rw slot;
    sized = λ ne. cell_count_intro after handle x.in_table ∙ rw slot;
    zeroed_cells = λ ne off inside. zero off inside;
    others = λ i off e.
        let same = occupy_other g handle taken_from.0 cells size type_id i (other i e) in
        (
          valid_intro after i (in_after i e) (rw same (slot_of i (valid-live h i e))),
          load_cell_same owner' taken_from.1 after i got.valid (object_of_valid i e)
                (same ∙ x.same_slot i (rw got.same_slots (valid-live h i e))) (in_after i e)
                (λ b own. rw x.same_memory) off
              ∙ load_cell_taken i off e,
        );
  }
    where
      after : Heap
      after = occupy g handle taken_from.0 cells size type_id

      slot : after.slots handle ≡ record {
        payload_offset = taken_from.0;
        cells = cells;
        logical_size = size;
        type_id = type_id;
        generation = (g.slots handle).generation;
        live = true;
      }
      slot = occupy_slot g handle taken_from.0 cells size type_id

      slot_of : (i : ℕ) → (h.slots i).live ≡ true → (g.slots i).live ≡ true
      slot_of i live =
          let l : (taken_from.1.slots i).live ≡ true = rw got.same_slots live in
          rw (x.same_slot i l) l

      other : (i : ℕ) → valid h i ≡ true → handle ≢ i
      other i e = dead-ne-live g handle i x.dead (slot_of i (valid-live h i e))

      in_after : (i : ℕ) → valid h i ≡ true → i < g.slot_count
      in_after i e = (x.valid.objects i (slot_of i (valid-live h i e))).in_table

      zero : (off : ℕ) → off + slot_size ≤ size → load_cell after handle off ≡ some (0, tag_int)
      zero off inside =
          load_zeroed after handle off size cells taken_from.0 x.in_table (rw slot) (rw slot)
            (rw slot) (omega (arith, got.fits, got.valid.memory_small)) inside
            (cells_for_lem size f.size_small).0 (λ k lt. rw x.same_memory (got.zeros k lt))

-- `alloc` keeps the heap's invariant, also where it returns INVALID, for a request that fits.
pub alloc-IsValid :
    (h : Heap) (size type_id : ℕ) → Fits h size → IsValid h → IsValid (alloc h size type_id).1
unfolding alloc
alloc-IsValid h size type_id f (owner, v) =
    finish-IsValid h size type_id f owner v _ (handle_for h size type_id f owner v)

-- What the result of `alloc` keeps, on both branches.
pub alloc-Allocated :
    (h : Heap) (size type_id : ℕ)
    → Fits h size
    → IsValid h
    → Allocated h size type_id (alloc h size type_id)
unfolding alloc
alloc-Allocated h size type_id f (owner, v) =
    finish-Allocated h size type_id f owner v _ (handle_for h size type_id f owner v)
