-- ===== src/Heap/Cells/RoundTrip.antt =====
-- A stored cell is read back, and no other byte changes.
use loxis_programming_langua.Prelude.{
  ℕ, zero, suc, ◌+◌, ◌^◌, ◌≤◌, ◌<◌, List, [], ◌∷◌, some, true, inl, inr, ◌⊎◌, ◌≡◌, ◌≢◌, ◌∙◌, refl,
  ap, arith, length, get_or, Bool-cases,
}
use loxis_programming_langua.Heap.State.{Heap, update, add32}
use loxis_programming_langua.Heap.Cells.{
  in_bounds, write_bytes, cell_bytes, store_cell, read_cell, load_cell,
}

-- A byte at none of the written places is as before.
write_bytes_elsewhere :
    (memory : ℕ → ℕ) (offset i : ℕ) (bs : List ℕ) (p : ℕ)
    → ((j : ℕ) → i ≤ j → j < i + length bs → add32 offset j ≢ p)
    → write_bytes memory offset i bs p ≡ memory p
unfolding write_bytes
write_bytes_elsewhere memory offset i [] p h = refl
write_bytes_elsewhere memory offset i (b ∷ bs) p h =
    write_bytes_elsewhere (update memory (add32 offset i) b) offset (i + 1) bs p
      (λ j le lt. h j (omega (arith, le)) (omega (arith, lt)))
    ∙ ground (arith, h i (omega arith) (omega arith))

-- A byte outside the written run, which does not wrap, is as before.
pub write_bytes_outside :
    (memory : ℕ → ℕ) (offset : ℕ) (bs : List ℕ) (p : ℕ)
    → offset + length bs ≤ 2 ^ 32
    → (p < offset) ⊎ (offset + length bs ≤ p)
    → write_bytes memory offset 0 bs p ≡ memory p
write_bytes_outside memory offset bs p small h =
    write_bytes_elsewhere memory offset 0 bs p
      (λ j le lt e. absurd (omega (arith, lt, e, small, h)))

write_bytes_inside :
    (memory : ℕ → ℕ) (offset i : ℕ) (bs : List ℕ) (k : ℕ)
    → i + length bs ≤ 2 ^ 32
    → k < length bs
    → write_bytes memory offset i bs (add32 offset (i + k)) ≡ get_or bs k 0
unfolding write_bytes
write_bytes_inside memory offset i [] k small h = absurd (omega arith)
write_bytes_inside memory offset i (b ∷ bs) zero small h =
    write_bytes_elsewhere (update memory (add32 offset i) b) offset (i + 1) bs
      (add32 offset (i + 0)) (λ j le lt e. absurd (omega (arith, le, lt, e, small)))
    ∙ ground arith
write_bytes_inside memory offset i (b ∷ bs) (suc k) small h =
    let e : i + suc k ≡ i + 1 + k = omega arith in
    rw e (
      write_bytes_inside (update memory (add32 offset i) b) offset (i + 1) bs k (omega arith)
        (omega arith))

read_cell-write_bytes :
    (memory : ℕ → ℕ) (offset val tag : ℕ)
    → val < 2 ^ 64
    → read_cell (write_bytes memory offset 0 (cell_bytes val tag)) offset ≡ (val, tag)
unfolding read_cell cell_bytes
read_cell-write_bytes memory offset val tag h =
    rw
      (
        at 0 (omega arith),
        at 1 (omega arith),
        at 2 (omega arith),
        at 3 (omega arith),
        at 4 (omega arith),
        at 5 (omega arith),
        at 6 (omega arith),
        at 7 (omega arith),
        at 8 (omega arith),
      )
      (ap (λ (v : ℕ). (v, tag)) (omega arith))
  where
    at :
        (k : ℕ)
        → k < 9
        → write_bytes memory offset 0 (cell_bytes val tag) (add32 offset k)
          ≡ get_or (cell_bytes val tag) k 0
    at k lt =
        let e : k ≡ 0 + k = omega arith in
        ap (λ j. write_bytes memory offset 0 (cell_bytes val tag) (add32 offset j)) e
        ∙ write_bytes_inside memory offset 0 (cell_bytes val tag) k (omega arith) lt

-- A cell that `storeCell` accepts is read back by `loadCell` as the value and tag that were stored.
pub load_cell-store_cell :
    (h : Heap) (handle byte_off val tag : ℕ)
    → val < 2 ^ 64
    → (store_cell h handle byte_off val tag).0 ≡ true
    → load_cell (store_cell h handle byte_off val tag).1 handle byte_off ≡ some (val, tag)
unfolding store_cell load_cell
load_cell-store_cell h handle byte_off val tag le done =
    elim (Bool-cases (in_bounds h.slots h.slot_count handle byte_off)) [
      | inl e ↦ simp e (ap some (read_cell-write_bytes h.memory _ val tag le))
      | inr e ↦ absurd (ground arith)
    ]
