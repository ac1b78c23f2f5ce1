-- ===== src/Heap/Frame.antt =====
-- What an object's cells depend on: its slot and the bytes that it owns.
use loxis_programming_langua.Prelude.{
  ℕ, ◌+◌, ◌-◌, ◌*◌, ◌^◌, ◌≤◌, ◌<◌, true, List, ◌≡◌, ◌≢◌, refl, sym, ap, ◌∙◌, arith, length,
  Bool-cases, inl, inr, some,
}
use native.Mathlib.Decide.{dec_lt}
use loxis_programming_langua.Heap.State.{Heap, add32, slot_size, valid}
use loxis_programming_langua.Heap.Owners.{Owner, object, IsObject, IsOwned, IsValid}
use loxis_programming_langua.Heap.Cells.{
  in_bounds, read_cell, load_cell, store_cell, write_bytes, cell_bytes,
}
use loxis_programming_langua.Heap.Cells.RoundTrip.{write_bytes_outside}

read_cell_same :
    (m n : ℕ → ℕ) (at : ℕ)
    → ((k : ℕ) → k < 9 → m (add32 at k) ≡ n (add32 at k))
    → read_cell m at ≡ read_cell n at
unfolding read_cell
read_cell_same m n at e = rw (
  e 0 (omega arith),
  e 1 (omega arith),
  e 2 (omega arith),
  e 3 (omega arith),
  e 4 (omega arith),
  e 5 (omega arith),
  e 6 (omega arith),
  e 7 (omega arith),
  e 8 (omega arith),
)

-- The guards make a cell lie in the payload, and the sum of offsets does not wrap.
record IsInside (h : Heap) (i off : ℕ) : Type 0 where
  at : add32 (h.slots i).payload_offset off ≡ (h.slots i).payload_offset + off
  within : off + slot_size ≤ (h.slots i).cells * slot_size

in_bounds-IsInside :
    (owner : ℕ → Owner) (h : Heap) (i off : ℕ)
    → IsOwned owner h
    → IsObject owner h i
    → in_bounds h.slots h.slot_count i off ≡ true
    → IsInside h i off
unfolding in_bounds
in_bounds-IsInside owner h i off v o e =
    let p : off + slot_size ≤ (h.slots i).logical_size = ground arith in
    record { at = omega (arith, o.fits, o.holds, v.memory_small); within = omega (arith, o.holds) }

module _ (owner : ℕ → Owner) (h g : Heap) (i : ℕ) (v : IsOwned owner h) (o : IsObject owner h i)
    (same : g.slots i ≡ h.slots i) (in_table : i < g.slot_count)
    (kept : (b : ℕ) → owner b ≡ object i → g.memory b ≡ h.memory b) where
  in_bounds_same :
      (off : ℕ) → in_bounds g.slots g.slot_count i off ≡ in_bounds h.slots h.slot_count i off
  unfolding in_bounds
  in_bounds_same off = rw same (ground (arith, o.in_table))

  -- A heap with the same slot and the same bytes of the object has the same cells of it.
  pub load_cell_same : (off : ℕ) → load_cell g i off ≡ load_cell h i off
  unfolding load_cell
  load_cell_same off = elim (Bool-cases (in_bounds h.slots h.slot_count i off)) [
    | inr out ↦ rw (in_bounds_same off, out)
    | inl e ↦
        let p = in_bounds-IsInside owner h i off v o e in
        rw (in_bounds_same off, e, same, p.at)
          (ap some (
            read_cell_same g.memory h.memory _ (λ k lt.
              let assoc : add32 ((h.slots i).payload_offset + off) k
                  ≡ (h.slots i).payload_offset + (off + k) =
                omega (arith, lt, p.within, o.fits, v.memory_small) in
              kept _ (rw assoc (o.owned (off + k) (omega (arith, p.within)))))))
  ]

pub valid-live : (h : Heap) (i : ℕ) → valid h i ≡ true → (h.slots i).live ≡ true
unfolding valid
valid-live h i e = ground arith

object_injective : {i j : ℕ} → object i ≡ object j → i ≡ j
object_injective e = cc

-- Different owners: the bytes that a store to `j` writes are none of `i`.
write_misses :
    (owner : ℕ → Owner) (h : Heap) (i j off b : ℕ) (bs : List ℕ)
    → IsObject owner h j
    → i ≢ j
    → off + length bs ≤ (h.slots j).cells * slot_size
    → h.memory_size ≤ 2 ^ 32
    → owner b ≡ object i
    → write_bytes h.memory ((h.slots j).payload_offset + off) 0 bs b ≡ h.memory b
write_misses owner h i j off b bs o ne fits small own =
    write_bytes_outside h.memory _ bs b (omega (arith, fits, o.fits, small))
      (elim (dec_lt b start) [
        | yes before ↦ inl before
        | no not_before ↦ elim (dec_lt b (start + length bs)) [
          | no not_inside ↦ inr (omega arith)
          | yes inside ↦ absurd (clash (omega arith))
        ]
      ])
  where
    start : ℕ
    start = (h.slots j).payload_offset + off

    clash : (start ≤ b) × (b < start + length bs) → ⊥
    clash (le, lt) =
        let e : (h.slots j).payload_offset + (b - (h.slots j).payload_offset) ≡ b = omega arith in
        let mine : owner b ≡ object j =
          rw e at (o.owned (b - (h.slots j).payload_offset) (omega arith)) in
        ne (object_injective (sym own ∙ mine))

-- Storing into one object leaves every cell of every other object as it was.
pub load_cell-store_cell_other :
    (h : Heap) (i j off off' val tag : ℕ)
    → IsValid h
    → valid h i ≡ true
    → valid h j ≡ true
    → i ≢ j
    → load_cell (store_cell h j off val tag).1 i off' ≡ load_cell h i off'
unfolding store_cell cell_bytes
load_cell-store_cell_other h i j off off' val tag (owner, v) live_i live_j ne =
    elim (Bool-cases (in_bounds h.slots h.slot_count j off)) [
      | inr out ↦ rw out
      | inl e ↦
          let oi = v.objects i (valid-live h i live_i) in
          let oj = v.objects j (valid-live h j live_j) in
          let p = in_bounds-IsInside owner h j off v oj e in
          rw (e, p.at)
            (load_cell_same owner h _ i v oi refl oi.in_table
              (λ b own.
                write_misses owner h i j off b _ oj ne (omega (arith, p.within)) v.memory_small own)
              off')
    ]
