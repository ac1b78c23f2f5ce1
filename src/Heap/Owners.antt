-- ===== src/Heap/Owners.antt =====
-- The invariant of the heap: each byte of the arena has one owner at most, an object or a block of a
-- free list, so payloads do not overlap.
use loxis_programming_langua.Prelude.{
  ℕ, ◌+◌, ◌-◌, ◌*◌, ◌^◌, ◌≤◌, ◌<◌, true, false, ◌&&◌, List, [], ◌∷◌, ◌≡◌, ◌≢◌, refl, arith, ltb,
  leb, if◌then◌else◌, length,
}
use loxis_programming_langua.Heap.State.{
  Heap, ObjectSlot, slot_size, new_heap, reset_stats, invalid,
}
use loxis_programming_langua.Heap.Alloc.{free_list}

-- `block c k` is the block with `k` blocks under it in the free list of cell count `c`; `taken` is a
-- block that left its list and has no object yet.
pub data Owner : Type 0 where
  nobody taken : Owner
  object : ℕ → Owner
  block : ℕ → ℕ → Owner

abbrev pub Owns : (ℕ → Owner) → ℕ → ℕ → Owner → Type 0
Owns owner start n t = (k : ℕ) → k < n → owner (start + k) ≡ t

-- The bytes from `start` on get a new owner.
abbrev pub retag : (ℕ → Owner) → ℕ → ℕ → Owner → ℕ → Owner
retag owner start n t b = if leb start b && ltb b (start + n) then t else owner b

pub Owns-retag_self :
    (owner : ℕ → Owner) (start n : ℕ) (t : Owner) → Owns (retag owner start n t) start n t
Owns-retag_self owner start n t k h = ground arith

-- Bytes of another owner than those that change hands keep theirs.
pub Owns-retag :
    (owner : ℕ → Owner) (start n : ℕ) (s t : Owner) (off m : ℕ) (u : Owner)
    → Owns owner start n s
    → u ≢ s
    → Owns owner off m u
    → Owns (retag owner start n t) off m u
Owns-retag owner start n s t off m u from ne own k h =
    ground (arith, own k h, from (off + k - start), same)
  where
    same : start ≤ off + k → start + (off + k - start) ≡ off + k
    same le = omega arith

pub retag_outside :
    (owner : ℕ → Owner) (start n b : ℕ) (t : Owner)
    → start + n ≤ b
    → retag owner start n t b ≡ owner b
retag_outside owner start n b t h = ground arith

-- The blocks of one free list, each inside the arena.
abbrev pub OwnsAll : (ℕ → Owner) → ℕ → ℕ → List ℕ → Type 0
OwnsAll owner size c [] = Unit
OwnsAll owner size c (start ∷ rest) =
    Owns owner start (c * slot_size) (block c (length rest))
    × (start + c * slot_size ≤ size)
    × OwnsAll owner size c rest

pub OwnsAll-retag :
    (owner : ℕ → Owner) (start n : ℕ) (s t : Owner) (size size' c : ℕ) (l : List ℕ)
    → Owns owner start n s
    → ((k : ℕ) → k < length l → block c k ≢ s)
    → size ≤ size'
    → OwnsAll owner size c l
    → OwnsAll (retag owner start n t) size' c l
OwnsAll-retag owner start n s t size size' c [] from ne le h = tt
OwnsAll-retag owner start n s t size size' c (o ∷ l) from ne le (own, fits, rest) = (
  Owns-retag owner start n s t o (c * slot_size) (block c (length l)) from
      (ne (length l) (omega arith)) own,
  omega arith,
  OwnsAll-retag owner start n s t size size' c l from (λ k lt. ne k (omega arith)) le rest,
)

-- An occupied slot: its payload lies in the arena, is its own, and holds the bytes asked for.
pub record IsObject (owner : ℕ → Owner) (h : Heap) (i : ℕ) : Type 0 where
  pub in_table : i < h.slot_count
  pub owned : Owns owner (h.slots i).payload_offset ((h.slots i).cells * slot_size) (object i)
  pub fits : (h.slots i).payload_offset + (h.slots i).cells * slot_size ≤ h.memory_size
  pub holds : (h.slots i).logical_size ≤ (h.slots i).cells * slot_size
  pub some_cell : 0 < (h.slots i).cells

abbrev pub NotIn : ℕ → List ℕ → Type 0
NotIn i [] = Unit
NotIn i (j ∷ l) = (i ≢ j) × NotIn i l

-- Handles that may be given out: not live, in the table, never 0, and each of them once.
abbrev pub AreFree : (ℕ → ObjectSlot) → ℕ → List ℕ → Type 0
AreFree slots count [] = Unit
AreFree slots count (i ∷ l) =
    (i < count) × (0 < i) × ((slots i).live ≡ false) × NotIn i l × AreFree slots count l

pub record IsOwned (owner : ℕ → Owner) (h : Heap) : Type 0 where
  pub objects : (i : ℕ) → (h.slots i).live ≡ true → IsObject owner h i
  pub blocks : (c : ℕ) → OwnsAll owner h.memory_size c (free_list h c)
  pub beyond : (b : ℕ) → h.memory_size ≤ b → owner b ≡ nobody
  pub free : AreFree h.slots h.slot_count h.free_handles
  pub zero_dead : (h.slots 0).live ≡ false
  pub some_slot : 0 < h.slot_count
  pub table_small : h.slot_count ≤ invalid
  pub memory_small : h.memory_size ≤ 2 ^ 32

-- Some owner of every byte fits the whole heap.
abbrev pub IsValid : Heap → Type 0
IsValid h = (owner : ℕ → Owner) × IsOwned owner h

free_list-new_heap : (c : ℕ) → free_list new_heap c ≡ []
unfolding free_list
free_list-new_heap c = ground arith

pub new_heap-IsValid : IsValid new_heap
new_heap-IsValid = (
  λ _. nobody,
  record {
    objects = λ i h. cc;
    blocks = λ c. rw (free_list-new_heap c) tt;
    beyond = λ b h. refl;
    free = tt;
    zero_dead = refl;
    some_slot = omega arith;
    table_small = omega arith;
    memory_small = omega arith;
  },
)

-- The statistics are no part of the invariant.
pub reset_stats-IsValid : (h : Heap) → IsValid h → IsValid (reset_stats h)
unfolding reset_stats free_list
reset_stats-IsValid h (owner, v) = (
  owner,
  record {
    objects = λ i live.
        let o = v.objects i live in
        record {
          in_table = o.in_table;
          owned = o.owned;
          fits = o.fits;
          holds = o.holds;
          some_cell = o.some_cell;
        };
    blocks = v.blocks;
    beyond = v.beyond;
    free = v.free;
    zero_dead = v.zero_dead;
    some_slot = v.some_slot;
    table_small = v.table_small;
    memory_small = v.memory_small;
  },
)
