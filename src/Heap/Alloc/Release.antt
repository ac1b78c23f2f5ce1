-- ===== src/Heap/Alloc/Release.antt =====
-- `freePayload` keeps the invariant, invalidates the handle and leaves the other objects alone.
use loxis_programming_langua.Prelude.{
  ℕ, ◌*◌, ◌<◌, true, false, List, [], ◌∷◌, none, ◌≡◌, ◌≢◌, refl, sym, subst, ◌∙◌, arith, ◌==◌,
  if◌then◌else◌, length, Bool-cases, inl, inr,
}
use loxis_programming_langua.Heap.State.{Heap, slot_size, valid, add32}
use loxis_programming_langua.Heap.Owners.{
  Owner, object, block, retag, Owns-retag_self, retag_outside, OwnsAll, OwnsAll-retag, IsObject,
  AreFree, NotIn, IsOwned, IsValid,
}
use loxis_programming_langua.Heap.Alloc.{free_list, release_slot, free_payload}
use loxis_programming_langua.Heap.Alloc.Payload.{IsObject-retag}
use loxis_programming_langua.Heap.Alloc.Keeps.{update_other, AreFree-update}
use loxis_programming_langua.Heap.Alloc.Fresh.{dead-ne-live, valid_intro}
use loxis_programming_langua.Heap.Cells.{load_cell, in_bounds, store_cell}
use loxis_programming_langua.Heap.Frame.{load_cell_same, valid-live}

free_list-release_slot :
    (h : Heap) (handle d : ℕ)
    → free_list (release_slot h handle) d ≡ (
        if (h.slots handle).cells == d
        then (h.slots handle).payload_offset ∷ free_list h (h.slots handle).cells
        else free_list h d)
unfolding release_slot free_list
free_list-release_slot h handle d = ground arith

-- A live object's handle is not among the free ones.
NotIn-of_live :
    (h : Heap) (count i : ℕ) (l : List ℕ)
    → (h.slots i).live ≡ true
    → AreFree h.slots count l
    → NotIn i l
NotIn-of_live h count i [] live f = tt
NotIn-of_live h count i (j ∷ l) live (lt, pos, dead, once, f) =
    (λ e. dead-ne-live h j i dead live (sym e), NotIn-of_live h count i l live f)

module _ (owner : ℕ → Owner) (h : Heap) (handle : ℕ) (v : IsOwned owner h)
    (live : (h.slots handle).live ≡ true) where
  abbrev cells : ℕ
  cells = (h.slots handle).cells

  abbrev start : ℕ
  start = (h.slots handle).payload_offset

  abbrev owner' : ℕ → Owner
  owner' = retag owner start (cells * slot_size) (block cells (length (free_list h cells)))

  abbrev after : Heap
  after = release_slot h handle

  o : IsObject owner h handle
  o = v.objects handle live

  slot_other : (i : ℕ) → handle ≢ i → after.slots i ≡ h.slots i
  unfolding release_slot
  slot_other i ne = update_other h.slots handle i _ ne

  slot_dead : (after.slots handle).live ≡ false
  unfolding release_slot
  slot_dead = ground arith

  ne_of_live : (i : ℕ) → (after.slots i).live ≡ true → handle ≢ i
  ne_of_live i l = dead-ne-live after handle i slot_dead l

  object_ne : (i : ℕ) → handle ≢ i → object i ≢ object handle
  object_ne i ne e = ne cc

  objects_after : (i : ℕ) → (after.slots i).live ≡ true → IsObject owner' after i
  unfolding release_slot
  objects_after i l =
      let ne = ne_of_live i l in
      IsObject-retag owner h after start (cells * slot_size) i (object handle) _ o.owned
        (object_ne i ne) (slot_other i ne) (omega arith) (omega arith)
        (v.objects i (rw (slot_other i ne) at l))

  blocks_after : (d : ℕ) → OwnsAll owner' h.memory_size d (free_list after d)
  blocks_after d = rw (free_list-release_slot h handle d) (elim (Bool-cases (cells == d)) [
    | inl same ↦
        let e : cells ≡ d = ground arith in
        rw same (
          subst (λ x. OwnsAll owner' h.memory_size x (start ∷ free_list h cells)) e
            (
              Owns-retag_self owner start (cells * slot_size) _,
              o.fits,
              OwnsAll-retag owner start (cells * slot_size) (object handle) _ _ _ cells _ o.owned
                  (λ k lt. cc) (omega arith) (v.blocks cells),
            ))
    | inr other ↦ rw other (
        OwnsAll-retag owner start (cells * slot_size) (object handle) _ _ _ d _ o.owned (λ k lt. cc)
          (omega arith) (v.blocks d))
  ])

  handle_pos : 0 < handle
  handle_pos = let ne : 0 ≢ handle = dead-ne-live h 0 handle v.zero_dead live in omega arith

  pub release_slot-IsOwned : IsOwned owner' after
  unfolding release_slot
  release_slot-IsOwned = record {
    objects = objects_after;
    blocks = blocks_after;
    beyond = λ b le.
        retag_outside owner start (cells * slot_size) b _ (omega (arith, o.fits)) ∙ v.beyond b le;
    free = (
      o.in_table,
      handle_pos,
      slot_dead,
      NotIn-of_live h h.slot_count handle h.free_handles live v.free,
      AreFree-update h.slots h.slot_count handle _ h.free_handles
          (NotIn-of_live h h.slot_count handle h.free_handles live v.free) v.free,
    );
    zero_dead = rw (slot_other 0 (omega (arith, handle_pos))) v.zero_dead;
    some_slot = v.some_slot;
    table_small = v.table_small;
    memory_small = v.memory_small;
  }

  -- The cells of another object.
  load_cell_other :
      (i off : ℕ) → (h.slots i).live ≡ true → handle ≢ i → load_cell after i off ≡ load_cell h i off
  unfolding release_slot
  load_cell_other i off l ne =
      load_cell_same owner h after i v (v.objects i l) (slot_other i ne) (v.objects i l).in_table
        (λ b own. refl) off

  bumped : (after.slots handle).generation ≡ add32 (h.slots handle).generation 1
  unfolding release_slot
  bumped = ground arith

  no_cell : (off : ℕ) → in_bounds after.slots after.slot_count handle off ≡ false
  unfolding in_bounds
  no_cell off = rw slot_dead (ground arith)

-- `freePayload` keeps the heap's invariant, whether or not the handle is valid.
pub free_payload-IsValid : (h : Heap) (handle : ℕ) → IsValid h → IsValid (free_payload h handle)
unfolding free_payload
free_payload-IsValid h handle (owner, v) = elim (Bool-cases (valid h handle)) [
  | inl e ↦ rw e (
    owner' owner h handle v (valid-live h handle e),
    release_slot-IsOwned owner h handle v (valid-live h handle e),
  )
  | inr e ↦ rw e (owner, v)
]

valid_of_dead : (h : Heap) (i : ℕ) → (h.slots i).live ≡ false → valid h i ≡ false
unfolding valid
valid_of_dead h i dead = ground arith

-- What `freePayload` promises of the handle that it frees and of the other objects.
pub record Freed (h : Heap) (handle : ℕ) (g : Heap) : Type 0 where
  pub stale : valid g handle ≡ false
  pub generation : (g.slots handle).generation ≡ add32 (h.slots handle).generation 1
  pub no_load : (off : ℕ) → load_cell g handle off ≡ none
  pub no_store : (off val tag : ℕ) → store_cell g handle off val tag ≡ (false, g)
  pub others :
      (i off : ℕ)
      → valid h i ≡ true
      → handle ≢ i
      → (valid g i ≡ true) × (load_cell g i off ≡ load_cell h i off)

-- Freeing a valid handle makes it invalid, moves its generation on, and lets no load or store through
-- it succeed; every other live object stays live and keeps its cells.
pub free_payload-Freed :
    (h : Heap) (handle : ℕ)
    → IsValid h
    → valid h handle ≡ true
    → Freed h handle (free_payload h handle)
unfolding free_payload
free_payload-Freed h handle (owner, v) e = rw e freed
  where
    live : (h.slots handle).live ≡ true
    live = valid-live h handle e

    freed : Freed h handle (release_slot h handle)
    freed = record {
      stale = valid_of_dead (release_slot h handle) handle (slot_dead owner h handle v live);
      generation = bumped owner h handle v live;
      no_load = λ off. unfold load_cell in rw (no_cell owner h handle v live off);
      no_store = λ off val tag. unfold store_cell in rw (no_cell owner h handle v live off);
      others = λ i off f ne.
          let l = valid-live h i f in
          (
            valid_intro (release_slot h handle) i
                (objects_after owner h handle v live i
                  (rw (slot_other owner h handle v live i ne) l)).in_table
                (rw (slot_other owner h handle v live i ne) l),
            load_cell_other owner h handle v live i off l ne,
          );
    }
