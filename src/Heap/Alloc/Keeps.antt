-- ===== src/Heap/Alloc/Keeps.antt =====
-- `alloc` keeps the heap's invariant.
use loxis_programming_langua.Prelude.{
  ℕ, ◌+◌, ◌*◌, ◌^◌, ◌%◌, ◌≤◌, ◌<◌, true, false, ◌&&◌, not, List, [], ◌∷◌, Option, none, some, ◌≡◌,
  ◌≢◌, refl, subst, ◌∙◌, arith, leb, ◌==◌, Bool-cases, inl, inr,
}
use loxis_programming_langua.Heap.State.{Heap, ObjectSlot, empty_slot, slot_size, update, invalid}
use loxis_programming_langua.Heap.Owners.{
  Owner, taken, object, Owns, retag, Owns-retag_self, retag_outside, OwnsAll-retag, IsObject,
  AreFree, NotIn, IsOwned,
}
use loxis_programming_langua.Heap.Alloc.{free_list, take_handle, occupy}
use loxis_programming_langua.Heap.Alloc.Payload.{IsObject-retag}

module _ {ℓ} {A : Type ℓ} where
  pub update_self : (f : ℕ → A) (p : ℕ) (v : A) → update f p v p ≡ v
  update_self f p v = ground arith

  pub update_other : (f : ℕ → A) (p q : ℕ) (v : A) → p ≢ q → update f p v q ≡ f q
  update_other f p q v ne = ground arith

pub AreFree-update :
    (slots : ℕ → ObjectSlot) (count handle : ℕ) (s : ObjectSlot) (l : List ℕ)
    → NotIn handle l
    → AreFree slots count l
    → AreFree (update slots handle s) count l
AreFree-update slots count handle s [] n h = tt
AreFree-update slots count handle s (i ∷ l) (ne, n) (lt, pos, dead, once, h) = (
  lt,
  pos,
  rw (update_other slots handle i s ne) dead,
  once,
  AreFree-update slots count handle s l n h,
)

AreFree-grow :
    (slots : ℕ → ObjectSlot) (count : ℕ) (s : ObjectSlot) (l : List ℕ)
    → AreFree slots count l
    → AreFree (update slots count s) (count + 1) l
AreFree-grow slots count s [] h = tt
AreFree-grow slots count s (i ∷ l) (lt, pos, dead, once, h) = (
  omega arith,
  pos,
  rw (update_other slots count i s (omega arith)) dead,
  once,
  AreFree-grow slots count s l h,
)

NotIn-of_AreFree :
    (slots : ℕ → ObjectSlot) (count : ℕ) (l : List ℕ) → AreFree slots count l → NotIn count l
NotIn-of_AreFree slots count [] h = tt
NotIn-of_AreFree slots count (i ∷ l) (lt, pos, dead, once, h) =
    (omega arith, NotIn-of_AreFree slots count l h)

-- What `take_handle` returns: a handle that no object has, in a valid heap with the same arena.
pub record IsHandle (owner : ℕ → Owner) (h : Heap) (handle : ℕ) (g : Heap) : Type 0 where
  pub valid : IsOwned owner g
  pub dead : (g.slots handle).live ≡ false
  pub in_table : handle < g.slot_count
  pub nonzero : 0 < handle
  pub once : NotIn handle g.free_handles
  pub same_size : g.memory_size ≡ h.memory_size
  pub same_memory : g.memory ≡ h.memory
  pub same_slot : (i : ℕ) → (h.slots i).live ≡ true → g.slots i ≡ h.slots i

abbrev pub HasHandle : (ℕ → Owner) → Heap → Option (ℕ × Heap) → Type 0
HasHandle owner h none = Unit
HasHandle owner h (some (handle, g)) = IsHandle owner h handle g

pop-IsHandle :
    (owner : ℕ → Owner) (h : Heap) (i : ℕ) (l : List ℕ)
    → IsOwned owner h
    → AreFree h.slots h.slot_count (i ∷ l)
    → IsHandle owner h i (record h { free_handles = l })
unfolding free_list
pop-IsHandle owner h i l v (lt, pos, dead, once, rest) = record {
  valid = record {
    objects = λ j live.
        let o = v.objects j live in
        record {
          in_table = o.in_table;
          owned = o.owned;
          fits = o.fits;
          holds = o.holds;
          some_cell = o.some_cell;
        };
    blocks = v.blocks;
    beyond = v.beyond;
    free = rest;
    zero_dead = v.zero_dead;
    some_slot = v.some_slot;
    table_small = v.table_small;
    memory_small = v.memory_small;
  };
  dead = dead;
  in_table = lt;
  nonzero = pos;
  once = once;
  same_size = refl;
  same_memory = refl;
  same_slot = λ j live. refl;
}

abbrev new_slot : Heap → Heap
new_slot h = record h {
  slots = update h.slots h.slot_count empty_slot;
  slot_count = h.slot_count + 1;
}

-- No object stands behind the table.
ne_of_live :
    (owner : ℕ → Owner) (h : Heap) (j : ℕ)
    → IsOwned owner h
    → (h.slots j).live ≡ true
    → h.slot_count ≢ j
ne_of_live owner h j v live = omega (arith, (v.objects j live).in_table)

live_of_new_slot : (h : Heap) (j : ℕ) → ((new_slot h).slots j).live ≡ true → (h.slots j).live ≡ true
live_of_new_slot h j live = ground arith

new-IsHandle :
    (owner : ℕ → Owner) (h : Heap)
    → IsOwned owner h
    → h.free_handles ≡ []
    → h.slot_count < invalid
    → IsHandle owner h h.slot_count (new_slot h)
unfolding free_list
new-IsHandle owner h v e small = record {
  valid = record {
    objects = λ j live.
        let old = live_of_new_slot h j live in
        let o = v.objects j old in
        let same = update_other h.slots h.slot_count j empty_slot (ne_of_live owner h j v old) in
        record {
          in_table = omega (arith, o.in_table);
          owned = rw same o.owned;
          fits = rw same o.fits;
          holds = rw same o.holds;
          some_cell = rw same o.some_cell;
        };
    blocks = v.blocks;
    beyond = v.beyond;
    free = rw e tt;
    zero_dead =
        rw (update_other h.slots h.slot_count 0 empty_slot (omega (arith, v.some_slot)))
          v.zero_dead;
    some_slot = omega arith;
    table_small = omega arith;
    memory_small = v.memory_small;
  };
  dead = rw (update_self h.slots h.slot_count empty_slot);
  in_table = omega arith;
  nonzero = v.some_slot;
  once = rw e tt;
  same_size = refl;
  same_memory = refl;
  same_slot =
      λ j live. update_other h.slots h.slot_count j empty_slot (ne_of_live owner h j v live);
}

pub take_handle-HasHandle :
    (owner : ℕ → Owner) (h : Heap) (l : List ℕ)
    → h.free_handles ≡ l
    → IsOwned owner h
    → h.slot_count < invalid
    → HasHandle owner h (take_handle h l)
unfolding take_handle
take_handle-HasHandle owner h (i ∷ l) e v small = pop-IsHandle owner h i l v (rw e at v.free)
take_handle-HasHandle owner h [] e v small =
    elim (Bool-cases (not (h.slot_cap == 0) && leb h.slot_cap h.slot_count)) [
      | inl full ↦ rw full tt
      | inr room ↦
          let at : h.slot_count % 2 ^ 32 ≡ h.slot_count = omega arith in
          rw (room, at) (new-IsHandle owner h v e small)
    ]

-- The slot that `alloc` fills in.
pub occupy_slot :
    (h : Heap) (handle offset cells size type_id : ℕ)
    → (occupy h handle offset cells size type_id).slots handle ≡ record {
      payload_offset = offset;
      cells = cells;
      logical_size = size;
      type_id = type_id;
      generation = (h.slots handle).generation;
      live = true;
    }
unfolding occupy
occupy_slot h handle offset cells size type_id = ground arith

pub occupy_other :
    (h : Heap) (handle offset cells size type_id i : ℕ)
    → handle ≢ i
    → (occupy h handle offset cells size type_id).slots i ≡ h.slots i
unfolding occupy
occupy_other h handle offset cells size type_id i ne = update_other h.slots handle i _ ne

module _ (owner : ℕ → Owner) (h : Heap) (handle offset cells size type_id : ℕ) (v : IsOwned owner h)
    (own : Owns owner offset (cells * slot_size) taken)
    (fits : offset + cells * slot_size ≤ h.memory_size) (holds : size ≤ cells * slot_size)
    (pos : 0 < cells) (in_table : handle < h.slot_count) (nonzero : 0 < handle)
    (once : NotIn handle h.free_handles) where
  abbrev after : Heap
  after = occupy h handle offset cells size type_id

  occupy_object :
      (i : ℕ)
      → (after.slots i).live ≡ true
      → IsObject (retag owner offset (cells * slot_size) (object handle)) after i
  unfolding occupy
  occupy_object i live = elim (Bool-cases (handle == i)) [
    | inl same ↦
        let e : handle ≡ i = ground arith in
        subst (IsObject (retag owner offset (cells * slot_size) (object handle)) after) e (record {
          in_table = in_table;
          owned =
              rw (occupy_slot h handle offset cells size type_id)
                (Owns-retag_self owner offset (cells * slot_size) (object handle));
          fits = rw (occupy_slot h handle offset cells size type_id) fits;
          holds = rw (occupy_slot h handle offset cells size type_id) holds;
          some_cell = rw (occupy_slot h handle offset cells size type_id) pos;
        })
    | inr other ↦
        let ne : handle ≢ i = ground arith in
        IsObject-retag owner h after offset (cells * slot_size) i taken (object handle) own (cc)
          (occupy_other h handle offset cells size type_id i ne) (omega arith) (omega arith)
          (v.objects i (rw (occupy_other h handle offset cells size type_id i ne) at live))
  ]

  pub occupy-IsOwned : IsOwned (retag owner offset (cells * slot_size) (object handle)) after
  unfolding occupy free_list
  occupy-IsOwned = record {
    objects = occupy_object;
    blocks = λ d.
        OwnsAll-retag owner offset (cells * slot_size) taken (object handle) _ _ d _ own
          (λ k lt. cc) (omega arith) (v.blocks d);
    beyond = λ b le.
        retag_outside owner offset (cells * slot_size) b (object handle) (omega arith)
        ∙ v.beyond b le;
    free = AreFree-update h.slots h.slot_count handle _ h.free_handles once v.free;
    zero_dead = rw (occupy_other h handle offset cells size type_id 0 (omega arith)) v.zero_dead;
    some_slot = v.some_slot;
    table_small = v.table_small;
    memory_small = v.memory_small;
  }
