-- ===== src/Heap/Alloc/Payload.antt =====
-- The first half of `alloc`: a payload is taken.
use loxis_programming_langua.Prelude.{
  ℕ, ◌+◌, ◌*◌, ◌^◌, ◌%◌, ◌≤◌, ◌<◌, ◌&&◌, List, [], ◌∷◌, ◌≡◌, ◌≢◌, refl, subst, ◌∙◌, arith, ltb, leb,
  ◌==◌, if◌then◌else◌, length, Bool-cases, inl, inr,
}
use loxis_programming_langua.Heap.State.{Heap, slot_size}
use loxis_programming_langua.Heap.Owners.{
  Owner, nobody, taken, object, block, Owns, retag, Owns-retag_self, Owns-retag, retag_outside,
  OwnsAll, OwnsAll-retag, IsObject, IsOwned,
}
use loxis_programming_langua.Heap.Alloc.{free_list, set_free_list, take_payload, zeroed}

free_list-set_free_list :
    (h : Heap) (c : ℕ) (l : List ℕ) (d : ℕ)
    → free_list (set_free_list h c l) d ≡ (if c == d then l else free_list h d)
unfolding free_list set_free_list
free_list-set_free_list h c l d = ground arith

-- What `take_payload` returns: a payload of `cells` cells that nothing else owns, in a valid heap with
-- the same slots.
pub record IsTaken (owner : ℕ → Owner) (cells : ℕ) (h : Heap) (r : ℕ × Heap) : Type 0 where
  pub valid : IsOwned owner r.1
  pub owned : Owns owner r.0 (cells * slot_size) taken
  pub fits : r.0 + cells * slot_size ≤ r.1.memory_size
  pub zeros : (k : ℕ) → k < cells * slot_size → r.1.memory (r.0 + k) ≡ 0
  pub kept : (b : ℕ) → owner b ≢ taken → r.1.memory b ≡ h.memory b
  pub same_slots : r.1.slots ≡ h.slots
  pub same_count : r.1.slot_count ≡ h.slot_count
  pub same_handles : r.1.free_handles ≡ h.free_handles
  pub same_cap : r.1.slot_cap ≡ h.slot_cap

-- An object keeps its bytes when others change hands.
pub IsObject-retag :
    (owner : ℕ → Owner) (h g : Heap) (start n i : ℕ) (s t : Owner)
    → Owns owner start n s
    → object i ≢ s
    → g.slots i ≡ h.slots i
    → h.slot_count ≤ g.slot_count
    → h.memory_size ≤ g.memory_size
    → IsObject owner h i
    → IsObject (retag owner start n t) g i
IsObject-retag owner h g start n i s t from ne same count size o = record {
  in_table = omega (arith, o.in_table);
  owned = rw same (Owns-retag owner start n s t _ _ (object i) from ne o.owned);
  fits = rw same (omega (arith, o.fits));
  holds = rw same o.holds;
  some_cell = rw same o.some_cell;
}

free_list-pop :
    (h : Heap) (c o : ℕ) (l : List ℕ) (d : ℕ)
    → free_list (take_payload h c (o ∷ l)).1 d ≡ (if c == d then l else free_list h d)
unfolding free_list take_payload
free_list-pop h c o l d = ground arith

free_list-grow : (h : Heap) (c d : ℕ) → free_list (take_payload h c []).1 d ≡ free_list h d
unfolding free_list take_payload
free_list-grow h c d = refl

zeroed-kept :
    (owner : ℕ → Owner) (memory : ℕ → ℕ) (start n b : ℕ)
    → retag owner start n taken b ≢ taken
    → zeroed memory start n b ≡ memory b
unfolding zeroed
zeroed-kept owner memory start n b ne = elim (Bool-cases (leb start b && ltb b (start + n))) [
  | inl inside ↦ absurd (ne (rw inside))
  | inr outside ↦ rw outside
]

block-ne : (c d k j : ℕ) → k ≢ j → block c k ≢ block d j
block-ne c d k j ne e = ne cc

block-ne_count : (c d k j : ℕ) → c ≢ d → block c k ≢ block d j
block-ne_count c d k j ne e = ne cc

pop_payload :
    (owner : ℕ → Owner) (h : Heap) (c o : ℕ) (l : List ℕ)
    → IsOwned owner h
    → free_list h c ≡ o ∷ l
    → IsTaken (retag owner o (c * slot_size) taken) c h (take_payload h c (o ∷ l))
unfolding take_payload
pop_payload owner h c o l v e = record {
  valid = record {
    objects = λ i live.
        IsObject-retag owner h _ o (c * slot_size) i (block c (length l)) taken top.0 (cc) refl
          (omega arith) (omega arith) (v.objects i live);
    blocks = λ d. rw (free_list-pop h c o l d) (blocks_lem d);
    beyond = λ b le.
        retag_outside owner o (c * slot_size) b taken (omega (arith, top.1)) ∙ v.beyond b le;
    free = v.free;
    zero_dead = v.zero_dead;
    some_slot = v.some_slot;
    table_small = v.table_small;
    memory_small = v.memory_small;
  };
  owned = Owns-retag_self owner o (c * slot_size) taken;
  fits = top.1;
  zeros = λ k lt. ground arith;
  kept = λ b ne. zeroed-kept owner h.memory o (c * slot_size) b ne;
  same_slots = refl;
  same_count = refl;
  same_handles = refl;
  same_cap = refl;
}
  where
    top :
        Owns owner o (c * slot_size) (block c (length l))
        × (o + c * slot_size ≤ h.memory_size)
        × OwnsAll owner h.memory_size c l
    top = rw e at (v.blocks c)

    blocks_lem :
        (d : ℕ)
        → OwnsAll
            (retag owner o (c * slot_size) taken)
            h.memory_size
            d
            (if c == d then l else free_list h d)
    blocks_lem d = elim (Bool-cases (c == d)) [
      | inl same ↦
          let e' : c ≡ d = ground arith in
          rw (same) (
            subst (λ x. OwnsAll (retag owner o (c * slot_size) taken) h.memory_size x l) e'
              (OwnsAll-retag owner o (c * slot_size) (block c (length l)) taken _ _ c l top.0
                (λ k lt. block-ne c c k (length l) (omega arith)) (omega arith) top.2))
      | inr other ↦ rw other (
          OwnsAll-retag owner o (c * slot_size) (block c (length l)) taken _ _ d _ top.0
            (λ k lt. block-ne_count d c k (length l) (ground arith)) (omega arith) (v.blocks d))
    ]

grow_payload :
    (owner : ℕ → Owner) (h : Heap) (c : ℕ)
    → IsOwned owner h
    → 0 < c
    → h.memory_size + c * slot_size ≤ 2 ^ 32
    → IsTaken (retag owner h.memory_size (c * slot_size) taken) c h (take_payload h c [])
unfolding take_payload
grow_payload owner h c v pos small =
    let at : h.memory_size % 2 ^ 32 ≡ h.memory_size = omega arith in
    record {
      valid = record {
        objects = λ i live.
            IsObject-retag owner h _ h.memory_size (c * slot_size) i nobody taken from (cc) refl
              (omega arith) (omega arith) (v.objects i live);
        blocks = λ d. rw (free_list-grow h c d) (
            OwnsAll-retag owner h.memory_size (c * slot_size) nobody taken _ _ d _ from (λ k lt. cc)
              (omega arith) (v.blocks d));
        beyond = λ b le.
            retag_outside owner h.memory_size (c * slot_size) b taken le ∙ v.beyond b (omega arith);
        free = v.free;
        zero_dead = v.zero_dead;
        some_slot = v.some_slot;
        table_small = v.table_small;
        memory_small = small;
      };
      owned = rw at (Owns-retag_self owner h.memory_size (c * slot_size) taken);
      fits = rw at (omega arith);
      zeros = λ k lt. rw at (ground arith);
      kept = λ b ne. zeroed-kept owner h.memory h.memory_size (c * slot_size) b ne;
      same_slots = refl;
      same_count = refl;
      same_handles = refl;
      same_cap = refl;
    }
  where
    from : Owns owner h.memory_size (c * slot_size) nobody
    from k lt = v.beyond (h.memory_size + k) (omega arith)

-- The owner map after a payload is taken.
abbrev pub owner_after : (ℕ → Owner) → Heap → ℕ → List ℕ → ℕ → Owner
owner_after owner h c [] = retag owner h.memory_size (c * slot_size) taken
owner_after owner h c (o ∷ l) = retag owner o (c * slot_size) taken

pub take_payload-IsTaken :
    (owner : ℕ → Owner) (h : Heap) (c : ℕ) (l : List ℕ)
    → free_list h c ≡ l
    → IsOwned owner h
    → 0 < c
    → h.memory_size + c * slot_size ≤ 2 ^ 32
    → IsTaken (owner_after owner h c l) c h (take_payload h c l)
take_payload-IsTaken owner h c [] e v pos small = grow_payload owner h c v pos small
take_payload-IsTaken owner h c (o ∷ l) e v pos small = pop_payload owner h c o l v e
