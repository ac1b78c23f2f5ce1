-- ===== src/Aarc/RootBag/Probe.antt =====
-- Where the probing for a key ends.
use loxis_programming_langua.Prelude.{
  ℕ, zero, suc, ◌+◌, ◌-◌, ◌<◌, ◌≡◌, refl, sym, ap, ◌∙◌, ◌≢◌, ◌⊎◌, inl, inr, true, false, Option,
  some, none, arith, ◌==◌, Bool-cases, ==_iff, ==_ne,
}
use loxis_programming_langua.Aarc.RootBag.{
  RootBag, empty_key, tombstone_key, next_slot, first_tomb, probe_insert, probe_find,
}
use loxis_programming_langua.Aarc.RootBag.Walk.{walk, walk-lt, walk-suc, next_slot-lt, IsClear}

module _ (bag : RootBag) (key : ℕ) where
  open bag use {capacity, keys}

  IsClear-next :
      (i n : ℕ) → IsClear capacity keys i (suc n) → IsClear capacity keys (next_slot capacity i) n
  IsClear-next i n c m l = c (suc m) (omega (arith, l))

  pub probe_find_present :
      (n fuel i : ℕ)
      → n < fuel
      → i < capacity
      → IsClear capacity keys i n
      → keys (walk capacity i n) ≡ key
      → (j : ℕ) × (probe_find fuel key i bag ≡ some (some j)) × (j < capacity) × (keys j ≡ key)
  unfolding probe_find
  probe_find_present n zero i l h c e = absurd (omega (arith, l))
  probe_find_present zero (suc fuel) i l h c e =
      let same : (keys i == key) ≡ true = (==_iff _ _).1 e in (i, rw same refl, h, e)
  probe_find_present (suc n) (suc fuel) i l h c e = elim (Bool-cases (keys i == key)) [
    | inl same ↦ (i, rw same refl, h, (==_iff _ _).0 same)
    | inr other ↦
        let full : (keys i == empty_key) ≡ false = ==_ne _ _ (c 0 (omega arith)) in
        rw (other, full)
          (probe_find_present n fuel (next_slot capacity i) (omega (arith, l))
            (next_slot-lt capacity i (omega (arith, h))) (IsClear-next i n c) e)
  ]

  pub probe_find_absent :
      (n fuel i : ℕ)
      → n < fuel
      → i < capacity
      → keys (walk capacity i n) ≡ empty_key
      → ((j : ℕ) → j < capacity → keys j ≢ key)
      → probe_find fuel key i bag ≡ some none
  unfolding probe_find
  probe_find_absent n zero i l h e lacks = absurd (omega (arith, l))
  probe_find_absent zero (suc fuel) i l h e lacks =
      let other : (keys i == key) ≡ false = ==_ne _ _ (lacks i h) in
      let free : (keys i == empty_key) ≡ true = (==_iff _ _).1 e in rw (other, free) refl
  probe_find_absent (suc n) (suc fuel) i l h e lacks =
      let other : (keys i == key) ≡ false = ==_ne _ _ (lacks i h) in
      let rest =
        probe_find_absent n fuel (next_slot capacity i) (omega (arith, l))
          (next_slot-lt capacity i (omega (arith, h))) e lacks in
      elim (Bool-cases (keys i == empty_key)) [
        | inl free ↦ rw (other, free) refl
        | inr full ↦ rw (other, full) rest
      ]

  pub probe_insert_present :
      (n fuel i : ℕ) (first : Option ℕ)
      → n < fuel
      → i < capacity
      → IsClear capacity keys i n
      → keys (walk capacity i n) ≡ key
      → (j : ℕ) × (probe_insert fuel key i first bag ≡ some (j, bag))
        × (j < capacity)
        × (keys j ≡ key)
  unfolding probe_insert
  probe_insert_present n zero i first l h c e = absurd (omega (arith, l))
  probe_insert_present zero (suc fuel) i first l h c e =
      let same : (keys i == key) ≡ true = (==_iff _ _).1 e in (i, rw same refl, h, e)
  probe_insert_present (suc n) (suc fuel) i first l h c e = elim (Bool-cases (keys i == key)) [
    | inl same ↦ (i, rw same refl, h, (==_iff _ _).0 same)
    | inr other ↦
        let full : (keys i == empty_key) ≡ false = ==_ne _ _ (c 0 (omega arith)) in
        rw (other, full)
          (probe_insert_present n fuel (next_slot capacity i) (first_tomb bag i first)
            (omega (arith, l)) (next_slot-lt capacity i (omega (arith, h))) (IsClear-next i n c) e)
  ]

  -- Where an absent key is placed: an empty slot or a tombstone, before which no empty slot is probed.
  pub record Spot (i : ℕ) (slot : ℕ) (tombs : ℕ) : Type 0 where
    pub steps : ℕ
    pub place : walk capacity i steps ≡ slot
    pub clear : IsClear capacity keys i steps
    pub kind :
        (keys slot ≡ empty_key) × (tombs ≡ bag.tombstones)
        ⊎ (keys slot ≡ tombstone_key) × (tombs ≡ bag.tombstones - 1)

  -- The tombstone that the probing passed first.
  abbrev Passed : ℕ → Option ℕ → Type 0
  Passed i none = Unit
  Passed i (some t) =
      (steps : ℕ) × (walk capacity i steps ≡ t)
      × IsClear capacity keys i steps
      × (keys t ≡ tombstone_key)

  pub record Places (fuel i : ℕ) (at : ℕ) (first : Option ℕ) : Type 0 where
    pub slot : ℕ
    pub tombs : ℕ
    pub returns :
        probe_insert fuel key at first bag ≡ some (slot, record bag { tombstones = tombs })
    pub spot : Spot i slot tombs

  IsClear-suc :
      (i n : ℕ)
      → IsClear capacity keys i n
      → keys (walk capacity i n) ≢ empty_key
      → IsClear capacity keys i (suc n)
  IsClear-suc i n c f m l = elim (Bool-cases (m == n)) [
    | inl e ↦ rw ((==_iff m n).0 e) f
    | inr e ↦ c m (ground arith)
  ]

  take_slot-Places :
      (fuel i a : ℕ) (first : Option ℕ)
      → IsClear capacity keys i a
      → Passed i first
      → keys (walk capacity i a) ≢ key
      → keys (walk capacity i a) ≡ empty_key
      → Places (suc fuel) i (walk capacity i a) first
  unfolding probe_insert
  take_slot-Places fuel i a none c p other free =
      let differs : (keys (walk capacity i a) == key) ≡ false = ==_ne _ _ other in
      let stops : (keys (walk capacity i a) == empty_key) ≡ true = (==_iff _ _).1 free in
      record {
        slot = walk capacity i a;
        tombs = bag.tombstones;
        returns = rw (differs, stops) refl;
        spot = record { steps = a; place = refl; clear = c; kind = inl (free, refl) };
      }
  take_slot-Places fuel i a (some t) c p other free =
      let differs : (keys (walk capacity i a) == key) ≡ false = ==_ne _ _ other in
      let stops : (keys (walk capacity i a) == empty_key) ≡ true = (==_iff _ _).1 free in
      record {
        slot = t;
        tombs = bag.tombstones - 1;
        returns = rw (differs, stops) refl;
        spot = record { steps = p.0; place = p.1; clear = p.2; kind = inr (p.3, refl) };
      }

  first_tomb-Passed :
      (i a : ℕ) (first : Option ℕ)
      → IsClear capacity keys i a
      → Passed i first
      → Passed i (first_tomb bag (walk capacity i a) first)
  first_tomb-Passed i a (some t) c p = p
  first_tomb-Passed i a none c p = elim (Bool-cases (keys (walk capacity i a) == tombstone_key)) [
    | inl e ↦ rw e (a, refl, c, (==_iff _ _).0 e)
    | inr e ↦ rw e tt
  ]

  probe_insert_next :
      (fuel x : ℕ) (first : Option ℕ) {r : Option (ℕ × RootBag)}
      → keys x ≢ key
      → (keys x == empty_key) ≡ false
      → probe_insert fuel key (next_slot capacity x) (first_tomb bag x first) bag ≡ r
      → probe_insert (suc fuel) key x first bag ≡ r
  unfolding probe_insert
  probe_insert_next fuel x first other full rest =
      let differs : (keys x == key) ≡ false = ==_ne _ _ other in rw (differs, full) rest

  pub probe_insert-Places :
      (n fuel i a : ℕ) (first : Option ℕ)
      → n < fuel
      → i < capacity
      → IsClear capacity keys i a
      → Passed i first
      → keys (walk capacity i (a + n)) ≡ empty_key
      → ((j : ℕ) → j < capacity → keys j ≢ key)
      → Places fuel i (walk capacity i a) first
  probe_insert-Places n zero i a first l h c p e lacks = absurd (omega (arith, l))
  probe_insert-Places zero (suc fuel) i a first l h c p e lacks =
      let same : a + 0 ≡ a = omega arith in
      take_slot-Places fuel i a first c p (lacks _ (walk-lt capacity i a h)) (rw same at e)
  probe_insert-Places (suc n) (suc fuel) i a first l h c p e lacks =
      let other = lacks (walk capacity i a) (walk-lt capacity i a h) in
      elim (Bool-cases (keys (walk capacity i a) == empty_key)) [
        | inl free ↦ take_slot-Places fuel i a first c p other ((==_iff _ _).0 free)
        | inr full ↦
            let same : a + suc n ≡ suc a + n = omega arith in
            let rest =
              probe_insert-Places n fuel i (suc a) (first_tomb bag (walk capacity i a) first)
                (omega (arith, l)) h (IsClear-suc i a c (λ w. absurd (ground (arith, w, full))))
                (first_tomb-Passed i a first c p) (rw same at e) lacks in
            record {
              slot = rest.slot;
              tombs = rest.tombs;
              returns = probe_insert_next fuel (walk capacity i a) first other full (
                  ap (λ x. probe_insert fuel key x (first_tomb bag (walk capacity i a) first) bag)
                    (sym (walk-suc capacity i a))
                  ∙ rest.returns);
              spot = rest.spot;
            }
      ]
