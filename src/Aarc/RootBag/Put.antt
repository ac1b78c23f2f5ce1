-- ===== src/Aarc/RootBag/Put.antt =====
-- `add` where there is room, on a bag that holds a multiset.
use native.Mathlib.Nat.{zero-add}
use loxis_programming_langua.Prelude.{
  subst, ℕ, ◌+◌, ◌%◌, ◌^◌, ◌≤◌, ◌<◌, ◌≡◌, refl, sym, ap, ◌∙◌, ◌≢◌, inl, inr, true, false, some,
  none, arith, ltb, ltb→lt, ◌==◌, Bool-cases, ==_iff, ==_ne, update, sum_below,
}
use loxis_programming_langua.Aarc.RootBag.{
  RootBag, empty_key, is_live, home, probe_insert, probe_find, put,
}
use loxis_programming_langua.Aarc.RootBag.Walk.{walk, walk-lt, walk_reaches}
use loxis_programming_langua.Aarc.RootBag.Probe.{
  probe_find_present, probe_find_absent, probe_insert_present, probe_insert-Places, Places,
}
use loxis_programming_langua.Aarc.RootBag.Table.{
  live_at, Table, Located, home-lt, has_empty, clear_short,
}
use loxis_programming_langua.Aarc.RootBag.Change.{Table-count}
use loxis_programming_langua.Aarc.RootBag.Place.{Table-place}

-- The bag holds each key as often as `f` says.
pub record Holds (bag : RootBag) (f : ℕ → ℕ) : Type 0 where
  pub table : Table bag.capacity bag.keys bag.vals bag.tombstones f
  pub counted : bag.size ≡ sum_below bag.capacity (live_at bag.keys)
  pub room : 0 < bag.capacity → bag.size + bag.tombstones < bag.capacity

module _ (bag : RootBag) (f : ℕ → ℕ) (key : ℕ)
    (t : Table bag.capacity bag.keys bag.vals bag.tombstones f)
    (space : sum_below bag.capacity (live_at bag.keys) + bag.tombstones < bag.capacity) where
  open bag use {capacity, keys, vals, tombstones}

  some_empty : (e : ℕ) × (e < capacity) × (keys e ≡ empty_key)
  some_empty = has_empty capacity keys (omega (arith, space, t.buried))

  pub start-lt : home capacity key < capacity
  start-lt = home-lt capacity key (omega (arith, space))

  -- A key that the bag does not hold stands in no slot.
  lacks : is_live key ≡ true → f key ≡ 0 → (j : ℕ) → j < capacity → keys j ≢ key
  lacks valid absent j l e =
      let s = t.stored j l (ap is_live e ∙ valid) in
      let w : f key ≡ vals j = ap f (sym e) ∙ s.0 in omega (arith, w, absent, s.1)

  short : (l : Located capacity keys vals tombstones f key) → l.steps < capacity
  short l =
      clear_short capacity keys (home capacity key) l.steps some_empty.0 start-lt some_empty.1
        some_empty.2 l.clear

  pub find_held :
      0 < f key
      → (j : ℕ) × (probe_find capacity key (home capacity key) bag ≡ some (some j))
        × (j < capacity)
        × (keys j ≡ key)
  find_held p =
      let l = t.located key p in
      probe_find_present bag key l.steps capacity (home capacity key) (short l) start-lt l.clear
        l.stands

  pub find_lacking :
      is_live key ≡ true → f key ≡ 0 → probe_find capacity key (home capacity key) bag ≡ some none
  find_lacking valid absent =
      let (n, less, at) =
        walk_reaches capacity (home capacity key) some_empty.0 start-lt some_empty.1 in
      probe_find_absent bag key n capacity (home capacity key) less start-lt
        (ap keys at ∙ some_empty.2) (lacks valid absent)

  pub insert_held :
      0 < f key
      → (j : ℕ) × (probe_insert capacity key (home capacity key) none bag ≡ some (j, bag))
        × (j < capacity)
        × (keys j ≡ key)
  insert_held p =
      let l = t.located key p in
      probe_insert_present bag key l.steps capacity (home capacity key) none (short l) start-lt
        l.clear l.stands

  pub insert_lacking :
      is_live key ≡ true
      → f key ≡ 0
      → Places bag key capacity (home capacity key) (home capacity key) none
  insert_lacking valid absent =
      let (n, less, at) =
        walk_reaches capacity (home capacity key) some_empty.0 start-lt some_empty.1 in
      probe_insert-Places bag key n capacity (home capacity key) 0 none less start-lt
        (λ m l. absurd (omega (arith, l))) tt
        (ap (λ x. keys (walk capacity (home capacity key) x)) (zero-add n)
          ∙ ap keys at
          ∙ some_empty.2)
        (lacks valid absent)

  -- The slot where an absent key goes, and the table after that.
  pub place_lacking :
      (v : ℕ) (valid : is_live key ≡ true) (absent : f key ≡ 0)
      → 0 < v
      → let w = insert_lacking valid absent in
        Table capacity (update keys w.slot key) (update vals w.slot v) w.tombs (update f key v)
        × (sum_below capacity (live_at (update keys w.slot key))
            ≡ sum_below capacity (live_at keys) + 1)
        × (w.tombs ≤ tombstones)
        × (keys w.slot ≢ key)
  place_lacking v valid absent p =
      let w = insert_lacking valid absent in
      let inside = slot-lt w in
      let placed =
        Table-place capacity keys vals tombstones f t key valid w.slot inside v w.spot.steps w.tombs
          w.spot.place w.spot.clear w.spot.kind absent p in
      (placed.0, placed.1, fewer w, lacks valid absent w.slot inside)
    where
      slot-lt :
          (w : Places bag key capacity (home capacity key) (home capacity key) none)
          → w.slot < capacity
      slot-lt w =
          subst (λ x. x < capacity) w.spot.place
            (walk-lt capacity (home capacity key) w.spot.steps start-lt)

      fewer :
          (w : Places bag key capacity (home capacity key) (home capacity key) none)
          → w.tombs ≤ tombstones
      fewer w = elim w.spot.kind [ inl k ↦ omega (arith, k.1) | inr k ↦ omega (arith, k.1) ]

pub record Puts (key : ℕ) (bag : RootBag) (f : ℕ → ℕ) : Type 0 where
  pub out : RootBag
  pub returns : put key bag ≡ some out
  pub holds : Holds out (update f key (f key + 1))

pub put-Puts :
    (key : ℕ) (bag : RootBag) (f : ℕ → ℕ)
    → Holds bag f
    → bag.size + 1 + bag.tombstones < bag.capacity
    → is_live key ≡ true
    → f key + 1 < 2 ^ 32
    → Puts key bag f
unfolding put
put-Puts key bag f h space valid small =
    let t = h.table in
    let less : sum_below bag.capacity (live_at bag.keys) + bag.tombstones < bag.capacity =
      omega (arith, h.counted, space) in
    elim (Bool-cases (ltb 0 (f key))) [
      | inl held ↦
          let p = ltb→lt 0 (f key) held in
          let (j, found, inside, at) = insert_held bag f key t less p in
          let old : bag.vals j ≡ f key =
            sym (t.stored j inside (ap is_live at ∙ valid)).0 ∙ ap f at in
          let next : (bag.vals j + 1) % 2 ^ 32 ≡ f key + 1 = omega (arith, old, small) in
          record {
            out = record bag { vals = update bag.vals j (f key + 1) };
            returns = rw (put, found, (==_iff (bag.keys j) key).1 at, next) refl;
            holds = record {
              table =
                  Table-count bag.capacity bag.keys bag.vals bag.tombstones f t key valid j inside
                    (f key + 1) at (omega arith);
              counted = h.counted;
              room = h.room;
            };
          }
      | inr lost ↦
          let absent : f key ≡ 0 = ground (arith, lost) in
          let w = insert_lacking bag f key t less valid absent in
          let placed = place_lacking bag f key t less (f key + 1) valid absent (omega arith) in
          let differs : (bag.keys w.slot == key) ≡ false = ==_ne _ _ placed.3 in
          let one : f key + 1 ≡ 1 = omega (arith, absent) in
          record {
            out = record bag {
              keys = update bag.keys w.slot key;
              vals = update bag.vals w.slot (f key + 1);
              size = bag.size + 1;
              tombstones = w.tombs;
            };
            returns = rw (put, w.returns, differs, one) refl;
            holds = record {
              table = placed.0;
              counted = omega (arith, placed.1, h.counted);
              room = λ _. omega (arith, placed.2, space);
            };
          }
    ]
