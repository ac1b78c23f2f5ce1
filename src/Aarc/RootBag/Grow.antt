-- ===== src/Aarc/RootBag/Grow.antt =====
-- `grow` keeps what the bag holds and leaves room, and so `add` finds room.
use loxis_programming_langua.Prelude.{
  ◌≢◌, subst, ℕ, zero, suc, ◌+◌, ◌-◌, ◌*◌, ◌^◌, ◌≤◌, ◌<◌, ◌≡◌, refl, sym, ap, fun_ext, ◌∙◌, inl,
  inr, true, false, some, none, arith, ltb, ltb→lt, ◌==◌, Bool-cases, ==_iff, update, sum_below,
}
use loxis_programming_langua.Aarc.RootBag.{
  RootBag, empty_key, is_live, home, reinsert, refill, min_capacity, next_pow2_from, next_pow2,
  grown_capacity, needs_grow, grow, add,
}
use loxis_programming_langua.Aarc.RootBag.Walk.{walk, walk-lt}
use loxis_programming_langua.Aarc.RootBag.Probe.{Places}
use loxis_programming_langua.Aarc.RootBag.Table.{live_at, Table}
use loxis_programming_langua.Aarc.RootBag.Put.{Holds, put-Puts, insert_lacking, place_lacking}

le-next_pow2_from : (fuel p n : ℕ) → 0 < p → n ≤ p + fuel → n ≤ next_pow2_from fuel p n
le-next_pow2_from zero p n h l = omega (arith, l)
le-next_pow2_from (suc fuel) p n h l =
    ground (arith, le-next_pow2_from fuel (p * 2) n (omega (arith, h)) (omega (arith, h, l)))

le-next_pow2 : (n : ℕ) → n ≤ next_pow2 n
unfolding next_pow2
le-next_pow2 n = le-next_pow2_from n 1 n (omega arith) (omega arith)

grown_room : (bag : RootBag) → (bag.size + 1) * 2 < grown_capacity bag
grown_room bag = elim (Bool-cases (ltb ((bag.size + 1) * 2 + 1) min_capacity)) [
  | inl few ↦ rw few (omega (arith, ltb→lt _ _ few, le-next_pow2 min_capacity))
  | inr many ↦ rw many (omega (arith, le-next_pow2 ((bag.size + 1) * 2 + 1)))
]

sum_below-add_one : (n : ℕ) (f : ℕ → ℕ) → sum_below (n + 1) f ≡ f n + sum_below n f
sum_below-add_one n f = let e : n + 1 ≡ suc n = omega arith in ap (λ m. sum_below m f) e

sum_below_le : (n m : ℕ) (f : ℕ → ℕ) → sum_below n f ≤ sum_below (m + n) f
sum_below_le n zero f = let e : 0 + n ≡ n = omega arith in rw e (omega arith)
sum_below_le n (suc m) f =
    let e : suc m + n ≡ suc (m + n) = omega arith in rw e (omega (arith, sum_below_le n m f))

module _ (old : RootBag) (f : ℕ → ℕ) (h : Holds old f) where
  -- The new table after the slots below `i` of the old one.
  record Refilled (i : ℕ) (bag : RootBag) (g : ℕ → ℕ) : Type 0 where
    wide : bag.capacity ≡ grown_capacity old
    size : bag.size ≡ old.size
    clean : bag.tombstones ≡ 0
    table : Table bag.capacity bag.keys bag.vals bag.tombstones g
    lives : sum_below bag.capacity (live_at bag.keys) ≡ sum_below i (live_at old.keys)
    done : (j : ℕ) → j < i → is_live (old.keys j) ≡ true → g (old.keys j) ≡ old.vals j
    from : (k : ℕ) → 0 < g k → (j : ℕ) × (j < i) × (old.keys j ≡ k)

  Refilled-skip :
      (i : ℕ) (bag : RootBag) (g : ℕ → ℕ)
      → is_live (old.keys i) ≡ false
      → Refilled i bag g
      → Refilled (i + 1) bag g
  Refilled-skip i bag g dead r = record {
    wide = r.wide;
    size = r.size;
    clean = r.clean;
    table = r.table;
    lives =
        let none_here : live_at old.keys i ≡ 0 = rw dead refl in
        omega (arith, r.lives, sum_below-add_one i (live_at old.keys), none_here);
    done = λ j l live. elim (Bool-cases (j == i)) [
      | inl e ↦ absurd (ground (arith, rw ((==_iff j i).0 e) at live, dead))
      | inr e ↦ r.done j (ground (arith, l, e)) live
    ];
    from = λ k p. let (j, l, e) = r.from k p in (j, omega (arith, l), e);
  }

  record Reinserts (i : ℕ) (bag : RootBag) : Type 0 where
    out : RootBag
    g : ℕ → ℕ
    returns : reinsert (old.keys i) (old.vals i) bag ≡ some out
    refilled : Refilled (i + 1) out g

  reinsert-Reinserts :
      (i : ℕ) (bag : RootBag) (g : ℕ → ℕ)
      → i < old.capacity
      → is_live (old.keys i) ≡ true
      → Refilled i bag g
      → Reinserts i bag
  unfolding reinsert
  reinsert-Reinserts i bag g l live r = record {
    out = record bag {
      keys = update bag.keys w.slot key;
      vals = update bag.vals w.slot (old.vals i);
      tombstones = w.tombs;
    };
    g = update g key (old.vals i);
    returns = rw (reinsert, w.returns) refl;
    refilled = record {
      wide = r.wide;
      size = r.size;
      clean = omega (arith, placed.2, r.clean);
      table = placed.0;
      lives =
          let one_here : live_at old.keys i ≡ 1 = rw live refl in
          omega (arith, placed.1, r.lives, sum_below-add_one i (live_at old.keys), one_here);
      done = λ j m alive. elim (Bool-cases (key == old.keys j)) [
        | inl e ↦
            let same =
              h.table.single i j l (omega (arith, m, l)) live ((==_iff key (old.keys j)).0 e) in
            rw e (ap old.vals same)
        | inr e ↦ rw e (r.done j (earlier j m e) alive)
      ];
      from = λ k p. elim (Bool-cases (key == k)) [
        | inl e ↦ (i, omega arith, (==_iff key k).0 e)
        | inr e ↦ let (j, m, at) = r.from k (rw e at p) in (j, omega (arith, m), at)
      ];
    };
  }
    where
      key : ℕ
      key = old.keys i

      absent : g key ≡ 0
      absent = elim (Bool-cases (ltb 0 (g key))) [
        | inl p ↦
            let (j, m, at) = r.from key (ltb→lt 0 (g key) p) in
            let same = h.table.single i j l (omega (arith, m, l)) live (sym at) in
            absurd (omega (arith, same, m))
        | inr z ↦ ground (arith, z)
      ]

      space : sum_below bag.capacity (live_at bag.keys) + bag.tombstones < bag.capacity
      space =
          let part = sum_below_le i (old.capacity - i) (live_at old.keys) in
          let e : old.capacity - i + i ≡ old.capacity = omega (arith, l) in
          let all : sum_below i (live_at old.keys) ≤ sum_below old.capacity (live_at old.keys) =
            rw e at part in
          omega (arith, all, r.lives, r.clean, r.wide, h.counted, grown_room old)

      w : Places bag key bag.capacity (home bag.capacity key) (home bag.capacity key) none
      w = insert_lacking bag g key r.table space live absent

      placed :
          Table bag.capacity
            (update bag.keys w.slot key)
            (update bag.vals w.slot (old.vals i))
            w.tombs
            (update g key (old.vals i))
          × (sum_below bag.capacity (live_at (update bag.keys w.slot key))
              ≡ sum_below bag.capacity (live_at bag.keys) + 1)
          × (w.tombs ≤ bag.tombstones)
          × (bag.keys w.slot ≢ key)
      placed =
          place_lacking bag g key r.table space (old.vals i) live absent (h.table.stored i l live).1

      earlier : (j : ℕ) → j < i + 1 → (key == old.keys j) ≡ false → j < i
      earlier j m e = elim (Bool-cases (j == i)) [
        | inl s ↦ absurd (ground (arith, e, ap old.keys ((==_iff j i).0 s)))
        | inr s ↦ ground (arith, m, s)
      ]

  record Refills (n i : ℕ) (bag : RootBag) : Type 0 where
    out : RootBag
    g : ℕ → ℕ
    returns : refill n i old bag ≡ some out
    refilled : Refilled old.capacity out g

  refill-Refills :
      (n i : ℕ) (bag : RootBag) (g : ℕ → ℕ)
      → i + n ≡ old.capacity
      → Refilled i bag g
      → Refills n i bag
  unfolding refill
  refill-Refills zero i bag g e r = record {
    out = bag;
    g = g;
    returns = refl;
    refilled = let same : i ≡ old.capacity = omega (arith, e) in rw (← same) r;
  }
  refill-Refills (suc n) i bag g e r = elim (Bool-cases (is_live (old.keys i))) [
    | inl live ↦
        let s = reinsert-Reinserts i bag g (omega (arith, e)) live r in
        let rest = refill-Refills n (i + 1) s.out s.g (omega (arith, e)) s.refilled in
        record {
          out = rest.out;
          g = rest.g;
          returns = rw (live, s.returns) rest.returns;
          refilled = rest.refilled;
        }
    | inr dead ↦
        let rest =
          refill-Refills n (i + 1) bag g (omega (arith, e)) (Refilled-skip i bag g dead r) in
        record {
          out = rest.out;
          g = rest.g;
          returns = rw dead rest.returns;
          refilled = rest.refilled;
        }
  ]

  -- After the whole table the new one holds what the old one held.
  Refilled-same : (bag : RootBag) (g : ℕ → ℕ) → Refilled old.capacity bag g → g ≡ f
  Refilled-same bag g r = fun_ext λ k. elim (Bool-cases (ltb 0 (f k))) [
    | inl held ↦
        let p = ltb→lt 0 (f k) held in
        let l = h.table.located k p in
        let slot = walk old.capacity (home old.capacity k) l.steps in
        let inside = walk-lt old.capacity (home old.capacity k) l.steps l.inside in
        let live : is_live (old.keys slot) ≡ true = ap is_live l.stands ∙ h.table.only k p in
        ap g (sym l.stands)
        ∙ r.done slot inside live
        ∙ sym (h.table.stored slot inside live).0
        ∙ ap f l.stands
    | inr lost ↦ elim (Bool-cases (ltb 0 (g k))) [
      | inl held ↦
          let p = ltb→lt 0 (g k) held in
          let (j, inside, at) = r.from k p in
          let s = h.table.stored j inside (ap is_live at ∙ r.table.only k p) in
          let w : f k ≡ old.vals j = ap f (sym at) ∙ s.0 in absurd (ground (arith, w, s.1, lost))
      | inr gone ↦ ground (arith, lost, gone)
    ]
  ]

  pub record Grows : Type 0 where
    pub out : RootBag
    pub returns : grow old ≡ some out
    pub holds : Holds out f
    pub spare : out.size + 1 + out.tombstones < out.capacity

  sum_below_none : (n : ℕ) → sum_below n (λ _. 0) ≡ 0
  sum_below_none zero = refl
  sum_below_none (suc n) = omega (arith, sum_below_none n)

  blank-Refilled :
      Refilled 0
        (record old {
          capacity = grown_capacity old;
          keys = λ _. empty_key;
          vals = λ _. 0;
          tombstones = 0;
        })
        (λ _. 0)
  blank-Refilled = record {
    wide = refl;
    size = refl;
    clean = refl;
    table = record {
      located = λ k p. absurd (omega (arith, p));
      only = λ k p. absurd (omega (arith, p));
      stored = λ i l live. absurd (ground (arith, live));
      single = λ i j l m live e. absurd (ground (arith, live));
      buried = sym (sum_below_none (grown_capacity old));
    };
    lives = sum_below_none (grown_capacity old);
    done = λ j l. absurd (omega (arith, l));
    from = λ k p. absurd (omega (arith, p));
  }

  pub grow-Grows : Grows
  unfolding grow
  grow-Grows =
      let s = refill-Refills old.capacity 0 _ _ (omega arith) blank-Refilled in
      let r = s.refilled in
      let room = grown_room old in
      record {
        out = s.out;
        returns = s.returns;
        holds = record {
          table =
              subst (Table s.out.capacity s.out.keys s.out.vals s.out.tombstones)
                (Refilled-same s.out s.g r) r.table;
          counted = omega (arith, r.size, h.counted, r.lives);
          room = λ _. omega (arith, r.size, r.clean, r.wide, room);
        };
        spare = omega (arith, r.size, r.clean, r.wide, room);
      }

pub record Adds (key : ℕ) (bag : RootBag) (f : ℕ → ℕ) : Type 0 where
  pub out : RootBag
  pub returns : add key bag ≡ some out
  pub holds : Holds out (update f key (f key + 1))

pub add-Adds :
    (key : ℕ) (bag : RootBag) (f : ℕ → ℕ)
    → Holds bag f
    → is_live key ≡ true
    → f key + 1 < 2 ^ 32
    → Adds key bag f
unfolding add needs_grow
add-Adds key bag f h valid small = elim (Bool-cases (needs_grow bag)) [
  | inl full ↦
      let g = grow-Grows bag f h in
      let p = put-Puts key g.out f g.holds g.spare valid small in
      record { out = p.out; returns = rw (add, full, g.returns) p.returns; holds = p.holds }
  | inr roomy ↦
      let p = put-Puts key bag f h (ground (arith, roomy)) valid small in
      record { out = p.out; returns = rw (add, roomy) p.returns; holds = p.holds }
]
