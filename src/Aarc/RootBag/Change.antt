-- ===== src/Aarc/RootBag/Change.antt =====
-- A key that is held gets another count, or goes.
use loxis_programming_langua.Prelude.{
  ℕ, ◌+◌, ◌<◌, ◌≡◌, refl, sym, ap, ◌∙◌, ◌≢◌, inl, inr, true, false, arith, ◌==◌, if◌then◌else◌,
  Bool-cases, ==_iff, ==_ne, update, update_self, update_ne, sum_below, sum_below_change,
}
use loxis_programming_langua.Aarc.RootBag.{empty_key, tombstone_key, is_live, home}
use loxis_programming_langua.Aarc.RootBag.Walk.{walk}
use loxis_programming_langua.Aarc.RootBag.Table.{live_at, tomb_at, Located, Table, IsClear-stays}

module _ (width : ℕ) (keys vals : ℕ → ℕ) (tombs : ℕ) (f : ℕ → ℕ) (t : Table width keys vals tombs f)
    (k : ℕ) (valid : is_live k ≡ true) where
  module _ (slot : ℕ) (inside : slot < width) where
    -- A key that is held gets another count.
    pub Table-count :
        (v : ℕ) → keys slot ≡ k → 0 < v → Table width keys (update vals slot v) tombs (update f k v)
    Table-count v at p = record {
      located = λ x q. elim (Bool-cases (k == x)) [
        | inl e ↦ again x (rw (← (==_iff k x).0 e) held)
        | inr e ↦ again x (rw e at q)
      ];
      only = λ x q. elim (Bool-cases (k == x)) [
        | inl e ↦ rw (← (==_iff k x).0 e) valid
        | inr e ↦ t.only x (rw e at q)
      ];
      stored = λ i l live. elim (Bool-cases (slot == i)) [
        | inl e ↦
            let same = (==_iff slot i).0 e in
            let self : (k == keys i) ≡ true = (==_iff k (keys i)).1 (sym at ∙ ap keys same) in
            rw (e, self) (refl, p)
        | inr e ↦
            let other : (k == keys i) ≡ false = ==_ne k (keys i) (λ w. apart i l live e w) in
            rw (e, other) (t.stored i l live)
      ];
      single = t.single;
      buried = t.buried;
    }
      where
        held : 0 < f k
        held =
            let s = t.stored slot inside (rw at valid) in
            let e : f k ≡ vals slot = ap f (sym at) ∙ s.0 in omega (arith, e, s.1)

        again : (x : ℕ) → 0 < f x → Located width keys (update vals slot v) tombs (update f k v) x
        again x q =
            let l = t.located x q in
            record { steps = l.steps; stands = l.stands; clear = l.clear; inside = l.inside }

        apart : (i : ℕ) → i < width → is_live (keys i) ≡ true → (slot == i) ≡ false → k ≢ keys i
        apart i l live e w =
            let same = t.single slot i inside l (rw at valid) (at ∙ w) in ground (arith, same, e)

    -- A key whose last count goes leaves a tombstone.
    pub Table-bury :
        (v : ℕ)
        → keys slot ≡ k
        → Table width
            (update keys slot tombstone_key)
            (update vals slot v)
            (tombs + 1)
            (update f k 0)
          × (sum_below width (live_at (update keys slot tombstone_key)) + 1
              ≡ sum_below width (live_at keys))
    Table-bury v at = (
      record {
        located = λ x q. elim (Bool-cases (k == x)) [
          | inl e ↦ absurd (omega (arith, rw e at q))
          | inr e ↦
              let l = t.located x (rw e at q) in
              record {
                steps = l.steps;
                stands = elim (Bool-cases (slot == walk width (home width x) l.steps)) [
                  | inl same ↦
                      let w : k ≡ x =
                        sym at
                        ∙ ap keys ((==_iff slot (walk width (home width x) l.steps)).0 same)
                        ∙ l.stands in
                      absurd (ground (arith, w, e))
                  | inr other ↦ rw other l.stands
                ];
                clear =
                    IsClear-stays width keys slot tombstone_key _ l.steps tombstone-full l.clear;
                inside = l.inside;
              }
        ];
        only = λ x q. elim (Bool-cases (k == x)) [
          | inl e ↦ absurd (omega (arith, rw e at q))
          | inr e ↦ t.only x (rw e at q)
        ];
        stored = λ i l live. elim (Bool-cases (slot == i)) [
          | inl e ↦ absurd (ground (arith, rw e at live))
          | inr e ↦
              let old = rw e at live in
              let other : (k == keys i) ≡ false = ==_ne k (keys i) (λ w.
                absurd (ground (arith, t.single slot i inside l (rw at valid) (at ∙ w), e))) in
              rw (e, other) (t.stored i l old)
        ];
        single = λ i j l m live e. elim (Bool-cases (slot == i)) [
          | inl a ↦ absurd (ground (arith, rw a at live))
          | inr a ↦ elim (Bool-cases (slot == j)) [
            | inl b ↦
                let w : keys i ≡ tombstone_key = rw (a, b) at e in
                absurd (ground (arith, w, rw (a, w) at live))
            | inr b ↦ t.single i j l m (rw a at live) (rw (a, b) at e)
          ]
        ];
        buried = omega (arith, t.buried, buries, grave, no_grave);
      },
      omega (arith, lives, now_dead, was_live),
    )
      where
        tombstone-full : tombstone_key ≢ empty_key
        tombstone-full e = omega (arith, e)

        now_dead : live_at (update keys slot tombstone_key) slot ≡ 0
        now_dead = rw (update_self keys slot tombstone_key) refl

        was_live : live_at keys slot ≡ 1
        was_live = rw (at, valid) refl

        grave : tomb_at (update keys slot tombstone_key) slot ≡ 1
        grave = rw (update_self keys slot tombstone_key) refl

        no_grave : tomb_at keys slot ≡ 0
        no_grave = rw at (ground (arith, valid))

        lives :
            sum_below width (live_at (update keys slot tombstone_key)) + live_at keys slot
            ≡ sum_below width (live_at keys) + live_at (update keys slot tombstone_key) slot
        lives =
            sum_below_change width slot (live_at (update keys slot tombstone_key)) (live_at keys)
              inside
              (λ i n. ap (λ q. if is_live q then 1 else 0) (update_ne keys slot i tombstone_key n))

        buries :
            sum_below width (tomb_at (update keys slot tombstone_key)) + tomb_at keys slot
            ≡ sum_below width (tomb_at keys) + tomb_at (update keys slot tombstone_key) slot
        buries =
            sum_below_change width slot (tomb_at (update keys slot tombstone_key)) (tomb_at keys)
              inside
              (λ i n.
                ap (λ q. if q == tombstone_key then 1 else 0)
                  (update_ne keys slot i tombstone_key n))
