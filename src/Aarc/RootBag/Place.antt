-- ===== src/Aarc/RootBag/Place.antt =====
-- A key that is absent is placed.
use loxis_programming_langua.Prelude.{
  ℕ, ◌+◌, ◌-◌, ◌<◌, ◌≡◌, refl, sym, ap, ◌∙◌, ◌≢◌, ◌⊎◌, inl, inr, true, false, arith, ◌==◌,
  if◌then◌else◌, Bool-cases, ==_iff, ==_ne, update, update_self, update_ne, sum_below,
  sum_below_change,
}
use loxis_programming_langua.Aarc.RootBag.{empty_key, tombstone_key, is_live, home}
use loxis_programming_langua.Aarc.RootBag.Walk.{walk, IsClear}
use loxis_programming_langua.Aarc.RootBag.Table.{
  live_at, tomb_at, Located, Table, home-lt, live-ne-empty_key, IsClear-stays,
}

module _ (width : ℕ) (keys vals : ℕ → ℕ) (tombs : ℕ) (f : ℕ → ℕ) (t : Table width keys vals tombs f)
    (k : ℕ) (valid : is_live k ≡ true) where
  module _ (slot : ℕ) (inside : slot < width) where
    -- A key that is absent takes a slot that is empty or a tombstone.
    pub Table-place :
        (v steps tombs' : ℕ)
        → walk width (home width k) steps ≡ slot
        → IsClear width keys (home width k) steps
        → (keys slot ≡ empty_key) × (tombs' ≡ tombs)
          ⊎ (keys slot ≡ tombstone_key) × (tombs' ≡ tombs - 1)
        → f k ≡ 0
        → 0 < v
        → Table width (update keys slot k) (update vals slot v) tombs' (update f k v)
          × (sum_below width (live_at (update keys slot k)) ≡ sum_below width (live_at keys) + 1)
    Table-place v steps tombs' at clear kind absent p = (
      record {
        located = λ x q. elim (Bool-cases (k == x)) [
          | inl e ↦
              let same = (==_iff k x).0 e in
              rw (← same) (record {
                steps = steps;
                stands = ap (update keys slot k) at ∙ update_self keys slot k;
                clear = IsClear-stays width keys slot k _ steps (live-ne-empty_key k valid) clear;
                inside = next_home;
              })
          | inr e ↦ kept x (rw e at q)
        ];
        only = λ x q. elim (Bool-cases (k == x)) [
          | inl e ↦ rw (← (==_iff k x).0 e) valid
          | inr e ↦ t.only x (rw e at q)
        ];
        stored = λ i l live. elim (Bool-cases (slot == i)) [
          | inl e ↦ rw (e, (==_iff k k).1 refl) (refl, p)
          | inr e ↦
              let old = rw e at live in
              let other : (k == keys i) ≡ false = ==_ne k (keys i) (λ w. unheld i l old w) in
              rw (e, other) (t.stored i l old)
        ];
        single = λ i j l m live e. elim (Bool-cases (slot == i)) [
          | inl a ↦ elim (Bool-cases (slot == j)) [
            | inl b ↦ sym ((==_iff slot i).0 a) ∙ (==_iff slot j).0 b
            | inr b ↦ let w : k ≡ keys j = rw (a, b) at e in absurd (unheld j m (rw (← w) valid) w)
          ]
          | inr a ↦ elim (Bool-cases (slot == j)) [
            | inl b ↦
                let w : keys i ≡ k = rw (a, b) at e in absurd (unheld i l (rw a at live) (sym w))
            | inr b ↦ t.single i j l m (rw a at live) (rw (a, b) at e)
          ]
        ];
        buried = graves;
      },
      omega (arith, lives, now_live, was_dead),
    )
      where
        next_home : home width k < width
        next_home = home-lt width k (omega (arith, inside))

        unheld : (i : ℕ) → i < width → is_live (keys i) ≡ true → k ≢ keys i
        unheld i l live w =
            let s = t.stored i l live in
            let e : f k ≡ vals i = ap f w ∙ s.0 in omega (arith, e, absent, s.1)

        dead : is_live (keys slot) ≡ false
        dead = elim kind [ inl (e, _) ↦ rw e refl | inr (e, _) ↦ rw e refl ]

        kept :
            (x : ℕ)
            → 0 < f x
            → Located width (update keys slot k) (update vals slot v) tombs' (update f k v) x
        kept x q =
            let l = t.located x q in
            record {
              steps = l.steps;
              stands = elim (Bool-cases (slot == walk width (home width x) l.steps)) [
                | inl e ↦
                    let w : keys slot ≡ x =
                      ap keys ((==_iff slot (walk width (home width x) l.steps)).0 e) ∙ l.stands in
                    let ok : is_live (keys slot) ≡ true = ap is_live w ∙ t.only x q in
                    absurd (ground (arith, dead, ok))
                | inr e ↦ rw e l.stands
              ];
              clear = IsClear-stays width keys slot k _ l.steps (live-ne-empty_key k valid) l.clear;
              inside = l.inside;
            }

        now_live : live_at (update keys slot k) slot ≡ 1
        now_live = rw (update_self keys slot k, valid) refl

        was_dead : live_at keys slot ≡ 0
        was_dead = rw dead refl

        lives :
            sum_below width (live_at (update keys slot k)) + live_at keys slot
            ≡ sum_below width (live_at keys) + live_at (update keys slot k) slot
        lives =
            sum_below_change width slot (live_at (update keys slot k)) (live_at keys) inside
              (λ i n. ap (λ q. if is_live q then 1 else 0) (update_ne keys slot i k n))

        buries :
            sum_below width (tomb_at (update keys slot k)) + tomb_at keys slot
            ≡ sum_below width (tomb_at keys) + tomb_at (update keys slot k) slot
        buries =
            sum_below_change width slot (tomb_at (update keys slot k)) (tomb_at keys) inside
              (λ i n. ap (λ q. if q == tombstone_key then 1 else 0) (update_ne keys slot i k n))

        no_grave : tomb_at (update keys slot k) slot ≡ 0
        no_grave = rw (update_self keys slot k) (ground (arith, valid))

        graves : tombs' ≡ sum_below width (tomb_at (update keys slot k))
        graves = elim kind [
          | inl (e, s) ↦
              let was : tomb_at keys slot ≡ 0 = rw e refl in
              omega (arith, s, t.buried, buries, no_grave, was)
          | inr (e, s) ↦
              let was : tomb_at keys slot ≡ 1 = rw e refl in
              omega (arith, s, t.buried, buries, no_grave, was)
        ]
