-- ===== src/Aarc/RootBag/Remove.antt =====
-- `removeOne` on a bag that holds a multiset.
use loxis_programming_langua.Prelude.{
  subst, ℕ, ◌+◌, ◌-◌, ◌%◌, ◌^◌, ◌<◌, ◌≡◌, refl, sym, ap, fun_ext, ◌∙◌, inl, inr, true, false, some,
  arith, ltb, ltb→lt, ◌==◌, Bool-cases, ==_iff, update, sum_below,
}
use loxis_programming_langua.Aarc.RootBag.{RootBag, is_live, take_one, remove_one}
use loxis_programming_langua.Aarc.RootBag.Table.{live_at}
use loxis_programming_langua.Aarc.RootBag.Change.{Table-count, Table-bury}
use loxis_programming_langua.Aarc.RootBag.Put.{Holds, find_held, find_lacking}

pub record Removes (key : ℕ) (bag : RootBag) (f : ℕ → ℕ) : Type 0 where
  pub out : RootBag
  pub returns : remove_one key bag ≡ some (ltb 0 (f key), out)
  pub holds : Holds out (update f key (f key - 1))

module _ (key : ℕ) (bag : RootBag) (f : ℕ → ℕ) (h : Holds bag f) (small : f key < 2 ^ 32) where
  -- A key that the bag does not hold.
  unheld : f key ≡ 0 → update f key (f key - 1) ≡ f
  unheld absent = fun_ext λ x. elim (Bool-cases (key == x)) [
    | inl e ↦
        let w : f x ≡ 0 = ap f (sym ((==_iff key x).0 e)) ∙ absent in
        rw e (omega (arith, absent, w))
    | inr e ↦ rw e refl
  ]

  nothing_removed : f key ≡ 0 → remove_one key bag ≡ some (false, bag) → Removes key bag f
  nothing_removed absent e = record {
    out = bag;
    returns = let no_more : ltb 0 (f key) ≡ false = rw absent refl in rw no_more e;
    holds = subst (Holds bag) (sym (unheld absent)) h;
  }

  taken :
      0 < f key
      → is_live key ≡ true
      → (j : ℕ) → j < bag.capacity
      → bag.keys j ≡ key
      → Holds (take_one j bag) (update f key (f key - 1))
  unfolding take_one
  taken p valid j inside at =
      let old : bag.vals j ≡ f key =
        sym (h.table.stored j inside (ap is_live at ∙ valid)).0 ∙ ap f at in
      let less : (bag.vals j + 2 ^ 32 - 1) % 2 ^ 32 ≡ f key - 1 = omega (arith, old, p, small) in
      elim (Bool-cases (f key - 1 == 0)) [
        | inl last ↦
            let none_left = (==_iff (f key - 1) 0).0 last in
            let buried =
              Table-bury bag.capacity bag.keys bag.vals bag.tombstones f h.table key valid j inside
                0 at in
            rw (less, none_left)
              (record {
                table = buried.0;
                counted = omega (arith, buried.1, h.counted);
                room = λ q. omega (arith, h.room q, h.counted, buried.1);
              })
        | inr more ↦
            rw (less, more)
              (record {
                table =
                    Table-count bag.capacity bag.keys bag.vals bag.tombstones f h.table key valid j
                      inside (f key - 1) at (ground (arith, more));
                counted = h.counted;
                room = h.room;
              })
      ]

  pub remove_one-Removes : is_live key ≡ true → Removes key bag f
  unfolding remove_one
  remove_one-Removes valid = elim (Bool-cases (bag.capacity == 0)) [
    | inl none_yet ↦ elim (Bool-cases (ltb 0 (f key))) [
      | inl held ↦
          let l = h.table.located key (ltb→lt 0 (f key) held) in
          absurd (omega (arith, (==_iff _ _).0 none_yet, l.inside))
      | inr lost ↦ nothing_removed (ground (arith, lost)) (rw (remove_one, none_yet) refl)
    ]
    | inr some_slots ↦
        let wide : 0 < bag.capacity = ground (arith, some_slots) in
        let space : sum_below bag.capacity (live_at bag.keys) + bag.tombstones < bag.capacity =
          omega (arith, h.counted, h.room wide) in
        elim (Bool-cases (ltb 0 (f key))) [
          | inl held ↦
              let p = ltb→lt 0 (f key) held in
              let (j, found, inside, at) = find_held bag f key h.table space p in
              record {
                out = take_one j bag;
                returns = rw (remove_one, some_slots, found, held) refl;
                holds = taken p valid j inside at;
              }
          | inr lost ↦
              let absent : f key ≡ 0 = ground (arith, lost) in
              nothing_removed absent (
                rw (remove_one, some_slots, find_lacking bag f key h.table space valid absent) refl)
        ]
  ]
