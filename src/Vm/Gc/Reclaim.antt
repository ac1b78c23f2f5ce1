-- ===== src/Vm/Gc/Reclaim.antt =====
-- The worklist of `ArcBackend::reclaim` ends, and frees only what is not counted any more.
use loxis_programming_langua.Prelude.{
  ℕ, zero, suc, ◌+◌, ◌-◌, ◌%◌, ◌^◌, ◌≤◌, ◌<◌, ◌≡◌, ◌≢◌, refl, ap, ◌||◌, Bool-cases, inl, inr, List,
  [], ◌∷◌, Option, none, some, leb, ◌==◌, ==_iff, update, length, arith,
}
use loxis_programming_langua.Heap.State.{Heap, tag_heap, cell_count}
use loxis_programming_langua.Heap.Cells.{cell_at}
use loxis_programming_langua.Heap.Alloc.{free_payload}
use loxis_programming_langua.Vm.Gc.{
  drop_child, drop_cell, drop_children, out_of_fuel, after_children, reclaim_loop, total, reclaim,
}

abbrev pub Work : Type 0
Work = (ℕ → ℕ) × List ℕ

-- Each handle of the worklist has no count left.
abbrev pub Zeros : (ℕ → ℕ) → List ℕ → Type 0
Zeros rc [] = Unit
Zeros rc (h ∷ hs) = (rc h ≡ 0) × Zeros rc hs

Zeros-lower : (rc rc' : ℕ → ℕ) (hs : List ℕ) → ((x : ℕ) → rc' x ≤ rc x) → Zeros rc hs → Zeros rc' hs
Zeros-lower rc rc' [] low z = tt
Zeros-lower rc rc' (h ∷ hs) low z = (omega (arith, low h, z.0), Zeros-lower rc rc' hs low z.1)

-- What releasing children does: counts fall, what joins the list has none, and a place in the list
-- costs a count.
pub record Lowers (size : ℕ) (s s' : Work) : Type 0 where
  pub low : (x : ℕ) → s'.0 x ≤ s.0 x
  pub zeros : Zeros s.0 s.1 → Zeros s'.0 s'.1
  pub room : total s'.0 size + length s'.1 ≤ total s.0 size + length s.1

Lowers-refl : (size : ℕ) (s : Work) → Lowers size s s
Lowers-refl size s = record { low = λ x. omega arith; zeros = λ z. z; room = omega arith }

Lowers-trans : {size : ℕ} {s t u : Work} → Lowers size s t → Lowers size t u → Lowers size s u
Lowers-trans a b = record {
  low = λ x. omega (arith, a.low x, b.low x);
  zeros = λ z. b.zeros (a.zeros z);
  room = omega (arith, a.room, b.room);
}

total-update_out : (rc : ℕ → ℕ) (h v n : ℕ) → n ≤ h → total (update rc h v) n ≡ total rc n
unfolding total
total-update_out rc h v zero le = refl
total-update_out rc h v (suc n) le =
    let rest = total-update_out rc h v n (omega arith) in
    let here : update rc h v n ≡ rc n = ground arith in rw (here, rest)

total-update : (rc : ℕ → ℕ) (h v n : ℕ) → h < n → total (update rc h v) n + rc h ≡ total rc n + v
unfolding total
total-update rc h v zero lt = omega arith
total-update rc h v (suc n) lt = elim (Bool-cases (h == n)) [
  | inl e ↦
      let same : rc h ≡ rc n = ap rc ((==_iff h n).0 e) in
      let here : update rc h v n ≡ v = rw e in
      let rest = total-update_out rc h v n (ground arith) in rw (here, rest) (omega (arith, same))
  | inr e ↦
      let here : update rc h v n ≡ rc n = rw e in
      let rest = total-update rc h v n (ground arith) in rw here (omega (arith, rest))
]

-- A count that falls by one.
lowered :
    (size child : ℕ) (rc : ℕ → ℕ) (work work' : List ℕ)
    → child < size
    → rc child ≢ 0
    → (length work' ≤ suc (length work))
    → (Zeros (update rc child (rc child - 1)) work → Zeros (update rc child (rc child - 1)) work')
    → Lowers size (rc, work) (update rc child (rc child - 1), work')
lowered size child rc work work' lt counted longer zeros =
    let sum = total-update rc child (rc child - 1) size lt in
    let falls : (x : ℕ) → update rc child (rc child - 1) x ≤ rc x = falls_at in
    record {
      low = falls;
      zeros = λ z. zeros (Zeros-lower rc _ work falls z);
      room = grind (arith, sum);
    }
  where
    falls_at : (x : ℕ) → update rc child (rc child - 1) x ≤ rc x
    falls_at x = elim (Bool-cases (child == x)) [
      | inl e ↦ rw e (rw (ap rc ((==_iff child x).0 e)) (omega arith))
      | inr e ↦ rw e (omega arith)
    ]

drop_child-Lowers : (size child : ℕ) (s : Work) → Lowers size s (drop_child size child s)
unfolding drop_child
drop_child-Lowers size child (rc, work) = elim (Bool-cases (leb size child || rc child == 0)) [
  | inl e ↦ rw e (Lowers-refl size (rc, work))
  | inr e ↦
      let lt : child < size = ground arith in
      let counted : rc child ≢ 0 = λ z. ground arith in
      rw e (elim (Bool-cases (rc child - 1 == 0)) [
        | inl z ↦
            let here : update rc child (rc child - 1) child ≡ 0 = ground arith in
            rw z (
              lowered size child rc work (child ∷ work) lt counted (omega arith) (λ zs. (here, zs)))
        | inr nz ↦ rw nz (lowered size child rc work work lt counted (omega arith) (λ zs. zs))
      ])
]

-- The same for what may be a `HeapInvariantError`.
abbrev pub LowersTo : ℕ → Work → Option Work → Type 0
LowersTo size s none = Unit
LowersTo size s (some s') = Lowers size s s'

drop_cell-Lowers : (size : ℕ) (o : Option (ℕ × ℕ)) (s : Work) → LowersTo size s (drop_cell size o s)
unfolding drop_cell
drop_cell-Lowers size none s = tt
drop_cell-Lowers size (some (value, tag)) s = elim (Bool-cases (tag == tag_heap)) [
  | inl e ↦ rw e (drop_child-Lowers size (value % 2 ^ 32) s)
  | inr e ↦ rw e (Lowers-refl size s)
]

next_cells :
    (size : ℕ) (s : Work) (o : Option Work) (go : Work → Option Work)
    → LowersTo size s o
    → ((t : Work) → LowersTo size t (go t))
    → LowersTo size s (elim o [ none ↦ none | some t ↦ go t ])
next_cells size s none go l k = tt
next_cells size s (some t) go l k = through (go t) (k t)
  where
    through : (o : Option Work) → LowersTo size t o → LowersTo size s o
    through none m = tt
    through (some u) m = Lowers-trans l m

pub drop_children-Lowers :
    (heap : Heap) (size handle n i : ℕ) (s : Work)
    → LowersTo size s (drop_children heap size handle n i s)
unfolding drop_children
drop_children-Lowers heap size handle zero i s = Lowers-refl size s
drop_children-Lowers heap size handle (suc n) i s =
    next_cells size s (drop_cell size (cell_at heap handle i) s)
      (drop_children heap size handle n (i + 1)) (drop_cell-Lowers size (cell_at heap handle i) s)
      (drop_children-Lowers heap size handle n (i + 1))

after_children-ne-out_of_fuel :
    (heap : Heap) (handle n size fuel : ℕ) (s : Work) (o : Option Work)
    → ((t : Work) (h : Heap) (k : ℕ)
        → total t.0 size + length t.1 ≤ fuel
        → reclaim_loop fuel size t.0 t.1 h k ≢ out_of_fuel)
    → LowersTo size s o
    → total s.0 size + length s.1 ≤ fuel
    → after_children heap handle n (reclaim_loop fuel size) o ≢ out_of_fuel
unfolding after_children
after_children-ne-out_of_fuel heap handle n size fuel s none next l room = cc
after_children-ne-out_of_fuel heap handle n size fuel s (some (rc, work)) next l room =
    next (rc, work) (free_payload heap handle) (n + 1) (omega (arith, l.room, room))

reclaim_loop-ne-out_of_fuel :
    (fuel size : ℕ) (rc : ℕ → ℕ) (work : List ℕ) (heap : Heap) (n : ℕ)
    → total rc size + length work ≤ fuel
    → reclaim_loop fuel size rc work heap n ≢ out_of_fuel
unfolding reclaim_loop
reclaim_loop-ne-out_of_fuel fuel size rc [] heap n room = cc
reclaim_loop-ne-out_of_fuel zero size rc (handle ∷ work) heap n room = absurd (omega (arith, room))
reclaim_loop-ne-out_of_fuel (suc fuel) size rc (handle ∷ work) heap n room =
    after_children-ne-out_of_fuel heap handle n size fuel (rc, work) _
      (λ t h k. reclaim_loop-ne-out_of_fuel fuel size t.0 t.1 h k)
      (drop_children-Lowers heap size handle (cell_count heap handle) 0 (rc, work))
      (omega (arith, room))

-- The loop of `reclaim` ends: a round takes a handle off the list, and each that joins it costs a count.
pub reclaim-ne-out_of_fuel :
    (size : ℕ) (rc : ℕ → ℕ) (handle : ℕ) (heap : Heap) → reclaim size rc handle heap ≢ out_of_fuel
unfolding reclaim
reclaim-ne-out_of_fuel size rc handle heap =
    reclaim_loop-ne-out_of_fuel (total rc size + 1) size rc (handle ∷ []) heap 0 (omega arith)
