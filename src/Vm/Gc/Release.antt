-- ===== src/Vm/Gc/Release.antt =====
-- `ArcBackend::release` frees no object that is still counted.
use loxis_programming_langua.Prelude.{
  ℕ, zero, suc, ◌+◌, ◌-◌, ◌≤◌, ◌≡◌, ◌≢◌, ◌⊎◌, refl, true, ◌||◌, Bool-cases, inl, inr, List, [], ◌∷◌,
  Option, none, some, leb, ◌==◌, ==_iff, update, ◌∙◌, arith,
}
use loxis_programming_langua.Heap.State.{Heap, valid, cell_count}
use loxis_programming_langua.Heap.Owners.{IsValid}
use loxis_programming_langua.Heap.Cells.{load_cell}
use loxis_programming_langua.Heap.Alloc.{free_payload}
use loxis_programming_langua.Heap.Alloc.Release.{free_payload-IsValid}
use loxis_programming_langua.Heap.Alloc.Promise.{free_payload_others}
use loxis_programming_langua.Vm.Gc.{
  Arc, Reclaimed, reclaimed, invariant_error, out_of_fuel, after_children, reclaim_loop, total,
  reclaim, Released, released, heap_error, no_end, arc_release, after_reclaim,
}
use loxis_programming_langua.Vm.Gc.Reclaim.{
  Work, Zeros, LowersTo, drop_children-Lowers, reclaim-ne-out_of_fuel,
}

-- The object is live with its cell as it was.
abbrev Same : ℕ → ℕ → Heap → Heap → Type 0
Same x off heap heap' = (valid heap' x ≡ true) × (load_cell heap' x off ≡ load_cell heap x off)

-- No count is higher, and an object that is still counted is as it was.
abbrev Kept : ℕ → ℕ → (ℕ → ℕ) → Heap → Reclaimed → Type 0
Kept x off rc heap (reclaimed rc' heap' n) = (rc' x ≤ rc x) × ((rc' x ≡ 0) ⊎ Same x off heap heap')
Kept x off rc heap invariant_error = Unit
Kept x off rc heap out_of_fuel = Unit

-- The count of an object at the end is not higher.
abbrev LowOf : ℕ → (ℕ → ℕ) → Reclaimed → Type 0
LowOf x rc (reclaimed rc' heap n) = rc' x ≤ rc x
LowOf x rc invariant_error = Unit
LowOf x rc out_of_fuel = Unit

LowOf-trans : (x : ℕ) (rc rc' : ℕ → ℕ) (r : Reclaimed) → rc' x ≤ rc x → LowOf x rc' r → LowOf x rc r
LowOf-trans x rc rc' (reclaimed rc'' heap n) low l = omega (arith, low, l)
LowOf-trans x rc rc' invariant_error low l = tt
LowOf-trans x rc rc' out_of_fuel low l = tt

-- Without its count an object may be freed.
Kept-zero :
    (x off : ℕ) (rc rc' : ℕ → ℕ) (heap heap' : Heap) (r : Reclaimed)
    → rc' x ≤ rc x
    → rc' x ≡ 0
    → LowOf x rc' r
    → Kept x off rc heap r
Kept-zero x off rc rc' heap heap' (reclaimed rc'' h n) low z l =
    (omega (arith, low, l), inl (omega (arith, z, l)))
Kept-zero x off rc rc' heap heap' invariant_error low z l = tt
Kept-zero x off rc rc' heap heap' out_of_fuel low z l = tt

Kept-step :
    (x off : ℕ) (rc rc' : ℕ → ℕ) (heap heap' : Heap) (r : Reclaimed)
    → rc' x ≤ rc x
    → load_cell heap' x off ≡ load_cell heap x off
    → Kept x off rc' heap' r
    → Kept x off rc heap r
Kept-step x off rc rc' heap heap' (reclaimed rc'' h n) low same k =
    (omega (arith, low, k.0), elim (k.1) [ inl z ↦ inl z | inr s ↦ inr (s.0, s.1 ∙ same) ])
Kept-step x off rc rc' heap heap' invariant_error low same k = tt
Kept-step x off rc rc' heap heap' out_of_fuel low same k = tt

-- Freeing another object, live or not.
freed_other :
    (heap : Heap) (handle x off : ℕ)
    → IsValid heap
    → valid heap x ≡ true
    → handle ≢ x
    → Same x off heap (free_payload heap handle)
freed_other heap handle x off v live ne = elim (Bool-cases (valid heap handle)) [
  | inl e ↦ free_payload_others heap handle x off v e live ne
  | inr e ↦ unfold free_payload in rw e (live, refl)
]

after_children-Low :
    (heap : Heap) (handle n size fuel x : ℕ) (s : Work) (o : Option Work)
    → ((t : Work) (h : Heap) (k : ℕ) → LowOf x t.0 (reclaim_loop fuel size t.0 t.1 h k))
    → LowersTo size s o
    → LowOf x s.0 (after_children heap handle n (reclaim_loop fuel size) o)
unfolding after_children
after_children-Low heap handle n size fuel x s none next l = tt
after_children-Low heap handle n size fuel x s (some (rc, work)) next l =
    LowOf-trans x s.0 rc _ (l.low x) (next (rc, work) (free_payload heap handle) (n + 1))

reclaim_loop-Low :
    (fuel size x : ℕ) (rc : ℕ → ℕ) (work : List ℕ) (heap : Heap) (n : ℕ)
    → LowOf x rc (reclaim_loop fuel size rc work heap n)
unfolding reclaim_loop
reclaim_loop-Low fuel size x rc [] heap n = omega arith
reclaim_loop-Low zero size x rc (handle ∷ work) heap n = tt
reclaim_loop-Low (suc fuel) size x rc (handle ∷ work) heap n =
    after_children-Low heap handle n size fuel x (rc, work) _
      (λ t h k. reclaim_loop-Low fuel size x t.0 t.1 h k)
      (drop_children-Lowers heap size handle (cell_count heap handle) 0 (rc, work))

after_children-Kept :
    (heap : Heap) (handle n size fuel x off : ℕ) (rc : ℕ → ℕ) (work : List ℕ) (o : Option Work)
    → ((t : Work) (h : Heap) (k : ℕ)
        → Zeros t.0 t.1
        → IsValid h
        → valid h x ≡ true
        → Kept x off t.0 h (reclaim_loop fuel size t.0 t.1 h k))
    → LowersTo size (rc, work) o
    → rc handle ≡ 0
    → Zeros rc work
    → IsValid heap
    → valid heap x ≡ true
    → Kept x off rc heap (after_children heap handle n (reclaim_loop fuel size) o)
unfolding after_children
after_children-Kept heap handle n size fuel x off rc work none next l z zs v live = tt
after_children-Kept heap handle n size fuel x off rc work (some (rc', work')) next l z zs v live =
    elim (Bool-cases (handle == x)) [
      | inl e ↦
          let gone : rc' x ≡ 0 = rw (← ((==_iff handle x).0 e)) (omega (arith, l.low handle, z)) in
          Kept-zero x off rc rc' heap (free_payload heap handle) _ (l.low x) gone
            (reclaim_loop-Low fuel size x rc' work' (free_payload heap handle) (n + 1))
      | inr e ↦
          let other = freed_other heap handle x off v live (λ same. ground arith) in
          Kept-step x off rc rc' heap (free_payload heap handle) _ (l.low x) other.1 (
            next (rc', work') (free_payload heap handle) (n + 1) (l.zeros zs)
              (free_payload-IsValid heap handle v) other.0)
    ]

reclaim_loop-Kept :
    (fuel size x off : ℕ) (rc : ℕ → ℕ) (work : List ℕ) (heap : Heap) (n : ℕ)
    → Zeros rc work
    → IsValid heap
    → valid heap x ≡ true
    → Kept x off rc heap (reclaim_loop fuel size rc work heap n)
unfolding reclaim_loop
reclaim_loop-Kept fuel size x off rc [] heap n zs v live = (omega arith, inr (live, refl))
reclaim_loop-Kept zero size x off rc (handle ∷ work) heap n zs v live = tt
reclaim_loop-Kept (suc fuel) size x off rc (handle ∷ work) heap n zs v live =
    after_children-Kept heap handle n size fuel x off rc work _
      (λ t h k. reclaim_loop-Kept fuel size x off t.0 t.1 h k)
      (drop_children-Lowers heap size handle (cell_count heap handle) 0 (rc, work)) zs.0 zs.1 v live

reclaim-Kept :
    (size x off : ℕ) (rc : ℕ → ℕ) (handle : ℕ) (heap : Heap)
    → rc handle ≡ 0
    → IsValid heap
    → valid heap x ≡ true
    → Kept x off rc heap (reclaim size rc handle heap)
unfolding reclaim
reclaim-Kept size x off rc handle heap z v live =
    reclaim_loop-Kept (total rc size + 1) size x off rc (handle ∷ []) heap 0 (z, tt) v live

-- What `release` leaves of an object that was live. Only the last reference of an object is released with an
-- error of the heap, and every release ends.
unfoldable pub KeptBy : ℕ → ℕ → ℕ → Arc → Heap → Released → Type 0
KeptBy handle x off a heap heap_error = a.rc handle ≡ 1
KeptBy handle x off a heap no_end = ⊥
KeptBy handle x off a heap (released a' heap') =
    (a'.rc x ≡ 0) ⊎ (valid heap' x ≡ true) × (load_cell heap' x off ≡ load_cell heap x off)

kept_by :
    (a b : Arc) (handle x off : ℕ) (rc : ℕ → ℕ) (heap : Heap) (r : Reclaimed)
    → a.rc handle ≡ 1
    → r ≢ out_of_fuel
    → Kept x off rc heap r
    → KeptBy handle x off a heap (after_reclaim b r)
unfolding KeptBy after_reclaim
kept_by a b handle x off rc heap (reclaimed rc' heap' n) one ends k = k.1
kept_by a b handle x off rc heap invariant_error one ends k = one
kept_by a b handle x off rc heap out_of_fuel one ends k = ends refl

-- In a well-formed heap, a release ends: with an error of the heap, which only the release of an object's
-- last reference has, or in a state in which an object that was live before, and that still has a count, is
-- live with its cells as they were.
pub arc_release-KeptBy :
    (handle x off : ℕ) (a : Arc) (heap : Heap)
    → IsValid heap
    → valid heap x ≡ true
    → KeptBy handle x off a heap (arc_release handle a heap)
unfolding arc_release KeptBy
arc_release-KeptBy handle x off a heap v live =
    elim (Bool-cases (leb a.rc_size handle || a.rc handle == 0)) [
      | inl e ↦ rw e (inr (live, refl))
      | inr e ↦ rw e (elim (Bool-cases (a.rc handle - 1 == 0)) [
        | inl z ↦
            let here : update a.rc handle (a.rc handle - 1) handle ≡ 0 = ground arith in
            let last : a.rc handle ≡ 1 = ground arith in
            rw z (
              kept_by a (record a { rc = update a.rc handle (a.rc handle - 1) }) handle x off
                (update a.rc handle (a.rc handle - 1)) heap _ last
                (reclaim-ne-out_of_fuel a.rc_size _ handle heap)
                (reclaim-Kept a.rc_size x off (update a.rc handle (a.rc handle - 1)) handle heap
                  here v live))
        | inr nz ↦ rw nz (inr (live, refl))
      ])
    ]
