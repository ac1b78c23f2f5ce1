-- ===== src/Vm/Gc.antt =====
-- `ArcBackend` of src/cpp/vm/GC.hpp and src/cpp/vm/GC.cpp: reference counts, and the worklist that
-- reclaims what a count of 0 leaves.
pub mod Reclaim
pub mod Release
use loxis_programming_langua.Prelude.{
  ℕ, zero, suc, ◌+◌, ◌-◌, ◌%◌, ◌^◌, Bool, ◌||◌, List, [], ◌∷◌, Option, none, some, leb, ◌==◌,
  if◌then◌else◌, update, length,
}
use loxis_programming_langua.Heap.State.{Heap, add32, add64, tag_heap, cell_count}
use loxis_programming_langua.Heap.Cells.{cell_at}
use loxis_programming_langua.Heap.Alloc.{free_payload}
use loxis_programming_langua.Vm.Data.{Backend}

-- The counts of `GCMetrics` that this collector keeps.
pub record Metrics : Type 0 where
  pub allocations : ℕ
  pub root_adds : ℕ
  pub root_removes : ℕ
  pub edge_adds : ℕ
  pub edge_removes : ℕ
  pub reclaimed_objects : ℕ
  pub explicit_frees_ignored : ℕ
  pub invalid_handle_ops : ℕ

-- `m_rc` with its size; a count past the size is 0.
pub record Arc : Type 0 where
  pub rc : ℕ → ℕ
  pub rc_size : ℕ
  pub metrics : Metrics

-- `m_rc.resize(handle + 1, 0)` where the handle is past the end.
abbrev grown : ℕ → ℕ → ℕ
grown size handle = if leb size handle then handle + 1 else size

unfoldable pub arc_retain : ℕ → Arc → Arc
arc_retain handle a = record a {
  rc = update a.rc handle (add32 (a.rc handle) 1);
  rc_size = grown a.rc_size handle;
}

-- The counts and the worklist after a child lost a reference.
unfoldable pub drop_child : ℕ → ℕ → (ℕ → ℕ) × List ℕ → (ℕ → ℕ) × List ℕ
drop_child size child (rc, work) =
    if leb size child || rc child == 0
    then (rc, work)
    else (update rc child (rc child - 1), if rc child - 1 == 0 then child ∷ work else work)

-- The loop over the cells of an object, `n` of them left; `none` is a `HeapInvariantError`.
unfoldable pub drop_cell : ℕ → Option (ℕ × ℕ) → (ℕ → ℕ) × List ℕ → Option ((ℕ → ℕ) × List ℕ)
drop_cell size none s = none
drop_cell size (some (value, tag)) s =
    some (if tag == tag_heap then drop_child size (value % 2 ^ 32) s else s)

unfoldable pub drop_children : Heap → ℕ → ℕ → ℕ → ℕ → (ℕ → ℕ) × List ℕ → Option ((ℕ → ℕ) × List ℕ)
unfolding drop_cell
drop_children heap size handle zero i s = some s
drop_children heap size handle (suc n) i s = elim (drop_cell size (cell_at heap handle i) s) [
  | none ↦ none
  | some s' ↦ drop_children heap size handle n (i + 1) s'
]

-- The end of the worklist's loop: counts, heap and the number of objects reclaimed.
pub data Reclaimed : Type 0 where
  reclaimed : (ℕ → ℕ) → Heap → ℕ → Reclaimed
  invariant_error out_of_fuel : Reclaimed

unfoldable pub after_children :
    Heap → ℕ → ℕ → ((ℕ → ℕ) → List ℕ → Heap → ℕ → Reclaimed) → Option ((ℕ → ℕ) × List ℕ) → Reclaimed
after_children heap handle n again none = invariant_error
after_children heap handle n again (some (rc, work)) =
    again rc work (free_payload heap handle) (n + 1)

-- A unit of fuel for a round.
unfoldable pub reclaim_loop : ℕ → ℕ → (ℕ → ℕ) → List ℕ → Heap → ℕ → Reclaimed
unfolding after_children
reclaim_loop fuel size rc [] heap n = reclaimed rc heap n
reclaim_loop zero size rc (handle ∷ work) heap n = out_of_fuel
reclaim_loop (suc fuel) size rc (handle ∷ work) heap n =
    after_children heap handle n (reclaim_loop fuel size)
      (drop_children heap size handle (cell_count heap handle) 0 (rc, work))

-- The references that are counted.
unfoldable pub total : (ℕ → ℕ) → ℕ → ℕ
total rc zero = 0
total rc (suc n) = rc n + total rc n

unfoldable pub reclaim : ℕ → (ℕ → ℕ) → ℕ → Heap → Reclaimed
reclaim size rc handle heap = reclaim_loop (total rc size + 1) size rc (handle ∷ []) heap 0

-- The end of a release: the counts and the heap, or a `HeapInvariantError`. `no_end` is a loop that has
-- no fuel left.
pub data Released : Type 0 where
  released : Arc → Heap → Released
  heap_error no_end : Released

unfoldable pub after_reclaim : Arc → Reclaimed → Released
after_reclaim a (reclaimed rc heap n) =
    released
      (record a {
        rc = rc;
        metrics = record (a.metrics) { reclaimed_objects = add64 a.metrics.reclaimed_objects n };
      })
      heap
after_reclaim a invariant_error = heap_error
after_reclaim a out_of_fuel = no_end

unfoldable pub arc_release : ℕ → Arc → Heap → Released
unfolding after_reclaim
arc_release handle a heap =
    if leb a.rc_size handle || a.rc handle == 0
    then released
        (record a {
          metrics = record (a.metrics) {
            invalid_handle_ops = add64 a.metrics.invalid_handle_ops 1;
          };
        })
        heap
    else (let rc = update a.rc handle (a.rc handle - 1) in
        if a.rc handle - 1 == 0
        then after_reclaim (record a { rc = rc }) (reclaim a.rc_size rc handle heap)
        else released (record a { rc = rc }) heap)

-- What the machine sees of a release.
abbrev for_machine : Released → Option (Arc × Heap)
for_machine (released a heap) = some (a, heap)
for_machine heap_error = none
for_machine no_end = none

abbrev counted : (Metrics → Metrics) → Arc → Arc
counted f a = record a { metrics = f a.metrics }

unfoldable pub arc_on_alloc : ℕ → Arc × Heap → Option (Arc × Heap)
arc_on_alloc handle (a, heap) = some (
  record a {
    rc = update a.rc handle 0;
    rc_size = grown a.rc_size handle;
    metrics = record (a.metrics) { allocations = add64 a.metrics.allocations 1 };
  },
  heap,
)

unfoldable pub arc_backend : Backend Arc
arc_backend = record {
  on_alloc = arc_on_alloc;
  root_add = λ handle s.
      some
        (arc_retain handle (counted (λ m. record m { root_adds = add64 m.root_adds 1 }) s.0), s.1);
  root_remove = λ handle s. for_machine (
      arc_release handle (counted (λ m. record m { root_removes = add64 m.root_removes 1 }) s.0)
        s.1);
  edge_add = λ from to s.
      some (arc_retain to (counted (λ m. record m { edge_adds = add64 m.edge_adds 1 }) s.0), s.1);
  edge_remove = λ from to s.
      for_machine (
        arc_release to (counted (λ m. record m { edge_removes = add64 m.edge_removes 1 }) s.0) s.1);
  on_explicit_free = λ handle s. some (
    counted (λ m. record m { explicit_frees_ignored = add64 m.explicit_frees_ignored 1 }) s.0,
    s.1,
  );
  shutdown = λ s. some s;
}
