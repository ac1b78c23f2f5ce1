-- ===== src/Aarc/Detector/Tests.antt =====
-- A search of a pool of five slots: a ring of three, a slot behind it, a dead slot that a stale handle names.
use loxis_programming_langua.Prelude.{
  ℕ, ◌≡◌, ◌↔◌, refl, inl, inr, List, [], ◌∷◌, Option, some, none, arith, get_or,
}
use loxis_programming_langua.Aarc.Cells.{ObjHandle, CellPool, pool_valid, is_live_at}
use loxis_programming_langua.Aarc.Detector.{CycleDetector, new_detector, find_components}
use loxis_programming_langua.Aarc.Detector.Graph.{Reach}
use loxis_programming_langua.Aarc.Detector.Ends.{IsClean, Finds}
use loxis_programming_langua.Aarc.Detector.Find.{find_components-Finds, find_components-Reach}

abbrev metas : ℕ → ℕ
metas i = get_or (3 ∷ 3 ∷ 3 ∷ 3 ∷ 4 ∷ []) i 0

abbrev five : CellPool
five = record { capacity = 5; meta = metas }

abbrev to : ℕ → ObjHandle
to index = record { index = index; gen = 1 }

abbrev links : ℕ → List ObjHandle
links i = get_or ((to 1 ∷ []) ∷ (to 4 ∷ to 2 ∷ []) ∷ (to 0 ∷ to 3 ∷ []) ∷ (to 3 ∷ []) ∷ []) i []

new_detector-IsClean : IsClean new_detector
new_detector-IsClean = record { discs = λ v. refl; ons = λ v. refl; sccs = λ v. refl }

abbrev found : Option CycleDetector → CycleDetector
found none = new_detector
found (some d) = d

abbrev ended : CycleDetector
ended = found (find_components five links 11 (4 ∷ 0 ∷ 2 ∷ []) new_detector)

ended_runs :
    (ended.visited ≡ 3 ∷ 2 ∷ 1 ∷ 0 ∷ [])
    × (ended.scc 3 ≡ 0)
    × (ended.scc 1 ≡ 1)
    × (ended.scc 0 ≡ 1)
    × (ended.comps ≡ 2)
    × (ended.skipped_dead ≡ 1)
    × (ended.skipped_disc ≡ 1)
unfolding find_components pool_valid is_live_at
ended_runs = (refl, refl, refl, refl, refl, refl, refl)

find_components-Finds_example : Finds five links (4 ∷ 0 ∷ 2 ∷ []) 11 new_detector
find_components-Finds_example =
    find_components-Finds five links (4 ∷ 0 ∷ 2 ∷ []) 11 new_detector (omega arith) (omega arith)
      new_detector-IsClean

find_components-Reach_example :
    (ended.scc 0 ≡ ended.scc 1) ↔ (Reach five links 0 1 × Reach five links 1 0)
unfolding find_components pool_valid is_live_at
find_components-Reach_example =
    find_components-Reach five links (4 ∷ 0 ∷ 2 ∷ []) 11 new_detector ended 0 1 (omega arith)
      (omega arith) new_detector-IsClean refl (inr (inr (inr (inl refl)))) (inr (inr (inl refl)))
