-- ===== src/Aarc/Detector/Find.antt =====
-- What `findComponents` and `release` promise.
use loxis_programming_langua.Prelude.{
  ℕ, ◌^◌, ◌≤◌, ◌<◌, ◌≡◌, sym, subst, ◌∙◌, ◌↔◌, List, arith, some,
}
use loxis_programming_langua.Aarc.Cells.{ObjHandle, CellPool}
use loxis_programming_langua.Aarc.Detector.{CycleDetector, find_components}
use loxis_programming_langua.Aarc.Detector.Graph.{Reach, here, step}
use loxis_programming_langua.Aarc.Detector.Layers.{some-injective, ◌∈◌}
use loxis_programming_langua.Aarc.Detector.Ends.{
  IsClean, FromRoot-step, enough, Finds, Ends, find_components-Ends,
}

module _ (pool : CellPool) (outs : ℕ → List ObjHandle) (roots : List ℕ) where
  module _ {fuel : ℕ} {d : CycleDetector} (ends : Ends pool outs roots fuel d) where
    open ends.finds use {out}

    -- Along a path the component's number does not grow.
    Reach-falls :
        {v w : ℕ}
        → v ∈ out.visited
        → Reach pool outs v w
        → (w ∈ out.visited) × (out.scc w ≤ out.scc v)
    Reach-falls m here = (m, omega arith)
    Reach-falls m (step {v = x} {w} r e) =
        let (mx, lx) = Reach-falls m r in
        let fx = (ends.finds.exact x).0 mx in
        let mw = (ends.finds.exact w).1 (FromRoot-step pool outs roots x w fx e) in
        (mw, omega (arith, lx, (ends.components.edges x w (ends.closed x mx) e).1))

    Ends-Reach :
        (v w : ℕ)
        → v ∈ out.visited
        → w ∈ out.visited
        → (out.scc v ≡ out.scc w) ↔ (Reach pool outs v w × Reach pool outs w v)
    Ends-Reach v w mv mw = (
      λ e. (
        ends.components.connected v w (ends.closed v mv) (ends.closed w mw) e,
        ends.components.connected w v (ends.closed w mw) (ends.closed v mv) (sym e),
      ),
      λ r. omega (arith, (Reach-falls mv r.0).1, (Reach-falls mw r.1).1),
    )

-- A search of a pool below 2^32 slots that starts with clean scratch arrays returns, with a round for each
-- slot and each outgoing handle as fuel. It lists each slot that a live root reaches, once, and no other;
-- each listed slot has a component's number below the count, and each other the mark of an unvisited one.
-- Releasing the listed slots leaves the scratch arrays clean.
pub find_components-Finds :
    (pool : CellPool) (outs : ℕ → List ObjHandle) (roots : List ℕ) (fuel : ℕ) (d : CycleDetector)
    → pool.capacity < 2 ^ 32
    → enough pool outs roots ≤ fuel
    → IsClean d
    → Finds pool outs roots fuel d
find_components-Finds pool outs roots fuel d small lasts clean =
    (find_components-Ends pool outs roots small fuel lasts d clean).finds

-- Two listed slots have the same component's number exactly if valid handles lead from each to the other. The
-- pool has fewer than 2^32 slots, and the search starts with clean scratch arrays and enough fuel.
pub find_components-Reach :
    (pool : CellPool) (outs : ℕ → List ObjHandle) (roots : List ℕ) (fuel : ℕ)
    (d out : CycleDetector) (v w : ℕ)
    → pool.capacity < 2 ^ 32
    → enough pool outs roots ≤ fuel
    → IsClean d
    → find_components pool outs fuel roots d ≡ some out
    → v ∈ out.visited
    → w ∈ out.visited
    → (out.scc v ≡ out.scc w) ↔ (Reach pool outs v w × Reach pool outs w v)
find_components-Reach pool outs roots fuel d out v w small lasts clean e =
    let ends = find_components-Ends pool outs roots small fuel lasts d clean in
    let same : ends.finds.out ≡ out = some-injective (sym ends.finds.returns ∙ e) in
    subst
      (λ (o : CycleDetector).
        v ∈ o.visited
        → w ∈ o.visited
        → (o.scc v ≡ o.scc w) ↔ (Reach pool outs v w × Reach pool outs w v))
      same (Ends-Reach pool outs roots ends v w)
