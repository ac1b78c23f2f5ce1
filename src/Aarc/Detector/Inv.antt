-- ===== src/Aarc/Detector/Inv.antt =====
-- The finder's invariant between two rounds: the counts, the listed slots, the stacks, and the components
-- that are closed.
use loxis_programming_langua.Prelude.{
  sum_below, ℕ, ◌+◌, ◌≤◌, ◌<◌, ◌≡◌, true, false, List, [], ◌∷◌, ◌==◌, if◌then◌else◌, length,
}
use loxis_programming_langua.Aarc.Cells.{ObjHandle, CellPool}
use loxis_programming_langua.Aarc.Detector.{CycleDetector, unvisited}
use loxis_programming_langua.Aarc.Detector.Graph.{Edge, Reach}
use loxis_programming_langua.Aarc.Detector.Layers.{◌∈◌, IsClosed, Layers}

-- Slots that are not discovered yet, each with a weight.
abbrev pub undone : (ℕ → ℕ) → (ℕ → ℕ) → ℕ → ℕ
undone weight disc i = if disc i == 0 then weight i else 0

abbrev pub Distinct : List ℕ → Type 0
Distinct [] = Unit
Distinct (x ∷ xs) = (¬ (x ∈ xs)) × Distinct xs

module _ (pool : CellPool) (outs : ℕ → List ObjHandle) where
  -- The components that are closed: no edge leaves towards a later one, and each is connected.
  pub record Components (d : CycleDetector) : Type 0 where
    pub ids : (v : ℕ) → IsClosed pool outs d.disc d.low d.on v → d.scc v < d.comps
    pub edges :
        (w v : ℕ)
        → IsClosed pool outs d.disc d.low d.on w
        → Edge pool outs w v
        → IsClosed pool outs d.disc d.low d.on v × (d.scc v ≤ d.scc w)
    pub connected :
        (v w : ℕ)
        → IsClosed pool outs d.disc d.low d.on v
        → IsClosed pool outs d.disc d.low d.on w
        → d.scc v ≡ d.scc w
        → Reach pool outs v w

  module _ (From Before : ℕ → Type 0) where
    -- `From` holds of every slot found, and `Before` of those that were found earlier.
    pub record Listing (d : CycleDetector) : Type 0 where
      pub counted : sum_below pool.capacity (undone (λ _. 1) d.disc) + d.time ≡ pool.capacity
      pub early : (v : ℕ) → d.disc v ≤ d.time
      pub fresh : (v : ℕ) → d.disc v ≡ 0 → d.on v ≡ false
      pub unnamed : (v : ℕ) → d.disc v ≡ 0 → d.scc v ≡ unvisited
      pub inside : (v : ℕ) → 0 < d.disc v → v < pool.capacity
      pub sound : (v : ℕ) → 0 < d.disc v → From v
      pub since : (v : ℕ) → Before v → 0 < d.disc v
      pub listed : (v : ℕ) → 0 < d.disc v → v ∈ d.visited
      pub found : (v : ℕ) → v ∈ d.visited → 0 < d.disc v
      pub distinct : Distinct d.visited

    pub record Inv (d : CycleDetector) : Type 0 where
      pub listing : Listing d
      pub few : d.comps + length d.tarjan ≤ d.time
      pub stack : (v : ℕ) → d.on v ≡ true → v ∈ d.tarjan
      pub layers : Layers pool outs d.disc d.low d.on d.tarjan d.frames
      pub components : Components d
