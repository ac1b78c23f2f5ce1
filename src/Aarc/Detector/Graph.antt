-- ===== src/Aarc/Detector/Graph.antt =====
-- The graph that the finder of components walks: the valid outgoing handles of each slot.
use loxis_programming_langua.Prelude.{ℕ, ◌≡◌, true, some, List, get_elem?}
use loxis_programming_langua.Aarc.Cells.{ObjHandle, CellPool, pool_valid}

module _ (pool : CellPool) (outs : ℕ → List ObjHandle) where
  -- An outgoing handle of `u` that is valid names the slot `v`.
  pub record Edge (u v : ℕ) : Type 0 where
    pub place : ℕ
    pub handle : ObjHandle
    pub stands : get_elem? (outs u) place ≡ some handle
    pub live : pool_valid pool handle ≡ true
    pub leads : handle.index ≡ v

  pub data Reach (u : ℕ) : ℕ → Type 0 where
    here : Reach u u
    step : {v w : ℕ} → Reach u v → Edge v w → Reach u w

  pub Reach_trans : {u v w : ℕ} → Reach u v → Reach v w → Reach u w
  Reach_trans r here = r
  Reach_trans r (step s e) = step (Reach_trans r s) e

  pub Edge-Reach : {u v : ℕ} → Edge u v → Reach u v
  Edge-Reach e = step here e
