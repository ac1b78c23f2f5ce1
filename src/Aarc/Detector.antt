-- ===== src/Aarc/Detector.antt =====
-- The finder of strongly connected components, src/aarc/cycle/cycle_detector.hpp, as it is built with
-- AARC_CONSERVATIVE: `outs` is the table's vector of outgoing handles of a slot. The arrays are functions of
-- the slot. A vector that grows and shrinks at its end is a list with its last element first, and the two
-- parallel vectors of frames are one list of pairs.
mod Tests
pub mod Graph
pub mod Layers
pub mod Moves
pub mod Steps
pub mod Close
pub mod Inv
pub mod Enter
pub mod Edges
pub mod Component
pub mod Finish
pub mod Loop
pub mod Roots
pub mod Ends
pub mod Find
use loxis_programming_langua.Prelude.{
  ℕ, zero, suc, ◌+◌, ◌%◌, ◌^◌, Bool, true, false, not, ◌&&◌, Option, none, some, List, [], ◌∷◌, ltb,
  ◌==◌, if◌then◌else◌, update, get_elem?,
}
use loxis_programming_langua.Aarc.Cells.{ObjHandle, CellPool, pool_valid, is_live_at}

-- `kUnvisited`.
abbrev pub unvisited : ℕ
unvisited = 0xFFFF_FFFF

-- `visited` is the out parameter `visitedOut`.
pub record CycleDetector : Type 0 where
  pub disc : ℕ → ℕ
  pub low : ℕ → ℕ
  pub on : ℕ → Bool
  pub scc : ℕ → ℕ
  pub tarjan : List ℕ
  pub frames : List (ℕ × ℕ)
  pub time : ℕ
  pub comps : ℕ
  pub skipped_disc : ℕ
  pub skipped_dead : ℕ
  pub visited : List ℕ

abbrev pub new_detector : CycleDetector
new_detector = record {
  disc = λ _. 0;
  low = λ _. 0;
  on = λ _. false;
  scc = λ _. unvisited;
  tarjan = [];
  frames = [];
  time = 0;
  comps = 0;
  skipped_disc = 0;
  skipped_dead = 0;
  visited = [];
}

-- The first test of a round: the node of the top frame is discovered.
unfoldable pub discover : ℕ → CycleDetector → CycleDetector
discover u d =
    let now = (d.time + 1) % 2 ^ 32 in
    if d.disc u == 0
    then record d {
      time = now;
      disc = update d.disc u now;
      low = update d.low u now;
      on = update d.on u true;
      tarjan = u ∷ d.tarjan;
      visited = u ∷ d.visited;
    }
    else d

-- The endless loop of `finishNode`; none where `tarjan_` is empty before `u` is found.
unfoldable pub close_component : ℕ → List ℕ → CycleDetector → Option CycleDetector
close_component u [] d = none
close_component u (w ∷ rest) d =
    let closed = record d {
      tarjan = rest;
      on = update d.on w false;
      scc = update d.scc w d.comps;
    } in
    let deeper = close_component u rest closed in if w == u then some closed else deeper

-- A component that closed is counted.
count_component : Option CycleDetector → Option CycleDetector
count_component none = none
count_component (some d) = some (record d { comps = (d.comps + 1) % 2 ^ 32 })

-- The low-link of `u` is folded into that of the frame below.
fold_low : ℕ → List (ℕ × ℕ) → CycleDetector → CycleDetector
fold_low u [] d = d
fold_low u ((p, _) ∷ _) d =
    if ltb (d.low u) (d.low p) then record d { low = update d.low p (d.low u) } else d

fold_option : ℕ → List (ℕ × ℕ) → Option CycleDetector → Option CycleDetector
fold_option u fs none = none
fold_option u fs (some d) = some (fold_low u fs d)

-- `finishNode`, with the frames below the top one.
unfoldable pub finish_node : ℕ → List (ℕ × ℕ) → CycleDetector → Option CycleDetector
unfolding count_component fold_low fold_option close_component
finish_node u fs d =
    let popped = record d { frames = fs } in
    fold_option u fs (
      if d.low u == d.disc u
      then count_component (close_component u d.tarjan popped)
      else some popped)

-- The edge to the slot `v`, once the frame's index is advanced.
unfoldable pub follow : ℕ → ℕ → CycleDetector → CycleDetector
follow u v d =
    if d.disc v == 0
    then record d { frames = (v, 0) ∷ d.frames }
    else if d.on v && ltb (d.disc v) (d.low u)
    then record d { low = update d.low u (d.disc v) }
    else d

module _ (pool : CellPool) (outs : ℕ → List ObjHandle) where
  -- The rest of a round: the next edge of `u` from the index `k`, or its end.
  unfoldable pub take_edge :
      ℕ → ℕ → List (ℕ × ℕ) → CycleDetector → Option ObjHandle → Option CycleDetector
  unfolding follow finish_node
  take_edge u k fs d none = finish_node u fs d
  take_edge u k fs d (some h) =
      let advanced = record d { frames = (u, k + 1) ∷ fs } in
      some (if pool_valid pool h then follow u h.index advanced else advanced)

  -- A round of the loop, with the top frame.
  unfoldable pub search_round : ℕ → ℕ → List (ℕ × ℕ) → CycleDetector → Option CycleDetector
  unfolding discover take_edge
  search_round u k fs d = take_edge u k fs (discover u d) (get_elem? (outs u) k)

  -- The loop of `visitFrom`; none where the fuel runs out.
  unfoldable pub visit_loop : ℕ → CycleDetector → Option CycleDetector
  unfolding search_round
  visit_loop zero d = elim d.frames [ [] ↦ some d | _ ∷ _ ↦ none ]
  visit_loop (suc fuel) d = elim d.frames [
    | [] ↦ some d
    | (u, k) ∷ fs ↦ elim (search_round u k fs d) [ none ↦ none | some next ↦ visit_loop fuel next ]
  ]

  unfoldable pub visit_from : ℕ → ℕ → CycleDetector → Option CycleDetector
  unfolding visit_loop
  visit_from fuel root d = visit_loop fuel (record d { frames = (root, 0) ∷ d.frames })

  -- The loop of `findComponents` over the roots.
  unfoldable pub visit_roots : ℕ → List ℕ → CycleDetector → Option CycleDetector
  unfolding visit_from
  visit_roots fuel [] d = some d
  visit_roots fuel (root ∷ roots) d =
      let already = visit_roots fuel roots (record d { skipped_disc = d.skipped_disc + 1 }) in
      let dead = visit_roots fuel roots (record d { skipped_dead = d.skipped_dead + 1 }) in
      if not (d.disc root == 0)
      then already
      else if not (is_live_at pool root)
      then dead
      else elim (visit_from fuel root d) [ none ↦ none | some next ↦ visit_roots fuel roots next ]

  unfoldable pub find_components : ℕ → List ℕ → CycleDetector → Option CycleDetector
  unfolding visit_roots
  find_components fuel roots d = visit_roots fuel roots (record d {
    visited = [];
    time = 0;
    comps = 0;
    tarjan = [];
    frames = [];
    skipped_disc = 0;
    skipped_dead = 0;
  })

-- `release`, over the visited slots.
unfoldable pub release_visited : List ℕ → CycleDetector → CycleDetector
release_visited [] d = d
release_visited (i ∷ visited) d = release_visited visited (record d {
  disc = update d.disc i 0;
  low = update d.low i 0;
  on = update d.on i false;
  scc = update d.scc i unvisited;
})
