-- ===== src/Aarc/Cells.antt =====
-- The cell pool's tests of liveness, src/aarc/core/cell.hpp. A cell's word holds its generation above a
-- live bit.
use loxis_programming_langua.Prelude.{
  ℕ, ◌+◌, ◌*◌, ◌%◌, ◌<◌, ◌≡◌, Bool, true, not, ◌&&◌, ltb, ◌==◌, if◌then◌else◌, arith,
}

pub record ObjHandle : Type 0 where
  pub index : ℕ
  pub gen : ℕ

pub record CellPool : Type 0 where
  pub capacity : ℕ
  pub meta : ℕ → ℕ

abbrev pub encode : ℕ → Bool → ℕ
encode gen live = gen * 2 + (if live then 1 else 0)

unfoldable pub pool_valid : CellPool → ObjHandle → Bool
pool_valid pool h = ltb h.index pool.capacity && (pool.meta h.index == encode h.gen true)

unfoldable pub is_live_at : CellPool → ℕ → Bool
is_live_at pool idx = ltb idx pool.capacity && not (pool.meta idx % 2 == 0)

pub valid_inside :
    (pool : CellPool) (h : ObjHandle) → pool_valid pool h ≡ true → h.index < pool.capacity
unfolding pool_valid
valid_inside pool h e = ground arith

pub is_live_at_inside : (pool : CellPool) (i : ℕ) → is_live_at pool i ≡ true → i < pool.capacity
unfolding is_live_at
is_live_at_inside pool i e = ground arith
