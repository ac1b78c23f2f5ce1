-- ===== src/Heap.antt =====
-- The VM's object heap, src/cpp/vm/Heap.hpp.
mod Tests
pub mod State
pub mod Cells
pub mod Alloc
pub mod Owners
pub mod Frame
