-- ===== src/Aarc.antt =====
-- The collector's core library, src/aarc.
mod Tests
pub mod Cells
pub mod Detector
pub mod RootBag
pub mod RefTable
pub mod Queue
pub mod Owners
