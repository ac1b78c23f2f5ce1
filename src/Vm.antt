-- ===== src/Vm.antt =====
-- The virtual machine, src/cpp/vm/VM.hpp and src/cpp/vm/VM.cpp.
pub mod Data
pub mod Action
pub mod Keeps
pub mod Stable
pub mod Roots
pub mod Unwind
pub mod Words
pub mod Exec
pub mod Balance
pub mod Gc
pub mod Run
mod Tests
