-- ===== src/Fluid.antt =====
-- The fluid LSM compactor: src/fluid_lsm.cc and include/fluid_lsm.h.
pub mod Double
pub mod Tree
pub mod Build
pub mod Compact
pub mod System
pub mod Race
pub mod Print
pub mod Debug
mod Sample
mod Examples
