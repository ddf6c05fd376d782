-- ===== src/Arbiter.antt =====
-- The communication core of the arbiter (src/arbiter).
pub mod Allocs
pub mod Demands
pub mod Lists
pub mod Reports
pub mod Timers
