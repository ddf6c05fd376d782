-- ===== src/Alloc.antt =====
-- The sequential (pipelined) timeslot allocator of src/graph-algo.
pub mod Batch
pub mod Bins
pub mod Core
pub mod Demands
pub mod Loop
mod Tests
