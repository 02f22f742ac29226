-- ===== src/Resize.antt =====
-- src/resize.rs: growing, moving a whole AG, retiring an empty one, shrinking. `Regions` has the
-- tests on the mapped regions of the device, `Entries` the changes of the map, `Ops` the operations;
-- `Gaps` and `Moved` are about gaps and about addresses after a move.
pub mod Regions
pub mod Entries
pub mod Ops
pub mod Gaps
pub mod Moved
