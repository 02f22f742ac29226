-- ===== src/Alloc.antt =====
-- src/alloc.rs: the refinement-tree allocator. `Record` has the table records and the scans over
-- them, `Table` the root table, `Arena` the table blocks and the AG header, `Counters` the counters and
-- whole level-0 cells, `Extents` allocating blocks, `Free` freeing them, `Slots` inode slots; `Account`
-- and `Bitmap` are about the counters and the bitmap of used records.
pub mod Record
pub mod Table
pub mod Arena
pub mod Counters
pub mod Extents
pub mod Free
pub mod Slots
pub mod Account
pub mod Bitmap
