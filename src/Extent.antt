-- ===== src/Extent.antt =====
-- src/extent.rs: where the blocks of a file lie. `Node` has the records of the tree's root, in the
-- inode's payload, and of its node blocks; `Lookup` finds a block, `Blocks` reads and writes nodes through
-- the transaction, `Insert` records runs, `Ensure` maps a range by allocating, `Free` and `Truncate`
-- release blocks.
pub mod Node
pub mod Lookup
pub mod Blocks
pub mod Insert
pub mod Inline
pub mod Ensure
pub mod Free
pub mod Truncate
