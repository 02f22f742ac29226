-- ===== src/Fmt.antt =====
-- src/fmt.rs: the on-disk format.
pub mod Bytes
pub mod Checksum
pub mod AgHeader
pub mod Cells
pub mod Addr
pub mod AgMap
pub mod RootTable
pub mod Extents
pub mod Dirents
pub mod Superblock
pub mod Inode
