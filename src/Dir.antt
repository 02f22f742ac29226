-- ===== src/Dir.antt =====
-- src/dir.rs: directories, which are a list in the inode's payload or a hash table in the directory's own
-- blocks. `Hash` has the name hash, `Bucket` the entries of a bucket, `Table` the header block and the
-- buckets as they are read, `Stores` as they are written, `Find` the calls that read, `Insert`, `Embedded` and `Remove` those
-- that write,
-- `Check` the test of the structure.
pub mod Hash
pub mod Bucket
pub mod Table
pub mod Stores
pub mod Find
pub mod Embedded
pub mod Insert
pub mod Remove
pub mod Check
