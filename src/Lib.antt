-- ===== src/Lib.antt =====
-- 5FS: the on-disk formats, the block device, the metadata journal, the allocator, extent trees, hashed
-- directories, the operations on files and directories, and online resize of the library in src/.
--
-- The program is a file system library. A device is split into allocation groups (AGs); the AG map says
-- where the blocks of each AG lie on the device, and a block's address is an AG number and a block in it.
-- All changes of metadata go through transactions: new contents of blocks, which `commit` writes to the
-- journal, applies in place and checkpoints in the superblock; `replay` repeats at mount what was written
-- to the journal but not checkpointed. The allocator keeps a tree of 2-bit states in table blocks, which
-- it reads and writes through a transaction too. A file's blocks are found through extents in its inode
-- or a tree of node blocks, a large directory is a hash table in its own blocks, and both take blocks from
-- the allocator; an operation on a file or a directory is one transaction over all of these, which its
-- last step commits. Resizing changes the AG map and the superblock.
--
-- Which file models what:
--   Prelude       what a Rust call gives back (a value, an error, a panic), methods with state, the runs
--                 of a loop without fuel (`Loops`), native numbers and lists.
--   Fmt           src/fmt.rs: `Bytes` the integer fields, `Checksum` csum, `Cells` cell_get and cell_set,
--                 `Superblock`, `AgHeader`, `AgMap`, `Inode` the structs with to_bytes and parse,
--                 `Extents` extents_parse and extents_store, `Dirents` dir_parse and dir_append,
--                 `RootTable` rt_geometry and rt_ref_off, `Addr` blk_addr and blk_split.
--   Device        src/device.rs: pread, pwrite, sync, set_len and the write recorder.
--   Fs            src/fs.rs: Gofs, finding the superblock and the AG map, resolve, blocks, AG headers,
--                 inodes read and written as a whole. `Journal.Open` has Gofs::open.
--   Journal       src/journal.rs: `Txn`, `Encode` desc_block and commit_block, `Commit` commit, `Replay`
--                 try_read_txn and journal_pending, `Recover` replay; `Store` and `Readback` their laws.
--   Alloc         src/alloc.rs: `Record` table records and scans, `Table` the root table, `Arena` table
--                 blocks, `Counters`, `Extents` alloc_extent, `Free` free_extent, `Slots` inode slots.
--   Extent        src/extent.rs: `Node` the records of root and node blocks, `Lookup` map_lookup, `Blocks`
--                 nodes read and written, redistribute and root_grow, `Insert` to_tree and insert_run,
--                 `Inline` extent_ensure, `Ensure` map_ensure, `Free` map_free_all, `Truncate` map_truncate.
--   Dir           src/dir.rs: `Hash` hash_name and bucket_index, `Bucket` the entries of a bucket, `Table`
--                 and `Stores` its blocks, `Find` dir_find and dir_list, `Insert` dir_insert, `Embedded`
--                 and `Remove` dir_remove and try_merge, `Check` dir_check.
--   File          src/fs.rs: `Op` what the operations share, `Paths` lookup_path and resolve_parent, `Read`,
--                 `Write`, `Truncate` the content of files, `Create` mknod and link_at, `Remove`
--                 remove_common, `Rename` rename_at, `Attr` setattr, the calls by path, kernel_update.
--   Resize        src/resize.rs: `Regions` mapped_end, overlaps and find_gap, `Entries` changes of the
--                 map and of a fresh AG, `Ops` add_ag, grow, relocate, retire and shrink.
--   Tests         the theorems applied to a small file system.
--
-- A struct is a record, an enum of cell states its numbers, a byte string a list of numbers. Numbers are
-- unbounded; a sum of `u32` or `u64` that may pass its width in a release build has its wrap-around written
-- out, and positions within a file or a block that the code has checked against an end have none. A method on `&mut self` is a
-- function from the state to a result and the state, which comes back beside an error too. A
-- BTreeMap of blocks is a list in ascending order of the addresses.
--
-- Loops without a bound in the code take fuel. `free_extent` has a round for each block, since a round
-- frees a block or more; `dir_parse` one for each byte of the payload, since a round takes 10 or more;
-- copying a segment one for each of its blocks, since a round copies 256 or the rest; reading a file and
-- zeroing its tail one for each byte, mapping a range one for each block, since a round passes one or more.
-- `to_tree` has 11 rounds and `map_ensure` 12, for the levels 0 to 10 that 64-bit block numbers need; the
-- split loop of a directory has 11, for the depths up to 9, and the merge loop 2^10, for at most 2^9 buckets.
-- The depth of an extent tree, which a damaged device may link in a circle, the rounds of the journal's
-- replay and those of `shrink` are fuel that is an argument. Without fuel a loop stops with the error
-- no_fuel, which the code does not have.
--
-- Parameters: CRC-32C is the record Crc32c and SipHash-2-4 the record SipHash24, of which only the widths of
-- their results are used; the clock is a function from the places where an operation reads it to times. A
-- name is its UTF-16 units, a symbolic link's target its UTF-8 bytes. Not modelled: opening files of the
-- operating system, hardware faults, the label as text, mkfs, fsck and the programs in src/bin.
pub mod Prelude
pub mod Fmt
pub mod Device
pub mod Fs
pub mod Journal
pub mod Alloc
pub mod Extent
pub mod Dir
pub mod File
pub mod Resize
mod Tests
