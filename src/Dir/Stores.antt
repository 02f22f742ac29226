-- ===== src/Dir/Stores.antt =====
-- src/dir.rs, the blocks of a hashed directory as they are written: `dir_block_ensure`, `dhdr_write` and
-- `bucket_write`.
pub mod Readback
pub mod HeaderBlock
use fs.Prelude.Exec.{◌>>=◌, pure, lift, attempt}
use fs.Alloc.Table.{Alloc, add_u64, read_at, write_at, superblock}
use fs.Dir.Bucket.{HEntry, bucket_build}
use fs.Dir.Table.{Header, header_block}
use fs.Extent.Ensure.{map_ensure}
use fs.Fmt.Bytes.{Bytes, put_u32, put_u64, get_u64}
use fs.Fmt.Inode.{Inode}
use fs.Fmt.Checksum.{Crc32c, csum}
use fs.Prelude.{ℕ, List, get_elem?, Error, unwrap}

module _ ⦃crc : Crc32c⦄ where
  unfoldable pub dir_block_ensure : ℕ → ℕ → Inode → ℕ → Alloc (Inode × ℕ)
  dir_block_ensure levels ag inode fb = do
    (inode, runs) ← map_ensure levels ag inode fb 1
    first ← lift (unwrap (get_elem? runs 0))
    pure (inode, first.blk)

  -- The generation of a block that is written anew, 0 where it cannot be read.
  unfoldable pub old_gen : ℕ → Alloc ℕ
  old_gen blk = attempt (read_at blk) (λ (b : Bytes). lift (get_u64 b 8)) (λ (e : Error). pure 0)

  -- A block with its checksum.
  unfoldable pub write_summed : ℕ → Bytes → Alloc (Unit {0})
  write_summed blk buf = do c ← lift (csum buf 4); buf ← lift (put_u32 buf 4 c); write_at blk buf

  unfoldable pub dhdr_write : Header → Alloc (Unit {0})
  unfolding old_gen write_summed header_block
  dhdr_write h = do
    sb ← superblock
    old ← old_gen h.blk
    buf ← lift (header_block sb.blocksize old h)
    write_summed h.blk buf

  unfoldable pub bucket_write : ℕ → ℕ → List HEntry → Alloc (Unit {0})
  unfolding old_gen write_summed bucket_build
  bucket_write blk local_depth entries = do
    sb ← superblock
    buf ← lift (bucket_build sb.blocksize local_depth entries)
    old ← old_gen blk
    buf ← lift (put_u64 buf 8 (add_u64 old 1))
    write_summed blk buf
