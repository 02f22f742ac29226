-- ===== src/File/Write.antt =====
-- src/fs.rs, `write` and `lift_embed`. Data goes to its place on the device before the transaction with the
-- metadata is committed.
use fs.Fs.Read.{resolve}
use fs.Prelude.Exec.{◌>>=◌, ◌>>◌, Exec, pure, reads, lift}
use fs.Alloc.Table.{Alloc, sub_u64, add_u64, superblock}
use fs.Fs.Write.{on_dev}
use fs.File.Op.{with_txn, on_fs, is_immutable, touch, get_inode, put_inode, commit_txn}
use fs.Extent.Ensure.{Run, map_ensure}
use fs.Fmt.Bytes.{Bytes, put_slice, get_slice}
use fs.Fmt.Addr.{blk_split}
use fs.Fmt.RootTable.{div_ceil}
use fs.Fmt.Inode.{Ts, Inode, inode_payload, fmt_empty, fmt_embed, is_dir}
use fs.Fmt.Checksum.{Crc32c}
use fs.Device.{pread, pwrite}
use fs.Prelude.{
  ℕ, zero, suc, ◌+◌, ◌-◌, ◌*◌, ◌/◌, min, max, Bool, false, not, ◌&&◌, ◌||◌, List, [], ◌∷◌, length,
  leb, ◌==◌, if◌then◌else◌, get_elem?, replicate, ensure, checked, unwrap, is_a_directory,
  immutable_file,
}
use fs.Fs.{Gofs}

module _ ⦃crc : Crc32c⦄ where
  -- The part of one block of the file: the blocks that become used, 1 where a fresh block has a part.
  unfoldable pub write_part : (offset end : ℕ) → Bytes → Bool → (fb blk : ℕ) → Alloc ℕ
  write_part offset end bytes fresh fb blk = do
    sb ← superblock
    let bs = sb.blocksize
    let start = fb * bs
    let a = max offset start
    let z = min end (start + bs)
    if leb z a then pure 0 else do
      phys ← reads (λ s. resolve s.fs blk)
      piece ← lift (get_slice bytes (a - offset) (z - a))
      if a == start && z == start + bs then on_fs (on_dev (pwrite piece phys)) else do
        buf ← if fresh then pure (replicate bs 0) else reads (λ s. pread s.fs.dev bs phys)
        buf ← lift (put_slice buf (a - start) piece)
        on_fs (on_dev (pwrite buf phys))
      pure (if fresh then 1 else 0)

  -- The blocks of a run from number `b` on.
  unfoldable pub write_run : (offset end : ℕ) → Bytes → Run → (n b : ℕ) → Alloc ℕ
  unfolding write_part
  write_run offset end bytes r zero b = pure 0
  write_run offset end bytes r (suc n) b = do
    used ← write_part offset end bytes r.is_fresh (r.file_block + b) (r.blk + b)
    more ← write_run offset end bytes r n (suc b)
    pure (used + more)

  unfoldable pub write_runs : (offset end : ℕ) → Bytes → List Run → Alloc ℕ
  unfolding write_run
  write_runs offset end bytes [] = pure 0
  write_runs offset end bytes (r ∷ rs) = do
    used ← write_run offset end bytes r r.len 0
    more ← write_runs offset end bytes rs
    pure (used + more)

module _ ⦃crc : Crc32c⦄ (levels : ℕ) where
  -- The data in the payload moves to a block.
  unfoldable pub lift_embed : ℕ → Inode → Alloc Inode
  lift_embed ino inode = do
    bytes ← lift (get_slice inode.payload 0 inode.size)
    let blank : Inode = record inode { format = fmt_empty; payload = replicate inode_payload 0 }
    if inode.size == 0 then pure blank else do
      sb ← superblock
      (inode, runs) ← map_ensure levels (blk_split ino).0 blank 0 1
      buf ← lift (put_slice (replicate sb.blocksize 0) 0 bytes)
      first ← lift (unwrap (get_elem? runs 0))
      phys ← reads (λ s. resolve s.fs first.blk)
      on_fs (on_dev (pwrite buf phys))
      pure (record inode { nblocks = add_u64 inode.nblocks 1 })

  -- The data goes into blocks.
  unfoldable pub write_mapped : ℕ → Inode → (offset end : ℕ) → Bytes → Alloc Inode
  unfolding lift_embed write_runs
  write_mapped ino inode offset end bytes = do
    sb ← superblock
    inode ← if inode.format == fmt_embed then lift_embed ino inode else pure inode
    fb ← lift (checked sb.blocksize (offset / sb.blocksize))
    (inode, runs) ←
        map_ensure levels (blk_split ino).0 inode fb (sub_u64 (div_ceil end sb.blocksize) fb)
    used ← write_runs offset end bytes runs
    pure (record inode { nblocks = add_u64 inode.nblocks used })

  unfoldable pub write_inode : ℕ → Inode → (offset end : ℕ) → Bytes → Alloc Inode
  unfolding write_mapped
  write_inode ino inode offset end bytes =
      if (inode.format == fmt_empty || inode.format == fmt_embed) && leb end inode_payload
      then (do
        payload ← lift (put_slice inode.payload offset bytes)
        pure (record inode { format = fmt_embed; payload = payload }))
      else write_mapped ino inode offset end bytes

  unfoldable pub write : (ℕ → Ts) → ℕ → ℕ → Bytes → Exec Gofs ℕ
  unfolding write_inode
  write clock ino offset bytes =
      if length bytes == 0
      then pure 0
      else with_txn (do
        inode ← get_inode ino
        lift (ensure (not (is_dir inode)) is_a_directory)
        lift (ensure (not (is_immutable inode)) immutable_file)
        let end = add_u64 offset (length bytes)
        inode ← write_inode ino inode offset end bytes
        let longer : Inode = record inode { size = max inode.size end }
        put_inode ino (touch (clock 0) false longer)
        commit_txn
        pure (length bytes))
