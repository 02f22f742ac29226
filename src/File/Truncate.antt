-- ===== src/File/Truncate.antt =====
-- src/fs.rs, `truncate` and `zero_tail`. A round of the loop of `zero_tail` passes a byte or more.
use fs.Fs.Read.{resolve}
use fs.Prelude.Exec.{◌>>=◌, ◌>>◌, Exec, pure, reads, lift}
use fs.Alloc.Table.{Alloc, superblock}
use fs.Fs.Write.{on_dev}
use fs.File.Op.{with_txn, on_fs, is_immutable, touch, get_inode, put_inode, commit_txn}
use fs.File.Read.{skip_hole}
use fs.Extent.Truncate.{map_truncate}
use fs.Extent.Lookup.{map_lookup}
use fs.Extent.Node.{hole, run}
use fs.Extent.Free.{map_free_all}
use fs.Fmt.Bytes.{put_slice}
use fs.Fmt.RootTable.{div_ceil}
use fs.Fmt.Inode.{Ts, Inode, inode_payload, fmt_empty, fmt_embed, fmt_extent, fmt_tree, is_dir}
use fs.Fmt.Checksum.{Crc32c}
use fs.Device.{pwrite}
use fs.Prelude.{
  ◌^◌, ℕ, zero, suc, ◌+◌, ◌-◌, ◌/◌, ◌%◌, min, max, false, not, ◌||◌, ltb, ◌==◌, if◌then◌else◌,
  replicate, ensure, checked, no_fuel, is_a_directory, immutable_file, bad_file_format, err,
}
use fs.Fs.{Gofs}

module _ ⦃crc : Crc32c⦄ (levels : ℕ) where
  -- The mapped bytes of a range become zeros.
  unfoldable pub zero_tail : ℕ → Inode → (pos to : ℕ) → Alloc (Unit {0})
  unfolding skip_hole
  zero_tail zero inode pos to = if ltb pos to then lift (err no_fuel) else pure tt
  zero_tail (suc fuel) inode pos to =
      if ltb pos to
      then (do
        sb ← superblock
        let bs = sb.blocksize
        fb ← lift (checked bs (pos / bs))
        let in_blk = pos % bs
        found ← reads (λ s. map_lookup levels s.fs s.txn inode fb)
        elim found [
          | run blk len ↦ do
            let n = min (bs - in_blk) (to - pos)
            start ← reads (λ s. resolve s.fs blk)
            on_fs (on_dev (pwrite (replicate n 0) ((start + in_blk) % 2 ^ 64)))
            zero_tail fuel inode (pos + n) to
          | hole n ↦ zero_tail fuel inode (pos + max (skip_hole n bs in_blk) 1) to
        ])
      else pure tt

  -- What a smaller size does to the content.
  unfoldable pub shrink_content : Inode → (old size : ℕ) → Alloc Inode
  unfolding zero_tail
  shrink_content inode old size =
      if inode.format == fmt_empty
      then pure inode
      else if inode.format == fmt_embed
      then (do
        payload ← lift (put_slice inode.payload size (replicate (inode_payload - size) 0))
        pure (record inode { payload = payload }))
      else if inode.format == fmt_extent || inode.format == fmt_tree
      then if size == 0 then map_free_all levels inode else (do
        sb ← superblock
        cutoff ← lift (checked sb.blocksize (div_ceil size sb.blocksize))
        (inode, freed) ← map_truncate levels inode cutoff
        let smaller : Inode = record inode { nblocks = inode.nblocks - freed }
        zero_tail (old - size) smaller size old
        pure smaller)
      else lift (err bad_file_format)

  unfoldable pub truncate : (ℕ → Ts) → ℕ → ℕ → Exec Gofs (Unit {0})
  unfolding shrink_content
  truncate clock ino size = with_txn (do
    inode ← get_inode ino
    lift (ensure (not (is_dir inode)) is_a_directory)
    lift (ensure (not (is_immutable inode)) immutable_file)
    let old = inode.size
    if size == old then pure tt else do
      inode ← if ltb size old then shrink_content inode old size else pure inode
      let sized : Inode = record inode { size = size }
      put_inode ino (touch (clock 0) false sized)
      commit_txn)
