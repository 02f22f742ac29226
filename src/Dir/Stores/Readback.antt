-- ===== src/Dir/Stores/Readback.antt =====
-- src/dir.rs: a bucket that `bucket_write` writes is the one that `bucket_read` reads.
use fs.Journal.Txn.Laws.{txn_read-txn_write_self}
use fs.Alloc.Table.{AllocState, add_u64}
use fs.Dir.Bucket.Roundtrip.{AllHEntries, flat, head, entries_from-flat, bucket_build-head}
use fs.Dir.Bucket.{bucket_magic, bk_hdr, HEntry, hentries_size, entries_from, bucket_entries}
use fs.Dir.Table.{dir_block_addr, dir_block_read, bucket_read}
use fs.Dir.Stores.{old_gen, write_summed, bucket_write}
use fs.Extent.Lookup.{map_lookup}
use fs.Journal.Txn.{Txn, txn_write}
use fs.Fmt.Bytes.Laws.{from_be-to_be_two, from_be-to_be_four, bytes_eq_refl}
use fs.Fmt.Bytes.{
  Bytes, to_be, overwrite, put_slice, get_prefix, get_suffix, get_slice, get_byte, put_u32, put_u64,
  get_u16, get_u32,
}
use fs.Fmt.Inode.{Inode, fmt_extent}
use fs.Fmt.Checksum.{Crc32c, csum}
use fs.Prelude.{
  ℕ, ◌+◌, ◌-◌, ◌^◌, ◌≤◌, ◌<◌, ◌≡◌, refl, ap, ◌∙◌, List, [], ◌∷◌, ◌++◌, length, replicate, all, ok,
  ==-refl,
}
use fs.Fs.{Gofs}

module _ ⦃crc : Crc32c⦄ (local_depth n gen : ℕ) (rest : Bytes) where
  -- What follows the checksum of a bucket.
  abbrev pub behind_sum : Bytes
  behind_sum = to_be 8 gen ++ (local_depth ∷ 0 ∷ to_be 2 n ++ (replicate 4 0 ++ rest))

  abbrev pub bucket_sum : ℕ
  bucket_sum =
      crc.crc32c_append (crc.crc32c_append (crc.crc32c bucket_magic) (0 ∷ 0 ∷ 0 ∷ 0 ∷ []))
        behind_sum

  abbrev pub with_sum : Bytes → Bytes
  with_sum c = bucket_magic ++ (c ++ behind_sum)

  put_gen : put_u64 (head local_depth n ++ rest) 8 gen ≡ ok (with_sum (0 ∷ 0 ∷ 0 ∷ 0 ∷ []))
  unfolding head put_u64 put_slice overwrite to_be
  put_gen = refl

  csum_zeros : csum (with_sum (0 ∷ 0 ∷ 0 ∷ 0 ∷ [])) 4 ≡ ok bucket_sum
  unfolding csum get_prefix get_suffix to_be
  csum_zeros = refl

  put_sum :
      put_u32 (with_sum (0 ∷ 0 ∷ 0 ∷ 0 ∷ [])) 4 bucket_sum ≡ ok (with_sum (to_be 4 bucket_sum))
  unfolding put_u32 put_slice overwrite to_be
  put_sum = refl

  -- The parts that `bucket_read` takes from the block.
  sealed_parts :
      n < 2 ^ 16
      → (get_slice (with_sum (to_be 4 bucket_sum)) 0 4 ≡ ok bucket_magic)
        × (get_u32 (with_sum (to_be 4 bucket_sum)) 4 ≡ ok bucket_sum)
        × (csum (with_sum (to_be 4 bucket_sum)) 4 ≡ ok bucket_sum)
        × (get_u16 (with_sum (to_be 4 bucket_sum)) 18 ≡ ok n)
        × (get_byte (with_sum (to_be 4 bucket_sum)) 16 ≡ ok local_depth)
  sealed_parts few = (
    unfold get_slice get_prefix get_suffix to_be in refl,
    unfold get_u32 get_slice get_prefix get_suffix to_be in
        ap ok (from_be-to_be_four bucket_sum (crc.crc32c_append-lt _ behind_sum)),
    unfold csum get_prefix get_suffix to_be in refl,
    unfold get_u16 get_slice get_prefix get_suffix to_be in ap ok (from_be-to_be_two n few),
    unfold get_byte to_be in refl,
  )

module _ ⦃crc : Crc32c⦄ (levels : ℕ) where
  -- Inline extents are looked up without a look at any block.
  pub inline_addr :
      (g : Gofs) (t t' : Txn) (inode : Inode) (fb : ℕ)
      → inode.format ≡ fmt_extent
      → dir_block_addr levels g t inode fb ≡ dir_block_addr levels g t' inode fb
  unfolding dir_block_addr map_lookup
  inline_addr g t t' inode fb extent = rw extent refl

  -- In a directory with inline extents, entries that fit their widths and whose names are text are written to a
  -- bucket that has room for them, and then the bucket is read back with these entries, the local depth and its
  -- block. The generation of the block that is written anew can be read.
  pub bucket_read-bucket_write :
      (s : AllocState) (inode : Inode) (bno blk local_depth old : ℕ) (es : List HEntry)
      → inode.format ≡ fmt_extent
      → dir_block_addr levels s.fs s.txn inode (1 + bno) ≡ ok blk
      → old_gen blk s ≡ (ok old, s)
      → 24 + hentries_size es ≤ s.fs.sb.blocksize
      → length es < 2 ^ 16
      → AllHEntries es
      → (content : Bytes) × (bucket_write blk local_depth es s
          ≡ (ok tt, record s { txn = txn_write s.txn blk content }))
        × (bucket_read levels s.fs (txn_write s.txn blk content) inode bno
            ≡ ok (record { entries = es; local_depth = local_depth; blk = blk }))
  unfolding bucket_write write_summed bucket_read dir_block_read bucket_entries
  bucket_read-bucket_write s inode bno blk local_depth old es extent at gen fits few all =
      let rest : Bytes = flat es ++ replicate (s.fs.sb.blocksize - 24 - hentries_size es) 0 in
      let g = add_u64 old 1 in
      let sum = bucket_sum local_depth (length es) g rest in
      let sealed : Bytes = with_sum local_depth (length es) g rest (to_be 4 sum) in
      let t : Txn = txn_write s.txn blk sealed in
      let parts = sealed_parts local_depth (length es) g rest few in
      let addr : dir_block_addr levels s.fs t inode (1 + bno) ≡ ok blk =
        inline_addr s.fs t s.txn inode (1 + bno) extent ∙ at in
      let entries : entries_from (length es) sealed bk_hdr ≡ ok es =
        unfold to_be in
        (entries_from-flat es
          (bucket_magic
            ++ (to_be 4 sum
                ++ (to_be 8 g ++ (local_depth ∷ 0 ∷ to_be 2 (length es) ++ replicate 4 0))))
          (replicate (s.fs.sb.blocksize - 24 - hentries_size es) 0) 24 refl all) in
      (
        sealed,
        rw
            (
              bucket_build-head s.fs.sb.blocksize local_depth es fits few all,
              gen,
              put_gen local_depth (length es) g rest,
              csum_zeros local_depth (length es) g rest,
              put_sum local_depth (length es) g rest,
            )
            refl,
        rw
            (
              addr,
              txn_read-txn_write_self s.fs s.txn blk sealed,
              parts.0,
              bytes_eq_refl bucket_magic,
              parts.1,
              parts.2,
              ==-refl sum,
              parts.3,
              entries,
              parts.4,
            )
            refl,
      )
