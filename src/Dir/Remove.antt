-- ===== src/Dir/Remove.antt =====
-- src/dir.rs, `dir_remove` and `try_merge`. Each round of the loop of `try_merge` ends it, merges two of at
-- most 2^9 buckets or halves the table, so 2^10 rounds are enough for an undamaged directory.
pub mod Halve
use fs.Alloc.Record.Order.{count}
use fs.Dir.Embedded.{remove_at, embed_remove}
use fs.Prelude.Exec.{◌>>=◌, ◌>>◌, pure, reads, lift}
use fs.Alloc.Table.{Alloc, superblock}
use fs.Dir.Hash.{SipHash24, hash_name, shift_one, sub_u8}
use fs.Dir.Bucket.{bk_hdr, hentries_size}
use fs.Dir.Table.{Header, Bucket, dhdr_read, bucket_read}
use fs.Dir.Find.{dir_entry, hposition, dir_count, bucket_of}
use fs.Dir.Stores.{dhdr_write, bucket_write}
use fs.Extent.Free.{map_free_all}
use fs.Fmt.Dirents.{DirEntry}
use fs.Fmt.Inode.{Inode, fmt_empty, fmt_embed, fmt_extent, fmt_tree}
use fs.Fmt.Checksum.{Crc32c}
use fs.Prelude.{
  ℕ, zero, suc, ◌+◌, ◌-◌, ◌^◌, bit_xor, Bool, true, false, not, ◌||◌, List, [], ◌∷◌, ◌++◌, length,
  ltb, ◌==◌, if◌then◌else◌, get_elem?, Out, unwrap, found_or, no_fuel, not_found, bad_dir_format,
  ok, err, panic,
}

-- `table.chunks(2).all(|p| p[0] == p[1])`, which panics at an odd length.
unfoldable pub pairs_equal : List ℕ → Out Bool
pairs_equal [] = ok true
pairs_equal (a ∷ []) = panic
pairs_equal (a ∷ (b ∷ table)) = if a == b then pairs_equal table else ok false

-- The first of each pair.
unfoldable pub halved : List ℕ → List ℕ
halved [] = []
halved (a ∷ []) = a ∷ []
halved (a ∷ (b ∷ table)) = a ∷ halved table

-- Every slot with one bucket gets another one.
unfoldable pub replaced : ℕ → ℕ → List ℕ → List ℕ
replaced bno2 bno [] = []
replaced bno2 bno (b ∷ table) = (if b == bno2 then bno else b) ∷ replaced bno2 bno table

-- The slot of the buddy of a bucket: the other value of the deepest bit that selects it.
unfoldable pub buddy_index : (idx depth local_depth : ℕ) → ℕ
unfolding shift_one
buddy_index idx depth local_depth = bit_xor idx (shift_one (sub_u8 depth local_depth))

module _ ⦃crc : Crc32c⦄ (levels : ℕ) where
  -- Two buckets become one; the number of the second is free again.
  unfoldable pub merge_pair : Header → ℕ → Bucket → ℕ → Bucket → Alloc (Unit {0})
  unfolding replaced
  merge_pair h bno bucket bno2 bucket2 = do
    bucket_write bucket.blk (bucket.local_depth - 1) (bucket.entries ++ bucket2.entries)
    bucket_write bucket2.blk 0 []
    dhdr_write (record h { table = replaced bno2 bno h.table; freelist = h.freelist ++ bno2 ∷ [] })

  -- One slot: whether its bucket was merged with its buddy.
  unfoldable pub merge_at : Inode → Header → ℕ → Alloc Bool
  unfolding merge_pair buddy_index hentries_size
  merge_at inode h idx = do
    sb ← superblock
    bno ← lift (unwrap (get_elem? h.table idx))
    bucket ← reads (λ s. bucket_read levels s.fs s.txn inode bno)
    if bucket.local_depth == 0 then pure false else do
      bno2 ← lift (unwrap (get_elem? h.table (buddy_index idx h.depth bucket.local_depth)))
      if bno2 == bno then pure false else do
        bucket2 ← reads (λ s. bucket_read levels s.fs s.txn inode bno2)
        let used = hentries_size bucket.entries + hentries_size bucket2.entries
        if not (bucket2.local_depth == bucket.local_depth) || ltb sb.blocksize (bk_hdr + used)
            then pure false
            else (do merge_pair h bno bucket bno2 bucket2; pure true)

  -- The first slot from `idx` on where a merge is possible.
  unfoldable pub merge_first : Inode → Header → ℕ → ℕ → Alloc Bool
  unfolding merge_at
  merge_first inode h zero idx = pure false
  merge_first inode h (suc n) idx = do
    acted ← merge_at inode h idx
    if acted then pure true else merge_first inode h n (suc idx)

  unfoldable pub merge_loop : ℕ → Inode → Alloc (Unit {0})
  unfolding merge_first pairs_equal halved
  merge_loop zero inode = lift (err no_fuel)
  merge_loop (suc rounds) inode = do
    h ← reads (λ s. dhdr_read levels s.fs s.txn inode)
    if h.depth == 0 then pure tt else do
      acted ← merge_first inode h (length h.table) 0
      if acted then merge_loop rounds inode else do
        same ← lift (pairs_equal h.table)
        if same
            then (do
              dhdr_write (record h { depth = h.depth - 1; table = halved h.table })
              merge_loop rounds inode)
            else pure tt

  unfoldable pub try_merge : Inode → Alloc (Unit {0})
  unfolding merge_loop
  try_merge = merge_loop (2 ^ 10)

module _ ⦃crc : Crc32c⦄ ⦃sip : SipHash24⦄ (levels : ℕ) where
  -- A table without entries frees its blocks.
  unfoldable pub hashed_remove : Inode → List ℕ → Alloc (Inode × DirEntry)
  unfolding bucket_of hposition remove_at
  hashed_remove inode name = do
    sb ← superblock
    h ← lift (hash_name sb.uuid name)
    (dh, bno, bucket) ← reads (λ s. bucket_of levels s.fs s.txn inode h)
    i ← lift (found_or (hposition h name bucket.entries) not_found)
    removed ← lift (unwrap (get_elem? bucket.entries i))
    bucket_write bucket.blk bucket.local_depth (remove_at i bucket.entries)
    try_merge levels inode
    count ← reads (λ s. dir_count levels s.fs s.txn inode)
    inode ← if count == 0 then map_free_all levels inode else pure inode
    pure (inode, dir_entry removed)

  unfoldable pub dir_remove : Inode → List ℕ → Alloc (Inode × DirEntry)
  unfolding hashed_remove embed_remove
  dir_remove inode name =
      if inode.format == fmt_embed
      then lift (embed_remove inode name)
      else if inode.format == fmt_extent || inode.format == fmt_tree
      then hashed_remove inode name
      else if inode.format == fmt_empty
      then lift (err not_found)
      else lift (err bad_dir_format)
