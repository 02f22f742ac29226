-- ===== src/Dir/Insert.antt =====
-- src/dir.rs, `dir_insert`, `dir_to_hashed` and `hashed_insert`. A bucket is split at most once for each
-- of the levels 0 to `max_depth`, so an undamaged directory needs 10 rounds of the loop at most.
pub mod Split
pub mod Partition
pub mod Inserted
use fs.Prelude.Exec.{◌>>=◌, ◌>>◌, pure, reads, lift, attempt}
use fs.Alloc.Table.{Alloc, superblock}
use fs.Dir.Hash.{SipHash24, hash_name, sub_u8}
use fs.Dir.Bucket.{HEntry, bucket_fits}
use fs.Dir.Table.{max_depth, Header, Bucket}
use fs.Dir.Find.{bucket_of, dir_find}
use fs.Dir.Stores.{dir_block_ensure, dhdr_write, bucket_write}
use fs.Fmt.Bytes.{Bytes}
use fs.Fmt.Addr.{blk_split}
use fs.Fmt.Dirents.{DirEntry, dir_parse, dir_append}
use fs.Fmt.Inode.{Inode, inode_payload, fmt_empty, fmt_embed, fmt_extent, fmt_tree}
use fs.Fmt.Checksum.{Crc32c}
use fs.Prelude.{
  ℕ, zero, suc, ◌+◌, ◌*◌, ◌/◌, ◌%◌, ◌^◌, max, ◌&&◌, ◌||◌, Option, none, some, List, [], ◌∷◌, ◌++◌,
  ltb, ◌==◌, if◌then◌else◌, replicate, Error, Out, no_fuel, already_exists, too_deep,
  bad_dir_format, ok, err,
}

-- Each slot of the table twice.
unfoldable pub doubled : List ℕ → List ℕ
doubled [] = []
doubled (b ∷ table) = b ∷ b ∷ doubled table

-- The slots of a split bucket whose new index bit is set go to the new bucket.
unfoldable pub redirect : (bno new_bno shift : ℕ) → ℕ → List ℕ → List ℕ
redirect bno new_bno shift idx [] = []
redirect bno new_bno shift idx (b ∷ table) =
    (if b == bno && idx / 2 ^ shift % 2 == 1 then new_bno else b)
    ∷ redirect bno new_bno shift (suc idx) table

-- `partition` by a bit of the hash: first the entries where it is 0.
unfoldable pub partition : ℕ → List HEntry → List HEntry × List HEntry
partition bit [] = ([], [])
partition bit (e ∷ es) =
    let (stay, go) = partition bit es in
    if e.hash / 2 ^ bit % 2 == 0 then (e ∷ stay, go) else (stay, e ∷ go)

-- `Vec::pop`: the last element and those before it.
unfoldable pub pop : List ℕ → Option (ℕ × List ℕ)
pop [] = none
pop (b ∷ bs) = elim (pop bs) [ none ↦ some (b, []) | some last ↦ some (last.0, b ∷ last.1) ]

-- The number of the new bucket: the last freed one, or one more.
unfoldable pub new_bucket : Header → ℕ × Header
unfolding pop
new_bucket h = elim (pop h.freelist) [
  | some last ↦ (last.0, record h { freelist = last.1 })
  | none ↦ (h.nbuckets, record h { nbuckets = (h.nbuckets + 1) % 2 ^ 32 })
]

-- The table is doubled where the bucket has all of its depth.
unfoldable pub deepen : ℕ → Header → Out Header
unfolding doubled
deepen local_depth h =
    if local_depth == h.depth
    then if ltb h.depth max_depth
      then ok (record h { depth = h.depth + 1; table = doubled h.table })
      else err too_deep
    else ok h

module _ ⦃crc : Crc32c⦄ (levels : ℕ) where
  -- One split of a bucket.
  unfoldable pub split_bucket : ℕ → Inode → Header → ℕ → Bucket → Alloc Inode
  unfolding deepen new_bucket partition redirect
  split_bucket ag inode h bno bucket = do
    sb ← superblock
    h ← lift (deepen bucket.local_depth h)
    let (new_bno, h) = new_bucket h
    (inode, nblk) ← dir_block_ensure levels ag inode (1 + new_bno)
    let sized : Inode = record inode { size = max inode.size ((2 + new_bno) * sb.blocksize) }
    let ld = bucket.local_depth
    let (stay, go) = partition (sub_u8 63 ld % 64) bucket.entries
    bucket_write bucket.blk ((ld + 1) % 2 ^ 8) stay
    bucket_write nblk ((ld + 1) % 2 ^ 8) go
    let table = redirect bno new_bno (sub_u8 (sub_u8 h.depth 1) ld % 64) 0 h.table
    dhdr_write (record h { table = table })
    pure sized

module _ ⦃crc : Crc32c⦄ ⦃sip : SipHash24⦄ (levels : ℕ) where
  unfoldable pub insert_loop : ℕ → ℕ → Inode → HEntry → Alloc Inode
  unfolding bucket_of split_bucket
  insert_loop zero ag inode new = lift (err no_fuel)
  insert_loop (suc rounds) ag inode new = do
    sb ← superblock
    (h, bno, bucket) ← reads (λ s. bucket_of levels s.fs s.txn inode new.hash)
    if bucket_fits sb.blocksize bucket.entries new
        then (do
          bucket_write bucket.blk bucket.local_depth (bucket.entries ++ new ∷ [])
          pure inode)
        else (do inode ← split_bucket levels ag inode h bno bucket; insert_loop rounds ag inode new)

  unfoldable pub hashed_insert : ℕ → Inode → DirEntry → Alloc Inode
  unfolding insert_loop
  hashed_insert dir_ino inode e = do
    sb ← superblock
    h ← lift (hash_name sb.uuid e.name)
    insert_loop 11 (blk_split dir_ino).0 inode
        (record { ino = e.ino; hash = h; ftype = e.ftype; name = e.name })

  unfoldable pub insert_each : ℕ → List DirEntry → Inode → Alloc Inode
  unfolding hashed_insert
  insert_each dir_ino [] inode = pure inode
  insert_each dir_ino (e ∷ es) inode = do
    inode ← hashed_insert dir_ino inode e
    insert_each dir_ino es inode

  unfoldable pub dir_to_hashed : ℕ → Inode → Alloc Inode
  unfolding insert_each
  dir_to_hashed dir_ino inode = do
    sb ← superblock
    old ← lift (dir_parse inode.payload)
    let ag = (blk_split dir_ino).0
    let blank : Inode = record inode { format = fmt_empty; payload = replicate inode_payload 0 }
    (inode, hblk) ← dir_block_ensure levels ag blank 0
    (inode, bblk) ← dir_block_ensure levels ag inode 1
    dhdr_write (record { depth = 0; nbuckets = 1; table = 0 ∷ []; blk = hblk; freelist = [] })
    bucket_write bblk 0 []
    insert_each dir_ino old (record inode { size = 2 * sb.blocksize })

  -- An entry goes into the payload while it fits; the list becomes a table where it does not.
  unfoldable pub embed_or_hash : ℕ → Inode → DirEntry → Alloc Inode
  unfolding dir_to_hashed hashed_insert
  embed_or_hash dir_ino inode e =
      attempt (lift (dir_append inode.payload e))
        (λ (p : Bytes). pure (record inode { payload = p }))
        (λ (why : Error). do
          inode ← dir_to_hashed dir_ino inode
          found ← reads (λ s. dir_find levels s.fs s.txn inode e.name)
          elim found [
            | some other ↦ lift (err already_exists)
            | none ↦ hashed_insert dir_ino inode e
          ])

  unfoldable pub dir_insert : ℕ → Inode → DirEntry → Alloc Inode
  unfolding embed_or_hash
  dir_insert dir_ino inode e = do
    found ← reads (λ s. dir_find levels s.fs s.txn inode e.name)
    elim found [
      | some other ↦ lift (err already_exists)
      | none ↦
          if inode.format == fmt_empty
          then embed_or_hash dir_ino
              (record inode { format = fmt_embed; payload = replicate inode_payload 0 }) e
          else if inode.format == fmt_embed
          then embed_or_hash dir_ino inode e
          else if inode.format == fmt_extent || inode.format == fmt_tree
          then hashed_insert dir_ino inode e
          else lift (err bad_dir_format)
    ]
