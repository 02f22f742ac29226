-- ===== src/Dir/Table.antt =====
-- src/dir.rs, the blocks of a hashed directory: the header with the table of buckets and the freelist, and
-- the buckets. The depth of the directory's extent tree is fuel, as in `map_lookup`.
pub mod Slots
pub mod Roundtrip
use fs.Alloc.Table.{add_u64}
use fs.Dir.Hash.{shift_one}
use fs.Dir.Bucket.{bucket_magic, HEntry, bucket_entries}
use fs.Extent.Lookup.{map_lookup}
use fs.Extent.Node.{hole, run}
use fs.Journal.Txn.{Txn, txn_read}
use fs.Fmt.Bytes.{
  Bytes, put_slice, get_slice, get_byte, put_byte, put_u16, put_u32, put_u64, get_u16, get_u32,
  bytes_eq,
}
use fs.Fmt.Inode.{Inode}
use fs.Fmt.Checksum.{Crc32c, csum}
use fs.Prelude.{
  ℕ, zero, suc, ◌+◌, ◌-◌, ◌*◌, ◌%◌, ◌^◌, List, [], ◌∷◌, length, ltb, leb, ◌==◌, if◌then◌else◌,
  replicate, Out, ensure, block_is_hole, bad_dir_header, dir_header_checksum, table_too_large,
  bad_bucket, bucket_checksum, ok, err, panic, ◌>>=◌, ◌>>◌,
}
use fs.Fs.{Gofs}

-- "5FSD"
abbrev pub dirh_magic : Bytes
dirh_magic = b'5' ∷ b'F' ∷ b'S' ∷ b'D' ∷ []

abbrev pub dh_hdr : ℕ
dh_hdr = 24

abbrev pub max_depth : ℕ
max_depth = 9

-- What the header block holds, and where it is.
pub record Header : Type 0 where
  pub depth : ℕ
  pub nbuckets : ℕ
  pub table : List ℕ
  pub blk : ℕ
  pub freelist : List ℕ

pub record Bucket : Type 0 where
  pub entries : List HEntry
  pub local_depth : ℕ
  pub blk : ℕ

unfoldable pub table_from : ℕ → Bytes → ℕ → Out (List ℕ)
table_from zero buf i = ok []
table_from (suc n) buf i = do
  b ← get_u32 buf (dh_hdr + i * 4)
  rest ← table_from n buf (suc i)
  ok (b ∷ rest)

-- `bs - 4 * (k + 1)` in front of the block would wrap, and the slice panic.
unfoldable pub freelist_from : ℕ → Bytes → ℕ → Out (List ℕ)
freelist_from zero buf k = ok []
freelist_from (suc n) buf k = if ltb (length buf) (4 * (k + 1)) then panic else do
  b ← get_u32 buf (length buf - 4 * (k + 1))
  rest ← freelist_from n buf (suc k)
  ok (b ∷ rest)

unfoldable pub put_table : Bytes → ℕ → List ℕ → Out Bytes
put_table buf i [] = ok buf
put_table buf i (b ∷ table) = do buf ← put_u32 buf (dh_hdr + i * 4) b; put_table buf (suc i) table

unfoldable pub put_freelist : ℕ → Bytes → ℕ → List ℕ → Out Bytes
put_freelist bs buf k [] = ok buf
put_freelist bs buf k (b ∷ freelist) = do
  buf ← put_u32 buf (bs - 4 * (k + 1)) b
  put_freelist bs buf (suc k) freelist

-- The header block apart from its place and checksum; `old` is the generation that it replaces.
unfoldable pub header_block : ℕ → ℕ → Header → Out Bytes
unfolding put_table put_freelist
header_block bs old h = do
  buf ← put_slice (replicate bs 0) 0 dirh_magic
  buf ← put_u64 buf 8 (add_u64 old 1)
  buf ← put_byte buf 16 h.depth
  buf ← put_u16 buf 18 (length h.freelist % 2 ^ 16)
  buf ← put_u32 buf 20 h.nbuckets
  ensure (leb (dh_hdr + length h.table * 4 + length h.freelist * 4) bs) table_too_large
  buf ← put_table buf 0 h.table
  put_freelist bs buf 0 h.freelist

-- What a header block holds.
unfoldable pub header_of : ℕ → Bytes → Out Header
unfolding table_from freelist_from shift_one
header_of blk buf = do
  depth ← get_byte buf 16
  nbuckets ← get_u32 buf 20
  table ← table_from (shift_one depth) buf 0
  nfree ← get_u16 buf 18
  freelist ← freelist_from nfree buf 0
  ok (record { depth = depth; nbuckets = nbuckets; table = table; blk = blk; freelist = freelist })

module _ ⦃crc : Crc32c⦄ where
  unfoldable pub dir_block_addr : ℕ → Gofs → Txn → Inode → ℕ → Out ℕ
  dir_block_addr levels g t inode fb = do
    found ← map_lookup levels g t inode fb
    elim found [ run blk len ↦ ok blk | hole n ↦ err block_is_hole ]

  unfoldable pub dir_block_read : ℕ → Gofs → Txn → Inode → ℕ → Out Bytes
  unfolding dir_block_addr
  dir_block_read levels g t inode fb = do blk ← dir_block_addr levels g t inode fb; txn_read g t blk

  unfoldable pub dhdr_read : ℕ → Gofs → Txn → Inode → Out Header
  unfolding dir_block_addr dir_block_read header_of
  dhdr_read levels g t inode = do
    blk ← dir_block_addr levels g t inode 0
    buf ← dir_block_read levels g t inode 0
    magic ← get_slice buf 0 4
    ensure (bytes_eq magic dirh_magic) bad_dir_header
    stored ← get_u32 buf 4
    computed ← csum buf 4
    ensure (stored == computed) dir_header_checksum
    header_of blk buf

  unfoldable pub bucket_read : ℕ → Gofs → Txn → Inode → ℕ → Out Bucket
  unfolding dir_block_addr dir_block_read bucket_entries
  bucket_read levels g t inode bno = do
    blk ← dir_block_addr levels g t inode (1 + bno)
    buf ← dir_block_read levels g t inode (1 + bno)
    magic ← get_slice buf 0 4
    ensure (bytes_eq magic bucket_magic) bad_bucket
    stored ← get_u32 buf 4
    computed ← csum buf 4
    ensure (stored == computed) bucket_checksum
    entries ← bucket_entries buf
    local_depth ← get_byte buf 16
    ok (record { entries = entries; local_depth = local_depth; blk = blk })
