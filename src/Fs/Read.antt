-- ===== src/Fs/Read.antt =====
-- src/fs.rs: finding the superblock and the AG map, address resolution, reading blocks and headers.
use fs.Prelude.{
  ℕ, zero, suc, ◌+◌, ◌-◌, ◌*◌, ◌/◌, ◌%◌, ◌^◌, Bool, true, false, ◌&&◌, Option, none, some, List, [],
  ◌∷◌, ◌++◌, Out, ok, err, panic, checked, ltb, ◌==◌, if◌then◌else◌, unmapped_block, no_agmap,
  no_superblock, ◌>>=◌,
}
use fs.Fmt.Bytes.{Bytes, bytes_eq}
use fs.Fmt.Checksum.{Crc32c}
use fs.Fmt.Addr.{blk_addr, blk_split}
use fs.Fmt.AgHeader
use fs.Fmt.AgHeader.{AgHeader, aghdr_size}
use fs.Fmt.AgMap
use fs.Fmt.AgMap.{AgSegment, AgEntry, AgMap}
use fs.Fmt.Superblock
use fs.Fmt.Superblock.{Superblock, sb_size}
use fs.Fmt.RootTable.{rt_geometry}
use fs.Device.{Device, pread}
use fs.Fs.{Gofs}

unfoldable pub resolved : Option ℕ → Out ℕ
resolved none = err unmapped_block
resolved (some off) = ok off

unfoldable pub resolve : Gofs → ℕ → Out ℕ
unfolding resolved
resolve g blk = resolved (AgMap.resolve g.map blk g.sb.blocksize)

unfoldable pub read_block : Gofs → ℕ → Out Bytes
read_block g blk = do off ← resolve g blk; pread g.dev g.sb.blocksize off

-- AG 0's header sits behind the superblock.
unfoldable pub ag_header_block : ℕ → ℕ
ag_header_block ag = if ag == 0 then 1 else 0

unfoldable pub first_segment : List AgEntry → Option AgSegment
first_segment [] = none
first_segment (e ∷ entries) = elim e.segs [ [] ↦ none | s ∷ segs ↦ some s ]

-- `start + (blocks - 1) * blocksize` on `u64`
abbrev pub last_block : ℕ → ℕ → ℕ → ℕ
last_block start blocks blocksize = (start + (blocks + 2 ^ 64 - 1) % 2 ^ 64 * blocksize) % 2 ^ 64

-- The backup superblock is the last block of AG 0's first segment.
unfoldable pub backup_offset : AgSegment → ℕ → ℕ
backup_offset s blocksize = last_block s.dev_offset s.blocks blocksize

-- `(byte_off / bs) as u32` and the offset in the block
unfoldable pub inode_phys : Gofs → ℕ → Out ℕ
unfolding blk_split
inode_phys g ino = do
  let byte_off = (blk_split ino).1 * g.sb.inodesize
  let bs = g.sb.blocksize
  row ← checked bs (byte_off / bs)
  off ← resolve g (blk_addr (blk_split ino).0 (row % 2 ^ 32))
  ok ((off + byte_off % bs) % 2 ^ 64)

-- The block of an inode and its place there, with a panic where no slot fits a block.
unfoldable pub inode_block_off : Gofs → ℕ → Out (ℕ × ℕ)
unfolding blk_split
inode_block_off g ino = do
  let slot = (blk_split ino).1
  slots ← checked g.sb.inodesize (g.sb.blocksize / g.sb.inodesize)
  row ← checked slots (slot / slots)
  ok (blk_addr (blk_split ino).0 row, slot % slots * g.sb.inodesize)

module _ ⦃crc : Crc32c⦄ where
  unfoldable pub read_ag_header : Gofs → ℕ → Out AgHeader
  read_ag_header g ag = do buf ← read_block g (blk_addr ag (ag_header_block ag)); AgHeader.parse buf

  unfoldable pub root_table_from : Gofs → AgHeader → ℕ → ℕ → Out Bytes
  root_table_from g hdr i zero = ok []
  root_table_from g hdr i (suc n) = do
    block ← read_block g (blk_addr hdr.ag_num ((hdr.alloc_root + i) % 2 ^ 32))
    rest ← root_table_from g hdr (suc i) n
    ok (block ++ rest)

  unfoldable pub read_root_table : Gofs → AgHeader → Out Bytes
  unfolding root_table_from rt_geometry
  read_root_table g hdr = root_table_from g hdr 0 (rt_geometry hdr.length g.sb.blocksize).1

  -- A failed read or parse counts as a bad backup.
  unfoldable pub backup_matches : Gofs → Out Superblock → Out Bool
  backup_matches g (ok b) = ok (bytes_eq b.uuid g.sb.uuid && b.gen == g.sb.gen)
  backup_matches g (err e) = ok false
  backup_matches g panic = panic

  unfoldable pub backup_at : Gofs → Option AgSegment → Out Bool
  unfolding backup_matches
  backup_at g none = ok true
  backup_at g (some s) =
      backup_matches g
        (do bak ← pread g.dev sb_size (backup_offset s g.sb.blocksize); Superblock.parse bak)

  unfoldable pub backup_superblock_ok : Gofs → Out Bool
  unfolding backup_at
  backup_superblock_ok g = backup_at g (first_segment g.map.entries)

  unfoldable pub probe_backup : Device → ℕ → AgHeader → Out (Option Superblock)
  probe_backup dev bs hdr = do
    bak ← pread dev sb_size (last_block 0 hdr.length bs)
    sb ← Superblock.parse bak
    ok (if sb.blocksize == bs then some sb else none)

  -- One candidate block size: the AG 0 header behind the first block says where the backup is.
  unfoldable pub probe : Device → ℕ → Out (Option Superblock)
  probe dev bs = do
    h ← pread dev aghdr_size bs
    hdr ← AgHeader.parse h
    if hdr.ag_num == 0 then probe_backup dev bs hdr else ok none

  -- A probe that fails is passed over.
  unfoldable pub probe_or :
      Out (Option Superblock) → Out (Superblock × Bool) → Out (Superblock × Bool)
  probe_or (ok (some sb)) rest = ok (sb, true)
  probe_or (ok none) rest = rest
  probe_or (err e) rest = rest
  probe_or panic rest = panic

  unfoldable pub probe_all : Device → List ℕ → Out (Superblock × Bool)
  unfolding probe probe_backup probe_or
  probe_all dev [] = err no_superblock
  probe_all dev (bs ∷ sizes) = probe_or (probe dev bs) (probe_all dev sizes)

  unfoldable pub primary_or : Out Superblock → Out (Superblock × Bool) → Out (Superblock × Bool)
  primary_or (ok sb) backup = ok (sb, false)
  primary_or (err e) backup = backup
  primary_or panic backup = panic

  unfoldable pub find_superblock : Device → Out (Superblock × Bool)
  unfolding probe_all primary_or
  find_superblock dev = do
    sbbuf ← pread dev sb_size 0
    primary_or (Superblock.parse sbbuf)
        (probe_all dev (2048 ∷ 4096 ∷ 8192 ∷ 16384 ∷ 32768 ∷ 65536 ∷ []))

  unfoldable pub agmap_copy : Device → Superblock → ℕ → Out AgMap
  agmap_copy dev sb copy = do
    buf ← pread dev sb.agmap_length ((sb.agmap_offset + copy * sb.agmap_length) % 2 ^ 64)
    AgMap.parse buf

  -- The second copy wins only with a higher generation.
  unfoldable pub best_of : Out AgMap → Out AgMap → Out AgMap
  best_of panic second = panic
  best_of (ok a) (ok b) = ok (if ltb a.gen b.gen then b else a)
  best_of (ok a) (err e) = ok a
  best_of (ok a) panic = panic
  best_of (err e) (ok b) = ok b
  best_of (err e) (err e') = err no_agmap
  best_of (err e) panic = panic

  unfoldable pub load_agmap : Device → Superblock → Out AgMap
  unfolding agmap_copy best_of
  load_agmap dev sb = best_of (agmap_copy dev sb 0) (agmap_copy dev sb 1)
