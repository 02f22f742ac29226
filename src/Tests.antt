-- ===== src/Tests.antt =====
-- Concrete file systems, and the theorems applied to them.
mod Formats
mod Storage
mod Allocation
mod Mapping
mod Directories
mod Files
use fs.Prelude.{
  ℕ, ◌+◌, ◌%◌, ◌^◌, ◌≤◌, List, [], ◌∷◌, ◌-◌, refl, arith, replicate, get_or, zero, suc,
}
use fs.Fmt.Bytes.{Bytes}
use fs.Fmt.Checksum.{Crc32c}
use fs.Fmt.Superblock.{Superblock}
use fs.Fmt.AgMap.{AgSegment, AgMap}
use fs.Fmt.AgHeader.{AgHeader}
use fs.Fmt.Inode.{Inode, Ts}
use fs.Fmt.Inode.Roundtrip.{IsInRange}

abbrev sum_from : ℕ → Bytes → ℕ
sum_from c [] = c
sum_from c (x ∷ b) = sum_from (c + x) b

-- A sum in place of the checksum.
instance abbrev pub byte_sum : Crc32c
byte_sum = record {
  crc32c = λ b. sum_from 0 b % 2 ^ 32;
  crc32c_append = λ c b. sum_from c b % 2 ^ 32;
  crc32c-lt = λ b. omega arith;
  crc32c_append-lt = λ c b. omega arith;
}

-- Blocks of 512 bytes, and a journal of 4 blocks from block 2 on.
abbrev pub small_sb : Superblock
small_sb = record {
  compat = 0;
  ro_compat = 0;
  incompat = 0;
  blocksize = 512;
  inodesize = 256;
  uuid = replicate 16 7;
  disk_name = replicate 16 65;
  root_ino = 12;
  next_ag = 1;
  agmap_offset = 4096;
  agmap_length = 512;
  journal_start = 2;
  journal_length = 4;
  kernel_offset = 0;
  kernel_end = 0;
  free_blocks = 700;
  rsvd_blocks = 260;
  full_blocks = 40;
  gen = 3;
  journal_seq = 5;
  journal_head = 0;
}

abbrev pub small_segs : List AgSegment
small_segs =
    record { ag_block = 0; blocks = 8; dev_offset = 0 }
    ∷ (record { ag_block = 8; blocks = 8; dev_offset = 8192 } ∷ [])

-- One AG of 16 blocks in two segments.
abbrev pub small_map : AgMap
small_map = record { gen = 2; entries = record { flags = 1; length = 16; segs = small_segs } ∷ [] }

abbrev pub small_header : AgHeader
small_header = record {
  ag_num = 0;
  gen = 1;
  length = 1000;
  free_blocks = 700;
  rsvd_blocks = 260;
  full_blocks = 40;
  alloc_root = 1;
  ino_hint = 0;
  data_hint = 256;
  tbl_arena = 0;
}

abbrev noon : Ts
noon = record { sec = 2 ^ 64 - 1; nsec = 5 }

abbrev pub small_inode : Inode
small_inode = record {
  format = 3;
  mode = 0x81a4;
  nlink = 1;
  uid = 1000;
  gid = 1000;
  flags = 0;
  gen = 4;
  size = 5000;
  nblocks = 2;
  atime = noon;
  mtime = noon;
  ctime = noon;
  btime = noon;
  xattr = 0;
  payload = replicate 128 6;
}

pub small_inode-IsInRange : IsInRange small_inode
small_inode-IsInRange = record {
  mode = omega arith;
  nlink = omega arith;
  uid = omega arith;
  gid = omega arith;
  flags = omega arith;
  gen = omega arith;
  size = omega arith;
  nblocks = omega arith;
  atime = record { sec = omega arith; nsec = omega arith };
  mtime = record { sec = omega arith; nsec = omega arith };
  ctime = record { sec = omega arith; nsec = omega arith };
  btime = record { sec = omega arith; nsec = omega arith };
  xattr = omega arith;
  payload = refl;
}

pub get_or-replicate_le : (n a i : ℕ) → get_or (replicate n a) i 0 ≤ a
get_or-replicate_le zero a i = omega arith
get_or-replicate_le (suc n) a zero = omega arith
get_or-replicate_le (suc n) a (suc i) = get_or-replicate_le n a i
