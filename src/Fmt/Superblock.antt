-- ===== src/Fmt/Superblock.antt =====
-- src/fmt.rs, `Superblock`: the 512-byte superblock. The UUID is 16 bytes, the label 16 UTF-16 units.
pub mod Roundtrip
use fs.Prelude.{
  ℕ, zero, suc, ◌+◌, ◌-◌, ◌*◌, Bool, ◌&&◌, List, [], ◌∷◌, Out, ok, ensure, leb, ◌==◌, ◌!=◌,
  replicate, length, bit_and, short_read, bad_magic, bad_checksum, unsupported_version,
  bad_blocksize, ◌>>=◌, ◌>>◌,
}
use fs.Fmt.Bytes.{
  Bytes, overwrite, put_slice, put_u16, put_u32, put_u64, get_prefix, get_slice, get_u16, get_u32,
  get_u64, bytes_eq,
}
use fs.Fmt.Checksum.{Crc32c, csum}

pub record Superblock : Type 0 where
  pub compat : ℕ
  pub ro_compat : ℕ
  pub incompat : ℕ
  pub blocksize : ℕ
  pub inodesize : ℕ
  pub uuid : Bytes
  pub disk_name : List ℕ
  pub root_ino : ℕ
  pub next_ag : ℕ
  pub agmap_offset : ℕ
  pub agmap_length : ℕ
  pub journal_start : ℕ
  pub journal_length : ℕ
  pub kernel_offset : ℕ
  pub kernel_end : ℕ
  pub free_blocks : ℕ
  pub rsvd_blocks : ℕ
  pub full_blocks : ℕ
  pub gen : ℕ
  pub journal_seq : ℕ
  pub journal_head : ℕ

abbrev pub sb_size : ℕ
sb_size = 512

abbrev pub sb_version : ℕ
sb_version = 2

-- "5FSB"
abbrev pub sb_magic : Bytes
sb_magic = b'5' ∷ b'F' ∷ b'S' ∷ b'B' ∷ []

-- `u32::is_power_of_two`
abbrev pub is_power_of_two : ℕ → Bool
is_power_of_two n = n != 0 && bit_and n (n - 1) == 0

-- `for (i, u) in units.iter().enumerate() { put_u16(b, base + i * 2, *u) }`
unfoldable pub put_units : Bytes → ℕ → ℕ → List ℕ → Out Bytes
unfolding put_u16
put_units b base i [] = ok b
put_units b base i (u ∷ units) = do b ← put_u16 b (base + i * 2) u; put_units b base (suc i) units

-- `(i..i + n).map(|i| get_u16(b, base + i * 2))`
unfoldable pub get_units : Bytes → ℕ → ℕ → ℕ → Out (List ℕ)
unfolding get_u16
get_units b base i zero = ok []
get_units b base i (suc n) = do
  u ← get_u16 b (base + i * 2)
  units ← get_units b base (suc i) n
  ok (u ∷ units)

module _ ⦃crc : Crc32c⦄ where
  unfoldable pub to_bytes : Superblock → Out Bytes
  unfolding put_slice put_u16 put_u32 put_u64 put_units csum
  to_bytes s = do
    b ← put_slice (replicate sb_size 0) 0 sb_magic
    b ← put_u32 b 8 sb_version
    b ← put_u64 b 12 s.compat
    b ← put_u64 b 20 s.ro_compat
    b ← put_u64 b 28 s.incompat
    b ← put_u32 b 36 s.blocksize
    b ← put_u16 b 40 s.inodesize
    b ← put_slice b 42 s.uuid
    b ← put_units b 58 0 s.disk_name
    b ← put_u64 b 90 s.root_ino
    b ← put_u32 b 98 s.next_ag
    b ← put_u64 b 102 s.agmap_offset
    b ← put_u64 b 110 s.agmap_length
    b ← put_u64 b 118 s.journal_start
    b ← put_u64 b 126 s.journal_length
    b ← put_u64 b 134 s.kernel_offset
    b ← put_u64 b 142 s.kernel_end
    b ← put_u64 b 150 s.free_blocks
    b ← put_u64 b 158 s.rsvd_blocks
    b ← put_u64 b 166 s.full_blocks
    b ← put_u64 b 174 s.gen
    b ← put_u64 b 182 s.journal_seq
    b ← put_u64 b 190 s.journal_head
    c ← csum b 4
    put_u32 b 4 c

  unfoldable pub parse : Bytes → Out Superblock
  unfolding overwrite get_prefix get_slice get_u16 get_u32 get_u64 get_units csum bytes_eq
  parse buf = do
    ensure (leb sb_size (length buf)) short_read
    b ← get_prefix buf sb_size
    magic ← get_slice b 0 4
    ensure (bytes_eq magic sb_magic) bad_magic
    stored ← get_u32 b 4
    computed ← csum b 4
    ensure (stored == computed) bad_checksum
    version ← get_u32 b 8
    ensure (version == sb_version) unsupported_version
    compat ← get_u64 b 12
    ro_compat ← get_u64 b 20
    incompat ← get_u64 b 28
    blocksize ← get_u32 b 36
    inodesize ← get_u16 b 40
    uuid ← get_slice b 42 16
    uuid ← overwrite (replicate 16 0) uuid
    disk_name ← get_units b 58 0 16
    root_ino ← get_u64 b 90
    next_ag ← get_u32 b 98
    agmap_offset ← get_u64 b 102
    agmap_length ← get_u64 b 110
    journal_start ← get_u64 b 118
    journal_length ← get_u64 b 126
    kernel_offset ← get_u64 b 134
    kernel_end ← get_u64 b 142
    free_blocks ← get_u64 b 150
    rsvd_blocks ← get_u64 b 158
    full_blocks ← get_u64 b 166
    gen ← get_u64 b 174
    journal_seq ← get_u64 b 182
    journal_head ← get_u64 b 190
    ensure (is_power_of_two blocksize && leb 512 blocksize) bad_blocksize
    ok (record {
      compat = compat;
      ro_compat = ro_compat;
      incompat = incompat;
      blocksize = blocksize;
      inodesize = inodesize;
      uuid = uuid;
      disk_name = disk_name;
      root_ino = root_ino;
      next_ag = next_ag;
      agmap_offset = agmap_offset;
      agmap_length = agmap_length;
      journal_start = journal_start;
      journal_length = journal_length;
      kernel_offset = kernel_offset;
      kernel_end = kernel_end;
      free_blocks = free_blocks;
      rsvd_blocks = rsvd_blocks;
      full_blocks = full_blocks;
      gen = gen;
      journal_seq = journal_seq;
      journal_head = journal_head;
    })
