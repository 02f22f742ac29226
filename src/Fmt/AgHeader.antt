-- ===== src/Fmt/AgHeader.antt =====
-- src/fmt.rs, `AgHeader`: the 64-byte header of an allocation group.
pub mod Roundtrip
use fs.Prelude.{
  ℕ, [], ◌∷◌, Out, ok, ensure, leb, ◌==◌, replicate, length, short_read, bad_magic, bad_checksum,
  ◌>>=◌, ◌>>◌,
}
use fs.Fmt.Bytes.{
  Bytes, put_slice, put_u32, put_u64, get_prefix, get_slice, get_u32, get_u64, bytes_eq,
}
use fs.Fmt.Checksum.{Crc32c, csum}

pub record AgHeader : Type 0 where
  pub ag_num : ℕ
  pub gen : ℕ
  pub length : ℕ
  pub free_blocks : ℕ
  pub rsvd_blocks : ℕ
  pub full_blocks : ℕ
  pub alloc_root : ℕ
  pub ino_hint : ℕ
  pub data_hint : ℕ
  pub tbl_arena : ℕ

abbrev pub aghdr_size : ℕ
aghdr_size = 64

-- "5FSH"
abbrev pub ag_magic : Bytes
ag_magic = b'5' ∷ b'F' ∷ b'S' ∷ b'H' ∷ []

module _ ⦃crc : Crc32c⦄ where
  unfoldable pub to_bytes : AgHeader → Out Bytes
  unfolding put_u32 put_u64 csum
  to_bytes h = do
    b ← put_slice (replicate aghdr_size 0) 0 ag_magic
    b ← put_u32 b 8 h.ag_num
    b ← put_u64 b 12 h.gen
    b ← put_u32 b 20 h.length
    b ← put_u32 b 24 h.free_blocks
    b ← put_u32 b 28 h.rsvd_blocks
    b ← put_u32 b 32 h.full_blocks
    b ← put_u32 b 36 h.alloc_root
    b ← put_u32 b 40 h.ino_hint
    b ← put_u32 b 44 h.data_hint
    b ← put_u32 b 48 h.tbl_arena
    c ← csum b 4
    put_u32 b 4 c

  unfoldable pub parse : Bytes → Out AgHeader
  unfolding get_prefix get_slice get_u32 get_u64 csum bytes_eq
  parse buf = do
    ensure (leb aghdr_size (length buf)) short_read
    b ← get_prefix buf aghdr_size
    magic ← get_slice b 0 4
    ensure (bytes_eq magic ag_magic) bad_magic
    stored ← get_u32 b 4
    computed ← csum b 4
    ensure (stored == computed) bad_checksum
    ag_num ← get_u32 b 8
    gen ← get_u64 b 12
    len ← get_u32 b 20
    free ← get_u32 b 24
    rsvd ← get_u32 b 28
    full ← get_u32 b 32
    root ← get_u32 b 36
    ino ← get_u32 b 40
    hint ← get_u32 b 44
    arena ← get_u32 b 48
    ok (record {
      ag_num = ag_num;
      gen = gen;
      length = len;
      free_blocks = free;
      rsvd_blocks = rsvd;
      full_blocks = full;
      alloc_root = root;
      ino_hint = ino;
      data_hint = hint;
      tbl_arena = arena;
    })
