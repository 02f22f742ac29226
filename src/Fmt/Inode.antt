-- ===== src/Fmt/Inode.antt =====
-- src/fmt.rs, `Inode`: the 256-byte inode, its timestamps and its 128-byte payload. The seconds of a
-- timestamp are the bit pattern of an `i64`. `Ts::now` reads the clock and is an argument where the
-- code calls it.
pub mod Roundtrip
use fs.Prelude.{
  ℕ, ◌+◌, Bool, Out, ok, ensure, leb, ◌==◌, replicate, length, bit_and, short_read, bad_magic,
  bad_checksum, unsupported_version, ◌>>=◌, ◌>>◌,
}
use fs.Fmt.Bytes.{
  Bytes, overwrite, put_slice, put_byte, put_u16, put_u32, put_u64, put_i64, get_prefix, get_suffix,
  get_byte, get_u16, get_u32, get_u64, get_i64,
}
use fs.Fmt.Checksum.{Crc32c, csum}

pub record Ts : Type 0 where
  pub sec : ℕ
  pub nsec : ℕ

pub record Inode : Type 0 where
  pub format : ℕ
  pub mode : ℕ
  pub nlink : ℕ
  pub uid : ℕ
  pub gid : ℕ
  pub flags : ℕ
  pub gen : ℕ
  pub size : ℕ
  pub nblocks : ℕ
  pub atime : Ts
  pub mtime : Ts
  pub ctime : Ts
  pub btime : Ts
  pub xattr : ℕ
  pub payload : Bytes

abbrev pub inode_size : ℕ
inode_size = 256

abbrev pub inode_payload : ℕ
inode_payload = 128

-- "IN"
abbrev pub inode_magic : ℕ
inode_magic = 0x494e

abbrev pub fmt_empty : ℕ
fmt_empty = 1

abbrev pub fmt_embed : ℕ
fmt_embed = 2

abbrev pub fmt_extent : ℕ
fmt_extent = 3

abbrev pub fmt_tree : ℕ
fmt_tree = 4

unfoldable pub put_ts : Bytes → ℕ → Ts → Out Bytes
unfolding put_i64 put_u32
put_ts b off t = do b ← put_i64 b off t.sec; put_u32 b (off + 8) t.nsec

unfoldable pub get_ts : Bytes → ℕ → Out Ts
unfolding get_i64 get_u32
get_ts b off = do
  sec ← get_i64 b off
  nsec ← get_u32 b (off + 8)
  ok (record { sec = sec; nsec = nsec })

module _ ⦃crc : Crc32c⦄ where
  unfoldable pub to_bytes : Inode → Out Bytes
  unfolding put_byte put_u16 put_u32 put_u64 put_ts csum
  to_bytes n = do
    b ← put_u16 (replicate inode_size 0) 0 inode_magic
    b ← put_byte b 2 2
    b ← put_byte b 3 n.format
    b ← put_u16 b 8 n.mode
    b ← put_u32 b 10 n.nlink
    b ← put_u32 b 14 n.uid
    b ← put_u32 b 18 n.gid
    b ← put_u32 b 22 n.flags
    b ← put_u32 b 26 n.gen
    b ← put_u64 b 30 n.size
    b ← put_u64 b 38 n.nblocks
    b ← put_ts b 46 n.atime
    b ← put_ts b 58 n.mtime
    b ← put_ts b 70 n.ctime
    b ← put_ts b 82 n.btime
    b ← put_u64 b 94 n.xattr
    b ← put_slice b 128 n.payload
    c ← csum b 4
    put_u32 b 4 c

  unfoldable pub parse : Bytes → Out Inode
  unfolding get_prefix get_suffix get_byte get_u16 get_u32 get_u64 get_ts csum overwrite
  parse buf = do
    ensure (leb inode_size (length buf)) short_read
    b ← get_prefix buf inode_size
    magic ← get_u16 b 0
    ensure (magic == inode_magic) bad_magic
    stored ← get_u32 b 4
    computed ← csum b 4
    ensure (stored == computed) bad_checksum
    version ← get_byte b 2
    ensure (version == 2) unsupported_version
    format ← get_byte b 3
    mode ← get_u16 b 8
    nlink ← get_u32 b 10
    uid ← get_u32 b 14
    gid ← get_u32 b 18
    flags ← get_u32 b 22
    gen ← get_u32 b 26
    size ← get_u64 b 30
    nblocks ← get_u64 b 38
    atime ← get_ts b 46
    mtime ← get_ts b 58
    ctime ← get_ts b 70
    btime ← get_ts b 82
    xattr ← get_u64 b 94
    tail ← get_suffix b 128
    payload ← overwrite (replicate inode_payload 0) tail
    ok (record {
      format = format;
      mode = mode;
      nlink = nlink;
      uid = uid;
      gid = gid;
      flags = flags;
      gen = gen;
      size = size;
      nblocks = nblocks;
      atime = atime;
      mtime = mtime;
      ctime = ctime;
      btime = btime;
      xattr = xattr;
      payload = payload;
    })

unfoldable pub is_dir : Inode → Bool
is_dir n = bit_and n.mode 0o170000 == 0o040000

unfoldable pub is_file : Inode → Bool
is_file n = bit_and n.mode 0o170000 == 0o100000
