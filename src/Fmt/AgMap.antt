-- ===== src/Fmt/AgMap.antt =====
-- src/fmt.rs, `AgMap`: where the blocks of each allocation group lie on the device.
pub mod Layout
pub mod Entries
pub mod Roundtrip
pub mod Resolve
pub mod Disjoint
use fs.Prelude.{
  ℕ, zero, suc, ◌+◌, ◌-◌, ◌*◌, ◌%◌, ◌^◌, ◌&&◌, ◌||◌, Option, none, some, List, [], ◌∷◌, Out, ok,
  ensure, ltb, leb, ◌==◌, if◌then◌else◌, replicate, length, get_elem?, bit_and, bad_magic,
  bad_length, bad_checksum, truncated_entry, truncated_segment, capacity_exceeded, ◌>>=◌, ◌>>◌,
}
use fs.Fmt.Bytes.{
  Bytes, put_slice, put_u16, put_u32, put_u64, get_prefix, get_slice, get_u16, get_u32, get_u64,
  bytes_eq,
}
use fs.Fmt.Checksum.{Crc32c, csum}
use fs.Fmt.Addr.{blk_split}

pub record AgSegment : Type 0 where
  pub ag_block : ℕ
  pub blocks : ℕ
  pub dev_offset : ℕ

pub record AgEntry : Type 0 where
  pub flags : ℕ
  pub length : ℕ
  pub segs : List AgSegment

pub record AgMap : Type 0 where
  pub gen : ℕ
  pub entries : List AgEntry

abbrev pub agf_present : ℕ
agf_present = 1

abbrev pub agf_immovable : ℕ
agf_immovable = 2

abbrev pub agf_retired : ℕ
agf_retired = 4

abbrev pub agmap_hdr : ℕ
agmap_hdr = 24

-- "5FSM"
abbrev pub agmap_magic : Bytes
agmap_magic = b'5' ∷ b'F' ∷ b'S' ∷ b'M' ∷ []

-- The body of the loop over segments.
unfoldable pub put_segment : Bytes → ℕ → AgSegment → Out Bytes
put_segment b off s = do
  b ← put_u32 b off s.ag_block
  b ← put_u32 b (off + 4) s.blocks
  put_u64 b (off + 8) s.dev_offset

-- The loop over segments, with the buffer and the offset that it leaves.
unfoldable pub put_segments : Bytes → ℕ → List AgSegment → Out (Bytes × ℕ)
put_segments b off [] = ok (b, off)
put_segments b off (s ∷ segs) = do b ← put_segment b off s; put_segments b (off + 16) segs

unfoldable pub put_entry_head : Bytes → ℕ → AgEntry → Out Bytes
put_entry_head b off e = do
  b ← put_u16 b off e.flags
  b ← put_u16 b (off + 2) (length e.segs)
  put_u32 b (off + 4) e.length

unfoldable pub put_entries : ℕ → Bytes → ℕ → List AgEntry → Out (Bytes × ℕ)
put_entries capacity b off [] = ok (b, off)
put_entries capacity b off (e ∷ entries) = do
  ensure (leb (off + 8 + length e.segs * 16) capacity) capacity_exceeded
  b ← put_entry_head b off e
  (b, off) ← put_segments b (off + 8) e.segs
  put_entries capacity b off entries

unfoldable pub get_segments : Bytes → ℕ → ℕ → ℕ → Out (List AgSegment × ℕ)
get_segments b used off zero = ok ([], off)
get_segments b used off (suc nseg) = do
  ensure (leb (off + 16) used) truncated_segment
  ag_block ← get_u32 b off
  blocks ← get_u32 b (off + 4)
  dev_offset ← get_u64 b (off + 8)
  (segs, off) ← get_segments b used (off + 16) nseg
  ok (record { ag_block = ag_block; blocks = blocks; dev_offset = dev_offset } ∷ segs, off)

unfoldable pub get_entries : Bytes → ℕ → ℕ → ℕ → Out (List AgEntry)
get_entries b used off zero = ok []
get_entries b used off (suc count) = do
  ensure (leb (off + 8) used) truncated_entry
  flags ← get_u16 b off
  nseg ← get_u16 b (off + 2)
  len ← get_u32 b (off + 4)
  (segs, off) ← get_segments b used (off + 8) nseg
  entries ← get_entries b used off count
  ok (record { flags = flags; length = len; segs = segs } ∷ entries)

module _ ⦃crc : Crc32c⦄ where
  unfoldable pub to_bytes : AgMap → ℕ → Out Bytes
  to_bytes m capacity = do
    b ← put_slice (replicate capacity 0) 0 agmap_magic
    b ← put_u64 b 8 m.gen
    b ← put_u32 b 16 (length m.entries)
    (b, off) ← put_entries capacity b agmap_hdr m.entries
    b ← put_u32 b 20 off
    covered ← get_prefix b off
    c ← csum covered 4
    put_u32 b 4 c

  unfoldable pub parse : Bytes → Out AgMap
  parse b = do
    ensure (leb agmap_hdr (length b)) bad_magic
    magic ← get_slice b 0 4
    ensure (bytes_eq magic agmap_magic) bad_magic
    used ← get_u32 b 20
    ensure (leb agmap_hdr used && leb used (length b)) bad_length
    stored ← get_u32 b 4
    covered ← get_prefix b used
    computed ← csum covered 4
    ensure (stored == computed) bad_checksum
    count ← get_u32 b 16
    entries ← get_entries b used agmap_hdr count
    gen ← get_u64 b 8
    ok (record { gen = gen; entries = entries })

-- The sums are on `u32` and on `u64`.
unfoldable pub resolve_in : ℕ → ℕ → List AgSegment → Option ℕ
resolve_in local blocksize [] = none
resolve_in local blocksize (s ∷ segs) =
    if leb s.ag_block local && ltb local ((s.ag_block + s.blocks) % 2 ^ 32)
    then some ((s.dev_offset + (local - s.ag_block) * blocksize) % 2 ^ 64)
    else resolve_in local blocksize segs

unfoldable pub resolve_entry : ℕ → ℕ → Option AgEntry → Option ℕ
unfolding resolve_in
resolve_entry local blocksize none = none
resolve_entry local blocksize (some e) =
    if bit_and e.flags agf_present == 0 || leb e.length local
    then none
    else resolve_in local blocksize e.segs

unfoldable pub resolve : AgMap → ℕ → ℕ → Option ℕ
unfolding resolve_entry blk_split
resolve m addr blocksize =
    let (ag, local) = blk_split addr in resolve_entry local blocksize (get_elem? m.entries ag)
