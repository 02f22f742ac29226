-- ===== src/File/Read.antt =====
-- src/fs.rs, the content of a file. A round of the loop takes a byte or more, so one round of fuel for each
-- byte is enough.
pub mod Enough
use fs.Fs.Read.{resolve}
use fs.Fs.Inodes.{read_inode}
use fs.Extent.Lookup.{map_lookup}
use fs.Extent.Node.{hole, run, Map}
use fs.Journal.Txn.{empty}
use fs.Fmt.Bytes.{Bytes, put_slice, get_slice}
use fs.Fmt.Inode.{Inode, fmt_empty, fmt_embed, fmt_extent, fmt_tree}
use fs.Fmt.Checksum.{Crc32c}
use fs.Device.{pread}
use fs.Prelude.{
  ℕ, zero, suc, ◌+◌, ◌-◌, ◌*◌, ◌/◌, ◌%◌, ◌^◌, min, max, bit_and, Bool, true, false, ◌&&◌, ◌||◌, [],
  ◌∷◌, length, ltb, leb, ◌==◌, if◌then◌else◌, take, drop, replicate, any, Out, ensure, ◌>>=◌, ◌>>◌,
  checked, no_fuel, not_a_symlink, invalid_symlink, bad_file_format, ok, err,
}
use fs.Fs.{Gofs}

-- The bytes of a hole of `n` blocks behind the position in its first block, at least 1.
unfoldable pub skip_hole : (n bs in_blk : ℕ) → ℕ
skip_hole n bs in_blk = min (n * bs) (2 ^ 64 - 1) - in_blk

-- `String::from_utf8`: whether bytes are well-formed UTF-8.
unfoldable pub is_cont : ℕ → Bool
is_cont b = leb 0x80 b && ltb b 0xc0

-- The range of the second byte after a first byte of three or four.
unfoldable pub second_ok : ℕ → ℕ → Bool
unfolding is_cont
second_ok a b =
    if a == 0xe0
    then leb 0xa0 b && ltb b 0xc0
    else if a == 0xed
    then leb 0x80 b && ltb b 0xa0
    else if a == 0xf0
    then leb 0x90 b && ltb b 0xc0
    else if a == 0xf4
    then leb 0x80 b && ltb b 0x90
    else is_cont b

-- A character of one byte to four at the front of the bytes, one unit of fuel each.
unfoldable pub is_utf8 : ℕ → Bytes → Bool
unfolding second_ok is_cont
is_utf8 fuel [] = true
is_utf8 zero (a ∷ bs) = false
is_utf8 (suc fuel) (a ∷ []) = ltb a 0x80
is_utf8 (suc fuel) (a ∷ (b ∷ [])) =
    if ltb a 0x80 then is_utf8 fuel (b ∷ []) else leb 0xc2 a && ltb a 0xe0 && is_cont b
is_utf8 (suc fuel) (a ∷ (b ∷ (c ∷ bs))) =
    let one = is_utf8 fuel (b ∷ c ∷ bs) in
    let two = is_utf8 fuel (c ∷ bs) in
    let three = is_utf8 fuel bs in
    let four = is_utf8 fuel (drop 1 bs) in
    if ltb a 0x80
    then one
    else if ltb a 0xc2
    then false
    else if ltb a 0xe0
    then is_cont b && two
    else if ltb a 0xf0
    then second_ok a b && is_cont c && three
    else ltb a 0xf5 && second_ok a b && is_cont c && any is_cont (take 1 bs) && four

-- One run or hole at a position, then `next` at the position behind it.
unfoldable pub read_found :
    {R : Type 0} → (ℕ → Bytes → Out R) → Gofs → (offset pos end : ℕ) → Bytes → Map → Out R
unfolding skip_hole
read_found next g offset pos end out (run blk len) = do
  let in_blk = pos % g.sb.blocksize
  let take = min (len * g.sb.blocksize - in_blk) (end - pos)
  start ← resolve g blk
  piece ← pread g.dev take ((start + in_blk) % 2 ^ 64)
  out ← put_slice out (pos - offset) piece
  next (pos + take) out
read_found next g offset pos end out (hole n) =
    next (pos + max (min (skip_hole n g.sb.blocksize (pos % g.sb.blocksize)) (end - pos)) 1) out

module _ ⦃crc : Crc32c⦄ (levels : ℕ) where
  -- The loop over runs and holes; `out` has zeros where nothing was read.
  unfoldable pub read_runs : ℕ → Gofs → Inode → (offset pos end : ℕ) → Bytes → Out Bytes
  unfolding read_found
  read_runs zero g inode offset pos end out = if ltb pos end then err no_fuel else ok out
  read_runs (suc fuel) g inode offset pos end out =
      if ltb pos end
      then (do
        fb ← checked g.sb.blocksize (pos / g.sb.blocksize)
        found ← map_lookup levels g empty inode fb
        read_found (λ p o. read_runs fuel g inode offset p end o) g offset pos end out found)
      else ok out

  unfoldable pub read_inode_data : Gofs → Inode → ℕ → ℕ → Out Bytes
  unfolding read_runs
  read_inode_data g inode offset len =
      let n = min len (inode.size - offset) in
      if leb inode.size offset
      then ok []
      else if inode.format == fmt_empty
      then ok (replicate n 0)
      else if inode.format == fmt_embed
      then get_slice inode.payload offset n
      else if inode.format == fmt_extent || inode.format == fmt_tree
      then read_runs n g inode offset offset (offset + n) (replicate n 0)
      else err bad_file_format

  unfoldable pub read : Gofs → ℕ → ℕ → ℕ → Out Bytes
  unfolding read_inode_data
  read g ino offset len = do inode ← read_inode g ino; read_inode_data g inode offset len

  unfoldable pub read_file : Gofs → ℕ → Out Bytes
  unfolding read_inode_data
  read_file g ino = do inode ← read_inode g ino; read_inode_data g inode 0 inode.size

  -- The target of a symbolic link, as UTF-8.
  unfoldable pub readlink : Gofs → ℕ → Out Bytes
  unfolding read_inode_data is_utf8
  readlink g ino = do
    inode ← read_inode g ino
    ensure (bit_and inode.mode 0o170000 == 0o120000) not_a_symlink
    target ← read_inode_data g inode 0 inode.size
    ensure (is_utf8 (length target) target) invalid_symlink
    ok target
