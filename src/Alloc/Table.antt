-- ===== src/Alloc/Table.antt =====
-- src/alloc.rs, the root table of an AG, read and written through the transaction.
-- The state of these methods is the file system, the transaction and the AG header in memory.
use fs.Prelude.{
  ℕ, zero, suc, ◌+◌, ◌-◌, ◌*◌, ◌/◌, ◌%◌, ◌^◌, Option, none, some, [], ◌∷◌, ok, err, panic, ◌==◌,
  if◌then◌else◌, replicate, bit_and,
}
use fs.Prelude.Exec.{Exec, pure, reads, lift, modify, ◌>>=◌, ◌>>◌}
use fs.Fmt.Bytes.{Bytes, get_byte, get_u16, get_u32, put_byte, put_u16, put_u32}
use fs.Fmt.Cells.{get_bits, set_bits}
use fs.Fmt.Addr.{blk_addr}
use fs.Fmt.RootTable.{rt_geometry, rt_ref_off}
use fs.Fmt.Superblock.{Superblock}
use fs.Fmt.AgHeader.{AgHeader}
use fs.Fs.{Gofs}
use fs.Journal.Txn.{Txn, txn_read, txn_write}
use fs.Alloc.Record.{RecRef}

pub record AllocState : Type 0 where
  pub fs : Gofs
  pub txn : Txn
  pub hdr : AgHeader

abbrev pub Alloc : Type 0 → Type 0
Alloc A = Exec AllocState A

-- "5FSA"
abbrev pub alloc_magic : Bytes
alloc_magic = b'5' ∷ b'F' ∷ b'S' ∷ b'A' ∷ []

-- `a - b` and `a + b` on `u32` and `u64`, which wrap in a release build.
abbrev pub sub_u32 : ℕ → ℕ → ℕ
sub_u32 a b = (a + 2 ^ 32 - b) % 2 ^ 32

abbrev pub add_u32 : ℕ → ℕ → ℕ
add_u32 a b = (a + b) % 2 ^ 32

abbrev pub sub_u64 : ℕ → ℕ → ℕ
sub_u64 a b = (a + 2 ^ 64 - b) % 2 ^ 64

abbrev pub add_u64 : ℕ → ℕ → ℕ
add_u64 a b = (a + b) % 2 ^ 64

abbrev pub read_at : ℕ → Alloc Bytes
read_at blk = reads (λ s. txn_read s.fs s.txn blk)

abbrev pub write_at : ℕ → Bytes → Alloc (Unit {0})
write_at blk content = modify (λ s. record s { txn = txn_write s.txn blk content })

abbrev pub header : Alloc AgHeader
header = reads (λ s. ok s.hdr)

abbrev pub superblock : Alloc Superblock
superblock = reads (λ s. ok s.fs.sb)

-- The block of the root table that holds a byte, the byte's offset in it, and the block's content.
unfoldable pub rt_byte : ℕ → Alloc (ℕ × ℕ × Bytes)
rt_byte byte_off = do
  hdr ← header
  sb ← superblock
  let bs = sb.blocksize
  let blk = blk_addr hdr.ag_num (add_u32 hdr.alloc_root (byte_off / bs % 2 ^ 32))
  buf ← read_at blk
  pure (blk, byte_off % bs, buf)

unfoldable pub rt_state : ℕ → Alloc ℕ
unfolding rt_byte
rt_state c = do
  (blk, off, buf) ← rt_byte (c / 4)
  byte ← lift (get_byte buf off)
  pure (get_bits byte (c % 4 * 2))

unfoldable pub rt_state_set : ℕ → ℕ → Alloc (Unit {0})
unfolding rt_byte
rt_state_set c st = do
  (blk, off, buf) ← rt_byte (c / 4)
  byte ← lift (get_byte buf off)
  buf ← lift (put_byte buf off (set_bits byte (c % 4 * 2) st))
  write_at blk buf

abbrev pub cells_of : AllocState → ℕ
cells_of s = (rt_geometry s.hdr.length s.fs.sb.blocksize).0

unfoldable pub rt_ref : ℕ → Alloc RecRef
unfolding rt_byte
rt_ref c = do
  cells ← reads (λ s. ok (cells_of s))
  (blk, off, buf) ← rt_byte (rt_ref_off cells c)
  block ← lift (get_u32 buf off)
  idx ← lift (get_u16 buf (off + 4))
  pure (block, idx)

-- Byte by byte: a reference may straddle two blocks.
unfoldable pub put_ref_bytes : ℕ → Bytes → Alloc (Unit {0})
unfolding rt_byte
put_ref_bytes byte_off [] = pure tt
put_ref_bytes byte_off (byte ∷ six) = do
  (blk, off, buf) ← rt_byte byte_off
  buf ← lift (put_byte buf off byte)
  write_at blk buf
  put_ref_bytes (suc byte_off) six

unfoldable pub rt_ref_set : ℕ → RecRef → Alloc (Unit {0})
unfolding put_ref_bytes
rt_ref_set c r = do
  cells ← reads (λ s. ok (cells_of s))
  six ← lift (put_u32 (replicate 6 0) 0 r.0)
  six ← lift (put_u16 six 4 r.1)
  put_ref_bytes (rt_ref_off cells c) six

-- The first cell in the state, of the `n` from `c` on; a cell that cannot be read is passed over.
unfoldable pub find_cell : ℕ → ℕ → ℕ → Alloc (Option ℕ)
find_cell st c zero s = (ok none, s)
find_cell st c (suc n) s =
    let rest = find_cell st (suc c) n s in
    elim (rt_state c s).0 [
      | ok found ↦ if found == st then (ok (some c), s) else rest
      | err e ↦ rest
      | panic ↦ (panic, s)
    ]

unfoldable pub count_ones_from : ℕ → ℕ → ℕ
count_ones_from zero v = 0
count_ones_from (suc n) v = v % 2 + count_ones_from n (v / 2)

-- `u32::count_ones`
unfoldable pub count_ones : ℕ → ℕ
unfolding count_ones_from
count_ones v = count_ones_from 32 v

-- `1u32 << i`, which takes `i` modulo 32 in a release build.
abbrev pub one_shl : ℕ → ℕ
one_shl i = 2 ^ (i % 32)

-- `(i..i + n).find(|i| used & (1 << i) == 0)`
unfoldable pub find_unused : ℕ → ℕ → ℕ → Option ℕ
find_unused used i zero = none
find_unused used i (suc n) =
    let rest = find_unused used (suc i) n in if bit_and used (one_shl i) == 0 then some i else rest

-- `self.hints.entry(ag).or_default()` with one half set.
unfoldable pub hint_pair : Option (ℕ × ℕ) → ℕ × ℕ
hint_pair none = (0, 0)
hint_pair (some h) = h

abbrev pub set_hints : (ℕ × ℕ → ℕ × ℕ) → Alloc (Unit {0})
set_hints f = modify (λ s. record s {
  fs = record s.fs {
    hints =
        λ ag. if ag == s.hdr.ag_num then some (f (hint_pair (s.fs.hints ag))) else s.fs.hints ag;
  };
})
