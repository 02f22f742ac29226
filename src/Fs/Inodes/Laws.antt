-- ===== src/Fs/Inodes/Laws.antt =====
-- An inode written through a transaction, and its read.
use fs.Fmt.Addr.{blk_addr, blk_split}
use native.Mathlib.Nat.{le-div_iff_mul-le, mod-lt, mul-le-mul_right, div-mul-le_self, suc-mul}
use fs.Prelude.{
  ℕ, suc, zero, ◌+◌, ◌≤◌, ◌≡◌, refl, ap, sym, subst, ◌∙◌, [], ◌∷◌, ok, step, length, append_nil,
  arith, ◌*◌, ◌/◌, ◌%◌, ◌<◌, false, ◌==◌,
}
use fs.Fmt.Bytes.{Bytes, overwrite, put_slice, get_prefix, get_suffix, get_slice}
use fs.Fmt.Checksum.{Crc32c}
use fs.Fmt.Inode
use fs.Fmt.Inode.{Inode}
use fs.Fmt.Inode.Roundtrip.{IsInRange, parse-to_bytes_inode}
use fs.Fs.{Gofs}
use fs.Fs.Read.{inode_block_off}
use fs.Fs.Inodes.{read_inode_txn, write_inode_txn}
use fs.Journal.Txn.{Txn, txn_read, txn_write}
use fs.Journal.Txn.Laws.{txn_read-txn_write_self}

overwrite-prefix :
    (b src : Bytes)
    → length src ≤ length b
    → (b' : Bytes) × (overwrite b src ≡ ok b') × (get_prefix b' (length src) ≡ ok src)
unfolding overwrite get_prefix
overwrite-prefix b [] fits = (b, refl, refl)
overwrite-prefix [] (s ∷ src) fits = absurd (omega arith)
overwrite-prefix (x ∷ b) (s ∷ src) fits =
    let (b', wrote, held) = overwrite-prefix b src (omega arith) in
    (s ∷ b', step _ wrote refl, step _ held refl)

-- A slice that is written is read back.
get_slice-put_slice :
    (b : Bytes) (off : ℕ) (src : Bytes)
    → off + length src ≤ length b
    → (b' : Bytes) × (put_slice b off src ≡ ok b') × (get_slice b' off (length src) ≡ ok src)
unfolding put_slice get_slice get_suffix
get_slice-put_slice b zero src fits = overwrite-prefix b src (omega arith)
get_slice-put_slice [] (suc off) src fits = absurd (omega arith)
get_slice-put_slice (x ∷ b) (suc off) src fits =
    let (b', wrote, held) = get_slice-put_slice b off src (omega arith) in
    (x ∷ b', step _ wrote refl, held)

-- The block that has the slot of an inode.
abbrev pub inode_block : Gofs → ℕ → ℕ
inode_block g ino =
    blk_addr (blk_split ino).0 ((blk_split ino).1 / (g.sb.blocksize / g.sb.inodesize))

-- Where a slot fits a block, each inode has one, within its block.
inode_block_off-within :
    (g : Gofs) (ino : ℕ)
    → 0 < g.sb.inodesize
    → g.sb.inodesize ≤ g.sb.blocksize
    → (off : ℕ) × (inode_block_off g ino ≡ ok (inode_block g ino, off))
      × (off + g.sb.inodesize ≤ g.sb.blocksize)
unfolding inode_block_off
inode_block_off-within g ino some_size fits =
    let isz : ℕ = g.sb.inodesize in
    let slots : ℕ = g.sb.blocksize / isz in
    let slot : ℕ = (blk_split ino).1 in
    let some_slot : 0 < slots = (le-div_iff_mul-le some_size).1 (omega arith) in
    let size : (isz == 0) ≡ false = ground arith in
    let slotted : (slots == 0) ≡ false = ground arith in
    let below : suc (slot % slots) ≤ slots = mod-lt slot some_slot in
    (
      slot % slots * isz,
      rw (size, slotted) refl,
      omega (
        arith,
        mul-le-mul_right isz below,
        div-mul-le_self g.sb.blocksize isz,
        suc-mul (slot % slots) isz,
      ),
    )

module _ ⦃crc : Crc32c⦄ where
  -- Where the slots of inodes have 256 bytes or more and fit a block, and the block of an inode can be read and is a
  -- whole block, writing an inode whose fields fit their widths through a transaction succeeds, and reading that
  -- inode through the transaction it leaves returns what was written.
  pub read_inode_txn-write_inode_txn :
      (g : Gofs) (t : Txn) (ino : ℕ) (n : Inode) (buf : Bytes)
      → IsInRange n
      → 256 ≤ g.sb.inodesize
      → g.sb.inodesize ≤ g.sb.blocksize
      → txn_read g t (inode_block g ino) ≡ ok buf
      → length buf ≡ g.sb.blocksize
      → (t' : Txn) × (write_inode_txn g t ino n ≡ ok t') × (read_inode_txn g t' ino ≡ ok n)
  unfolding read_inode_txn write_inode_txn
  read_inode_txn-write_inode_txn g t ino n buf range big fits here whole =
      let (bytes, made, size, parsed) = parse-to_bytes_inode n [] range in
      let (off, at, inside) = inode_block_off-within g ino (omega arith) fits in
      let (buf', wrote, held) = get_slice-put_slice buf off bytes (omega arith) in
      (
        txn_write t (inode_block g ino) buf',
        step _ at (step _ here (step _ made (step _ wrote refl))),
        step _ at (
            step _ (txn_read-txn_write_self g t (inode_block g ino) buf') (
              step _ (subst (λ k. get_slice buf' off k ≡ ok bytes) size held)
                (ap Inode.parse (sym (append_nil bytes)) ∙ parsed))),
      )
