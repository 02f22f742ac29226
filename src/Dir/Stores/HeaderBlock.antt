-- ===== src/Dir/Stores/HeaderBlock.antt =====
-- src/dir.rs: a header that `dhdr_write` writes is the one that `dhdr_read` reads.
use fs.Alloc.Table.{AllocState}
use fs.Dir.Table.{dirh_magic, dh_hdr, Header, dir_block_addr, dir_block_read, dhdr_read}
use fs.Dir.Stores.{old_gen, write_summed, dhdr_write}
use fs.Journal.Txn.Laws.{txn_read-txn_write_self}
use fs.Journal.Store.{put}
use fs.Journal.Txn.{Txn, txn_write}
use fs.Fmt.Bytes.Laws.{bytes_eq_refl}
use fs.Fmt.Bytes.{Bytes, get_prefix, get_suffix, get_slice}
use fs.Fmt.Inode.{Inode, fmt_extent}
use fs.Fmt.Checksum.{Crc32c, csum}
use fs.Prelude.{
  ℕ, zero, suc, ◌+◌, ◌-◌, ◌*◌, ◌^◌, ◌≤◌, ◌<◌, ◌≡◌, refl, sym, ◌∙◌, inl, inr, [], ◌∷◌, arith, length,
  ==-refl, ok,
}
use fs.Dir.Table.Slots.{ChangedIn, put_u32-ChangedIn, table_from_same, freelist_from_same}
use fs.Dir.Table.Roundtrip.{
  IsHeader, Holding, HeaderFields_kept, header_block-Holding, header_of-Holding,
}
use fs.Dir.Stores.Readback.{inline_addr}

get_prefix_all : (b : Bytes) → get_prefix b (length b) ≡ ok b
unfolding get_prefix
get_prefix_all [] = refl
get_prefix_all (x ∷ b) = rw (get_prefix_all b) refl

get_suffix-get_slice : (b : Bytes) (o n : ℕ) → o + n ≡ length b → get_suffix b o ≡ get_slice b o n
unfolding get_suffix get_slice
get_suffix-get_slice b zero n e =
    (let e' : n ≡ length b = omega arith in rw (e', get_prefix_all b) refl)
get_suffix-get_slice [] (suc o) n e = absurd (omega arith)
get_suffix-get_slice (x ∷ b) (suc o) n e = get_suffix-get_slice b o n (omega arith)

get_suffix_within : (b : Bytes) (o : ℕ) → o ≤ length b → (s : Bytes) × (get_suffix b o ≡ ok s)
unfolding get_suffix
get_suffix_within b zero h = (b, unfold get_suffix in refl)
get_suffix_within [] (suc o) h = absurd (omega arith)
get_suffix_within (x ∷ b) (suc o) h = get_suffix_within b o (omega arith)

module _ ⦃crc : Crc32c⦄ where
  -- A change of its own field does not change a checksum.
  csum-ChangedIn : (b b' : Bytes) → 8 ≤ length b → ChangedIn 4 4 b b' → csum b' 4 ≡ csum b 4
  unfolding csum
  csum-ChangedIn b b' long (size, same) =
      let front : get_prefix b' 4 ≡ get_prefix b 4 =
        unfold get_slice get_suffix in same 0 4 (inl (omega arith)) in
      let back : get_suffix b' 8 ≡ get_suffix b 8 =
        get_suffix-get_slice b' 8 (length b - 8) (omega arith)
        ∙ same 8 (length b - 8) (inr (omega arith))
        ∙ sym (get_suffix-get_slice b 8 (length b - 8) (omega arith)) in
      rw (front, back) refl

  csum_within :
      (b front : Bytes)
      → 8 ≤ length b
      → get_slice b 0 4 ≡ ok front
      → (c : ℕ) × (csum b 4 ≡ ok c) × (c < 2 ^ 32)
  unfolding csum
  csum_within b front long held =
      let (rest, back) = get_suffix_within b 8 long in
      let at : get_prefix b 4 ≡ ok front = unfold get_slice get_suffix in held in
      (
        crc.crc32c_append (crc.crc32c_append (crc.crc32c front) (0 ∷ 0 ∷ 0 ∷ 0 ∷ [])) rest,
        rw (at, back) refl,
        crc.crc32c_append-lt _ rest,
      )

-- A header stays in a block whose checksum is put in.
Holding-sealed :
    (b b' : Bytes) (h : Header) (bs : ℕ)
    → length b ≡ bs
    → IsHeader bs h
    → ChangedIn 4 4 b b'
    → Holding b h
    → Holding b' h
Holding-sealed b b' h bs len is (size, same) held =
    let fits = is.fits in
    record {
      fields =
          HeaderFields_kept b b' h.depth (length h.freelist) h.nbuckets (λ o n a w. same o n a)
            held.fields;
      table =
          table_from_same (length h.table) b b' 0
            (λ j lo hi. same (dh_hdr + j * 4) 4 (inr (omega arith)))
          ∙ held.table;
      freelist =
          freelist_from_same (length h.freelist) b b' 0 size (omega arith)
            (λ j lo hi. same (length b - 4 * (j + 1)) 4 (inr (omega arith)))
          ∙ held.freelist;
    }

module _ ⦃crc : Crc32c⦄ (levels : ℕ) where
  -- In a directory with inline extents, a header that has a slot for each index of its depth, and that fits a block
  -- and the widths of its fields, is written to the first block of the directory, and then it is read back. The
  -- generation of the block that is written anew can be read.
  pub dhdr_read-dhdr_write :
      (s : AllocState) (inode : Inode) (old : ℕ) (h : Header)
      → inode.format ≡ fmt_extent
      → dir_block_addr levels s.fs s.txn inode 0 ≡ ok h.blk
      → old_gen h.blk s ≡ (ok old, s)
      → IsHeader s.fs.sb.blocksize h
      → (content : Bytes) × (dhdr_write h s
          ≡ (ok tt, record s { txn = txn_write s.txn h.blk content }))
        × (dhdr_read levels s.fs (txn_write s.txn h.blk content) inode ≡ ok h)
  unfolding dhdr_write write_summed dhdr_read dir_block_read
  dhdr_read-dhdr_write s inode old h extent at gen is =
      let fits = is.fits in
      let (b, built, len, held) = header_block-Holding s.fs.sb.blocksize old h is in
      let (c, sum, small) = csum_within b dirh_magic (omega arith) held.fields.magic in
      let (sealed, put, stored, changed) = put_u32-ChangedIn b 4 c small (omega arith) in
      let whole = Holding-sealed b sealed h s.fs.sb.blocksize len is changed held in
      let t : Txn = txn_write s.txn h.blk sealed in
      let addr : dir_block_addr levels s.fs t inode 0 ≡ ok h.blk =
        inline_addr levels s.fs t s.txn inode 0 extent ∙ at in
      (
        sealed,
        rw (gen, built, sum, put) refl,
        rw
            (
              addr,
              txn_read-txn_write_self s.fs s.txn h.blk sealed,
              whole.fields.magic,
              bytes_eq_refl dirh_magic,
              stored,
              csum-ChangedIn b sealed (omega arith) changed,
              sum,
              ==-refl c,
            )
            (header_of-Holding s.fs.sb.blocksize h.blk sealed h is whole),
      )
