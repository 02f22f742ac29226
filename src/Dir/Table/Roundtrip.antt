-- ===== src/Dir/Table/Roundtrip.antt =====
-- src/dir.rs: a header block of a hashed directory, written and read back.
use fs.Alloc.Table.{add_u64}
use fs.Dir.Hash.{shift_one}
use fs.Journal.Store.{put}
use fs.Dir.Table.{dirh_magic, dh_hdr, Header, table_from, freelist_from, header_block, header_of}
use fs.Fmt.Bytes.{
  Bytes, to_be, put_slice, get_prefix, get_suffix, get_slice, get_byte, put_byte, put_u16, put_u32,
  put_u64, get_u16, get_u32,
}
use fs.Prelude.{
  ℕ, zero, suc, ◌+◌, ◌≤◌, ◌≡◌, ◌∙◌, inl, inr, [], ◌∷◌, arith, length, Out, ◌>>=◌, ok, ◌*◌, ◌%◌, ◌^◌,
  ◌<◌, refl, sym, true, leb, replicate, length-replicate,
}
use fs.Fmt.Bytes.Slices.{SlicesApart, put_slice-get_slice}
use fs.Fmt.Bytes.Laws.{from_be-to_be_four, from_be-to_be_two}
use fs.Dir.Table.Slots.{AllU32, table_from_same, table_from-put_table, freelist_from-put_freelist}

get_byte-held : (b : Bytes) (off v : ℕ) → get_slice b off 1 ≡ ok (v ∷ []) → get_byte b off ≡ ok v
unfolding get_byte get_slice get_suffix get_prefix
get_byte-held [] zero v h = cc
get_byte-held [] (suc off) v h = cc
get_byte-held (x ∷ b) zero v h = cc
get_byte-held (x ∷ b) (suc off) v h = get_byte-held b off v h

-- What a header block holds ahead of its table.
pub record HeaderFields (b : Bytes) (d n m : ℕ) : Type 0 where
  pub magic : get_slice b 0 4 ≡ ok dirh_magic
  pub depth : get_slice b 16 1 ≡ ok (d ∷ [])
  pub nfree : get_slice b 18 2 ≡ ok (to_be 2 n)
  pub nbuckets : get_slice b 20 4 ≡ ok (to_be 4 m)

-- They stay where the bytes of other ranges change.
pub HeaderFields_kept :
    (b b' : Bytes) (depth nfree nbuckets : ℕ)
    → ((o n : ℕ) → SlicesApart o n 4 4 → o + n ≤ dh_hdr → get_slice b' o n ≡ get_slice b o n)
    → HeaderFields b depth nfree nbuckets
    → HeaderFields b' depth nfree nbuckets
HeaderFields_kept b b' depth nfree nbuckets same f = record {
  magic = same 0 4 (inl (omega arith)) (omega arith) ∙ f.magic;
  depth = same 16 1 (inr (omega arith)) (omega arith) ∙ f.depth;
  nfree = same 18 2 (inr (omega arith)) (omega arith) ∙ f.nfree;
  nbuckets = same 20 4 (inr (omega arith)) (omega arith) ∙ f.nbuckets;
}

abbrev put_fields : Bytes → ℕ → ℕ → ℕ → ℕ → (Bytes → Out Bytes) → Out Bytes
put_fields buf gen depth nfree nbuckets rest = do
  buf ← put_slice buf 0 dirh_magic
  buf ← put_u64 buf 8 gen
  buf ← put_byte buf 16 depth
  buf ← put_u16 buf 18 nfree
  buf ← put_u32 buf 20 nbuckets
  rest buf

put_fields-HeaderFields :
    (b : Bytes) (gen depth nfree nbuckets : ℕ)
    → dh_hdr ≤ length b
    → (b' : Bytes) × ((rest : Bytes → Out Bytes)
        → put_fields b gen depth nfree nbuckets rest ≡ rest b')
      × (length b' ≡ length b)
      × HeaderFields b' depth nfree nbuckets
unfolding put_u64 put_byte put_u16 put_u32 to_be
put_fields-HeaderFields b gen depth nfree nbuckets fits =
    let (b1, w1, s1, h1, k1) = put_slice-get_slice b 0 dirh_magic (omega arith) in
    let (b2, w2, s2, h2, k2) = put_slice-get_slice b1 8 (to_be 8 gen) (omega arith) in
    let (b3, w3, s3, h3, k3) = put_slice-get_slice b2 16 (depth ∷ []) (omega arith) in
    let (b4, w4, s4, h4, k4) = put_slice-get_slice b3 18 (to_be 2 nfree) (omega arith) in
    let (b5, w5, s5, h5, k5) = put_slice-get_slice b4 20 (to_be 4 nbuckets) (omega arith) in
    (
      b5,
      λ rest. rw (w1, w2, w3, w4, w5) refl,
      s5 ∙ s4 ∙ s3 ∙ s2 ∙ s1,
      record {
        magic =
            k5 0 4 (inl (omega arith))
            ∙ k4 0 4 (inl (omega arith))
            ∙ k3 0 4 (inl (omega arith))
            ∙ k2 0 4 (inl (omega arith))
            ∙ h1;
        depth = k5 16 1 (inl (omega arith)) ∙ k4 16 1 (inl (omega arith)) ∙ h3;
        nfree = k5 18 2 (inl (omega arith)) ∙ h4;
        nbuckets = h5;
      },
    )

-- A header whose table has a slot for each index of its depth, and which fits a block and the widths of its fields.
pub record IsHeader (bs : ℕ) (h : Header) : Type 0 where
  pub slots : length h.table ≡ shift_one h.depth
  pub fits : dh_hdr + length h.table * 4 + length h.freelist * 4 ≤ bs
  pub few : length h.freelist < 2 ^ 16
  pub nbuckets : h.nbuckets < 2 ^ 32
  pub table : AllU32 h.table
  pub freelist : AllU32 h.freelist

-- A block with the fields, the table and the freelist of a header.
pub record Holding (b : Bytes) (h : Header) : Type 0 where
  pub fields : HeaderFields b h.depth (length h.freelist) h.nbuckets
  pub table : table_from (length h.table) b 0 ≡ ok h.table
  pub freelist : freelist_from (length h.freelist) b 0 ≡ ok h.freelist

pub header_block-Holding :
    (bs old : ℕ) (h : Header)
    → IsHeader bs h
    → (b : Bytes) × (header_block bs old h ≡ ok b) × (length b ≡ bs) × Holding b h
unfolding header_block
header_block-Holding bs old h is =
    let len : length (replicate {A = ℕ} bs 0) ≡ bs = length-replicate {A = ℕ} bs 0 in
    let fits = is.fits in
    let (b1, wrote, size, fields) =
      put_fields-HeaderFields (replicate bs 0) (add_u64 old 1) h.depth (length h.freelist)
        h.nbuckets (omega arith) in
    let (b2, put, table, (size2, same2)) =
      table_from-put_table b1 0 h.table is.table (omega arith) in
    let (b3, listed, freelist, (size3, same3)) =
      freelist_from-put_freelist bs b2 0 h.freelist (omega arith) is.freelist (omega arith) in
    let few : length h.freelist % 2 ^ 16 ≡ length h.freelist =
      (let small = is.few in omega arith) in
    let room : leb (dh_hdr + length h.table * 4 + length h.freelist * 4) bs ≡ true = ground arith in
    (
      b3,
      rw few (wrote _ ∙ rw (room, put) listed),
      omega arith,
      record {
        fields =
            HeaderFields_kept b1 b3 h.depth (length h.freelist) h.nbuckets
              (λ o n a within. same3 o n (inl (omega arith)) ∙ same2 o n (inl (omega arith)))
              fields;
        table =
            table_from_same (length h.table) b2 b3 0
              (λ j lo hi. same3 (dh_hdr + j * 4) 4 (inl (omega arith)))
            ∙ table;
        freelist = freelist;
      },
    )

pub header_of-Holding :
    (bs blk : ℕ) (b : Bytes) (h : Header)
    → IsHeader bs h
    → Holding b h
    → header_of blk b ≡ ok (record h { blk = blk })
unfolding header_of get_u32 get_u16
header_of-Holding bs blk b h is held =
    rw
      (
        get_byte-held b 16 h.depth held.fields.depth,
        held.fields.nbuckets,
        from_be-to_be_four h.nbuckets is.nbuckets,
        sym is.slots,
        held.table,
        held.fields.nfree,
        from_be-to_be_two (length h.freelist) is.few,
        held.freelist,
      )
      refl
