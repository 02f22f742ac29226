-- ===== src/Alloc/Arena.antt =====
-- src/alloc.rs, the table blocks of an AG, their records and the arenas they lie in, and the AG header.
use fs.Prelude.{
  ℕ, ◌-◌, ◌*◌, ◌%◌, ◌^◌, ◌&&◌, Option, none, some, List, [], ◌∷◌, ok, ◌==◌, ltb, leb, if◌then◌else◌,
  replicate, bit_and, bit_or, ensure, not_table_block, table_checksum, no_arena_cell, unwrap,
  found_or,
}
use fs.Prelude.Exec.{pure, reads, lift, modify, ◌>>=◌, ◌>>◌}
use fs.Fmt.Bytes.{Bytes, get_slice, get_u32, get_u64, put_slice, put_u32, put_u64, bytes_eq}
use fs.Fmt.Checksum.{Crc32c, csum}
use fs.Fmt.Cells.{cell_free, cell_rsvd}
use fs.Fmt.Addr.{blk_addr}
use fs.Fmt.RootTable.{cell_blocks}
use fs.Fmt.AgHeader
use fs.Fmt.AgHeader.{AgHeader}
use fs.Fs.Read.{ag_header_block}
use fs.Alloc.Record.{RecRef, rec_size, rec_off, recs_per_block, wrap_range}
use fs.Alloc.Table.{
  AllocState, Alloc, alloc_magic, sub_u32, add_u32, sub_u64, add_u64, read_at, write_at, header,
  superblock, rt_state_set, cells_of, find_cell, count_ones, one_shl, find_unused, set_hints,
}

module _ ⦃crc : Crc32c⦄ where
  unfoldable pub tbl_read : (ag local : ℕ) → Alloc Bytes
  tbl_read ag local = do
    buf ← read_at (blk_addr ag local)
    magic ← lift (get_slice buf 0 4)
    lift (ensure (bytes_eq magic alloc_magic) not_table_block)
    stored ← lift (get_u32 buf 4)
    computed ← lift (csum buf 4)
    lift (ensure (stored == computed) table_checksum)
    pure buf

  unfoldable pub tbl_write : (ag local : ℕ) → Bytes → Alloc (Unit {0})
  tbl_write ag local buf = do
    gen ← lift (get_u64 buf 8)
    buf ← lift (put_u64 buf 8 (add_u64 gen 1))
    c ← lift (csum buf 4)
    buf ← lift (put_u32 buf 4 c)
    write_at (blk_addr ag local) buf

  unfoldable pub rec_read : ℕ → RecRef → Alloc Bytes
  unfolding tbl_read
  rec_read ag r = do buf ← tbl_read ag r.0; lift (get_slice buf (rec_off r.1) rec_size)

  unfoldable pub rec_write : ℕ → RecRef → Bytes → Alloc (Unit {0})
  unfolding tbl_read tbl_write
  rec_write ag r rec = do
    buf ← tbl_read ag r.0
    buf ← lift (put_slice buf (rec_off r.1) rec)
    tbl_write ag r.0 buf

  -- A record of the AG that the header names.
  abbrev pub own_read : RecRef → Alloc Bytes
  own_read r = do hdr ← header; rec_read hdr.ag_num r

  abbrev pub own_write : RecRef → Bytes → Alloc (Unit {0})
  own_write r rec = do hdr ← header; rec_write hdr.ag_num r rec

  -- The table block, or a fresh one where the arena block was never used.
  unfoldable pub tbl_or_fresh : ℕ → Alloc Bytes
  unfolding tbl_read
  tbl_or_fresh b = do
    hdr ← header
    sb ← superblock
    raw ← read_at (blk_addr hdr.ag_num b)
    magic ← lift (get_slice raw 0 4)
    if bytes_eq magic alloc_magic
        then tbl_read hdr.ag_num b
        else lift (put_slice (replicate sb.blocksize 0) 0 alloc_magic)

  -- A free record of one arena block, if it has one.
  unfoldable pub claim_in : ℕ → ℕ → Bytes → Alloc (Option RecRef)
  unfolding tbl_write
  claim_in nrec b buf = do
    used ← lift (get_u32 buf 16)
    if leb nrec (count_ones used) then pure none else do
      idx ← lift (unwrap (find_unused used 0 nrec))
      buf ← lift (put_u32 buf 16 (bit_or used (one_shl idx)))
      buf ← lift (put_slice buf (rec_off idx) (replicate rec_size 0))
      hdr ← header
      tbl_write hdr.ag_num b buf
      set_hints (λ h. (b, h.1))
      pure (some (b, idx))

  unfoldable pub claim_among : ℕ → List ℕ → Alloc (Option RecRef)
  unfolding tbl_or_fresh claim_in
  claim_among nrec [] = pure none
  claim_among nrec (o ∷ offsets) = do
    hdr ← header
    let b = add_u32 hdr.tbl_arena o
    buf ← tbl_or_fresh b
    claimed ← claim_in nrec b buf
    elim claimed [ some r ↦ pure (some r) | none ↦ claim_among nrec offsets ]

  -- The hint counts where it lies in the arena.
  unfoldable pub arena_hint : AllocState → ℕ
  arena_hint s = elim (s.fs.hints s.hdr.ag_num) [
    | none ↦ s.hdr.tbl_arena
    | some h ↦
        if leb s.hdr.tbl_arena h.0 && ltb h.0 (add_u32 s.hdr.tbl_arena cell_blocks)
        then h.0
        else s.hdr.tbl_arena
  ]

  unfoldable pub claim_in_arena : Alloc (Option RecRef)
  unfolding claim_among arena_hint
  claim_in_arena = do
    s ← reads ok
    if s.hdr.tbl_arena == 0
        then pure none
        else claim_among (recs_per_block s.fs.sb.blocksize)
            (wrap_range (arena_hint s - s.hdr.tbl_arena) cell_blocks)

  -- The counters when a FREE cell becomes a table arena.
  unfoldable pub account_arena : ℕ → AllocState → AllocState
  account_arena c s = record s {
    hdr = record s.hdr {
      tbl_arena = c * cell_blocks % 2 ^ 32;
      free_blocks = sub_u32 s.hdr.free_blocks cell_blocks;
      rsvd_blocks = add_u32 s.hdr.rsvd_blocks cell_blocks;
    };
    fs = record s.fs {
      sb = record s.fs.sb {
        free_blocks = sub_u64 s.fs.sb.free_blocks cell_blocks;
        rsvd_blocks = add_u64 s.fs.sb.rsvd_blocks cell_blocks;
      };
    };
  }

  unfoldable pub new_arena : Alloc RecRef
  unfolding find_cell rt_state_set account_arena tbl_write
  new_arena = do
    cells ← reads (λ s. ok (cells_of s))
    free ← find_cell cell_free 0 cells
    c ← lift (found_or free no_arena_cell)
    rt_state_set c cell_rsvd
    modify (account_arena c)
    hdr ← header
    set_hints (λ h. (hdr.tbl_arena, h.1))
    sb ← superblock
    buf ← lift (put_slice (replicate sb.blocksize 0) 0 alloc_magic)
    buf ← lift (put_u32 buf 16 1)
    tbl_write hdr.ag_num hdr.tbl_arena buf
    pure (hdr.tbl_arena, 0)

  unfoldable pub tbl_alloc_rec : Alloc RecRef
  unfolding claim_in_arena new_arena
  tbl_alloc_rec = do claimed ← claim_in_arena; elim claimed [ some r ↦ pure r | none ↦ new_arena ]

  unfoldable pub tbl_free_rec : ℕ → RecRef → Alloc (Unit {0})
  unfolding tbl_read tbl_write
  tbl_free_rec ag r = do
    buf ← tbl_read ag r.0
    used ← lift (get_u32 buf 16)
    buf ← lift (put_u32 buf 16 (bit_and used (2 ^ 32 - 1 - one_shl r.1)))
    buf ← lift (put_slice buf (rec_off r.1) (replicate rec_size 0))
    tbl_write ag r.0 buf

  unfoldable pub put_ag_header : Alloc (Unit {0})
  put_ag_header = do
    modify (λ s. record s { hdr = record s.hdr { gen = add_u64 s.hdr.gen 1 } })
    hdr ← header
    sb ← superblock
    bytes ← lift (AgHeader.to_bytes hdr)
    buf ← lift (put_slice (replicate sb.blocksize 0) 0 bytes)
    write_at (blk_addr hdr.ag_num (ag_header_block hdr.ag_num)) buf

  unfoldable pub read_ag_header_txn : ℕ → Alloc AgHeader
  read_ag_header_txn ag = do
    buf ← read_at (blk_addr ag (ag_header_block ag))
    lift (AgHeader.parse buf)

  -- The methods that read the header into memory themselves.
  unfoldable pub load_header : ℕ → Alloc (Unit {0})
  unfolding read_ag_header_txn
  load_header ag = do hdr ← read_ag_header_txn ag; modify (λ s. record s { hdr = hdr })
