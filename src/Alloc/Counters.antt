-- ===== src/Alloc/Counters.antt =====
-- src/alloc.rs, the counters, and allocating whole level-0 cells.
use fs.Prelude.{ℕ, zero, suc, ◌+◌, ◌*◌, ◌%◌, ◌^◌, ok, err, ◌==◌, if◌then◌else◌, no_cells}
use fs.Prelude.Exec.{◌>>◌, pure, reads, lift, modify, ◌>>=◌}
use fs.Fmt.Cells.{cell_free, cell_full}
use fs.Fmt.Addr.{blk_addr}
use fs.Fmt.RootTable.{cell_blocks}
use fs.Alloc.Table.{
  AllocState, Alloc, cells_of, rt_state, rt_state_set, hint_pair, sub_u32, add_u32, sub_u64,
  add_u64,
}

unfoldable pub account_alloc : ℕ → AllocState → AllocState
account_alloc blocks s = record s {
  hdr = record s.hdr {
    free_blocks = sub_u32 s.hdr.free_blocks blocks;
    full_blocks = add_u32 s.hdr.full_blocks blocks;
  };
  fs = record s.fs {
    sb = record s.fs.sb {
      free_blocks = sub_u64 s.fs.sb.free_blocks blocks;
      full_blocks = add_u64 s.fs.sb.full_blocks blocks;
    };
  };
}

unfoldable pub account_free : ℕ → AllocState → AllocState
account_free blocks s = record s {
  hdr = record s.hdr {
    free_blocks = add_u32 s.hdr.free_blocks blocks;
    full_blocks = sub_u32 s.hdr.full_blocks blocks;
  };
  fs = record s.fs {
    sb = record s.fs.sb {
      free_blocks = add_u64 s.fs.sb.free_blocks blocks;
      full_blocks = sub_u64 s.fs.sb.full_blocks blocks;
    };
  };
}

-- The address of a block of this AG, from its number as a `u64` cast to `u32`.
abbrev pub address : ℕ → Alloc ℕ
address local = reads (λ s. ok (blk_addr s.hdr.ag_num (local % 2 ^ 32)))

abbrev pub cell_hint : AllocState → ℕ
cell_hint s = (hint_pair (s.fs.hints s.hdr.ag_num)).1

unfoldable pub fill_cells : ℕ → ℕ → Alloc (Unit {0})
fill_cells c zero = pure tt
fill_cells c (suc k) = do rt_state_set c cell_full; fill_cells (suc c) k

-- The loop of `alloc_l0` at cell `c` with `n` left.
unfoldable pub l0_from : ℕ → ℕ → ℕ → ℕ → ℕ → Alloc ℕ
unfolding fill_cells
l0_from k c run start zero = lift (err no_cells)
l0_from k c run start (suc n) = do
  st ← rt_state c
  let start' = if run == 0 then c else start
  let longer = l0_from k (suc c) (run + 1) start' n
  let restart = l0_from k (suc c) 0 start n
  if st == cell_free
      then (if run + 1 == k
          then (fill_cells start' k
              >> (modify (account_alloc (k * cell_blocks % 2 ^ 32))
                  >> address (start' * cell_blocks)))
          else longer)
      else restart

unfoldable pub alloc_l0 : ℕ → Alloc ℕ
unfolding l0_from
alloc_l0 k = do cells ← reads (λ s. ok (cells_of s)); l0_from k 0 0 0 cells
