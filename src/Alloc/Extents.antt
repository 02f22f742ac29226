-- ===== src/Alloc/Extents.antt =====
-- src/alloc.rs, allocating runs of 16-block level-1 cells and runs of single blocks, and the choice
-- of the granularity.
use fs.Prelude.{
  ℕ, ◌+◌, ◌*◌, ◌%◌, ◌^◌, Option, none, some, List, [], ◌∷◌, ok, ◌==◌, ltb, leb, if◌then◌else◌,
  out_of_space, found_or,
}
use fs.Prelude.Exec.{pure, reads, lift, modify, ◌>>=◌, ◌>>◌, attempt}
use fs.Fmt.Bytes.{Bytes}
use fs.Fmt.Checksum.{Crc32c}
use fs.Fmt.Cells.{cell_free, cell_full, cell_refined}
use fs.Fmt.RootTable.{cell_blocks, div_ceil}
use fs.Alloc.Record.{
  RecRef, alloc_fanout, rec_state, rec_state_set, rec_ref, rec_ref_set, set_run, find_state,
  find_run, range_from, wrap_range,
}
use fs.Alloc.Table.{
  Alloc, cells_of, rt_state, rt_state_set, rt_ref, rt_ref_set, find_cell, set_hints,
}
use fs.Alloc.Arena.{own_read, own_write, tbl_alloc_rec, put_ag_header, load_header}
use fs.Alloc.Counters.{account_alloc, address, cell_hint, alloc_l0}

module _ ⦃crc : Crc32c⦄ where
  -- The state is flipped before the record is allocated: a new arena must not take this cell.
  unfoldable pub refine_l0 : ℕ → Alloc RecRef
  refine_l0 c = do rt_state_set c cell_refined; r ← tbl_alloc_rec; rt_ref_set c r; pure r

  unfoldable pub refine_l1 : RecRef → ℕ → Alloc RecRef
  refine_l1 l0 i = do
    r ← tbl_alloc_rec
    rec ← own_read l0
    rec ← lift (rec_state_set rec i cell_refined)
    rec ← lift (rec_ref_set rec i r)
    own_write l0 rec
    pure r

  -- `m` children of a record from `start` on become FULL.
  unfoldable pub fill_record : RecRef → Bytes → ℕ → ℕ → Alloc (Unit {0})
  fill_record r rec start m = do rec ← lift (set_run rec start m cell_full); own_write r rec

  -- A run in one already refined level-0 cell.
  unfoldable pub l1_in : ℕ → ℕ → Alloc (Option ℕ)
  unfolding fill_record
  l1_in m c = do
    st ← rt_state c
    if st == cell_refined
        then (do
          r ← rt_ref c
          rec ← own_read r
          run ← lift (find_run rec m)
          elim run [
            | none ↦ pure none
            | some start ↦ do
              fill_record r rec start m
              modify (account_alloc (m * alloc_fanout))
              set_hints (λ h. (h.0, c))
              blk ← address (c * cell_blocks + start * alloc_fanout)
              pure (some blk)
          ])
        else pure none

  -- The first cell of a list where an attempt succeeds.
  unfoldable pub first_in : (ℕ → Alloc (Option ℕ)) → List ℕ → Alloc (Option ℕ)
  first_in attempt [] = pure none
  first_in attempt (c ∷ cells) = do
    got ← attempt c
    elim got [ some blk ↦ pure (some blk) | none ↦ first_in attempt cells ]

  -- A fresh FREE level-0 cell.
  unfoldable pub fresh_cell : Alloc ℕ
  fresh_cell = do
    cells ← reads (λ s. ok (cells_of s))
    free ← find_cell cell_free 0 cells
    lift (found_or free out_of_space)

  unfoldable pub l1_fresh : ℕ → Alloc ℕ
  unfolding fresh_cell refine_l0 fill_record
  l1_fresh m = do
    c ← fresh_cell
    r ← refine_l0 c
    rec ← own_read r
    fill_record r rec 0 m
    modify (account_alloc (m * alloc_fanout))
    address (c * cell_blocks)

  unfoldable pub alloc_l1 : ℕ → Alloc ℕ
  unfolding l1_in first_in l1_fresh
  alloc_l1 m = do
    s ← reads ok
    got ← first_in (l1_in m) (wrap_range (cell_hint s) (cells_of s))
    elim got [ some blk ↦ pure blk | none ↦ l1_fresh m ]

  -- A free run in the level-2 record of child `i` of a level-0 record.
  unfoldable pub l2_in_child : ℕ → ℕ → Bytes → ℕ → Alloc (Option ℕ)
  unfolding fill_record
  l2_in_child n c l0rec i = do
    st ← lift (rec_state l0rec i)
    if st == cell_refined
        then (do
          l1 ← lift (rec_ref l0rec i)
          l1rec ← own_read l1
          run ← lift (find_run l1rec n)
          elim run [
            | none ↦ pure none
            | some start ↦ do
              fill_record l1 l1rec start n
              modify (account_alloc n)
              set_hints (λ h. (h.0, c))
              blk ← address (c * cell_blocks + i * alloc_fanout + start)
              pure (some blk)
          ])
        else pure none

  -- Pass 1: an existing level-2 record of the cell with a free run.
  unfoldable pub l2_in : ℕ → ℕ → Alloc (Option ℕ)
  unfolding first_in l2_in_child range_from
  l2_in n c = do
    st ← rt_state c
    if st == cell_refined
        then (do
          l0 ← rt_ref c
          l0rec ← own_read l0
          first_in (l2_in_child n c l0rec) (range_from 0 alloc_fanout))
        else pure none

  -- Pass 2: a FREE level-1 child of the cell is refined.
  unfoldable pub l2_refining : ℕ → ℕ → Alloc (Option ℕ)
  unfolding refine_l1 fill_record
  l2_refining n c = do
    st ← rt_state c
    if st == cell_refined
        then (do
          l0 ← rt_ref c
          l0rec ← own_read l0
          free ← lift (find_state l0rec cell_free 0 alloc_fanout)
          elim free [
            | none ↦ pure none
            | some i ↦ do
              l1 ← refine_l1 l0 i
              l1rec ← own_read l1
              fill_record l1 l1rec 0 n
              modify (account_alloc n)
              set_hints (λ h. (h.0, c))
              blk ← address (c * cell_blocks + i * alloc_fanout)
              pure (some blk)
          ])
        else pure none

  -- Pass 3: a fresh level-0 cell is refined, then its first level-1 child.
  unfoldable pub l2_fresh : ℕ → Alloc ℕ
  unfolding fresh_cell refine_l0 refine_l1 fill_record
  l2_fresh n = do
    c ← fresh_cell
    l0 ← refine_l0 c
    l1 ← refine_l1 l0 0
    l1rec ← own_read l1
    fill_record l1 l1rec 0 n
    modify (account_alloc n)
    address (c * cell_blocks)

  unfoldable pub alloc_l2 : ℕ → Alloc ℕ
  unfolding first_in l2_in l2_refining l2_fresh
  alloc_l2 n = do
    s ← reads ok
    let order = wrap_range (cell_hint s) (cells_of s)
    got ← first_in (l2_in n) order
    elim got [
      | some blk ↦ pure blk
      | none ↦ do
        got ← first_in (l2_refining n) order
        elim got [ some blk ↦ pure blk | none ↦ l2_fresh n ]
    ]

  -- Which granularity a request of `n` blocks takes.
  unfoldable pub alloc_by_size : ℕ → Alloc ℕ
  unfolding alloc_l0 alloc_l1 alloc_l2
  alloc_by_size n =
      if leb cell_blocks n
      then alloc_l0 (div_ceil n cell_blocks)
      else if ltb alloc_fanout n
      then alloc_l1 (div_ceil n alloc_fanout % 2 ^ 32)
      else alloc_l2 (n % 2 ^ 32)

  unfoldable pub alloc_extent : ℕ → ℕ → Alloc ℕ
  unfolding alloc_by_size
  alloc_extent ag n = do load_header ag; blk ← alloc_by_size n; put_ag_header; pure blk

  unfoldable pub alloc_block : ℕ → Alloc ℕ
  unfolding alloc_extent
  alloc_block ag = alloc_extent ag 1
