-- ===== src/Alloc/Free.antt =====
-- src/alloc.rs, `free_extent`: the granularity of a run is found again from the states on disk, and
-- records whose children are all FREE are coarsened away. The loop has one round of fuel for each block.
pub mod Enough
use fs.Prelude.{
  ℕ, zero, suc, ◌+◌, ◌/◌, ◌%◌, ◌^◌, err, ◌==◌, ltb, if◌then◌else◌, ensure, misaligned_free,
  not_allocated, bad_cell_state, no_fuel,
}
use fs.Prelude.Exec.{pure, lift, modify, ◌>>=◌, ◌>>◌}
use fs.Fmt.Bytes.{Bytes}
use fs.Fmt.Checksum.{Crc32c}
use fs.Fmt.Cells.{cell_free, cell_full, cell_refined}
use fs.Fmt.Addr.{blk_split}
use fs.Fmt.RootTable.{cell_blocks}
use fs.Alloc.Record.{RecRef, alloc_fanout, rec_state, rec_state_set, rec_ref, rec_ref_set, rec_all}
use fs.Alloc.Table.{Alloc, rt_state, rt_state_set, rt_ref, rt_ref_set, add_u32}
use fs.Alloc.Arena.{rec_read, rec_write, tbl_free_rec, put_ag_header, load_header}
use fs.Alloc.Counters.{account_free}

-- The level-1 child of a block in its level-0 cell.
abbrev pub child_of : ℕ → ℕ
child_of local = local % cell_blocks / alloc_fanout

-- A FULL level-0 cell; the blocks freed.
unfoldable pub free_cell : ℕ → ℕ → Alloc ℕ
free_cell local c = do
  lift (ensure (local % cell_blocks == 0) misaligned_free)
  rt_state_set c cell_free
  modify (account_free cell_blocks)
  pure cell_blocks

module _ ⦃crc : Crc32c⦄ where
  -- A FULL level-1 cell.
  unfoldable pub free_l1 : ℕ → ℕ → RecRef → Bytes → ℕ → Alloc ℕ
  free_l1 ag local l0 l0rec i = do
    lift (ensure (local % alloc_fanout == 0) misaligned_free)
    l0rec ← lift (rec_state_set l0rec i cell_free)
    rec_write ag l0 l0rec
    modify (account_free alloc_fanout)
    pure alloc_fanout

  -- A level-1 record without allocated children goes, and its cell is FREE again.
  unfoldable pub coarsen_l1 : ℕ → RecRef → Bytes → ℕ → RecRef → Bytes → Alloc (Unit {0})
  coarsen_l1 ag l0 l0rec i l1 l1rec = do
    empty ← lift (rec_all l1rec cell_free)
    if empty
        then (do
          tbl_free_rec ag l1
          l0rec ← lift (rec_state_set l0rec i cell_free)
          l0rec ← lift (rec_ref_set l0rec i (0, 0))
          rec_write ag l0 l0rec)
        else rec_write ag l1 l1rec

  -- A single block of a REFINED level-1 cell.
  unfoldable pub free_l2 : ℕ → ℕ → RecRef → Bytes → ℕ → Alloc ℕ
  unfolding coarsen_l1
  free_l2 ag local l0 l0rec i = do
    l1 ← lift (rec_ref l0rec i)
    l1rec ← rec_read ag l1
    let j = local % alloc_fanout
    st ← lift (rec_state l1rec j)
    lift (ensure (st == cell_full) not_allocated)
    l1rec ← lift (rec_state_set l1rec j cell_free)
    modify (account_free 1)
    coarsen_l1 ag l0 l0rec i l1 l1rec
    pure 1

  -- A level-0 record without allocated children goes, and its cell is FREE again.
  unfoldable pub coarsen_l0 : ℕ → ℕ → RecRef → Alloc (Unit {0})
  coarsen_l0 ag c l0 = do
    l0rec ← rec_read ag l0
    empty ← lift (rec_all l0rec cell_free)
    if empty
        then (do tbl_free_rec ag l0; rt_state_set c cell_free; rt_ref_set c (0, 0))
        else pure tt

  unfoldable pub free_in_cell : ℕ → ℕ → ℕ → Alloc ℕ
  unfolding free_l1 free_l2 coarsen_l0
  free_in_cell ag local c = do
    l0 ← rt_ref c
    l0rec ← rec_read ag l0
    let i = child_of local
    st ← lift (rec_state l0rec i)
    freed ←
        (if st == cell_full
          then free_l1 ag local l0 l0rec i
          else if st == cell_refined
          then free_l2 ag local l0 l0rec i
          else lift (err bad_cell_state))
    coarsen_l0 ag c l0
    pure freed

  -- One round: what is allocated at a block is freed.
  unfoldable pub free_at : ℕ → ℕ → Alloc ℕ
  unfolding free_cell free_in_cell
  free_at ag local = do
    let c = local / cell_blocks
    st ← rt_state c
    if st == cell_full
        then free_cell local c
        else if st == cell_refined
        then free_in_cell ag local c
        else lift (err bad_cell_state)

  unfoldable pub free_from : ℕ → ℕ → ℕ → ℕ → ℕ → Alloc (Unit {0})
  unfolding free_at
  free_from zero ag local0 cur n = if ltb cur n then lift (err no_fuel) else pure tt
  free_from (suc fuel) ag local0 cur n =
      if ltb cur n
      then (do
        freed ← free_at ag (add_u32 local0 (cur % 2 ^ 32))
        free_from fuel ag local0 (cur + freed) n)
      else pure tt

  unfoldable pub free_extent : ℕ → ℕ → Alloc (Unit {0})
  unfolding free_from
  free_extent blk n = do
    let (ag, local0) = blk_split blk
    load_header ag
    free_from n ag local0 0 n
    put_ag_header
