-- ===== src/Alloc/Slots.antt =====
-- src/alloc.rs, inode slots: a level-2 block that holds inodes is refined one level further, into a
-- record with a state for each of its slots.
use fs.Journal.Txn.{empty}
use fs.Prelude.{
  ℕ, ◌+◌, ◌*◌, ◌/◌, ◌%◌, ◌^◌, Option, none, some, err, ◌==◌, if◌then◌else◌, replicate,
  not_slot_refined, no_l1_record, bad_cell_state, checked, found_or,
}
use fs.Prelude.Exec.{◌>>◌, pure, lift, modify, ◌>>=◌}
use fs.Fmt.Bytes.{Bytes, put_slice}
use fs.Fmt.Checksum.{Crc32c}
use fs.Fmt.Cells.{cell_free, cell_full, cell_refined}
use fs.Fmt.Addr.{blk_addr, blk_split, ino_addr}
use fs.Fmt.RootTable.{cell_blocks}
use fs.Alloc.Record.{
  RecRef, alloc_fanout, rec_size, rec_state, rec_state_set, rec_ref, rec_ref_set, rec_all,
  find_state,
}
use fs.Alloc.Table.{Alloc, header, superblock, rt_state, rt_ref, read_at, write_at}
use fs.Alloc.Arena.{
  own_read, rec_read, rec_write, tbl_alloc_rec, tbl_free_rec, put_ag_header, load_header,
}
use fs.Alloc.Extents.{alloc_extent}
use fs.Alloc.Free.{child_of, free_extent}

-- `hdr.ino_hint = local`
abbrev pub set_ino_hint : ℕ → Alloc (Unit {0})
set_ino_hint local = modify (λ s. record s { hdr = record s.hdr { ino_hint = local } })

-- The slots of one block.
abbrev pub slots_per_block : Alloc ℕ
slots_per_block = do
  sb ← superblock
  lift (checked (sb.inodesize % 2 ^ 32) (sb.blocksize / (sb.inodesize % 2 ^ 32)))

module _ ⦃crc : Crc32c⦄ where
  -- The level-1 record of a block, and the block's index in it.
  unfoldable pub slot_l1_of : ℕ → Alloc (Option (RecRef × RecRef × ℕ))
  slot_l1_of local = do
    let c = local / cell_blocks
    st ← rt_state c
    if st == cell_refined
        then (do
          l0 ← rt_ref c
          l0rec ← own_read l0
          let i = child_of local
          st ← lift (rec_state l0rec i)
          if st == cell_refined
              then (do l1 ← lift (rec_ref l0rec i); pure (some (l0, l1, local % alloc_fanout)))
              else pure none)
        else pure none

  -- The slot record of a block, with its level-1 record and its index in that.
  unfoldable pub slot_rec_at : ℕ → Alloc (Option (RecRef × RecRef × ℕ))
  slot_rec_at local = do
    let c = local / cell_blocks
    st ← rt_state c
    if st == cell_refined
        then (do
          l0 ← rt_ref c
          l0rec ← own_read l0
          let i = child_of local
          st ← lift (rec_state l0rec i)
          if st == cell_refined
              then (do
                l1 ← lift (rec_ref l0rec i)
                l1rec ← own_read l1
                let j = local % alloc_fanout
                st ← lift (rec_state l1rec j)
                if st == cell_refined
                    then (do l3 ← lift (rec_ref l1rec j); pure (some (l3, l1, j)))
                    else pure none)
              else pure none)
        else pure none

  -- A free slot in the block that the header's hint names.
  unfoldable pub slot_at_hint : ℕ → ℕ → Alloc (Option ℕ)
  unfolding slot_rec_at
  slot_at_hint ag slots = do
    hdr ← header
    if hdr.ino_hint == 0 then pure none else do
      found ← slot_rec_at hdr.ino_hint
      elim found [
        | none ↦ pure none
        | some (l3, l1, j) ↦ do
          l3rec ← rec_read ag l3
          free ← lift (find_state l3rec cell_free 0 slots)
          elim free [
            | none ↦ pure none
            | some s ↦ do
              l3rec ← lift (rec_state_set l3rec s cell_full)
              rec_write ag l3 l3rec
              pure (some (ino_addr ag ((hdr.ino_hint * slots + s) % 2 ^ 32)))
          ]
      ]

  -- A new block of slots: a level-2 block, refined one level further.
  unfoldable pub new_slot_block : ℕ → ℕ → Alloc ℕ
  unfolding slot_l1_of
  new_slot_block ag slots = do
    blk ← alloc_extent ag 1
    let (same, local) = blk_split blk
    sb ← superblock
    write_at blk (replicate sb.blocksize 0)
    load_header ag
    l3 ← tbl_alloc_rec
    found ← slot_l1_of local
    (l0, l1, j) ← lift (found_or found no_l1_record)
    l1rec ← rec_read ag l1
    l1rec ← lift (rec_state_set l1rec j cell_refined)
    l1rec ← lift (rec_ref_set l1rec j l3)
    rec_write ag l1 l1rec
    l3rec ← lift (rec_state_set (replicate rec_size 0) 0 cell_full)
    rec_write ag l3 l3rec
    set_ino_hint local
    put_ag_header
    pure (ino_addr ag (local * slots % 2 ^ 32))

  unfoldable pub alloc_inode : ℕ → Alloc ℕ
  unfolding slot_at_hint new_slot_block
  alloc_inode ag = do
    load_header ag
    slots ← slots_per_block
    got ← slot_at_hint ag slots
    elim got [ some ino ↦ pure ino | none ↦ new_slot_block ag slots ]

  -- A slot block without used slots goes back to the allocator.
  unfoldable pub drop_slot_block : ℕ → ℕ → ℕ → RecRef → RecRef → ℕ → Alloc (Unit {0})
  drop_slot_block ag blk local l3 l1 j = do
    tbl_free_rec ag l3
    l1rec ← rec_read ag l1
    l1rec ← lift (rec_state_set l1rec j cell_full)
    l1rec ← lift (rec_ref_set l1rec j (0, 0))
    rec_write ag l1 l1rec
    free_extent blk 1
    load_header ag
    hdr ← header
    if hdr.ino_hint == local then (set_ino_hint 0 >> put_ag_header) else pure tt

  unfoldable pub keep_slot_block : ℕ → ℕ → RecRef → Bytes → Alloc (Unit {0})
  keep_slot_block ag local l3 l3rec = do
    rec_write ag l3 l3rec
    hdr ← header
    if hdr.ino_hint == local then pure tt else (set_ino_hint local >> put_ag_header)

  -- The slot's bytes become zero, then its state FREE.
  unfoldable pub free_inode : ℕ → Alloc (Unit {0})
  unfolding slot_rec_at drop_slot_block keep_slot_block
  free_inode ino = do
    let (ag, slot) = blk_split ino
    sb ← superblock
    let isz = sb.inodesize % 2 ^ 32
    slots ← slots_per_block
    local ← lift (checked slots (slot / slots))
    let blk = blk_addr ag local
    buf ← read_at blk
    buf ← lift (put_slice buf (slot % slots * isz) (replicate isz 0))
    write_at blk buf
    load_header ag
    found ← slot_rec_at local
    (l3, l1, j) ← lift (found_or found not_slot_refined)
    l3rec ← rec_read ag l3
    l3rec ← lift (rec_state_set l3rec (slot % slots) cell_free)
    empty ← lift (rec_all l3rec cell_free)
    if empty then drop_slot_block ag blk local l3 l1 j else keep_slot_block ag local l3 l3rec

  -- The blocks that an allocation at this address comes in.
  unfoldable pub granule_at : ℕ → Alloc ℕ
  granule_at blk = do
    let (ag, local) = blk_split blk
    load_header ag
    let c = local / cell_blocks
    st ← rt_state c
    if st == cell_full
        then pure cell_blocks
        else if st == cell_refined
        then (do
          l0 ← rt_ref c
          l0rec ← rec_read ag l0
          st ← lift (rec_state l0rec (child_of local))
          if st == cell_full
              then pure alloc_fanout
              else if st == cell_refined
              then pure 1
              else lift (err bad_cell_state))
        else lift (err bad_cell_state)
