-- ===== src/Resize/Ops.antt =====
-- src/resize.rs, the operations. They change the AG map and the superblock only, and the blocks of
-- an AG that is not mapped yet. `relocate` copies in buffers of 256 blocks, `shrink` starts over after
-- each AG it moves; both loops take fuel.
use fs.Prelude.{
  ℕ, zero, suc, ◌+◌, ◌-◌, ◌*◌, ◌/◌, ◌%◌, ◌^◌, none, some, List, [], ◌∷◌, ok, err, ◌==◌, ◌!=◌, ltb,
  leb, if◌then◌else◌, replicate, bit_and, min, not, ensure, unaligned_offset, ag_too_small,
  overlaps_ag, not_extending, not_present, immovable, past_end, ag_zero, ag_not_empty, no_fuel,
}
use fs.Prelude.Exec.{Exec, ◌>>=◌, pure, reads, lift, modify, ◌>>◌}
use fs.Fmt.Bytes.{Bytes, put_slice}
use fs.Fmt.Checksum.{Crc32c}
use fs.Fmt.RootTable.{cell_blocks, div_ceil, rt_geometry}
use fs.Fmt.AgHeader
use fs.Fmt.AgHeader.{AgHeader}
use fs.Fmt.AgMap.{AgSegment, AgEntry, agf_present, agf_immovable}
use fs.Device
use fs.Device.{pread, pwrite}
use fs.Fs.{Gofs}
use fs.Fs.Read.{read_ag_header}
use fs.Fs.Write.{on_dev, sync, write_superblock, write_agmap}
use fs.Resize.Regions.{mapped_end, overlaps, overlaps_excluding, find_gap}
use fs.Resize.Entries.{
  reserve_cells, reserve_tail, one_segment, fresh_header, enter_ag, lookup, move_entry, drop_entry,
  indexed, first_beyond, found_room,
}

abbrev pub Op : Type 0 → Type 0
Op A = Exec Gofs A

abbrev pub state : Op Gofs
state = reads ok

module _ ⦃crc : Crc32c⦄ where
  -- Both copies of the map, the superblock, then a sync: where an operation takes effect.
  unfoldable pub publish : Op (Unit {0})
  publish = do write_agmap; write_superblock; sync

  -- The body of a fresh AG, written before the map names it.
  unfoldable pub write_ag_body : ℕ → AgHeader → Bytes → Op (Unit {0})
  write_ag_body dev_offset hdr table = do
    g ← state
    bytes ← lift (AgHeader.to_bytes hdr)
    hdrblk ← lift (put_slice (replicate g.sb.blocksize 0) 0 bytes)
    on_dev (pwrite hdrblk dev_offset)
    on_dev (pwrite table ((dev_offset + g.sb.blocksize) % 2 ^ 64))
    sync

  -- The new AG, once the region is known to be free.
  unfoldable pub make_ag : ℕ → ℕ → Op ℕ
  unfolding write_ag_body enter_ag reserve_tail reserve_cells publish fresh_header
  make_ag dev_offset ag_len = do
    g ← state
    let bs = g.sb.blocksize
    let ag = g.sb.next_ag
    let (cells, rt_blocks) = rt_geometry ag_len bs
    let head_cells = div_ceil ((1 + rt_blocks) % 2 ^ 32) cell_blocks
    table ← lift (reserve_cells (replicate (rt_blocks * bs) 0) 0 head_cells)
    (table, rsvd_cells) ← lift (reserve_tail table ag_len cells head_cells)
    let free_blocks = (cells - rsvd_cells) * cell_blocks
    write_ag_body dev_offset (fresh_header ag ag_len free_blocks head_cells) table
    modify (enter_ag ag ag_len dev_offset free_blocks)
    publish
    pure ag

  unfoldable pub add_ag : ℕ → ℕ → Op ℕ
  unfolding make_ag
  add_ag dev_offset bytes = do
    g ← state
    let bs = g.sb.blocksize
    let ag_len = bytes / bs % 2 ^ 32
    lift (ensure (dev_offset % bs == 0) unaligned_offset)
    lift (ensure (leb 1024 ag_len) ag_too_small)
    lift (ensure (not (overlaps bs g.map.entries dev_offset bytes)) overlaps_ag)
    make_ag dev_offset ag_len

  unfoldable pub grow : ℕ → Op ℕ
  unfolding add_ag
  grow new_size = do
    g ← state
    let end = mapped_end g.sb.blocksize g.map.entries
    lift (ensure (ltb end new_size) not_extending)
    (if ltb g.dev.size new_size then on_dev (Device.set_len new_size) else pure tt)
    add_ag end (new_size - end)

  -- The copy of one segment, `done` of `total` bytes so far.
  unfoldable pub copy_from : ℕ → ℕ → ℕ → ℕ → ℕ → ℕ → Op (Unit {0})
  copy_from zero step from to done total = if ltb done total then lift (err no_fuel) else pure tt
  copy_from (suc fuel) step from to done total =
      let n = min step (total - done) in
      if ltb done total
      then (do
        g ← state
        buf ← lift (pread g.dev n ((from + done) % 2 ^ 64))
        on_dev (pwrite buf ((to + done) % 2 ^ 64))
        copy_from fuel step from to (done + n) total)
      else pure tt

  unfoldable pub copy_segs : ℕ → List AgSegment → Op (Unit {0})
  unfolding copy_from
  copy_segs dest [] = pure tt
  copy_segs dest (s ∷ segs) = do
    g ← state
    let bs = g.sb.blocksize
    copy_from s.blocks (cell_blocks * bs) s.dev_offset ((dest + s.ag_block * bs) % 2 ^ 64) 0
        (s.blocks * bs)
    copy_segs dest segs

  unfoldable pub relocate : ℕ → ℕ → Op (Unit {0})
  unfolding copy_segs move_entry publish
  relocate ag dest = do
    g ← state
    let bs = g.sb.blocksize
    lift (ensure (dest % bs == 0) unaligned_offset)
    e ← lift (lookup g.map.entries ag)
    lift (ensure (bit_and e.flags agf_present != 0) not_present)
    lift (ensure (bit_and e.flags agf_immovable == 0) immovable)
    let bytes = e.length * bs
    lift (ensure (leb ((dest + bytes) % 2 ^ 64) g.dev.size) past_end)
    lift (ensure (not (overlaps_excluding bs g.map.entries dest bytes ag)) overlaps_ag)
    copy_segs dest e.segs
    sync
    modify (move_entry ag e (one_segment e.length dest))
    publish

  unfoldable pub retire : ℕ → Op (Unit {0})
  unfolding drop_entry publish
  retire ag = do
    lift (ensure (ag != 0) ag_zero)
    g ← state
    hdr ← lift (read_ag_header g ag)
    lift (ensure (hdr.full_blocks == 0) ag_not_empty)
    e ← lift (indexed g.map.entries ag)
    lift (ensure (bit_and e.flags agf_present != 0) not_present)
    modify (drop_entry ag e hdr)
    publish

  -- An AG beyond the new size is retired where it is empty, and moved below otherwise.
  unfoldable pub evict : ℕ → ℕ → AgEntry → Op (Unit {0})
  unfolding retire relocate found_room
  evict size ag e = do
    lift (ensure (ag != 0) ag_zero)
    g ← state
    hdr ← lift (read_ag_header g ag)
    if hdr.full_blocks == 0 then retire ag else do
      dest ←
          lift (found_room (find_gap g.sb.blocksize g.map.entries (e.length * g.sb.blocksize) size))
      relocate ag dest

  unfoldable pub evict_all : ℕ → ℕ → Op (Unit {0})
  unfolding first_beyond evict
  evict_all zero size = lift (err no_fuel)
  evict_all (suc fuel) size = do
    g ← state
    elim (first_beyond g.sb.blocksize size 0 g.map.entries) [
      | none ↦ pure tt
      | some (ag, e) ↦ do evict size ag e; evict_all fuel size
    ]

  unfoldable pub shrink : ℕ → ℕ → Op (Unit {0})
  unfolding evict_all
  shrink fuel new_size = do evict_all fuel new_size; on_dev (Device.set_len new_size)
