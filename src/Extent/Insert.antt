-- ===== src/Extent/Insert.antt =====
-- src/extent.rs, `to_tree`, `insert_run`, `insert_in_child` and `insert_below`: runs that are allocated
-- already are recorded in a tree. The depth of the tree is fuel, as in `map_lookup`; a loop over chunks has
-- one round for each block.
pub mod Level
use fs.Prelude.Exec.{◌>>=◌, ◌>>◌, pure, lift}
use fs.Alloc.Table.{Alloc, add_u32, add_u64, sub_u64}
use fs.Extent.Blocks.{Parent, payload_of, node_at, parent_get, parent_set, refine_child, root, node}
use fs.Extent.Node.{root_fanout, cov, root_level, root_init, node_level, Child}
use fs.Fmt.Cells.{cell_free, cell_full, cell_refined}
use fs.Fmt.Bytes.{Bytes}
use fs.Fmt.Inode.{Inode, fmt_tree}
use fs.Fmt.Checksum.{Crc32c}
use fs.Fmt.Extents.{Extent}
use fs.Prelude.{
  ℕ, zero, suc, ◌+◌, ◌-◌, ◌*◌, ◌/◌, ◌%◌, ◌^◌, min, max, not, ◌&&◌, ◌||◌, List, [], ◌∷◌, ltb, ◌==◌,
  if◌then◌else◌, Out, ensure, checked, no_fuel, bad_child_state, run_collision, ok, err,
}

-- The lowest level whose root reaches a number of blocks. From level 11 on `cov` is 0, so the loop of the
-- source would not end where 11 levels are too few.
unfoldable pub level_for : ℕ → ℕ → ℕ → Out ℕ
level_for zero level needed = err no_fuel
level_for (suc levels) level needed =
    let higher = level_for levels (suc level) needed in
    if ltb (root_fanout * cov level % 2 ^ 64) needed then higher else ok level

-- The end of the last extent, 1 where there is none.
unfoldable pub last_end : List Extent → ℕ
last_end [] = 1
last_end (e ∷ []) = add_u64 e.file_block e.blocks
last_end (e ∷ f ∷ es) = max (add_u64 e.file_block e.blocks) (last_end (f ∷ es))

module _ ⦃crc : Crc32c⦄ where
  -- The loop over the children that a run touches: `child` records one chunk in a child.
  unfoldable pub insert_chunks :
      (Parent → ℕ → ℕ → ℕ → ℕ → ℕ → Alloc Parent)
      → ℕ
      → (start c f blk len pos : ℕ) → Parent
      → Alloc Parent
  insert_chunks child zero start c f blk len pos parent =
      if ltb pos len then lift (err no_fuel) else pure parent
  insert_chunks child (suc fuel) start c f blk len pos parent =
      if ltb pos len
      then (do
        let ff = add_u64 f pos
        i ← lift (checked c (sub_u64 ff start / c))
        let child_start = start + i * c
        let chunk = min len (child_start + c - ff + pos) - pos
        parent ← child parent i child_start ff (add_u64 blk pos) chunk
        insert_chunks child fuel start c f blk len (pos + chunk) parent)
      else pure parent

  -- `insert_in_child`, over `below` for `insert_below`.
  unfoldable pub insert_in_child :
      (ℕ → ℕ → ℕ → ℕ → ℕ → Alloc (Unit {0}))
      → (ag level : ℕ) → Parent
      → (i child_start f blk len : ℕ) → Alloc Parent
  unfolding parent_get parent_set refine_child
  insert_in_child below ag level parent i child_start f blk len = do
    child ← parent_get parent i
    let run : Child = record { state = cell_full; blocks = len % 2 ^ 32; addr = blk }
    let longer : Child = record child { blocks = add_u32 child.blocks (len % 2 ^ 32) }
    let adjacent = f == add_u64 child_start child.blocks && blk == add_u64 child.addr child.blocks
    if child.state == cell_free && f == child_start
        then parent_set parent i run
        else if child.state == cell_full && adjacent
        then parent_set parent i longer
        else if child.state == cell_free || child.state == cell_full
        then (do
          lift (ensure (not (level == 0)) run_collision)
          (parent, addr) ← refine_child ag parent i level child
          below addr child_start f blk len
          pure parent)
        else if child.state == cell_refined
        then (do below child.addr child_start f blk len; pure parent)
        else lift (err bad_child_state)

  unfoldable pub insert_below : ℕ → ℕ → (addr start f blk len : ℕ) → Alloc (Unit {0})
  unfolding insert_in_child insert_chunks node_at
  insert_below zero ag addr start f blk len = lift (err no_fuel)
  insert_below (suc depth) ag addr start f blk len = do
    buf ← node_at addr
    level ← lift (node_level buf)
    parent ←
        insert_chunks (insert_in_child (insert_below depth ag) ag level) len start (cov level) f blk
          len 0 (node addr)
    pure tt

  unfoldable pub insert_run : ℕ → ℕ → Bytes → Extent → Alloc Bytes
  unfolding insert_in_child insert_chunks insert_below payload_of
  insert_run depth ag payload e = do
    level ← lift (root_level payload)
    parent ←
        insert_chunks (insert_in_child (insert_below depth ag) ag level) e.blocks 0 (cov level)
          e.file_block e.blk e.blocks 0 (root payload)
    pure (payload_of payload parent)

  unfoldable pub insert_runs : ℕ → ℕ → List Extent → Bytes → Alloc Bytes
  unfolding insert_run
  insert_runs depth ag [] payload = pure payload
  insert_runs depth ag (e ∷ es) payload = do
    payload ← insert_run depth ag payload e
    insert_runs depth ag es payload

  unfoldable pub to_tree : ℕ → ℕ → Inode → List Extent → Alloc Inode
  unfolding insert_runs level_for last_end root_init
  to_tree depth ag inode extents = do
    level ← lift (level_for 11 0 (last_end extents))
    payload ← lift (root_init level)
    payload ← insert_runs depth ag extents payload
    pure (record inode { format = fmt_tree; payload = payload })
