-- ===== src/Extent/Ensure.antt =====
-- src/extent.rs, `map_ensure`, `child_ensure`, `descend_ensure` and `collect_runs`: a range of file blocks
-- is mapped by allocating where it has holes. The loops over children have one round for each block, and
-- `map_ensure` raises the root at most to level 10, which reaches every 62-bit block number.
pub mod Covers
use fs.Resize.Ops.{state}
use fs.Prelude.Exec.{◌>>=◌, ◌>>◌, pure, reads, lift, attempt}
use fs.Alloc.Table.{Alloc, sub_u64, add_u64}
use fs.Alloc.Extents.{alloc_extent}
use fs.Extent.Inline.{extent_ensure}
use fs.Extent.Blocks.{
  Parent, payload_of, refined, node_at, node_alloc, parent_get, parent_set, refine_child, root_grow,
  root, node,
}
use fs.Extent.Lookup.{map_lookup}
use fs.Extent.Node.{root_fanout, cov, root_level, node_level, hole, run, Map}
use fs.Fmt.Cells.{cell_free, cell_full, cell_refined}
use fs.Fmt.Bytes.{Bytes}
use fs.Fmt.Inode.{Inode, fmt_extent, fmt_tree}
use fs.Fmt.Checksum.{Crc32c}
use fs.Fmt.Extents.{extents_store}
use fs.Prelude.{
  ℕ, zero, suc, ◌+◌, ◌-◌, ◌*◌, ◌/◌, ◌%◌, ◌^◌, min, Bool, not, ◌&&◌, ◌||◌, List, [], ◌∷◌, ◌++◌, ltb,
  leb, ◌==◌, if◌then◌else◌, any, Error, ensure, checked, no_fuel, bad_child_state, not_refinable,
  hole_after_ensure, err, take,
}

-- A run that covers a part of a range, and whether it is new.
pub record Run : Type 0 where
  pub file_block : ℕ
  pub blk : ℕ
  pub len : ℕ
  pub is_fresh : Bool

abbrev pub Fresh : Type 0
Fresh = List (ℕ × ℕ)

unfoldable pub fresh_at : ℕ → ℕ × ℕ → Bool
fresh_at pos (start, len) = leb start pos && ltb pos (add_u64 start len)

-- One run at a position, then `next` from the position behind it.
unfoldable pub collect_found :
    (ℕ → Alloc (List Run)) → (pos end : ℕ) → Fresh → Map → Alloc (List Run)
unfolding fresh_at
collect_found next pos end fresh (hole n) = lift (err hole_after_ensure)
collect_found next pos end fresh (run blk len) = do
  let take = min len (end - pos)
  rest ← next (pos + take)
  let part : Run = record {
    file_block = pos;
    blk = blk;
    len = take;
    is_fresh = any (fresh_at pos) fresh;
  }
  pure (part ∷ rest)

module _ ⦃crc : Crc32c⦄ where
  -- `child_ensure`, over `below` for `descend_ensure`.
  unfoldable pub child_ensure :
      (ℕ → ℕ → ℕ → ℕ → Fresh → Alloc Fresh)
      → (ag level : ℕ) → Parent
      → (i child_start from to : ℕ) → Fresh
      → Alloc (Parent × Fresh)
  unfolding parent_get parent_set refine_child node_alloc
  child_ensure below ag level parent i child_start from to fresh = do
    child ← parent_get parent i
    let want = sub_u64 to child_start
    if child.state == cell_full && leb want child.blocks
        then pure (parent, fresh)
        else if child.state == cell_free && from == child_start
        then attempt (alloc_extent ag want)
            (λ (blk : ℕ). do
              parent ←
                  parent_set parent i
                    (record { state = cell_full; blocks = want % 2 ^ 32; addr = blk })
              pure (parent, fresh ++ (child_start, want) ∷ []))
            (λ (e : Error). if level == 0 then lift (err e) else do
              addr ← node_alloc ag (level - 1)
              parent ← parent_set parent i (refined addr)
              fresh ← below addr child_start from to fresh
              pure (parent, fresh))
        else if child.state == cell_free || child.state == cell_full
        then (do
          lift (ensure (not (level == 0)) not_refinable)
          (parent, addr) ← refine_child ag parent i level child
          fresh ← below addr child_start from to fresh
          pure (parent, fresh))
        else if child.state == cell_refined
        then (do fresh ← below child.addr child_start from to fresh; pure (parent, fresh))
        else lift (err bad_child_state)

  -- The loop over the children that a range touches.
  unfoldable pub ensure_children :
      (Parent → ℕ → ℕ → ℕ → ℕ → Fresh → Alloc (Parent × Fresh))
      → ℕ
      → (start c pos to : ℕ) → Parent
      → Fresh
      → Alloc (Parent × Fresh)
  ensure_children child zero start c pos to parent fresh =
      if ltb pos to then lift (err no_fuel) else pure (parent, fresh)
  ensure_children child (suc fuel) start c pos to parent fresh =
      if ltb pos to
      then (do
        i ← lift (checked c (sub_u64 pos start / c))
        let child_start = add_u64 start (i * c)
        let want_end = min to (add_u64 child_start c)
        (parent, fresh) ← child parent i child_start pos want_end fresh
        ensure_children child fuel start c want_end to parent fresh)
      else pure (parent, fresh)

  unfoldable pub descend_ensure : ℕ → ℕ → (addr start from to : ℕ) → Fresh → Alloc Fresh
  unfolding child_ensure ensure_children node_at
  descend_ensure zero ag addr start from to fresh = lift (err no_fuel)
  descend_ensure (suc depth) ag addr start from to fresh = do
    buf ← node_at addr
    level ← lift (node_level buf)
    (parent, fresh) ←
        ensure_children (child_ensure (descend_ensure depth ag) ag level) (to - from) start
          (cov level) from to (node addr) fresh
    pure fresh

  -- The runs of a range that is mapped.
  unfoldable pub collect_runs : ℕ → ℕ → Inode → (pos end : ℕ) → Fresh → Alloc (List Run)
  unfolding collect_found
  collect_runs zero depth inode pos end fresh = if ltb pos end then lift (err no_fuel) else pure []
  collect_runs (suc fuel) depth inode pos end fresh =
      if ltb pos end
      then (do
        found ← reads (λ s. map_lookup depth s.fs s.txn inode pos)
        collect_found (λ p. collect_runs fuel depth inode p end fresh) pos end fresh found)
      else pure []

  -- The root grows until its children reach a block number.
  unfoldable pub grow_to : ℕ → ℕ → ℕ → Bytes → Alloc Bytes
  unfolding root_grow
  grow_to zero ag end payload = lift (err no_fuel)
  grow_to (suc levels) ag end payload = do
    level ← lift (root_level payload)
    if ltb (root_fanout * cov level % 2 ^ 64) end
        then (do payload ← root_grow ag payload; grow_to levels ag end payload)
        else pure payload

  unfoldable pub tree_ensure : ℕ → ℕ → Bytes → (fblock n : ℕ) → Fresh → Alloc (Bytes × Fresh)
  unfolding grow_to child_ensure ensure_children descend_ensure payload_of
  tree_ensure depth ag payload fblock n fresh = do
    payload ← grow_to 12 ag (add_u64 fblock n) payload
    level ← lift (root_level payload)
    (parent, fresh) ←
        ensure_children (child_ensure (descend_ensure depth ag) ag level) n 0 (cov level) fblock
          (add_u64 fblock n) (root payload) fresh
    pure (payload_of payload parent, fresh)

  -- `map_ensure` where the format is EXTENT or TREE.
  unfoldable pub ensure_mapped : ℕ → ℕ → Inode → (fblock n : ℕ) → Alloc (Inode × List Run)
  unfolding extent_ensure tree_ensure collect_runs
  ensure_mapped depth ag inode fblock n = do
    (inode, fresh) ←
        if inode.format == fmt_extent
        then extent_ensure depth ag inode fblock n
        else pure (inode, [])
    (payload, fresh) ←
        if inode.format == fmt_extent
        then pure (inode.payload, fresh)
        else tree_ensure depth ag inode.payload fblock n fresh
    let mapped : Inode = record inode { payload = payload }
    runs ← collect_runs n depth mapped fblock (add_u64 fblock n) fresh
    pure (mapped, runs)

  -- An inode of another format is taken as empty: its mapping starts inline.
  unfoldable pub map_ensure : ℕ → ℕ → Inode → (fblock n : ℕ) → Alloc (Inode × List Run)
  unfolding ensure_mapped
  map_ensure depth ag inode fblock n =
      if inode.format == fmt_extent || inode.format == fmt_tree
      then ensure_mapped depth ag inode fblock n
      else do
        payload ← lift (extents_store inode.payload [])
        ensure_mapped depth ag (record inode { format = fmt_extent; payload = payload }) fblock n
