-- ===== src/Extent/Truncate.antt =====
-- src/extent.rs, `map_truncate`, `trim_run` and `trim_child`: the mapping beyond a number of file blocks is
-- released, in whole allocation granules. Each call returns the number of data blocks freed, which the code
-- adds to a counter that it passes down.
use fs.Prelude.Exec.{◌>>=◌, ◌>>◌, pure, lift}
use fs.Alloc.Slots.{granule_at}
use fs.Alloc.Table.{Alloc, add_u64}
use fs.Alloc.Free.{free_extent}
use fs.Extent.Blocks.{node_at, node_write}
use fs.Extent.Node.{
  node_fanout, root_fanout, cov, Child, root_level, node_level, root_get, root_set, node_get,
  node_set, all_free,
}
use fs.Extent.Free.{free_child}
use fs.Journal.Store.{put}
use fs.Journal.Txn.{empty, get}
use fs.Fmt.Cells.{cell_free, cell_full, cell_refined}
use fs.Fmt.Bytes.{Bytes}
use fs.Fmt.RootTable.{div_ceil}
use fs.Fmt.Inode.{Inode, fmt_empty, fmt_embed, fmt_extent, fmt_tree}
use fs.Fmt.Checksum.{Crc32c}
use fs.Fmt.Extents.{Extent, extents_parse, extents_store}
use fs.Prelude.{
  ℕ, zero, suc, ◌+◌, ◌-◌, ◌*◌, ◌%◌, ◌^◌, min, Bool, true, false, ◌||◌, Option, none, some, List, [],
  ◌∷◌, ltb, leb, ◌==◌, if◌then◌else◌, any, Out, no_fuel, bad_child_state, no_mapping, err,
}

module _ ⦃crc : Crc32c⦄ where
  -- What is kept of a run, and what is freed.
  unfoldable pub trim_run : (addr blocks keep : ℕ) → Alloc (ℕ × ℕ)
  trim_run addr blocks keep = if leb blocks keep then pure (blocks, 0) else do
    g ← granule_at addr
    let keep_r = min (div_ceil keep g * g) blocks
    if ltb keep_r blocks
        then (do
          free_extent (add_u64 addr keep_r) (blocks - keep_r)
          pure (keep_r, blocks - keep_r))
        else pure (keep_r, 0)

  -- The extents that are kept.
  unfoldable pub trim_extents : ℕ → List Extent → Alloc (List Extent × ℕ)
  unfolding trim_run
  trim_extents cutoff [] = pure ([], 0)
  trim_extents cutoff (e ∷ es) =
      if leb cutoff e.file_block
      then (do
        free_extent e.blk e.blocks
        (keep, freed) ← trim_extents cutoff es
        pure (keep, e.blocks + freed))
      else if ltb cutoff (add_u64 e.file_block e.blocks)
      then (do
        (kept, trimmed) ← trim_run e.blk e.blocks (cutoff - e.file_block)
        (keep, freed) ← trim_extents cutoff es
        let short : Extent = record e { blocks = kept % 2 ^ 32 }
        pure (short ∷ keep, trimmed + freed))
      else do (keep, freed) ← trim_extents cutoff es; pure (e ∷ keep, freed)

  -- One child, over `refined` for a child that has a node: the child's new record if it changed.
  unfoldable pub trim_one :
      (ℕ → ℕ → Alloc (Option Child × ℕ))
      → (depth : ℕ) → Child
      → (level child_start cutoff : ℕ) → Alloc (Option Child × ℕ)
  unfolding trim_run
  trim_one below depth child level child_start cutoff =
      let gone : Child = record { state = cell_free; blocks = 0; addr = 0 } in
      if leb cutoff child_start
      then if child.state == cell_free
        then pure (none, 0)
        else (do freed ← free_child depth child; pure (some gone, freed))
      else if leb (add_u64 child_start (cov level)) cutoff
      then pure (none, 0)
      else if child.state == cell_free
      then pure (none, 0)
      else if child.state == cell_full
      then (do
        (kept, freed) ← trim_run child.addr child.blocks (cutoff - child_start)
        let short : Child = record child { blocks = kept % 2 ^ 32 }
        pure (if kept == child.blocks then none else some short, freed))
      else if child.state == cell_refined
      then below child.addr child_start
      else lift (err bad_child_state)

  -- The children of the root or of a node from `i` on: what they become, whether one changed, and what was
  -- freed. `put` writes a child back.
  unfoldable pub trim_children :
      (get : Bytes → ℕ → Out Child) (put : Bytes → ℕ → Child → Out Bytes)
      → (Child → ℕ → Alloc (Option Child × ℕ))
      → (n i : ℕ) → Bytes
      → Alloc (Bytes × Bool × ℕ)
  trim_children get put child zero i buf = pure (buf, false, 0)
  trim_children get put child (suc n) i buf = do
    c ← lift (get buf i)
    (changed, freed) ← child c i
    elim changed [
      | none ↦ do
        (buf, any, more) ← trim_children get put child n (suc i) buf
        pure (buf, any, freed + more)
      | some c ↦ do
        buf ← lift (put buf i c)
        (buf, any, more) ← trim_children get put child n (suc i) buf
        pure (buf, true, freed + more)
    ]

  -- A node that became empty goes.
  unfoldable pub trim_node : ℕ → (cutoff addr child_start : ℕ) → Alloc (Option Child × ℕ)
  unfolding trim_one trim_children all_free node_at node_write
  trim_node zero cutoff addr child_start = lift (err no_fuel)
  trim_node (suc depth) cutoff addr child_start = do
    buf ← node_at addr
    level ← lift (node_level buf)
    (buf, changed, freed) ←
        trim_children node_get node_set
          (λ (c : Child) (i : ℕ).
            trim_one (trim_node depth cutoff) depth c level (add_u64 child_start (i * cov level))
              cutoff)
          node_fanout 0 buf
    empty ← lift (all_free node_fanout 0 buf)
    if empty
        then (do
          free_extent addr 1
          pure (some (record { state = cell_free; blocks = 0; addr = 0 }), freed))
        else if changed
        then (do node_write addr buf; pure (none, freed))
        else pure (none, freed)

  unfoldable pub trim_root : ℕ → ℕ → Bytes → Alloc (Bytes × ℕ)
  unfolding trim_one trim_children trim_node
  trim_root depth cutoff payload = do
    level ← lift (root_level payload)
    (payload, changed, freed) ←
        trim_children root_get root_set
          (λ (c : Child) (i : ℕ).
            trim_one (trim_node depth cutoff) depth c level (i * cov level) cutoff)
          root_fanout 0 payload
    pure (payload, freed)

  unfoldable pub map_truncate : ℕ → Inode → ℕ → Alloc (Inode × ℕ)
  unfolding trim_extents trim_root
  map_truncate depth inode cutoff =
      if inode.format == fmt_empty || inode.format == fmt_embed
      then pure (inode, 0)
      else if inode.format == fmt_extent
      then (do
        es ← lift (extents_parse inode.payload)
        (keep, freed) ← trim_extents cutoff es
        payload ← lift (extents_store inode.payload keep)
        pure (record inode { payload = payload }, freed))
      else if inode.format == fmt_tree
      then (do
        (payload, freed) ← trim_root depth cutoff inode.payload
        pure (record inode { payload = payload }, freed))
      else lift (err no_mapping)
