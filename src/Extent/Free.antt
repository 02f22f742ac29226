-- ===== src/Extent/Free.antt =====
-- src/extent.rs, `free_child` and `map_free_all`. The depth of the tree is fuel, as in `map_lookup`.
use fs.Prelude.Exec.{◌>>=◌, ◌>>◌, pure, lift}
use fs.Alloc.Table.{Alloc}
use fs.Alloc.Free.{free_extent}
use fs.Extent.Blocks.{node_at}
use fs.Extent.Node.{node_fanout, root_fanout, Child, root_get, node_get}
use fs.Fmt.Cells.{cell_free, cell_full, cell_refined}
use fs.Fmt.Bytes.{Bytes}
use fs.Fmt.Inode.{Inode, inode_payload, fmt_empty, fmt_embed, fmt_extent, fmt_tree}
use fs.Fmt.Checksum.{Crc32c}
use fs.Fmt.Extents.{Extent, extents_parse}
use fs.Prelude.{
  ℕ, zero, suc, ◌+◌, ◌||◌, List, [], ◌∷◌, ◌==◌, if◌then◌else◌, replicate, no_fuel, bad_child_state,
  no_mapping, err,
}

module _ ⦃crc : Crc32c⦄ where
  -- The children of a node from `i` on: `child` frees one, and the counts of data blocks are added up.
  unfoldable pub free_children : (Child → Alloc ℕ) → ℕ → ℕ → Bytes → Alloc ℕ
  free_children child zero i buf = pure 0
  free_children child (suc n) i buf = do
    c ← lift (node_get buf i)
    freed ← child c
    more ← free_children child n (suc i) buf
    pure (freed + more)

  -- One child, over `below` for a node block.
  unfoldable pub free_one : (ℕ → Alloc ℕ) → Child → Alloc ℕ
  free_one below c =
      if c.state == cell_free
      then pure 0
      else if c.state == cell_full
      then (do free_extent c.addr c.blocks; pure c.blocks)
      else if c.state == cell_refined
      then below c.addr
      else lift (err bad_child_state)

  -- The children of a node, then its block.
  unfoldable pub free_node : ℕ → ℕ → Alloc ℕ
  unfolding free_children free_one node_at
  free_node zero addr = lift (err no_fuel)
  free_node (suc depth) addr = do
    buf ← node_at addr
    freed ← free_children (free_one (free_node depth)) node_fanout 0 buf
    free_extent addr 1
    pure freed

  unfoldable pub free_child : ℕ → Child → Alloc ℕ
  unfolding free_one free_node
  free_child depth = free_one (free_node depth)

  unfoldable pub free_extents : List Extent → Alloc (Unit {0})
  free_extents [] = pure tt
  free_extents (e ∷ es) = do free_extent e.blk e.blocks; free_extents es

  unfoldable pub free_root : ℕ → ℕ → ℕ → Bytes → Alloc (Unit {0})
  unfolding free_child
  free_root depth zero i payload = pure tt
  free_root depth (suc n) i payload = do
    c ← lift (root_get payload i)
    freed ← free_child depth c
    free_root depth n (suc i) payload

  -- What is left of the inode: no mapping, no blocks, no bytes.
  unfoldable pub map_free_all : ℕ → Inode → Alloc Inode
  unfolding free_extents free_root
  map_free_all depth inode = do
    if inode.format == fmt_empty || inode.format == fmt_embed
        then pure tt
        else if inode.format == fmt_extent
        then (do es ← lift (extents_parse inode.payload); free_extents es)
        else if inode.format == fmt_tree
        then free_root depth root_fanout 0 inode.payload
        else lift (err no_mapping)
    pure (record inode {
      format = fmt_empty;
      payload = replicate inode_payload 0;
      nblocks = 0;
      size = 0;
    })
