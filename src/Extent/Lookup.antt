-- ===== src/Extent/Lookup.antt =====
-- src/extent.rs, `map_lookup` and `node_lookup`. The recursion follows the nodes on the device, which a
-- damaged device may link in a circle; it takes fuel, one unit for each node on the way.
pub mod Inline
pub mod Bounds
use fs.Alloc.Table.{add_u64}
use fs.Extent.Node.{
  root_fanout, tree_magic, cov, Map, root_level, node_level, root_state, root_child, node_state,
  node_child, hole, run,
}
use fs.Journal.Txn.{Txn, txn_read}
use fs.Fmt.Cells.{cell_free, cell_full, cell_refined}
use fs.Fmt.Bytes.{Bytes, get_slice, get_u32, bytes_eq}
use fs.Fmt.Inode.{Inode, fmt_empty, fmt_embed, fmt_extent, fmt_tree}
use fs.Fmt.Checksum.{Crc32c, csum}
use fs.Fmt.Extents.{Extent, extents_parse}
use fs.Prelude.{
  ℕ, zero, suc, ◌-◌, ◌/◌, ◌%◌, ◌^◌, min, ◌&&◌, ◌||◌, List, [], ◌∷◌, ltb, leb, ◌==◌, if◌then◌else◌,
  Out, ◌>>=◌, ◌>>◌, checked, no_fuel, not_tree_node, node_checksum, bad_child_state, no_mapping,
  err, ensure, ok,
}
use fs.Fs.{Gofs}

-- What a child with a run of `blocks` says of block `rel` of its range of `c`.
unfoldable pub run_in_child : ℕ → ℕ → ℕ → ℕ → Map
run_in_child blocks addr rel c =
    if ltb rel blocks then run (add_u64 addr rel) (blocks - rel) else hole (c - rel)

-- What the children of a level say of a block of their range: the child's index, and the rest.
unfoldable pub child_index : ℕ → ℕ → Out (ℕ × ℕ)
child_index rel c = checked c (rel / c, rel % c)

-- The inline extents: the first one that has the block, or the distance to the next one behind it.
unfoldable pub extents_lookup : List Extent → ℕ → ℕ → Map
extents_lookup [] fblock next = hole (next - fblock)
extents_lookup (e ∷ es) fblock next =
    let rest =
      extents_lookup es fblock (if ltb fblock e.file_block then min next e.file_block else next) in
    if leb e.file_block fblock && ltb fblock (add_u64 e.file_block e.blocks)
    then run (add_u64 e.blk (fblock - e.file_block)) (e.blocks - (fblock - e.file_block))
    else rest

module _ ⦃crc : Crc32c⦄ where
  unfoldable pub node_read : Gofs → Txn → ℕ → Out Bytes
  node_read g t addr = do
    buf ← txn_read g t addr
    magic ← get_slice buf 0 4
    ensure (bytes_eq magic tree_magic) not_tree_node
    stored ← get_u32 buf 4
    computed ← csum buf 4
    ensure (stored == computed) node_checksum
    ok buf

  -- What one child says by its state: a hole, a run, or what the node below it says. The record of the child is
  -- read for a run and a node only.
  unfoldable pub child_lookup : (ℕ → ℕ → Out Map) → ℕ → Out (ℕ × ℕ) → ℕ → ℕ → Out Map
  unfolding run_in_child
  child_lookup below st child rel c =
      if st == cell_free
      then ok (hole (c - rel))
      else if st == cell_full
      then (do (blocks, addr) ← child; ok (run_in_child blocks addr rel c))
      else if st == cell_refined
      then (do (blocks, addr) ← child; below addr rel)
      else err bad_child_state

  unfoldable pub node_lookup : ℕ → Gofs → Txn → ℕ → ℕ → Out Map
  unfolding child_lookup child_index
  node_lookup zero g t addr rel = err no_fuel
  node_lookup (suc fuel) g t addr rel = do
    buf ← node_read g t addr
    level ← node_level buf
    (i, sub) ← child_index rel (cov level)
    st ← node_state buf i
    child_lookup (λ a r. node_lookup fuel g t a r) st (node_child buf i) sub (cov level)

  unfoldable pub tree_lookup : ℕ → Gofs → Txn → Bytes → ℕ → Out Map
  unfolding node_lookup child_lookup child_index
  tree_lookup fuel g t payload fblock = do
    level ← root_level payload
    (i, rel) ← child_index fblock (cov level)
    if leb root_fanout i then ok (hole (2 ^ 64 - 1)) else do
      st ← root_state payload i
      child_lookup (λ a r. node_lookup fuel g t a r) st (root_child payload i) rel (cov level)

  unfoldable pub map_lookup : ℕ → Gofs → Txn → Inode → ℕ → Out Map
  unfolding tree_lookup extents_lookup
  map_lookup fuel g t inode fblock =
      if inode.format == fmt_empty || inode.format == fmt_embed
      then ok (hole (2 ^ 64 - 1))
      else if inode.format == fmt_extent
      then (do es ← extents_parse inode.payload; ok (extents_lookup es fblock (2 ^ 64 - 1)))
      else if inode.format == fmt_tree
      then tree_lookup fuel g t inode.payload fblock
      else err no_mapping
