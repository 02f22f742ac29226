-- ===== src/Extent/Blocks.antt =====
-- src/extent.rs, `node_write`, `node_alloc`, `redistribute` and `root_grow`, and `RootOrNode`, through
-- which a child of the root and of a node block is read and written alike.
-- The inode, its payload and the list of fresh runs are values: a call returns them as it leaves them. Where
-- it fails they are dropped, since every caller passes the error on.
use fs.Prelude.Exec.{◌>>=◌, ◌>>◌, pure, reads, lift}
use fs.Alloc.Table.{Alloc, add_u64, write_at, superblock}
use fs.Alloc.Extents.{alloc_block}
use fs.Alloc.Free.{free_extent}
use fs.Extent.Lookup.{node_read}
use fs.Extent.Node.{
  node_fanout, root_fanout, tree_magic, cov, Child, root_level, root_init, node_level, root_get,
  root_set, node_get, node_set, spread, move_children,
}
use fs.Fmt.Cells.{cell_full, cell_refined}
use fs.Fmt.Bytes.{Bytes, put_slice, put_byte, put_u32, put_u64, get_u64}
use fs.Fmt.Checksum.{Crc32c, csum}
use fs.Prelude.{ℕ, suc, ◌+◌, ◌-◌, ◌%◌, ◌^◌, false, ◌==◌, if◌then◌else◌, replicate}

-- `RootOrNode`: the payload with the root, or the block of a node.
pub data Parent : Type 0 where
  root : Bytes → Parent
  node : ℕ → Parent

-- The payload after a call on the root.
unfoldable pub payload_of : Bytes → Parent → Bytes
payload_of payload (root p) = p
payload_of payload (node addr) = payload

-- A child that refers to a node one level down.
abbrev pub refined : ℕ → Child
refined addr = record { state = cell_refined; blocks = 0; addr = addr }

module _ ⦃crc : Crc32c⦄ where
  unfoldable pub node_at : ℕ → Alloc Bytes
  node_at addr = reads (λ s. node_read s.fs s.txn addr)

  unfoldable pub node_write : ℕ → Bytes → Alloc (Unit {0})
  node_write addr buf = do
    gen ← lift (get_u64 buf 8)
    buf ← lift (put_u64 buf 8 (add_u64 gen 1))
    c ← lift (csum buf 4)
    buf ← lift (put_u32 buf 4 c)
    write_at addr buf

  unfoldable pub node_alloc : ℕ → ℕ → Alloc ℕ
  unfolding node_write
  node_alloc ag level = do
    addr ← alloc_block ag
    sb ← superblock
    buf ← lift (put_slice (replicate sb.blocksize 0) 0 tree_magic)
    buf ← lift (put_byte buf 16 level)
    node_write addr buf
    pure addr

  unfoldable pub parent_get : Parent → ℕ → Alloc Child
  unfolding node_at root_get node_get
  parent_get (root p) i = lift (root_get p i)
  parent_get (node addr) i = do buf ← node_at addr; lift (node_get buf i)

  unfoldable pub parent_set : Parent → ℕ → Child → Alloc Parent
  unfolding node_at node_write root_set node_set
  parent_set (root p) i child = do p ← lift (root_set p i child); pure (root p)
  parent_set (node addr) i child = do
    buf ← node_at addr
    buf ← lift (node_set buf i child)
    node_write addr buf
    pure (node addr)

  unfoldable pub redistribute : ℕ → ℕ → ℕ → Alloc (Unit {0})
  unfolding node_at node_write spread
  redistribute addr blocks at = do
    buf ← node_at addr
    level ← lift (node_level buf)
    buf ← lift (spread (suc node_fanout) (cov level) blocks at 0 0 buf)
    node_write addr buf

  -- What a child that is FREE or FULL is refined into: a node with its run, if there is one.
  unfoldable pub refine_child : ℕ → Parent → ℕ → ℕ → Child → Alloc (Parent × ℕ)
  unfolding node_alloc redistribute parent_set
  refine_child ag parent i level child = do
    below ← node_alloc ag (level - 1)
    if child.state == cell_full then redistribute below child.blocks child.addr else pure tt
    parent ← parent_set parent i (refined below)
    pure (parent, below)

  unfoldable pub root_grow : ℕ → Bytes → Alloc Bytes
  unfolding node_alloc node_at node_write move_children root_init root_set
  root_grow ag payload = do
    level ← lift (root_level payload)
    below ← node_alloc ag level
    buf ← node_at below
    (buf, moved) ← lift (move_children root_fanout 0 payload buf false)
    node_write below buf
    grown ← lift (root_init ((level + 1) % 2 ^ 8))
    if moved
        then lift (root_set grown 0 (refined below))
        else (do free_extent below 1; lift (root_init ((level + 1) % 2 ^ 8)))
