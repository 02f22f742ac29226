-- ===== src/Extent/Node.antt =====
-- src/extent.rs, a child of a root or node: its state, and the run or node block that it has. The root
-- lies in the inode's payload and has 6 children, a node block 64.
pub mod Laws
use fs.Alloc.Table.{add_u64}
use fs.Fmt.Cells.{cell_get, cell_set, cell_free, cell_full}
use fs.Fmt.Bytes.{
  Bytes, put_slice, get_slice, get_byte, put_byte, put_u32, put_u64, get_u32, get_u64,
}
use fs.Fmt.Inode.{inode_payload}
use fs.Prelude.{
  ℕ, ◌+◌, ◌*◌, ◌%◌, ◌^◌, [], ◌∷◌, replicate, Out, ◌>>=◌, ok, zero, suc, ◌-◌, min, Bool, true, ltb,
  ◌==◌, if◌then◌else◌, no_fuel, err, false,
}

abbrev pub node_fanout : ℕ
node_fanout = 64

abbrev pub root_fanout : ℕ
root_fanout = 6

abbrev pub node_states : ℕ
node_states = 24

abbrev pub node_children : ℕ
node_children = 40

abbrev pub child_rec : ℕ
child_rec = 16

-- "5FST"
abbrev pub tree_magic : Bytes
tree_magic = b'5' ∷ b'F' ∷ b'S' ∷ b'T' ∷ []

-- `64.pow(level)` on `u64`, which wraps in a release build: 0 from level 11 on.
unfoldable pub cov : ℕ → ℕ
cov level = 64 ^ level % 2 ^ 64

-- A hole of at least this many blocks, or a run.
pub data Map : Type 0 where
  hole : ℕ → Map
  run : ℕ → ℕ → Map

-- A state with a number of blocks and an address.
pub record Child : Type 0 where
  pub state : ℕ
  pub blocks : ℕ
  pub addr : ℕ

-- `cell_get(&b[off..off + n], i)`
unfoldable pub state_at : Bytes → ℕ → ℕ → ℕ → Out ℕ
unfolding get_slice cell_get
state_at b off n i = do states ← get_slice b off n; cell_get states i

unfoldable pub state_put : Bytes → ℕ → ℕ → ℕ → ℕ → Out Bytes
unfolding get_slice cell_set put_slice
state_put b off n i st = do
  states ← get_slice b off n
  states ← cell_set states i st
  put_slice b off states

unfoldable pub root_level : Bytes → Out ℕ
root_level p = get_byte p 0

unfoldable pub root_state : Bytes → ℕ → Out ℕ
unfolding state_at
root_state p i = state_at p 2 2 i

unfoldable pub root_child : Bytes → ℕ → Out (ℕ × ℕ)
root_child p i = do
  blocks ← get_u32 p (8 + 16 * i)
  addr ← get_u64 p (8 + 16 * i + 8)
  ok (blocks, addr)

unfoldable pub root_state_set : Bytes → ℕ → ℕ → Out Bytes
unfolding state_put
root_state_set p i st = state_put p 2 2 i st

unfoldable pub root_child_set : Bytes → ℕ → ℕ → ℕ → Out Bytes
root_child_set p i blocks addr = do
  p ← put_u32 p (8 + 16 * i) blocks
  put_u64 p (8 + 16 * i + 8) addr

unfoldable pub root_init : ℕ → Out Bytes
root_init level = put_byte (replicate inode_payload 0) 0 level

unfoldable pub node_level : Bytes → Out ℕ
node_level b = get_byte b 16

unfoldable pub node_state : Bytes → ℕ → Out ℕ
unfolding state_at
node_state b i = state_at b node_states 16 i

unfoldable pub node_child : Bytes → ℕ → Out (ℕ × ℕ)
node_child b i = do
  blocks ← get_u32 b (node_children + child_rec * i)
  addr ← get_u64 b (node_children + child_rec * i + 8)
  ok (blocks, addr)

unfoldable pub node_state_set : Bytes → ℕ → ℕ → Out Bytes
unfolding state_put
node_state_set b i st = state_put b node_states 16 i st

unfoldable pub node_child_set : Bytes → ℕ → ℕ → ℕ → Out Bytes
node_child_set b i blocks addr = do
  b ← put_u32 b (node_children + child_rec * i) blocks
  put_u64 b (node_children + child_rec * i + 8) addr

-- The two halves of a child together, as the accessors read and write them.
unfoldable pub root_get : Bytes → ℕ → Out Child
unfolding root_state root_child
root_get p i = do
  st ← root_state p i
  (blocks, addr) ← root_child p i
  ok (record { state = st; blocks = blocks; addr = addr })

unfoldable pub root_set : Bytes → ℕ → Child → Out Bytes
unfolding root_state_set root_child_set
root_set p i c = do p ← root_state_set p i c.state; root_child_set p i c.blocks c.addr

unfoldable pub node_get : Bytes → ℕ → Out Child
unfolding node_state node_child
node_get b i = do
  st ← node_state b i
  (blocks, addr) ← node_child b i
  ok (record { state = st; blocks = blocks; addr = addr })

unfoldable pub node_set : Bytes → ℕ → Child → Out Bytes
unfolding node_state_set node_child_set
node_set b i c = do b ← node_state_set b i c.state; node_child_set b i c.blocks c.addr

-- The children of a run: as much as a child covers in each, from the first on. A node has 64, and the
-- 65th round would write past it.
unfoldable pub spread : ℕ → ℕ → ℕ → ℕ → ℕ → ℕ → Bytes → Out Bytes
unfolding node_set
spread zero c blocks addr i done buf = if ltb done blocks then err no_fuel else ok buf
spread (suc rounds) c blocks addr i done buf =
    if ltb done blocks
    then (do
      let take = min c (blocks - done)
      buf ←
          node_set buf i
            (record { state = cell_full; blocks = take % 2 ^ 32; addr = add_u64 addr done })
      spread rounds c blocks addr (suc i) (done + take) buf)
    else ok buf

-- The root's children that are not FREE, moved into a node, and whether there is one.
unfoldable pub move_children : ℕ → ℕ → Bytes → Bytes → Bool → Out (Bytes × Bool)
unfolding root_get node_set
move_children zero i payload buf moved = ok (buf, moved)
move_children (suc n) i payload buf moved = do
  child ← root_get payload i
  if child.state == cell_free
      then move_children n (suc i) payload buf moved
      else do buf ← node_set buf i child; move_children n (suc i) payload buf true

-- Whether every child of a node from `i` on is FREE.
unfoldable pub all_free : ℕ → ℕ → Bytes → Out Bool
unfolding node_state
all_free zero i buf = ok true
all_free (suc n) i buf = do
  st ← node_state buf i
  if st == cell_free then all_free n (suc i) buf else ok false
