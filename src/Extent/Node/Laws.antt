-- ===== src/Extent/Node/Laws.antt =====
-- src/extent.rs: the accessors of the children of a root or node against each other.
use fs.Fmt.Inode.{inode_payload}
use fs.Extent.Node.{
  Child, state_at, state_put, node_fanout, root_fanout, node_children, child_rec, root_state,
  root_child, root_state_set, root_child_set, node_state, node_child, node_state_set,
  node_child_set, root_get, root_set, node_get, node_set,
}
use fs.Journal.Txn.{get}
use fs.Fmt.Bytes.Laws.{length-to_be, from_be-to_be_four, from_be-to_be_eight}
use fs.Fmt.Bytes.{
  Bytes, to_be, get_slice, put_u32, put_u64, get_u32, get_u64, get_prefix, get_suffix,
}
use fs.Prelude.{
  ℕ, ◌+◌, ◌*◌, ◌/◌, ◌^◌, ◌≤◌, ◌<◌, ◌≡◌, ◌∙◌, inl, arith, length, ◌==◌, if◌then◌else◌, set, Out,
  ◌>>=◌, ok, refl, sym, subst, ◌≢◌, inr, ==_iff, ==-refl, Bool-cases, le_or_lt, zero, suc, ap, [],
  ◌∷◌, all,
}
use fs.Fmt.Bytes.Slices.{put_slice-get_slice, SlicesApart}
use fs.Fmt.Cells.Laws.{cell_get-cell_set, IsBytes}

-- A child in a buffer whose states are the `n` bytes from `at` on, and whose records start at `base`.
abbrev child_get : (at n base : ℕ) → Bytes → ℕ → Out Child
child_get at n base b i = do
  st ← state_at b at n i
  (blocks, addr) ← (do
    blocks ← get_u32 b (base + 16 * i)
    addr ← get_u64 b (base + 16 * i + 8)
    ok (blocks, addr))
  ok (record { state = st; blocks = blocks; addr = addr })

abbrev child_set : (at n base : ℕ) → Bytes → ℕ → Child → Out Bytes
child_set at n base b i c = do
  b ← state_put b at n i c.state
  b ← put_u32 b (base + 16 * i) c.blocks
  put_u64 b (base + 16 * i + 8) c.addr

-- The fields fit their widths.
pub record IsChild (c : Child) : Type 0 where
  pub state : c.state < 4
  pub blocks : c.blocks < 2 ^ 32
  pub addr : c.addr < 2 ^ 64

-- What a child that is set at an index is, and what the others are.
abbrev pub Replaces : (Bytes → ℕ → Out Child) → Bytes → ℕ → Child → Bytes → Type 0
Replaces get b i c b' =
    (length b' ≡ length b) × ((j : ℕ) → get b' j ≡ (if j == i then ok c else get b j))

-- Parts of the records of two children do not meet.
records_apart :
    (base i j x n y len o off : ℕ)
    → j ≢ i
    → o ≡ base + 16 * j + x
    → off ≡ base + 16 * i + y
    → x + n ≤ 16
    → y + len ≤ 16
    → SlicesApart o n off len
records_apart base i j x n y len o off ne eo eoff hx hy = elim (le_or_lt i j) [
  | inl h ↦ inr (
      let lt : i < j = elim (le_or_lt j i) [ inl h' ↦ absurd (ne (omega arith)) | inr h' ↦ h' ] in
      omega arith)
  | inr h ↦ inl (omega arith)
]

module _ (at n base : ℕ) (apart : at + n ≤ base) where
  child_get-child_set :
      (b states : Bytes) (i : ℕ) (c : Child)
      → get_slice b at n ≡ ok states
      → length states ≡ n
      → IsBytes states
      → i / 4 < n
      → base + 16 * i + 16 ≤ length b
      → IsChild c
      → (b' : Bytes) × (child_set at n base b i c ≡ ok b') × Replaces (child_get at n base) b i c b'
  unfolding state_at state_put put_u32 put_u64 get_u32 get_u64
  child_get-child_set b states i c held len bytes within fits ranges =
      let (states', set, len', bytes', cells) =
        cell_get-cell_set states i c.state bytes (omega arith) ranges.state in
      let l1 : length states' ≡ n = len' ∙ len in
      let (b1, wrote1, size1, held1, same1) = put_slice-get_slice b at states' (omega arith) in
      let l4 : length (to_be 4 c.blocks) ≡ 4 = length-to_be 4 c.blocks in
      let l8 : length (to_be 8 c.addr) ≡ 8 = length-to_be 8 c.addr in
      let (b2, wrote2, size2, held2, same2) =
        put_slice-get_slice b1 (base + 16 * i) (to_be 4 c.blocks) (omega arith) in
      let (b3, wrote3, size3, held3, same3) =
        put_slice-get_slice b2 (base + 16 * i + 8) (to_be 8 c.addr) (omega arith) in
      let same : (o k : ℕ)
          → SlicesApart o k at n
          → SlicesApart o k (base + 16 * i) 4
          → SlicesApart o k (base + 16 * i + 8) 8
          → get_slice b3 o k ≡ get_slice b o k =
        λ o k a1 a2 a3.
          same3 o k (subst (SlicesApart o k (base + 16 * i + 8)) (sym l8) a3)
          ∙ same2 o k (subst (SlicesApart o k (base + 16 * i)) (sym l4) a2)
          ∙ same1 o k (subst (SlicesApart o k at) (sym l1) a1) in
      let states_held : get_slice b3 at n ≡ ok states' =
        same3 at n (inl (omega arith))
        ∙ same2 at n (inl (omega arith))
        ∙ subst (λ k. get_slice b1 at k ≡ ok states') l1 held1 in
      let blocks_held : get_slice b3 (base + 16 * i) 4 ≡ ok (to_be 4 c.blocks) =
        same3 (base + 16 * i) 4 (inl (omega arith))
        ∙ subst (λ k. get_slice b2 (base + 16 * i) k ≡ ok (to_be 4 c.blocks)) l4 held2 in
      let addr_held : get_slice b3 (base + 16 * i + 8) 8 ≡ ok (to_be 8 c.addr) =
        subst (λ k. get_slice b3 (base + 16 * i + 8) k ≡ ok (to_be 8 c.addr)) l8 held3 in
      (
        b3,
        rw (held, set, wrote1, wrote2) wrote3,
        (
          omega arith,
          λ j. elim (Bool-cases (j == i)) [
            | inl m ↦
                let e : j ≡ i = (==_iff j i).0 m in
                rw (m, e)
                  (rw
                    (
                      states_held,
                      cells i,
                      ==-refl i,
                      blocks_held,
                      from_be-to_be_four c.blocks ranges.blocks,
                      addr_held,
                      from_be-to_be_eight c.addr ranges.addr,
                    )
                    refl)
            | inr m ↦
                let ne : j ≢ i = λ e. ground arith in
                let s4 =
                  same (base + 16 * j) 4 (inr (omega arith))
                    (records_apart base i j 0 4 0 4 _ _ ne (omega arith) (omega arith) (omega arith)
                      (omega arith))
                    (records_apart base i j 0 4 8 8 _ _ ne (omega arith) (omega arith) (omega arith)
                      (omega arith)) in
                let s8 =
                  same (base + 16 * j + 8) 8 (inr (omega arith))
                    (records_apart base i j 8 8 0 4 _ _ ne (omega arith) (omega arith) (omega arith)
                      (omega arith))
                    (records_apart base i j 8 8 8 8 _ _ ne (omega arith) (omega arith) (omega arith)
                      (omega arith)) in
                rw (m, states_held, held, cells j, m, s4, s8) refl
          ],
        ),
      )

IsBytes-tail : (x : ℕ) (b : Bytes) → IsBytes (x ∷ b) → IsBytes b
IsBytes-tail x b bytes i h = bytes (suc i) (omega arith)

IsBytes-cons : (x : ℕ) (b : Bytes) → x < 256 → IsBytes b → IsBytes (x ∷ b)
IsBytes-cons x b small bytes zero h = small
IsBytes-cons x b small bytes (suc i) h = bytes i (omega arith)

get_prefix-IsBytes :
    (b : Bytes) (n : ℕ)
    → n ≤ length b
    → IsBytes b
    → (s : Bytes) × (get_prefix b n ≡ ok s) × (length s ≡ n) × IsBytes s
unfolding get_prefix
get_prefix-IsBytes b zero fits bytes =
    ([], unfold get_prefix in refl, refl, λ i h. absurd (omega arith))
get_prefix-IsBytes [] (suc n) fits bytes = absurd (omega arith)
get_prefix-IsBytes (x ∷ b) (suc n) fits bytes =
    let (s, got, size, all) = get_prefix-IsBytes b n (omega arith) (IsBytes-tail x b bytes) in
    (x ∷ s, rw got refl, ap suc size, IsBytes-cons x s (bytes 0 (omega arith)) all)

-- A slice within a buffer of bytes is one of bytes.
get_slice-IsBytes :
    (b : Bytes) (off n : ℕ)
    → off + n ≤ length b
    → IsBytes b
    → (s : Bytes) × (get_slice b off n ≡ ok s) × (length s ≡ n) × IsBytes s
unfolding get_slice get_suffix
get_slice-IsBytes b zero n fits bytes = get_prefix-IsBytes b n (omega arith) bytes
get_slice-IsBytes [] (suc off) n fits bytes = absurd (omega arith)
get_slice-IsBytes (x ∷ b) (suc off) n fits bytes =
    get_slice-IsBytes b off n (omega arith) (IsBytes-tail x b bytes)

-- In a node block of bytes that has room for the 64 children, a child whose fields fit their widths is set at an
-- index below 64, and the block keeps its length; then it is read at this index, and every other index is read
-- as before.
pub node_get-node_set :
    (b : Bytes) (i : ℕ) (c : Child)
    → IsBytes b
    → i < node_fanout
    → node_children + child_rec * node_fanout ≤ length b
    → IsChild c
    → (b' : Bytes) × (node_set b i c ≡ ok b') × Replaces node_get b i c b'
unfolding node_set node_get node_state node_state_set node_child node_child_set
node_get-node_set b i c bytes within fits ranges =
    let (states, held, len, small) = get_slice-IsBytes b 24 16 (omega arith) bytes in
    child_get-child_set 24 16 40 (omega arith) b states i c held len small (omega arith)
      (omega arith) ranges

-- In the payload of an inode, which is bytes, a child whose fields fit their widths is set at an index below 6,
-- and the payload keeps its length; then it is read at this index, and every other index is read as before.
pub root_get-root_set :
    (p : Bytes) (i : ℕ) (c : Child)
    → IsBytes p
    → i < root_fanout
    → length p ≡ inode_payload
    → IsChild c
    → (p' : Bytes) × (root_set p i c ≡ ok p') × Replaces root_get p i c p'
unfolding root_set root_get root_state root_state_set root_child root_child_set
root_get-root_set p i c bytes within size ranges =
    let (states, held, len, small) = get_slice-IsBytes p 2 2 (omega arith) bytes in
    child_get-child_set 2 2 8 (omega arith) p states i c held len small (omega arith) (omega arith)
      ranges
