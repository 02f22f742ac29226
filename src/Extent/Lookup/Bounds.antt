-- ===== src/Extent/Lookup/Bounds.antt =====
-- src/extent.rs: a run that `map_lookup` finds is not empty, so the loops over runs make progress.
use fs.Alloc.Table.{add_u64}
use fs.Extent.Lookup.{
  run_in_child, extents_lookup, child_lookup, node_lookup, tree_lookup, map_lookup, child_index,
  node_read,
}
use fs.Extent.Node.{
  root_fanout, cov, Map, hole, run, root_level, node_level, root_state, root_child, node_state,
  node_child,
}
use fs.Journal.Txn.{Txn}
use fs.Fmt.Cells.{cell_free, cell_full, cell_refined}
use fs.Fmt.Bytes.{Bytes}
use fs.Fmt.Inode.{Inode, fmt_empty, fmt_embed, fmt_extent, fmt_tree}
use fs.Fmt.Checksum.{Crc32c}
use fs.Fmt.Extents.{Extent, extents_parse}
use fs.Prelude.{
  ℕ, zero, suc, ◌-◌, ◌^◌, ◌<◌, ◌≡◌, inl, inr, true, ◌&&◌, ◌||◌, List, [], ◌∷◌, arith, ltb, leb,
  ◌==◌, Bool-cases, Out, Holds, Holds-bind, Holds-if, subst, ok,
}
use fs.Fs.{Gofs}

-- A run of at least one block.
abbrev pub IsLong : Map → Type 0
IsLong (hole n) = Unit {0}
IsLong (run blk len) = 0 < len

run_in_child-IsLong : (blocks addr rel c : ℕ) → IsLong (run_in_child blocks addr rel c)
unfolding run_in_child
run_in_child-IsLong blocks addr rel c = elim (Bool-cases (ltb rel blocks)) [
  | inl e ↦ rw e (ground arith)
  | inr e ↦ rw e tt
]

long_rest :
    (e : Extent) (fblock : ℕ)
    → (leb e.file_block fblock && ltb fblock (add_u64 e.file_block e.blocks)) ≡ true
    → 0 < e.blocks - (fblock - e.file_block)
long_rest e fblock hit = ground arith

extents_lookup-IsLong :
    (es : List Extent) (fblock next : ℕ) → IsLong (extents_lookup es fblock next)
unfolding extents_lookup
extents_lookup-IsLong [] fblock next = tt
extents_lookup-IsLong (e ∷ es) fblock next =
    elim (Bool-cases (leb e.file_block fblock && ltb fblock (add_u64 e.file_block e.blocks))) [
      | inl hit ↦ rw hit (long_rest e fblock hit)
      | inr missed ↦ rw missed (extents_lookup-IsLong es fblock _)
    ]

module _ ⦃crc : Crc32c⦄ where
  child_lookup-IsLong :
      (below : ℕ → ℕ → Out Map) (st : ℕ) (child : Out (ℕ × ℕ)) (rel c : ℕ)
      → ((addr : ℕ) → Holds IsLong (below addr rel))
      → Holds IsLong (child_lookup below st child rel c)
  unfolding child_lookup
  child_lookup-IsLong below st child rel c h = Holds-if IsLong (st == cell_free) _ _ tt (
      Holds-if IsLong (st == cell_full) _ _
        (Holds-bind IsLong child _ (λ (at : ℕ × ℕ). run_in_child-IsLong at.0 at.1 rel c))
        (Holds-if IsLong (st == cell_refined) _ _
          (Holds-bind IsLong child _ (λ (at : ℕ × ℕ). h at.1)) tt))

  node_lookup-IsLong :
      (fuel : ℕ) (g : Gofs) (t : Txn) (addr rel : ℕ) → Holds IsLong (node_lookup fuel g t addr rel)
  unfolding node_lookup
  node_lookup-IsLong zero g t addr rel = tt
  node_lookup-IsLong (suc fuel) g t addr rel =
      Holds-bind IsLong (node_read g t addr) _ (λ (buf : Bytes).
        Holds-bind IsLong (node_level buf) _ (λ (level : ℕ).
          Holds-bind IsLong (child_index rel (cov level)) _ (λ (at : ℕ × ℕ).
            Holds-bind IsLong (node_state buf at.0) _ (λ (st : ℕ).
              child_lookup-IsLong (λ a r. node_lookup fuel g t a r) st (node_child buf at.0) at.1
                (cov level) (λ addr. node_lookup-IsLong fuel g t addr at.1)))))

  tree_lookup-IsLong :
      (fuel : ℕ) (g : Gofs) (t : Txn) (payload : Bytes) (fblock : ℕ)
      → Holds IsLong (tree_lookup fuel g t payload fblock)
  unfolding tree_lookup
  tree_lookup-IsLong fuel g t payload fblock =
      Holds-bind IsLong (root_level payload) _ (λ (level : ℕ).
        Holds-bind IsLong (child_index fblock (cov level)) _ (λ (at : ℕ × ℕ).
          Holds-if IsLong (leb root_fanout at.0) _ _ tt (
            Holds-bind IsLong (root_state payload at.0) _ (λ (st : ℕ).
              child_lookup-IsLong (λ a r. node_lookup fuel g t a r) st (root_child payload at.0)
                at.1 (cov level) (λ addr. node_lookup-IsLong fuel g t addr at.1)))))

  pub map_lookup-IsLong :
      (fuel : ℕ) (g : Gofs) (t : Txn) (inode : Inode) (fblock : ℕ)
      → Holds IsLong (map_lookup fuel g t inode fblock)
  unfolding map_lookup
  map_lookup-IsLong fuel g t inode fblock =
      Holds-if IsLong (inode.format == fmt_empty || inode.format == fmt_embed) _ _ tt (
        Holds-if IsLong (inode.format == fmt_extent) _ _
          (Holds-bind IsLong (extents_parse inode.payload) _
            (λ es. extents_lookup-IsLong es fblock (2 ^ 64 - 1)))
          (Holds-if IsLong (inode.format == fmt_tree) _ _
            (tree_lookup-IsLong fuel g t inode.payload fblock) tt))

  -- A run that a lookup finds, in inline extents or in a tree of any depth, has a block or more.
  pub map_lookup_long :
      (fuel : ℕ) (g : Gofs) (t : Txn) (inode : Inode) (fblock blk len : ℕ)
      → map_lookup fuel g t inode fblock ≡ ok (run blk len)
      → 0 < len
  map_lookup_long fuel g t inode fblock blk len found =
      subst (Holds IsLong) found (map_lookup-IsLong fuel g t inode fblock)
