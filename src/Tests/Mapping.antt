-- ===== src/Tests/Mapping.antt =====
-- Lookups, runs and levels of an extent mapping at concrete values.
use fs.Alloc.Table.{AllocState}
use fs.Extent.Inline.Add.{extents_lookup-add_run}
use fs.Extent.Ensure.Covers.{Covers, map_ensure-Covers}
use fs.Extent.Lookup.Bounds.{map_lookup_long}
use fs.Extent.Lookup.Inline.{Says, extents_lookup-Says}
use fs.Extent.Insert.Level.{reach, level_for_ends}
use fs.Extent.Ensure.{Run, fresh_at, collect_found, collect_runs, ensure_mapped, map_ensure}
use fs.Extent.Insert.{level_for}
use fs.Extent.Inline.{
  covers, covering, add_run, insert_sorted, sort_by_start, store_extents, ensure_from,
  extent_ensure,
}
use fs.Extent.Lookup.{extents_lookup, map_lookup}
use fs.Extent.Node.{run, Child, node_get, node_set, root_get, root_set}
use fs.Extent.Node.Laws.{IsChild, Replaces, node_get-node_set, root_get-root_set}
use fs.Fmt.Cells.{cell_full}
use fs.Journal.Txn.{empty}
use fs.Fmt.Bytes.{
  Bytes, byte_of, to_be, from_be, overwrite, put_slice, get_prefix, get_suffix, get_slice, put_u32,
  put_u64, get_u32, get_u64,
}
use fs.Fmt.Inode.{Inode, fmt_extent}
use fs.Fmt.Extents.{Extent, parse_from, extents_parse, put_extent, store_from, extents_store}
use fs.Prelude.{
  ℕ, ◌≤◌, ◌<◌, ◌≡◌, refl, inl, inr, false, List, [], ◌∷◌, ◌++◌, arith, replicate, ok, ◌+◌, ◌^◌,
  length-replicate,
}
use fs.Tests.{byte_sum, small_inode, small_header, get_or-replicate_le}
use fs.Tests.Storage.{small}

abbrev two_extents : List Extent
two_extents =
    record { file_block = 10; blk = 40; blocks = 2 }
    ∷ record { file_block = 0; blk = 100; blocks = 4 }
    ∷ []

extents_lookup-Says_example : Says two_extents 3 99 (extents_lookup two_extents 3 99)
extents_lookup-Says_example =
    extents_lookup-Says two_extents 3 99 (omega arith, omega arith, (omega arith, omega arith, tt))
      (omega arith)

-- Blocks 4 and 5 continue the second extent.
extents_lookup-add_run_example : extents_lookup (add_run 4 104 2 two_extents) 5 99 ≡ run 105 1
extents_lookup-add_run_example =
    extents_lookup-add_run two_extents 4 104 2 5 99
      (omega arith, omega arith, (omega arith, omega arith, tt))
      (inr (omega arith), (inl (omega arith), tt)) (inl (λ e. omega arith), (inr (omega arith), tt))
      (omega arith) (omega arith) (omega arith) (omega arith) (omega arith)

level_for_ends_example :
    (level : ℕ) × (level_for 11 0 1000 ≡ ok level)
    × (1000 ≤ reach level)
    × ((k : ℕ) → k < level → reach k < 1000)
level_for_ends_example = level_for_ends 1000 (omega arith)

-- A file with one extent, of four blocks at block 10.
abbrev pub one_extent : Inode
one_extent = record small_inode {
  format = fmt_extent;
  payload = replicate 15 0 ++ (10 ∷ 0 ∷ 0 ∷ 0 ∷ 4 ∷ replicate 108 0);
}

abbrev pub mounted : AllocState
mounted = record { fs = small; txn = empty; hdr = small_header }

map_lookup_long_example : 0 < 3
map_lookup_long_example = map_lookup_long 1 small empty one_extent 1 11 3 (
    unfold map_lookup extents_lookup extents_parse parse_from get_u32 get_u64 get_slice get_suffix
      get_prefix from_be in
    refl)

abbrev one_run : Run
one_run = record { file_block = 1; blk = 11; len = 2; is_fresh = false }

map_ensure-Covers_example : Covers 1 3 (one_run ∷ [])
map_ensure-Covers_example =
    map_ensure-Covers 1 0 one_extent one_extent 1 2 (one_run ∷ []) mounted (omega arith) (
      unfold map_ensure ensure_mapped extent_ensure ensure_from covering covers store_extents
        sort_by_start insert_sorted extents_store store_from put_extent put_u32 put_u64 put_slice
        overwrite to_be byte_of collect_runs collect_found fresh_at map_lookup extents_lookup
        extents_parse parse_from get_u32 get_u64 get_slice get_suffix get_prefix from_be in
      refl)

abbrev full_child : Child
full_child = record { state = cell_full; blocks = 9; addr = 2 ^ 32 + 5 }

full_child-IsChild : IsChild full_child
full_child-IsChild = record { state = omega arith; blocks = omega arith; addr = omega arith }

node_get-node_set_example :
    (b : Bytes) × (node_set (replicate 2048 1) 63 full_child ≡ ok b)
    × Replaces node_get (replicate 2048 1) 63 full_child b
node_get-node_set_example =
    node_get-node_set (replicate 2048 1) 63 full_child
      (λ i h. omega (arith, get_or-replicate_le 2048 1 i)) (omega arith)
      (omega (arith, length-replicate {A = ℕ} 2048 1)) full_child-IsChild

root_get-root_set_example :
    (p : Bytes) × (root_set (replicate 128 0) 5 full_child ≡ ok p)
    × Replaces root_get (replicate 128 0) 5 full_child p
root_get-root_set_example =
    root_get-root_set (replicate 128 0) 5 full_child
      (λ i h. omega (arith, get_or-replicate_le 128 0 i)) (omega arith) refl full_child-IsChild
