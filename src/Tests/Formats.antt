-- ===== src/Tests/Formats.antt =====
-- The round trips of the on-disk formats at concrete values.
use fs.Prelude.{
  ℕ, ◌^◌, ◌*◌, ◌≡◌, ◌++◌, ◌+◌, refl, ok, [], ◌∷◌, List, replicate, length, arith, ◌==◌,
  if◌then◌else◌,
}
use fs.Fmt.Bytes.{Bytes}
use fs.Fmt.AgHeader
use fs.Fmt.AgHeader.Roundtrip.{parse-to_bytes_header}
use fs.Fmt.AgMap
use fs.Fmt.AgMap.Roundtrip.{parse-to_bytes_agmap}
use fs.Fmt.Superblock
use fs.Fmt.Superblock.Roundtrip.{parse-to_bytes_superblock}
use fs.Fmt.Inode
use fs.Fmt.Inode.{Inode}
use fs.Fmt.Inode.Roundtrip.{parse-to_bytes_inode}
use fs.Fmt.Extents.{Extent, extents_parse, extents_store}
use fs.Fmt.Extents.Roundtrip.{extents_parse-extents_store}
use fs.Fmt.Cells.{cell_get, cell_set, cell_full}
use fs.Fmt.Cells.Laws.{IsBytes, cell_get-cell_set}
use fs.Fmt.Addr.{blk_addr, blk_split}
use fs.Fmt.Addr.Laws.{blk_split-blk_addr}
use fs.Tests.{
  byte_sum, small_inode, small_inode-IsInRange, small_sb, small_map, small_header,
  get_or-replicate_le,
}

parse-to_bytes_header_example :
    (b : Bytes) × (AgHeader.to_bytes small_header ≡ ok b)
    × (length b ≡ 64)
    × (AgHeader.parse (b ++ (1 ∷ 2 ∷ [])) ≡ ok small_header)
parse-to_bytes_header_example = parse-to_bytes_header small_header (1 ∷ 2 ∷ []) (record {
  ag_num = omega arith;
  gen = omega arith;
  length = omega arith;
  free_blocks = omega arith;
  rsvd_blocks = omega arith;
  full_blocks = omega arith;
  alloc_root = omega arith;
  ino_hint = omega arith;
  data_hint = omega arith;
  tbl_arena = omega arith;
})

parse-to_bytes_superblock_example :
    (b : Bytes) × (Superblock.to_bytes small_sb ≡ ok b)
    × (length b ≡ 512)
    × (Superblock.parse (b ++ (9 ∷ [])) ≡ ok small_sb)
parse-to_bytes_superblock_example = parse-to_bytes_superblock small_sb (9 ∷ []) (record {
  compat = omega arith;
  ro_compat = omega arith;
  incompat = omega arith;
  blocksize = omega arith;
  power = refl;
  large = omega arith;
  inodesize = omega arith;
  uuid = refl;
  disk_name = refl;
  units = λ i. omega (arith, get_or-replicate_le 16 65 i);
  root_ino = omega arith;
  next_ag = omega arith;
  agmap_offset = omega arith;
  agmap_length = omega arith;
  journal_start = omega arith;
  journal_length = omega arith;
  kernel_offset = omega arith;
  kernel_end = omega arith;
  free_blocks = omega arith;
  rsvd_blocks = omega arith;
  full_blocks = omega arith;
  gen = omega arith;
  journal_seq = omega arith;
  journal_head = omega arith;
})

parse-to_bytes_inode_example :
    (b : Bytes) × (Inode.to_bytes small_inode ≡ ok b)
    × (length b ≡ 256)
    × (Inode.parse (b ++ []) ≡ ok small_inode)
parse-to_bytes_inode_example = parse-to_bytes_inode small_inode [] small_inode-IsInRange

parse-to_bytes_agmap_example :
    (b : Bytes) × (AgMap.to_bytes small_map 512 ≡ ok b)
    × (length b ≡ 512)
    × (AgMap.parse b ≡ ok small_map)
parse-to_bytes_agmap_example =
    parse-to_bytes_agmap small_map 512
      (record {
        gen = omega arith;
        count = omega arith;
        entries = (
          record {
            flags = omega arith;
            length = omega arith;
            nseg = omega arith;
            segs = (
              record { ag_block = omega arith; blocks = omega arith; dev_offset = omega arith },
              (
                record { ag_block = omega arith; blocks = omega arith; dev_offset = omega arith },
                tt,
              ),
            );
          },
          tt,
        );
      })
      (omega arith) (omega arith)

abbrev two_runs : List Extent
two_runs =
    record { file_block = 0; blk = 300; blocks = 4 }
    ∷ (record { file_block = 4; blk = 2 ^ 32 + 9; blocks = 1 } ∷ [])

extents_parse-extents_store_example :
    (p : Bytes) × (extents_store (replicate 128 1) two_runs ≡ ok p)
    × (length p ≡ 128)
    × (extents_parse p ≡ ok two_runs)
extents_parse-extents_store_example =
    extents_parse-extents_store (replicate 128 1) two_runs refl (omega arith) (
      record {
        file_block = omega arith;
        blk = omega arith;
        blocks = omega arith;
        some_blocks = omega arith;
      },
      (
        record {
          file_block = omega arith;
          blk = omega arith;
          blocks = omega arith;
          some_blocks = omega arith;
        },
        tt,
      ),
    )

cell_get-cell_set_example :
    (b : Bytes) × (cell_set (replicate 2 27) 5 cell_full ≡ ok b)
    × (length b ≡ 2)
    × IsBytes b
    × ((j : ℕ) → cell_get b j ≡ (if j == 5 then ok cell_full else cell_get (replicate 2 27) j))
cell_get-cell_set_example =
    cell_get-cell_set (replicate 2 27) 5 cell_full
      (λ i h. omega (arith, get_or-replicate_le 2 27 i)) (omega arith) (omega arith)

blk_split-blk_addr_example :
    (blk_split (blk_addr 3 77) ≡ (3, 77))
    × (blk_addr (blk_split (5 * 2 ^ 32 + 1)).0 (blk_split (5 * 2 ^ 32 + 1)).1 ≡ 5 * 2 ^ 32 + 1)
blk_split-blk_addr_example =
    blk_split-blk_addr 3 77 (5 * 2 ^ 32 + 1) (omega arith) (omega arith) (omega arith)
