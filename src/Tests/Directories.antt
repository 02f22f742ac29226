-- ===== src/Tests/Directories.antt =====
-- Buckets and tables of a hashed directory at concrete values.
use fs.Dir.Bucket.Roundtrip.{IsHEntry, AllHEntries, bucket_entries-bucket_build}
use fs.Dir.Bucket.Names.{AllUnits}
use fs.Dir.Remove.Halve.{halved-bucket_index}
use fs.Dir.Insert.Partition.{find_in, half_of, find_in-partition}
use fs.Dir.Insert.Split.{deepen-bucket_index, redirect-bucket_index}
use fs.Dir.Insert.{doubled, redirect, partition, hashed_insert}
use fs.Dir.Hash.{bucket_index, sub_u8, shift_one, from_le, name_bytes, hash_name}
use fs.Dir.Bucket.{
  HEntry, entry_size, hentries_size, bucket_fits, entries_from, bucket_entries, bucket_build,
}
use fs.Dir.Remove.{pairs_equal, halved}
use fs.Fmt.Bytes.{
  Bytes, byte_of, to_be, from_be, bytes_eq, get_prefix, get_suffix, get_slice, get_byte, get_u16,
  get_u32, get_u64,
}
use fs.Fmt.Dirents.{DirEntry, lossy}
use fs.Prelude.{
  replicate, ◌++◌, ◌*◌, ◌+◌, ◌%◌, ◌^◌, ◌≡◌, refl, some, List, [], ◌∷◌, arith, get_elem?, ok,
}
use fs.Tests.{byte_sum}
use fs.Tests.Storage.{small}
use fs.Tests.Files.{byte_mix}
use fs.Tests.Mapping.{one_extent, mounted}
use fs.Alloc.Table.{AllocState}
use fs.Dir.Table.{
  Header, Bucket, dir_block_addr, dir_block_read, dhdr_read, bucket_read, header_of, table_from,
  freelist_from,
}
use fs.Dir.Stores.{old_gen, bucket_write, dhdr_write}
use fs.Dir.Stores.HeaderBlock.{dhdr_read-dhdr_write}
use fs.Dir.Table.Roundtrip.{IsHeader}
use fs.Dir.Stores.Readback.{bucket_read-bucket_write}
use fs.Dir.Insert.Inserted.{entered, dir_find-hashed_insert}
use fs.Dir.Find.{hposition, entry_at, dir_find}
use fs.Extent.Lookup.{extents_lookup, map_lookup}
use fs.Fmt.Extents.{extents_parse, parse_from}
use fs.Fmt.Checksum.{csum}
use fs.Fmt.Inode.{Inode, is_dir}
use fs.Journal.Txn.{Txn, get, read_or, txn_read, txn_write}

abbrev first_entry : HEntry
first_entry = record { ino = 49; hash = 5; ftype = 1; name = 97 ∷ 98 ∷ 99 ∷ [] }

abbrev second_entry : HEntry
second_entry = record { ino = 50; hash = 2 ^ 63 + 7; ftype = 2; name = 100 ∷ 233 ∷ [] }

abbrev two_entries : List HEntry
two_entries = first_entry ∷ second_entry ∷ []

two_entries_all : AllHEntries two_entries
unfolding AllUnits lossy
two_entries_all = (
  record {
    ino = omega arith;
    hash = omega arith;
    units = (omega arith, (omega arith, (omega arith, tt)));
    text = refl;
    short = omega arith;
  },
  (
    record {
      ino = omega arith;
      hash = omega arith;
      units = (omega arith, (omega arith, tt));
      text = refl;
      short = omega arith;
    },
    tt,
  ),
)

bucket_entries-bucket_build_example :
    (buf : Bytes) × (bucket_build 512 1 two_entries ≡ ok buf)
    × (bucket_entries buf ≡ ok two_entries)
    × (get_byte buf 16 ≡ ok 1)
bucket_entries-bucket_build_example =
    bucket_entries-bucket_build 512 1 two_entries (unfold hentries_size entry_size in omega arith)
      (omega arith) two_entries_all

deepen-bucket_index_example :
    get_elem? (doubled (3 ∷ 4 ∷ [])) (bucket_index (2 ^ 63 + 1) 2)
    ≡ get_elem? (3 ∷ 4 ∷ []) (bucket_index (2 ^ 63 + 1) 1)
deepen-bucket_index_example =
    deepen-bucket_index (3 ∷ 4 ∷ []) (2 ^ 63 + 1) 1 (omega arith) (omega arith)

halved-bucket_index_example :
    get_elem? (halved (3 ∷ 3 ∷ 4 ∷ 4 ∷ [])) (bucket_index (2 ^ 63 + 1) 1)
    ≡ get_elem? (3 ∷ 3 ∷ 4 ∷ 4 ∷ []) (bucket_index (2 ^ 63 + 1) 2)
halved-bucket_index_example =
    halved-bucket_index (3 ∷ 3 ∷ 4 ∷ 4 ∷ []) (2 ^ 63 + 1) 1 (unfold pairs_equal in refl)
      (omega arith) (omega arith)

-- Bucket 0 is split into 0 and 6.
redirect-bucket_index_example :
    get_elem?
      (redirect 0 6 (sub_u8 (sub_u8 1 1) 0 % 64) 0 (0 ∷ 0 ∷ []))
      (bucket_index (2 ^ 63 + 1) 1)
    ≡ some 6
redirect-bucket_index_example =
    redirect-bucket_index (0 ∷ 0 ∷ []) 0 6 (2 ^ 63 + 1) 1 0 0 (omega arith) (omega arith)
      (unfold bucket_index in refl)

find_in-partition_example :
    find_in 5 (97 ∷ 98 ∷ 99 ∷ []) (half_of 63 5 (partition 63 two_entries))
    ≡ find_in 5 (97 ∷ 98 ∷ 99 ∷ []) two_entries
find_in-partition_example = find_in-partition 63 5 (97 ∷ 98 ∷ 99 ∷ []) two_entries

-- A directory with inline extents: its header in block 10, and its only bucket, an empty one, in block 11.
abbrev hashed_dir : Inode
hashed_dir = record one_extent { mode = 0o040755 }

abbrev header_bytes : Bytes
header_bytes = b'5' ∷ b'F' ∷ b'S' ∷ b'D' ∷ 0 ∷ 0 ∷ 1 ∷ 19 ∷ (replicate 15 0 ++ (1 ∷ replicate 4 0))

abbrev bucket_bytes : Bytes
bucket_bytes = b'5' ∷ b'F' ∷ b'S' ∷ b'b' ∷ 0 ∷ 0 ∷ 1 ∷ 48 ∷ replicate 16 0

abbrev with_hashed : AllocState
with_hashed = record mounted {
  txn = record { blocks = (10, header_bytes) ∷ ((11, bucket_bytes) ∷ []) };
}

abbrev dir_header : Header
dir_header = record { depth = 0; nbuckets = 1; table = 0 ∷ []; blk = 10; freelist = [] }

abbrev empty_bucket : Bucket
empty_bucket = record { entries = []; local_depth = 0; blk = 11 }

header_at : dir_block_addr 1 small with_hashed.txn hashed_dir 0 ≡ ok 10
header_at =
    unfold dir_block_addr map_lookup extents_lookup extents_parse parse_from get_u32 get_u64
      get_slice get_suffix get_prefix from_be in
    refl

bucket_at : dir_block_addr 1 small with_hashed.txn hashed_dir 1 ≡ ok 11
bucket_at =
    unfold dir_block_addr map_lookup extents_lookup extents_parse parse_from get_u32 get_u64
      get_slice get_suffix get_prefix from_be in
    refl

header_there : dhdr_read 1 small with_hashed.txn hashed_dir ≡ ok dir_header
header_there =
    unfold dhdr_read dir_block_read dir_block_addr map_lookup extents_lookup extents_parse
      parse_from header_of table_from freelist_from shift_one txn_read read_or get csum bytes_eq
      get_byte get_u16 get_u32 get_u64 get_slice get_suffix get_prefix from_be in
    refl

bucket_there : bucket_read 1 small with_hashed.txn hashed_dir 0 ≡ ok empty_bucket
bucket_there =
    unfold bucket_read dir_block_read dir_block_addr map_lookup extents_lookup extents_parse
      parse_from bucket_entries entries_from txn_read read_or get csum bytes_eq get_byte get_u16
      get_u32 get_u64 get_slice get_suffix get_prefix from_be in
    refl

gen_there : old_gen 11 with_hashed ≡ (ok 0, with_hashed)
gen_there =
    unfold old_gen txn_read read_or get get_u64 get_slice get_suffix get_prefix from_be in refl

bucket_read-bucket_write_example :
    (content : Bytes) × (bucket_write 11 1 two_entries with_hashed
      ≡ (ok tt, record with_hashed { txn = txn_write with_hashed.txn 11 content }))
    × (bucket_read 1 small (txn_write with_hashed.txn 11 content) hashed_dir 0
        ≡ ok (record { entries = two_entries; local_depth = 1; blk = 11 }))
bucket_read-bucket_write_example =
    bucket_read-bucket_write 1 with_hashed hashed_dir 0 11 1 0 two_entries refl bucket_at gen_there
      (unfold hentries_size entry_size in omega arith) (omega arith) two_entries_all

abbrev new_entry : DirEntry
new_entry = record { ino = 49; ftype = 1; name = 97 ∷ [] }

new_entry-IsHEntry : IsHEntry (entered (97 * 2 ^ 8) new_entry)
unfolding AllUnits lossy
new_entry-IsHEntry = record {
  ino = omega arith;
  hash = omega arith;
  units = (omega arith, tt);
  text = refl;
  short = omega arith;
}

dir_find-hashed_insert_example :
    (t : Txn) × (hashed_insert 1 12 hashed_dir new_entry with_hashed
      ≡ (ok hashed_dir, record with_hashed { txn = t }))
    × (dir_find 1 small t hashed_dir (97 ∷ []) ≡ ok (some new_entry))
dir_find-hashed_insert_example =
    dir_find-hashed_insert 1 with_hashed hashed_dir 12 new_entry (97 * 2 ^ 8) 0 10 0 dir_header
      empty_bucket (unfold is_dir in refl) refl
      (unfold hash_name name_bytes to_be byte_of from_le get_slice get_suffix get_prefix in refl)
      header_at header_there (unfold bucket_index in refl) bucket_at bucket_there (λ e. omega arith)
      gen_there (unfold hposition entry_at in refl)
      (unfold bucket_fits hentries_size entry_size in refl) (omega arith) tt new_entry-IsHEntry

-- Bucket 2 of three is free.
abbrev split_header : Header
split_header = record { depth = 1; nbuckets = 3; table = 0 ∷ 1 ∷ []; blk = 10; freelist = 2 ∷ [] }

split_header-IsHeader : IsHeader 512 split_header
split_header-IsHeader = record {
  slots = unfold shift_one in refl;
  fits = omega arith;
  few = omega arith;
  nbuckets = omega arith;
  table = (omega arith, (omega arith, tt));
  freelist = (omega arith, tt);
}

header_gen : old_gen 10 with_hashed ≡ (ok 0, with_hashed)
header_gen =
    unfold old_gen txn_read read_or get get_u64 get_slice get_suffix get_prefix from_be in refl

dhdr_read-dhdr_write_example :
    (content : Bytes) × (dhdr_write split_header with_hashed
      ≡ (ok tt, record with_hashed { txn = txn_write with_hashed.txn 10 content }))
    × (dhdr_read 1 small (txn_write with_hashed.txn 10 content) hashed_dir ≡ ok split_header)
dhdr_read-dhdr_write_example =
    dhdr_read-dhdr_write 1 with_hashed hashed_dir 0 split_header refl header_at header_gen
      split_header-IsHeader
