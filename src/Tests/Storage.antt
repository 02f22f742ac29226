-- ===== src/Tests/Storage.antt =====
-- The device, address resolution, the journal and the gaps between AGs on a concrete file system.
use fs.Prelude.{
  ℕ, zero, suc, ◌+◌, ◌*◌, ◌≡◌, ◌≢◌, ◌<◌, ◌≤◌, refl, ok, some, none, [], ◌∷◌, replicate, arith, true,
  false, inl, inr, le_or_lt, ◌^◌,
}
use fs.Fmt.Bytes.{Bytes}
use fs.Fmt.AgMap
use fs.Fmt.AgMap.{AgEntry}
use fs.Resize.Entries.{move_entry, one_segment}
use fs.Resize.Moved.{resolve-move_entry}
use fs.Fmt.AgMap.Resolve.{BlocksApart}
use fs.Fmt.AgMap.Disjoint.{resolve-BlocksApart}
use fs.Device.{Device, bytes_at, pread, pwrite}
use fs.Fmt.Addr.{blk_split, blk_addr}
use fs.Fs.Read.{resolve, resolved, read_block}
use fs.Device.Laws.{pread-pwrite}
use fs.Fs.{Gofs}
use fs.Journal.Txn.{Txn, get, read_or, txn_read, txn_write}
use fs.Journal.Txn.Laws.{IsSorted, txn_read-txn_write}
use fs.Journal.Commit.{write_txn, journal_phys}
use fs.Journal.Replay.{try_read_txn}
use fs.Journal.Encode.{max_targets}
use fs.Journal.Store.{IsReady}
use fs.Journal.Readback.Written.{try_read_txn-write_txn}
use fs.Resize.Regions.{
  find_gap, sweep, sort_regions, insert_region, before, regions_of, seg_end, all_segs, overlaps,
  overlaps_excluding,
}
use fs.Resize.Gaps.{find_gap-overlaps}
use fs.Fs.Inodes.{read_inode_txn, write_inode_txn}
use fs.Fs.Inodes.Laws.{read_inode_txn-write_inode_txn}
use fs.Tests.{byte_sum, small_segs, small_inode, small_inode-IsInRange, small_sb, small_map}

abbrev blank : Device
blank = record {
  file = record { len = 16384; byte = λ i. 0 };
  size = 16384;
  writable = true;
  nosync = false;
  recorder = none;
}

abbrev pub small : Gofs
small = record { dev = blank; sb = small_sb; map = small_map; hints = λ ag. none }

pread-pwrite_example :
    ((pwrite (1 ∷ 2 ∷ []) 100 blank).0 ≡ ok tt)
    × (pread (pwrite (1 ∷ 2 ∷ []) 100 blank).1 2 100 ≡ ok (1 ∷ 2 ∷ []))
    × (pread (pwrite (1 ∷ 2 ∷ []) 100 blank).1 3 97 ≡ ok (0 ∷ 0 ∷ 0 ∷ []))
pread-pwrite_example =
    pread-pwrite blank (1 ∷ 2 ∷ []) 100 97 3 (0 ∷ 0 ∷ 0 ∷ []) refl (inl (omega arith))
      (unfold pread bytes_at in refl)

resolve-BlocksApart_example : BlocksApart 512 (7 * 512) 8192
resolve-BlocksApart_example =
    resolve-BlocksApart small_map 512 7 8 (7 * 512) 8192
      (((inl (omega arith), tt), (tt, tt)), tt, tt)
      (((omega arith, omega arith), ((omega arith, omega arith), tt)), tt) (omega arith)
      (omega arith) (λ e. omega arith)
      (unfold AgMap.resolve AgMap.resolve_entry AgMap.resolve_in blk_split in refl)
      (unfold AgMap.resolve AgMap.resolve_entry AgMap.resolve_in blk_split in refl)

abbrev two_writes : Txn
two_writes = record { blocks = (4, 1 ∷ []) ∷ ((9, 2 ∷ []) ∷ []) }

txn_read-txn_write_example :
    (txn_read small (txn_write two_writes 6 (3 ∷ [])) 6 ≡ ok (3 ∷ []))
    × (txn_read small (txn_write two_writes 6 (3 ∷ [])) 9 ≡ txn_read small two_writes 9)
    × IsSorted (txn_write two_writes 6 (3 ∷ [])).blocks
txn_read-txn_write_example =
    txn_read-txn_write small two_writes 6 9 (3 ∷ []) ((omega arith, tt), (tt, tt))
      (λ e. omega arith)

abbrev phys : ℕ → ℕ
phys i = (2 + i) * 512

located : (i : ℕ) → i < 4 → journal_phys small i ≡ ok (phys i)
unfolding journal_phys resolve resolved AgMap.resolve AgMap.resolve_entry AgMap.resolve_in blk_split
located zero h = refl
located (suc zero) h = refl
located (suc (suc zero)) h = refl
located (suc (suc (suc zero))) h = refl
located (suc (suc (suc (suc i)))) h = absurd (omega arith)

journal_IsReady : IsReady phys small
journal_IsReady = record {
  writable = refl;
  located = located;
  apart = λ i j hi hj ne. elim (le_or_lt (i + 1) j) [
    | inl before ↦ inl (omega arith)
    | inr behind ↦ inr (apart i j ne (omega arith))
  ];
}
  where
    apart : (i j : ℕ) → i ≢ j → j ≤ i → phys j + 512 ≤ phys i
    apart i j ne le = elim (le_or_lt i j) [
      | inl ge ↦ absurd (ne (omega arith))
      | inr lt ↦ omega arith
    ]

abbrev page : Bytes
page = replicate 512 9

try_read_txn-write_txn_example :
    ((write_txn 1 5 ((4, page) ∷ []) small).0 ≡ ok tt)
    × (try_read_txn (write_txn 1 5 ((4, page) ∷ []) small).1 1 5 ≡ ok (some (4 ∷ [], page ∷ [])))
try_read_txn-write_txn_example =
    try_read_txn-write_txn phys small 1 5 5 ((4, page) ∷ []) journal_IsReady
      (record {
        some_target = omega arith;
        in_desc = unfold max_targets in omega arith;
        in_journal = omega arith;
        seq_u64 = omega arith;
        targets_u64 = (omega arith, tt);
        bs_u32 = omega arith;
      })
      (refl, tt)

find_gap-overlaps_example :
    (4096 + 4096 ≤ 65536)
    × (overlaps 512 small_map.entries 4096 4096 ≡ false)
    × (overlaps_excluding 512 small_map.entries 4096 4096 3 ≡ false)
find_gap-overlaps_example =
    find_gap-overlaps 512 4096 65536 4096 3 small_map.entries (omega arith) (omega arith)
      (unfold find_gap sweep sort_regions insert_region before regions_of seg_end all_segs in refl)

read_inode_txn-write_inode_txn_example :
    (t : Txn) × (write_inode_txn small two_writes 12 small_inode ≡ ok t)
    × (read_inode_txn small t 12 ≡ ok small_inode)
read_inode_txn-write_inode_txn_example =
    read_inode_txn-write_inode_txn small two_writes 12 small_inode (replicate 512 0)
      small_inode-IsInRange (omega arith) (omega arith)
      (unfold txn_read get read_or read_block resolve resolved AgMap.resolve AgMap.resolve_entry
          AgMap.resolve_in blk_split blk_addr pread bytes_at in
        refl)
      refl

abbrev small_entry : AgEntry
small_entry = record { flags = 1; length = 16; segs = small_segs }

resolve-move_entry_example :
    (resolve (move_entry 0 small_entry (one_segment 16 65536) small) (blk_addr 0 9)
      ≡ ok (65536 + 9 * 512))
    × (resolve (move_entry 0 small_entry (one_segment 16 65536) small) (2 ^ 32)
        ≡ resolve small (2 ^ 32))
resolve-move_entry_example =
    resolve-move_entry small 0 9 65536 (2 ^ 32) small_entry refl refl (omega arith) (omega arith)
      (omega arith) (omega arith) (λ e. unfold blk_split in omega arith)
