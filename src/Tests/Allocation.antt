-- ===== src/Tests/Allocation.antt =====
-- The allocator's records and counters at concrete values.
use fs.Journal.Txn.{get, read_or, txn_read}
use fs.Fmt.Addr.{blk_addr}
use fs.Prelude.{
  ok, ℕ, ◌+◌, ◌≡◌, ◌≤◌, refl, panic, none, [], ◌∷◌, ◌++◌, replicate, arith, false, some, ltb, Out,
}
use fs.Fmt.Bytes.{
  Bytes, get_prefix, get_slice, get_byte, get_u32, from_be, overwrite, put_slice, put_byte,
}
use fs.Fmt.Cells.{cell_get, get_bits, set_bits}
use fs.Alloc.Table.{AllocState, rt_byte, rt_state, rt_state_set}
use fs.Alloc.Arena.{claim_in}
use fs.Alloc.Counters.{account_alloc, account_free}
use fs.Alloc.Account.{account_free-account_alloc}
use fs.Alloc.Bitmap.{claim_in-panic}
use fs.Alloc.Record.{alloc_fanout, rec_state, run_from, find_run, wrap_range}
use fs.Alloc.Record.Order.{count, count-wrap_range}
use fs.Alloc.Record.Complete.{find_run_complete}
use fs.Alloc.Record.Runs.{AllFree, find_run-AllFree}
use fs.Alloc.Free.{free_from, free_at}
use fs.Alloc.Free.Enough.{free_round, free_from_enough}
use fs.Prelude.Loops.{While}
use fs.Prelude.Exec.{continue, pure}
use fs.Tests.{byte_sum, small_sb, small_map, small_header}

abbrev mounted : AllocState
mounted = record {
  fs = record {
    dev = record {
      file = record { len = 0; byte = λ i. 0 };
      size = 0;
      writable = false;
      nosync = false;
      recorder = none;
    };
    sb = small_sb;
    map = small_map;
    hints = λ ag. none;
  };
  txn = record { blocks = [] };
  hdr = small_header;
}

account_free-account_alloc_example :
    (account_free 16 (account_alloc 16 mounted) ≡ mounted)
    × ((account_alloc 16 mounted).hdr.free_blocks + (account_alloc 16 mounted).hdr.full_blocks
        ≡ small_header.free_blocks + small_header.full_blocks)
    × ((account_alloc 16 mounted).fs.sb.free_blocks + (account_alloc 16 mounted).fs.sb.full_blocks
        ≡ small_sb.free_blocks + small_sb.full_blocks)
account_free-account_alloc_example = account_free-account_alloc 16 mounted (record {
  hdr_free = omega arith;
  hdr_full = omega arith;
  sb_free = omega arith;
  sb_full = omega arith;
  hdr_enough = omega arith;
  sb_enough = omega arith;
})

-- The first three children are FULL.
abbrev some_full : Bytes
some_full = 42 ∷ replicate 127 0

find_run-AllFree_example : (3 + 5 ≤ alloc_fanout) × AllFree some_full 3 5
find_run-AllFree_example =
    find_run-AllFree some_full 5 3 (omega arith)
      (unfold find_run run_from rec_state get_prefix cell_get get_byte get_bits in refl)

find_run_complete_example :
    (found : ℕ) × (find_run some_full 4 ≡ ok (some found))
    × (found + 4 ≤ alloc_fanout)
    × AllFree some_full found 4
find_run_complete_example =
    find_run_complete some_full 4 12 (omega arith) (omega arith) (omega arith)
      (unfold rec_state get_prefix cell_get get_byte get_bits in (refl, (refl, (refl, (refl, tt)))))

count-wrap_range_example : count 2 (wrap_range 7 5) ≡ 1
count-wrap_range_example = count-wrap_range 7 5 2

-- A table block of 8192 bytes with 32 used records of 63.
abbrev full_word : Bytes
full_word = replicate 16 0 ++ (255 ∷ 255 ∷ 255 ∷ 255 ∷ replicate 8172 0)

claim_in-panic_example : claim_in 63 256 full_word mounted ≡ (panic, mounted)
claim_in-panic_example =
    claim_in-panic 63 256 full_word mounted (omega arith) (unfold get_u32 get_slice from_be in refl)

-- The root table in block 1, whose first cell is FULL.
abbrev full_cell : AllocState
full_cell = record mounted { txn = record { blocks = (1, 2 ∷ replicate 511 0) ∷ [] } }

free_from_enough_example :
    (r : Out ℕ × AllocState) × While (λ k. ltb k 256) (free_round 0 0) 0 full_cell r
    × (free_from 256 0 0 0 256 full_cell ≡ continue r.0 (λ k. pure tt) r.1)
free_from_enough_example = free_from_enough 256 0 0 0 256 full_cell (omega arith)

-- One round frees the cell.
cell_freed : (free_round 0 0 0 full_cell).0 ≡ ok 256
cell_freed =
    unfold free_at rt_state txn_read read_or get rt_byte blk_addr get_byte get_bits rt_state_set
      set_bits put_byte put_slice overwrite in
    refl
