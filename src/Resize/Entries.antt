-- ===== src/Resize/Entries.antt =====
-- src/resize.rs, what the operations do to the cell table of a fresh AG, to the entries of the map and to the
-- counters of the superblock.
use fs.Prelude.{
  ℕ, ◌>>=◌, zero, suc, ◌+◌, ◌-◌, ◌*◌, ◌%◌, ◌^◌, ◌&&◌, Option, none, some, List, [], ◌∷◌, ◌++◌, Out,
  ok, err, panic, ◌==◌, ◌!=◌, ltb, if◌then◌else◌, get_elem?, set, any, bit_and, no_such_ag, no_room,
}
use fs.Fmt.Bytes.{Bytes}
use fs.Fmt.Cells.{cell_get, cell_set, cell_free, cell_rsvd}
use fs.Fmt.RootTable.{cell_blocks}
use fs.Fmt.AgHeader.{AgHeader}
use fs.Fmt.AgMap.{AgSegment, AgEntry, agf_present, agf_retired}
use fs.Fs.{Gofs}
use fs.Resize.Regions.{seg_end}

-- `for c in c..c + n { cell_set(&mut table, c, CELL_RSVD) }`
unfoldable pub reserve_cells : Bytes → ℕ → ℕ → Out Bytes
reserve_cells table c zero = ok table
reserve_cells table c (suc n) = do table ← cell_set table c cell_rsvd; reserve_cells table (suc c) n

-- A partial tail cell is reserved too; the table and the number of cells reserved.
unfoldable pub reserve_tail : Bytes → ℕ → ℕ → ℕ → Out (Bytes × ℕ)
reserve_tail table ag_len cells head_cells = do
  last ← cell_get table (cells - 1)
  if ag_len % cell_blocks != 0 && last == cell_free
      then (do table ← cell_set table (cells - 1) cell_rsvd; ok (table, head_cells + 1))
      else ok (table, head_cells)

abbrev pub one_segment : ℕ → ℕ → List AgSegment
one_segment blocks dev_offset =
    record { ag_block = 0; blocks = blocks; dev_offset = dev_offset } ∷ []

-- The header of a fresh AG.
unfoldable pub fresh_header : ℕ → ℕ → ℕ → ℕ → AgHeader
fresh_header ag ag_len free_blocks head_cells = record {
  ag_num = ag;
  gen = 1;
  length = ag_len;
  free_blocks = free_blocks % 2 ^ 32;
  rsvd_blocks = (ag_len + 2 ^ 32 - free_blocks % 2 ^ 32) % 2 ^ 32;
  full_blocks = 0;
  alloc_root = 1;
  ino_hint = 0;
  data_hint = head_cells * cell_blocks % 2 ^ 32;
  tbl_arena = 0;
}

-- The new entry and the counters.
unfoldable pub enter_ag : ℕ → ℕ → ℕ → ℕ → Gofs → Gofs
enter_ag ag ag_len dev_offset free_blocks g = record g {
  map = record g.map {
    entries =
        g.map.entries
        ++ record { flags = agf_present; length = ag_len; segs = one_segment ag_len dev_offset }
          ∷ [];
  };
  sb = record g.sb {
    next_ag = (ag + 1) % 2 ^ 32;
    free_blocks = (g.sb.free_blocks + free_blocks) % 2 ^ 64;
    rsvd_blocks = (g.sb.rsvd_blocks + (ag_len + 2 ^ 64 - free_blocks) % 2 ^ 64) % 2 ^ 64;
  };
}

abbrev pub lookup : List AgEntry → ℕ → Out AgEntry
lookup entries ag = elim (get_elem? entries ag) [ none ↦ err no_such_ag | some e ↦ ok e ]

-- `entries[ag].segs = segs`
unfoldable pub move_entry : ℕ → AgEntry → List AgSegment → Gofs → Gofs
move_entry ag e segs g = record g {
  map = record g.map { entries = set g.map.entries ag (record e { segs = segs }) };
}

-- The retired entry and the counters.
unfoldable pub drop_entry : ℕ → AgEntry → AgHeader → Gofs → Gofs
drop_entry ag e hdr g = record g {
  map = record g.map {
    entries = set g.map.entries ag (record e { flags = agf_retired; segs = [] });
  };
  sb = record g.sb {
    free_blocks = (g.sb.free_blocks + 2 ^ 64 - hdr.free_blocks) % 2 ^ 64;
    rsvd_blocks = (g.sb.rsvd_blocks + 2 ^ 64 - hdr.rsvd_blocks) % 2 ^ 64;
  };
}

abbrev pub indexed : List AgEntry → ℕ → Out AgEntry
indexed entries ag = elim (get_elem? entries ag) [ none ↦ panic | some e ↦ ok e ]

-- The first present entry, from `i` on, with a segment that ends beyond a size.
unfoldable pub first_beyond : ℕ → ℕ → ℕ → List AgEntry → Option (ℕ × AgEntry)
first_beyond bs size i [] = none
first_beyond bs size i (e ∷ entries) =
    let rest = first_beyond bs size (suc i) entries in
    if bit_and e.flags agf_present != 0 && any (λ s. ltb size (seg_end bs s)) e.segs
    then some (i, e)
    else rest

unfoldable pub found_room : Option ℕ → Out ℕ
found_room none = err no_room
found_room (some dest) = ok dest
