-- ===== src/Fmt/RootTable.antt =====
-- src/fmt.rs, the geometry of an allocator root table: a 2-bit state for each level-0 cell, then a
-- 6-byte child-table reference for each.
use fs.Prelude.{ℕ, ◌+◌, ◌-◌, ◌*◌, ◌/◌, ◌%◌, ◌^◌}

abbrev pub cell_blocks : ℕ
cell_blocks = 256

-- `u64::div_ceil`
abbrev pub div_ceil : ℕ → ℕ → ℕ
div_ceil a b = (a + b - 1) / b

unfoldable pub rt_geometry : ℕ → ℕ → ℕ × ℕ
rt_geometry ag_blocks blocksize =
    let cells = div_ceil ag_blocks cell_blocks in
    let bytes = div_ceil cells 4 + cells * 6 in (cells, div_ceil bytes blocksize % 2 ^ 32)

unfoldable pub rt_ref_off : ℕ → ℕ → ℕ
rt_ref_off cells c = div_ceil cells 4 + c * 6
