-- ===== src/Fmt/Cells.antt =====
-- src/fmt.rs, the 2-bit state arrays: `cell_get`, `cell_set` and the four cell states.
pub mod Laws
use fs.Prelude.{ℕ, ◌-◌, ◌*◌, ◌/◌, ◌%◌, ◌^◌, bit_and, bit_or, Out, ok, ◌>>=◌, ◌>>◌}
use fs.Fmt.Bytes.{Bytes, get_byte, put_byte}

abbrev pub cell_free : ℕ
cell_free = 0

abbrev pub cell_rsvd : ℕ
cell_rsvd = 1

abbrev pub cell_full : ℕ
cell_full = 2

abbrev pub cell_refined : ℕ
cell_refined = 3

-- `(byte >> sh) & 3`
unfoldable pub get_bits : ℕ → ℕ → ℕ
get_bits byte sh = bit_and (byte / 2 ^ sh) 3

-- `(byte & !(3 << sh)) | ((state & 3) << sh)`, on `u8`
unfoldable pub set_bits : ℕ → ℕ → ℕ → ℕ
set_bits byte sh state = bit_or (bit_and byte (255 - 3 * 2 ^ sh)) (bit_and state 3 * 2 ^ sh)

unfoldable pub cell_get : Bytes → ℕ → Out ℕ
unfolding get_byte get_bits
cell_get buf idx = do byte ← get_byte buf (idx / 4); ok (get_bits byte (idx % 4 * 2))

unfoldable pub cell_set : Bytes → ℕ → ℕ → Out Bytes
unfolding get_byte put_byte set_bits
cell_set buf idx state = do
  byte ← get_byte buf (idx / 4)
  put_byte buf (idx / 4) (set_bits byte (idx % 4 * 2) state)
