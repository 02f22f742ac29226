-- ===== src/Alloc/Bitmap.antt =====
-- The bitmap of the used records of a table block, a 32-bit word.
use fs.Prelude.{
  ℕ, zero, suc, ◌-◌, ◌%◌, ◌^◌, ◌<◌, ◌≡◌, refl, ok, panic, none, true, false, ◌==◌, bit_and, not,
  lt→leb, arith,
}
use fs.Prelude.Bits.{all_below, all_below_sound}
use fs.Fmt.Bytes.{Bytes, get_u32}
use fs.Fmt.Checksum.{Crc32c}
use fs.Alloc.Table.{AllocState, count_ones, count_ones_from, find_unused}
use fs.Alloc.Arena.{claim_in}

full_bit : (i : ℕ) → (bit_and (2 ^ 32 - 1) (2 ^ (i % 32)) == 0) ≡ false
unfolding all_below
full_bit i =
    let clear : not (bit_and (2 ^ 32 - 1) (2 ^ (i % 32)) == 0) ≡ true =
      all_below_sound 32 (λ k. not (bit_and (2 ^ 32 - 1) (2 ^ k) == 0)) (i % 32) refl
        (omega arith) in
    ground arith

find_unused-full : (i n : ℕ) → find_unused (2 ^ 32 - 1) i n ≡ none
unfolding find_unused
find_unused-full i zero = refl
find_unused-full i (suc n) = rw (full_bit i, find_unused-full (suc i) n) refl

-- In blocks of more than 32 records, a table block whose bitmap has all 32 bits set makes the search
-- for a free record panic: the block does not count as full, and no bit of it is clear.
pub claim_in-panic :
    ⦃crc : Crc32c⦄ (nrec b : ℕ) (buf : Bytes) (s : AllocState)
    → 32 < nrec
    → get_u32 buf 16 ≡ ok (2 ^ 32 - 1)
    → claim_in nrec b buf s ≡ (panic, s)
unfolding claim_in count_ones count_ones_from
claim_in-panic nrec b buf s many h = rw (h, lt→leb nrec 32 many, find_unused-full 0 nrec) refl
