-- ===== src/Fmt/Checksum.antt =====
-- src/fmt.rs, `csum`: CRC-32C of a buffer with its 4-byte checksum field taken as zero. CRC-32C is
-- the crate `crc32c`; what is used of it is that a checksum fits 32 bits.
use fs.Prelude.{ℕ, ◌+◌, ◌^◌, ◌<◌, [], ◌∷◌, Out, ok, ◌>>=◌}
use fs.Fmt.Bytes.{Bytes, get_prefix, get_suffix}

pub record Crc32c : Type 0 where
  pub crc32c : Bytes → ℕ
  pub crc32c_append : ℕ → Bytes → ℕ
  pub crc32c-lt : (b : Bytes) → crc32c b < 2 ^ 32
  pub crc32c_append-lt : (c : ℕ) (b : Bytes) → crc32c_append c b < 2 ^ 32

module _ ⦃crc : Crc32c⦄ where
  unfoldable pub csum : Bytes → ℕ → Out ℕ
  unfolding get_prefix get_suffix
  csum buf csum_off = do
    head ← get_prefix buf csum_off
    let c = crc.crc32c_append (crc.crc32c head) (0 ∷ 0 ∷ 0 ∷ 0 ∷ [])
    rest ← get_suffix buf (csum_off + 4)
    ok (crc.crc32c_append c rest)
