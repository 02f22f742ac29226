-- ===== src/Journal/Encode.antt =====
-- src/journal.rs, the descriptor and commit blocks of a transaction, and its checksum.
pub mod Layout
use fs.Prelude.{ℕ, suc, ◌+◌, ◌-◌, ◌*◌, ◌/◌, List, [], ◌∷◌, Out, ok, replicate, length, ◌>>=◌, ◌>>◌}
use fs.Fmt.Bytes.{Bytes, put_slice, put_u32, put_u64}
use fs.Fmt.Checksum.{Crc32c, csum}

abbrev pub jhdr : ℕ
jhdr = 24

-- "5FSJ"
abbrev pub jdesc_magic : Bytes
jdesc_magic = b'5' ∷ b'F' ∷ b'S' ∷ b'J' ∷ []

-- "5FSC"
abbrev pub jcommit_magic : Bytes
jcommit_magic = b'5' ∷ b'F' ∷ b'S' ∷ b'C' ∷ []

-- The most targets of one transaction.
unfoldable pub max_targets : ℕ → ℕ
max_targets bs = (bs - jhdr) / 8

-- `for (i, t) in targets.iter().enumerate() { put_u64(&mut b, JHDR + i * 8, *t) }`
unfoldable pub put_targets : Bytes → ℕ → List ℕ → Out Bytes
put_targets b i [] = ok b
put_targets b i (t ∷ targets) = do b ← put_u64 b (jhdr + i * 8) t; put_targets b (suc i) targets

module _ ⦃crc : Crc32c⦄ where
  unfoldable pub desc_block : ℕ → ℕ → List ℕ → Out Bytes
  desc_block bs seq targets = do
    b ← put_slice (replicate bs 0) 0 jdesc_magic
    b ← put_u64 b 8 seq
    b ← put_u32 b 16 (length targets)
    b ← put_targets b 0 targets
    c ← csum b 4
    put_u32 b 4 c

  unfoldable pub commit_block : ℕ → ℕ → ℕ → Out Bytes
  commit_block bs seq txn_csum = do
    b ← put_slice (replicate bs 0) 0 jcommit_magic
    b ← put_u64 b 8 seq
    b ← put_u32 b 16 txn_csum
    c ← csum b 4
    put_u32 b 4 c

  -- The checksum goes on over the data blocks.
  unfoldable pub csum_over : ℕ → List Bytes → ℕ
  csum_over tc [] = tc
  csum_over tc (content ∷ blocks) = csum_over (crc.crc32c_append tc content) blocks
