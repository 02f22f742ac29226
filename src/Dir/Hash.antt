-- ===== src/Dir/Hash.antt =====
-- src/dir.rs, `hash_name` and `bucket_index`. SipHash-2-4 is the crate `siphasher`; what is used of it is
-- that its result is a `u64`.
use fs.Fmt.Bytes.{Bytes, to_be, get_slice}
use fs.Prelude.{
  ℕ, ◌+◌, ◌-◌, ◌*◌, ◌/◌, ◌%◌, ◌^◌, ◌<◌, List, [], ◌∷◌, ◌++◌, ◌==◌, if◌then◌else◌, Out, ◌>>=◌, ok,
}

pub record SipHash24 : Type 0 where
  -- The hash under two keys of the bytes written one after the other.
  pub finish : ℕ → ℕ → Bytes → ℕ
  pub finish-lt : (k0 k1 : ℕ) (b : Bytes) → finish k0 k1 b < 2 ^ 64

-- `u64::from_le_bytes`
unfoldable pub from_le : Bytes → ℕ
from_le [] = 0
from_le (b ∷ bs) = b + 2 ^ 8 * from_le bs

-- Each unit of a name as two bytes, the high one first.
unfoldable pub name_bytes : List ℕ → Bytes
name_bytes [] = []
name_bytes (u ∷ units) = to_be 2 u ++ name_bytes units

module _ ⦃sip : SipHash24⦄ where
  unfoldable pub hash_name : Bytes → List ℕ → Out ℕ
  unfolding get_slice
  hash_name uuid name = do
    k0 ← get_slice uuid 0 8
    k1 ← get_slice uuid 8 8
    ok (sip.finish (from_le k0) (from_le k1) (name_bytes name))

-- `hash >> (64 - depth)`, where a release build takes `64 - depth` modulo 2^8 and shifts by its low 6 bits.
unfoldable pub bucket_index : ℕ → ℕ → ℕ
bucket_index hash depth = if depth == 0 then 0 else hash / 2 ^ ((320 - depth) % 64)

-- `1 << n` on 64 bits, which shifts by the low 6 bits of `n`.
unfoldable pub shift_one : ℕ → ℕ
shift_one n = 2 ^ (n % 64)

-- A subtraction on `u8`.
abbrev pub sub_u8 : ℕ → ℕ → ℕ
sub_u8 a b = (a + 2 ^ 8 - b) % 2 ^ 8
