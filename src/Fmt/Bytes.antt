-- ===== src/Fmt/Bytes.antt =====
-- src/fmt.rs, the byte helpers: big-endian integers in a byte buffer, with a panic where the slice
-- runs out of the buffer. A buffer is a list of bytes; `u16`, `u32`, `u64` are numbers below
-- 2 ^ 16, 2 ^ 32 and 2 ^ 64, and an `i64` is its bit pattern, a number below 2 ^ 64.
pub mod Laws
pub mod Slices
use fs.Prelude.{
  ℕ, zero, suc, ◌+◌, ◌*◌, ◌/◌, ◌%◌, ◌^◌, Bool, true, false, ◌&&◌, List, [], ◌∷◌, Out, ok, panic,
  ◌==◌, ◌>>=◌, ◌>>◌,
}

abbrev pub Bytes : Type 0
Bytes = List ℕ

-- `to_be_bytes`: byte `k` of the value, counted from the low end.
unfoldable pub byte_of : ℕ → ℕ → ℕ
byte_of v k = v / 2 ^ (8 * k) % 256

unfoldable pub to_be : ℕ → ℕ → Bytes
to_be zero v = []
to_be (suc k) v = byte_of v k ∷ to_be k v

-- `from_be_bytes`
unfoldable pub from_be : ℕ → Bytes → ℕ
from_be acc [] = acc
from_be acc (x ∷ xs) = from_be (acc * 256 + x) xs

-- `b[..src.len()].copy_from_slice(src)`
unfoldable pub overwrite : Bytes → Bytes → Out Bytes
overwrite b [] = ok b
overwrite [] (s ∷ src) = panic
overwrite (x ∷ b) (s ∷ src) = do rest ← overwrite b src; ok (s ∷ rest)

-- `b[off..off + src.len()].copy_from_slice(src)`
unfoldable pub put_slice : Bytes → ℕ → Bytes → Out Bytes
unfolding overwrite
put_slice b zero src = overwrite b src
put_slice [] (suc off) src = panic
put_slice (x ∷ b) (suc off) src = do rest ← put_slice b off src; ok (x ∷ rest)

-- `b[..n]`
unfoldable pub get_prefix : Bytes → ℕ → Out Bytes
get_prefix b zero = ok []
get_prefix [] (suc n) = panic
get_prefix (x ∷ b) (suc n) = do rest ← get_prefix b n; ok (x ∷ rest)

-- `b[off..]`
unfoldable pub get_suffix : Bytes → ℕ → Out Bytes
get_suffix b zero = ok b
get_suffix [] (suc off) = panic
get_suffix (x ∷ b) (suc off) = get_suffix b off

-- `b[off..off + n]`
unfoldable pub get_slice : Bytes → ℕ → ℕ → Out Bytes
unfolding get_prefix get_suffix
get_slice b off n = do tail ← get_suffix b off; get_prefix tail n

-- `b[i]`
unfoldable pub get_byte : Bytes → ℕ → Out ℕ
get_byte [] i = panic
get_byte (x ∷ b) zero = ok x
get_byte (x ∷ b) (suc i) = get_byte b i

-- `b[i] = v`
unfoldable pub put_byte : Bytes → ℕ → ℕ → Out Bytes
unfolding put_slice
put_byte b i v = put_slice b i (v ∷ [])

unfoldable pub put_u16 : Bytes → ℕ → ℕ → Out Bytes
unfolding put_slice to_be
put_u16 b off v = put_slice b off (to_be 2 v)

unfoldable pub put_u32 : Bytes → ℕ → ℕ → Out Bytes
unfolding put_slice to_be
put_u32 b off v = put_slice b off (to_be 4 v)

unfoldable pub put_u64 : Bytes → ℕ → ℕ → Out Bytes
unfolding put_slice to_be
put_u64 b off v = put_slice b off (to_be 8 v)

unfoldable pub put_i64 : Bytes → ℕ → ℕ → Out Bytes
unfolding put_slice to_be
put_i64 b off v = put_slice b off (to_be 8 v)

unfoldable pub get_u16 : Bytes → ℕ → Out ℕ
unfolding get_slice
get_u16 b off = do s ← get_slice b off 2; ok (from_be 0 s)

unfoldable pub get_u32 : Bytes → ℕ → Out ℕ
unfolding get_slice
get_u32 b off = do s ← get_slice b off 4; ok (from_be 0 s)

unfoldable pub get_u64 : Bytes → ℕ → Out ℕ
unfolding get_slice
get_u64 b off = do s ← get_slice b off 8; ok (from_be 0 s)

unfoldable pub get_i64 : Bytes → ℕ → Out ℕ
unfolding get_slice
get_i64 b off = do s ← get_slice b off 8; ok (from_be 0 s)

-- `a == b` on byte slices
unfoldable pub bytes_eq : Bytes → Bytes → Bool
bytes_eq [] [] = true
bytes_eq [] (y ∷ b) = false
bytes_eq (x ∷ a) [] = false
bytes_eq (x ∷ a) (y ∷ b) = x == y && bytes_eq a b
