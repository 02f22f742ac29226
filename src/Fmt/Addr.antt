-- ===== src/Fmt/Addr.antt =====
-- src/fmt.rs, block and inode addresses: an AG number above a local number, 32 bits each.
pub mod Laws
use fs.Prelude.{ℕ, ◌*◌, ◌/◌, ◌%◌, ◌^◌, bit_or}

unfoldable pub blk_addr : ℕ → ℕ → ℕ
blk_addr ag local = bit_or (ag * 2 ^ 32) local

unfoldable pub blk_split : ℕ → ℕ × ℕ
blk_split addr = (addr / 2 ^ 32 % 2 ^ 32, addr % 2 ^ 32)

unfoldable pub ino_addr : ℕ → ℕ → ℕ
unfolding blk_addr
ino_addr ag slot = blk_addr ag slot
