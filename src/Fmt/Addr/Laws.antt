-- ===== src/Fmt/Addr/Laws.antt =====
-- Addresses and their parts are in one-to-one correspondence.
use fs.Prelude.{ℕ, ◌+◌, ◌*◌, ◌/◌, ◌%◌, ◌^◌, ◌<◌, ◌≡◌, arith}
use fs.Prelude.Bits.{bit_or-shl}
use fs.Fmt.Addr.{blk_addr, blk_split}

pub blk_addr-eq-add : (ag local : ℕ) → local < 2 ^ 32 → blk_addr ag local ≡ ag * 2 ^ 32 + local
unfolding blk_addr
blk_addr-eq-add ag local h = bit_or-shl 32 ag local h

-- An address splits into the AG and local number that it was made of, and the two numbers that any
-- address splits into make that address; so no two blocks share an address.
pub blk_split-blk_addr :
    (ag local addr : ℕ)
    → ag < 2 ^ 32
    → local < 2 ^ 32
    → addr < 2 ^ 64
    → (blk_split (blk_addr ag local) ≡ (ag, local))
      × (blk_addr (blk_split addr).0 (blk_split addr).1 ≡ addr)
unfolding blk_split
blk_split-blk_addr ag local addr ha hl hd = (
  ground (arith, blk_addr-eq-add ag local hl),
  omega (arith, blk_addr-eq-add (addr / 2 ^ 32 % 2 ^ 32) (addr % 2 ^ 32) (omega arith)),
)
