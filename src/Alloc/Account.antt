-- ===== src/Alloc/Account.antt =====
-- The counters of free and allocated blocks, in the header of the AG and in the superblock.
use fs.Prelude.{ℕ, ◌+◌, ◌-◌, ◌%◌, ◌^◌, ◌≤◌, ◌<◌, ◌≡◌, refl, arith}
use fs.Alloc.Table.{AllocState}
use fs.Alloc.Counters.{account_alloc, account_free}

-- Both pairs of counters fit their integers, and the allocated blocks are among the free ones.
pub record IsAccounted (blocks : ℕ) (s : AllocState) : Type 0 where
  pub hdr_free : s.hdr.free_blocks < 2 ^ 32
  pub hdr_full : s.hdr.full_blocks + blocks < 2 ^ 32
  pub sb_free : s.fs.sb.free_blocks < 2 ^ 64
  pub sb_full : s.fs.sb.full_blocks + blocks < 2 ^ 64
  pub hdr_enough : blocks ≤ s.hdr.free_blocks
  pub sb_enough : blocks ≤ s.fs.sb.free_blocks

-- Where the blocks were free and the counters fit their integers, accounting an allocation keeps the sum of free and allocated blocks of the
-- AG and of the file system, and accounting the blocks as freed again restores every counter.
pub account_free-account_alloc :
    (blocks : ℕ) (s : AllocState)
    → IsAccounted blocks s
    → (account_free blocks (account_alloc blocks s) ≡ s)
      × ((account_alloc blocks s).hdr.free_blocks + (account_alloc blocks s).hdr.full_blocks
          ≡ s.hdr.free_blocks + s.hdr.full_blocks)
      × ((account_alloc blocks s).fs.sb.free_blocks + (account_alloc blocks s).fs.sb.full_blocks
          ≡ s.fs.sb.free_blocks + s.fs.sb.full_blocks)
unfolding account_free account_alloc
account_free-account_alloc blocks s h =
    let a : ((s.hdr.free_blocks + 2 ^ 32 - blocks) % 2 ^ 32 + blocks) % 2 ^ 32 ≡ s.hdr.free_blocks =
      omega (arith, h.hdr_free, h.hdr_enough) in
    let b : ((s.hdr.full_blocks + blocks) % 2 ^ 32 + 2 ^ 32 - blocks) % 2 ^ 32 ≡ s.hdr.full_blocks =
      omega (arith, h.hdr_full) in
    let c : ((s.fs.sb.free_blocks + 2 ^ 64 - blocks) % 2 ^ 64 + blocks) % 2 ^ 64
        ≡ s.fs.sb.free_blocks =
      omega (arith, h.sb_free, h.sb_enough) in
    let d : ((s.fs.sb.full_blocks + blocks) % 2 ^ 64 + 2 ^ 64 - blocks) % 2 ^ 64
        ≡ s.fs.sb.full_blocks =
      omega (arith, h.sb_full) in
    (
      rw (a, b, c, d) refl,
      omega (arith, h.hdr_free, h.hdr_full, h.hdr_enough),
      omega (arith, h.sb_free, h.sb_full, h.sb_enough),
    )
