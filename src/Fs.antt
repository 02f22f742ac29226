-- ===== src/Fs.antt =====
-- src/fs.rs: the mounted file system. `Read` has what only reads it, `Write` what changes it, `Inodes` whole
-- inodes.
pub mod Read
pub mod Write
pub mod Inodes
use fs.Prelude.{ℕ, Option}
use fs.Fmt.Superblock.{Superblock}
use fs.Fmt.AgMap.{AgMap}
use fs.Device.{Device}

-- The hints of an AG are the arena block and the level-0 cell where its scans start.
pub record Gofs : Type 0 where
  pub dev : Device
  pub sb : Superblock
  pub map : AgMap
  pub hints : ℕ → Option (ℕ × ℕ)
