-- ===== src/Fs/Write.antt =====
-- src/fs.rs: writing blocks, the superblock with its backup, and both copies of the AG map.
use fs.Prelude.{ℕ, ◌+◌, ◌%◌, ◌^◌, Option, none, some, ok}
use fs.Prelude.Exec.{Exec, pure, reads, modify, ◌>>=◌, ◌>>◌}
use fs.Fmt.Bytes.{Bytes}
use fs.Fmt.Checksum.{Crc32c}
use fs.Fmt.AgMap
use fs.Fmt.AgMap.{AgSegment, AgMap}
use fs.Fmt.Superblock
use fs.Fmt.Superblock.{Superblock}
use fs.Device
use fs.Device.{Device, pwrite}
use fs.Fs.{Gofs}
use fs.Fs.Read.{resolve, first_segment, backup_offset}

-- An operation of the device, on the device of the file system.
abbrev pub on_dev {ℓ} : {A : Type ℓ} → Exec Device A → Exec Gofs A
on_dev m g = ((m g.dev).0, record g { dev = (m g.dev).1 })

unfoldable pub sync : Exec Gofs (Unit {0})
sync = on_dev Device.sync

unfoldable pub write_block : ℕ → Bytes → Exec Gofs (Unit {0})
write_block blk content = do off ← reads (λ g. resolve g blk); on_dev (pwrite content off)

unfoldable pub write_backup : Bytes → Option AgSegment → Exec Gofs (Unit {0})
write_backup bytes none = pure tt
write_backup bytes (some s) = do
  bs ← reads (λ g. ok g.sb.blocksize)
  on_dev (pwrite bytes (backup_offset s bs))

module _ ⦃crc : Crc32c⦄ where
  unfoldable pub write_superblock : Exec Gofs (Unit {0})
  unfolding write_backup
  write_superblock = do
    modify (λ g. record g { sb = record g.sb { gen = (g.sb.gen + 1) % 2 ^ 64 } })
    bytes ← reads (λ g. Superblock.to_bytes g.sb)
    on_dev (pwrite bytes 0)
    first ← reads (λ g. ok (first_segment g.map.entries))
    write_backup bytes first

  unfoldable pub write_agmap : Exec Gofs (Unit {0})
  write_agmap = do
    modify (λ g. record g { map = record g.map { gen = (g.map.gen + 1) % 2 ^ 64 } })
    sb ← reads (λ g. ok g.sb)
    bytes ← reads (λ g. AgMap.to_bytes g.map sb.agmap_length)
    on_dev (pwrite bytes sb.agmap_offset)
    on_dev (pwrite bytes ((sb.agmap_offset + sb.agmap_length) % 2 ^ 64))
