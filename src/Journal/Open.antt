-- ===== src/Journal/Open.antt =====
-- src/fs.rs, `Gofs::open` behind the opened device.
use fs.Prelude.{ℕ, Bool, none, Out, ok, err, panic, if◌then◌else◌, ◌>>=◌}
use fs.Fmt.Checksum.{Crc32c}
use fs.Device.{Device}
use fs.Fs.{Gofs}
use fs.Fs.Read.{find_superblock, load_agmap}
use fs.Journal.Recover.{recover}

-- What a method that returns nothing leaves.
abbrev pub left_by : Out (Unit {0}) × Gofs → Out Gofs
left_by (ok x, g) = ok g
left_by (err e, g) = err e
left_by (panic, g) = panic

module _ ⦃crc : Crc32c⦄ where
  unfoldable pub open_dev : ℕ → Bool → Device → Out Gofs
  unfolding find_superblock load_agmap recover
  open_dev fuel writable dev = do
    (sb, from_backup) ← find_superblock dev
    map ← load_agmap dev sb
    let g : Gofs = record { dev = dev; sb = sb; map = map; hints = λ ag. none }
    if writable then left_by (recover fuel from_backup g) else ok g
