-- ===== src/Device.antt =====
-- src/device.rs: a file-backed block device, with the recorder that tags each write with its sync
-- epoch. The file is the operating system's: a length and the byte at each offset. A read past the
-- end and a write without permission fail, except of no bytes; a write past the end extends the file. Faults of the
-- hardware are not modelled, nor offsets from 2^63 on, which the operating system refuses, nor `open`, which asks it
-- for the file.
pub mod Laws
use fs.Prelude.{
  ℕ, zero, suc, ◌+◌, ◌-◌, Bool, ◌&&◌, ◌||◌, ◌==◌, Option, none, some, List, [], ◌∷◌, ◌++◌, Out, ok,
  err, ltb, leb, if◌then◌else◌, length, get_or, max, io_read, io_write,
}
use fs.Prelude.Exec.{Exec}
use fs.Fmt.Bytes.{Bytes}

pub record File : Type 0 where
  pub len : ℕ
  pub byte : ℕ → ℕ

pub record Write : Type 0 where
  pub epoch : ℕ
  pub offset : ℕ
  pub content : Bytes

pub record Device : Type 0 where
  pub file : File
  pub size : ℕ
  pub writable : Bool
  pub nosync : Bool
  pub recorder : Option (ℕ × List Write)

-- The bytes of `byte` from `offset` on.
unfoldable pub bytes_at : (ℕ → ℕ) → ℕ → ℕ → Bytes
bytes_at byte offset zero = []
bytes_at byte offset (suc n) = byte offset ∷ bytes_at byte (suc offset) n

-- The bytes after a write of `buf` at `offset`.
unfoldable pub patch : (ℕ → ℕ) → ℕ → Bytes → ℕ → ℕ
patch byte offset buf i =
    if leb offset i && ltb i (offset + length buf) then get_or buf (i - offset) 0 else byte i

unfoldable pub pread : Device → ℕ → ℕ → Out Bytes
unfolding bytes_at
pread d n offset =
    if n == 0 || leb (offset + n) d.file.len
    then ok (bytes_at d.file.byte offset n)
    else err io_read

unfoldable pub record_write : Option (ℕ × List Write) → Bytes → ℕ → Option (ℕ × List Write)
record_write none buf offset = none
record_write (some (epoch, log)) buf offset =
    some (epoch, log ++ record { epoch = epoch; offset = offset; content = buf } ∷ [])

unfoldable pub write_all_at : File → Bytes → ℕ → File
unfolding patch
write_all_at f buf offset = record {
  len = max f.len (offset + length buf);
  byte = patch f.byte offset buf;
}

-- The write is recorded before it is tried, and of no bytes it is not tried at all.
unfoldable pub pwrite : Bytes → ℕ → Exec Device (Unit {0})
unfolding record_write write_all_at
pwrite buf offset d =
    let noted = record d { recorder = record_write d.recorder buf offset } in
    if length buf == 0
    then (ok tt, noted)
    else if d.writable
    then (ok tt, record noted { file = write_all_at d.file buf offset })
    else (err io_write, noted)

unfoldable pub next_epoch : Option (ℕ × List Write) → Option (ℕ × List Write)
next_epoch none = none
next_epoch (some (epoch, log)) = some (epoch + 1, log)

-- A sync orders writes: it starts an epoch. With `nosync` the file is not flushed.
unfoldable pub sync : Exec Device (Unit {0})
unfolding next_epoch
sync d = (ok tt, record d { recorder = next_epoch d.recorder })

-- Growing appends zeros, shrinking drops the tail.
unfoldable pub set_len : ℕ → Exec Device (Unit {0})
set_len size d =
    if d.writable
    then (
      ok tt,
      record d {
        file = record {
          len = size;
          byte = λ i. if ltb i d.file.len && ltb i size then d.file.byte i else 0;
        };
        size = size;
      },
    )
    else (err io_write, d)

unfoldable pub set_nosync : Bool → Device → Device
set_nosync v d = record d { nosync = v }

unfoldable pub record_start : Device → Device
record_start d = record d { recorder = some (0, []) }

unfoldable pub taken : Option (ℕ × List Write) → List Write
taken none = []
taken (some (epoch, log)) = log

unfoldable pub record_take : Device → List Write × Device
unfolding taken
record_take d = (taken d.recorder, record d { recorder = none })
