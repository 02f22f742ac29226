-- ===== src/Journal/Replay.antt =====
-- src/journal.rs, `try_read_txn`, `replay` and `journal_pending`. The loops take fuel; out of fuel they
-- stop with an error of the model's own, which the code does not have.
use fs.Prelude.{
  ℕ, zero, suc, ◌+◌, ◌*◌, ◌%◌, ◌^◌, Bool, ◌&&◌, ◌||◌, Option, none, some, List, [], ◌∷◌, Out, ok,
  err, ◌==◌, ltb, if◌then◌else◌, length, no_fuel, ◌>>=◌,
}
use fs.Fmt.Bytes.{Bytes, get_slice, get_u32, get_u64, bytes_eq}
use fs.Fmt.Checksum.{Crc32c, csum}
use fs.Device.{pread}
use fs.Fs.{Gofs}
use fs.Journal.Encode.{jhdr, jdesc_magic, jcommit_magic, max_targets, csum_over}
use fs.Journal.Commit.{journal_phys, head_after}

-- A transaction as it is read: its targets, and as many blocks.
abbrev pub Logged : Type 0
Logged = List ℕ × List Bytes

unfoldable pub read_journal : Gofs → ℕ → Out Bytes
read_journal g idx = do off ← journal_phys g idx; pread g.dev g.sb.blocksize off

unfoldable pub read_targets : Bytes → ℕ → ℕ → Out (List ℕ)
read_targets desc i zero = ok []
read_targets desc i (suc n) = do
  t ← get_u64 desc (jhdr + i * 8)
  rest ← read_targets desc (suc i) n
  ok (t ∷ rest)

unfoldable pub read_data : Gofs → ℕ → ℕ → Out (List Bytes)
read_data g idx zero = ok []
read_data g idx (suc n) = do
  block ← read_journal g idx
  rest ← read_data g (suc idx) n
  ok (block ∷ rest)

module _ ⦃crc : Crc32c⦄ where
  -- The magic, the checksum and the sequence number of a descriptor or commit block.
  unfoldable pub is_valid : Bytes → Bytes → ℕ → Out Bool
  is_valid block magic seq = do
    m ← get_slice block 0 4
    stored ← get_u32 block 4
    computed ← csum block 4
    s ← get_u64 block 8
    ok (bytes_eq m magic && stored == computed && s == seq)

  -- The data behind a valid descriptor and commit block, checked against the commit's checksum.
  unfoldable pub read_body : Gofs → ℕ → Bytes → Bytes → ℕ → Out (Option Logged)
  read_body g pos desc commit count = do
    targets ← read_targets desc 0 count
    blocks ← read_data g (pos + 1) count
    sum ← get_u32 commit 16
    ok (if csum_over (crc.crc32c desc) blocks == sum then some (targets, blocks) else none)

  unfoldable pub read_committed : Gofs → ℕ → ℕ → Bytes → ℕ → Out (Option Logged)
  read_committed g pos seq desc count = do
    commit ← read_journal g (pos + count + 1)
    good ← is_valid commit jcommit_magic seq
    if good then read_body g pos desc commit count else ok none

  unfoldable pub read_described : Gofs → ℕ → ℕ → Bytes → Out (Option Logged)
  read_described g pos seq desc = do
    count ← get_u32 desc 16
    if count == 0
          || ltb (max_targets g.sb.blocksize) count
          || ltb g.sb.journal_length ((pos + count + 2) % 2 ^ 64)
        then ok none
        else read_committed g pos seq desc count

  unfoldable pub try_read_txn : Gofs → ℕ → ℕ → Out (Option Logged)
  try_read_txn g pos seq = if ltb g.sb.journal_length ((pos + 2) % 2 ^ 64) then ok none else do
    desc ← read_journal g pos
    good ← is_valid desc jdesc_magic seq
    if good then read_described g pos seq desc else ok none

  abbrev pub placed : ℕ → Option Logged → Option (ℕ × Logged)
  placed pos none = none
  placed pos (some l) = some (pos, l)

  -- Nothing at the head: the writer may have wrapped without recording it.
  unfoldable pub or_wrapped : Gofs → ℕ → ℕ → Option Logged → Out (Option (ℕ × Logged))
  or_wrapped g head seq (some l) = ok (some (head, l))
  or_wrapped g head seq none =
      if head == 0 then ok none else do found ← try_read_txn g 0 seq; ok (placed 0 found)

  -- The next transaction, and the position where it was found.
  unfoldable pub next_txn : Gofs → ℕ → ℕ → Out (Option (ℕ × Logged))
  unfolding or_wrapped
  next_txn g head seq = do found ← try_read_txn g head seq; or_wrapped g head seq found

  -- The loop of `journal_pending`.
  unfoldable pub pending_from : ℕ → Gofs → ℕ → ℕ → Out ℕ
  unfolding next_txn
  pending_from zero g head seq = err no_fuel
  pending_from (suc fuel) g head seq = do
    found ← next_txn g head seq
    elim found [
      | none ↦ ok 0
      | some (pos, logged) ↦ do
        n ←
            pending_from fuel g (head_after pos (length logged.0 + 2) g.sb.journal_length)
              ((seq + 1) % 2 ^ 64)
        ok ((n + 1) % 2 ^ 32)
    ]

  unfoldable pub journal_pending : ℕ → Gofs → Out ℕ
  unfolding pending_from
  journal_pending fuel g = pending_from fuel g g.sb.journal_head g.sb.journal_seq
