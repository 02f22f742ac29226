-- ===== src/Journal/Recover.antt =====
-- src/journal.rs, `replay`: committed transactions are applied again, in order of their sequence
-- numbers, and the superblock then advances past them. `recover` is what `Gofs::open` of src/fs.rs does on a writable
-- device.
use fs.Prelude.{
  ℕ, zero, suc, ◌+◌, ◌%◌, ◌^◌, Bool, none, some, List, [], ◌∷◌, ok, err, ◌==◌, if◌then◌else◌,
  length, no_fuel,
}
use fs.Prelude.Exec.{Exec, pure, reads, lift, ◌>>=◌, ◌>>◌}
use fs.Fmt.Bytes.{Bytes}
use fs.Fmt.Checksum.{Crc32c}
use fs.Fs.{Gofs}
use fs.Fs.Read.{backup_superblock_ok}
use fs.Fs.Write.{sync, write_block, write_superblock}
use fs.Journal.Commit.{head_after, checkpoint}
use fs.Journal.Replay.{next_txn}

-- `for (blk, data) in targets.iter().zip(blocks.iter())`
unfoldable pub rewrite : List ℕ → List Bytes → Exec Gofs (Unit {0})
rewrite [] blocks = pure tt
rewrite (blk ∷ targets) [] = pure tt
rewrite (blk ∷ targets) (content ∷ blocks) = do write_block blk content; rewrite targets blocks

module _ ⦃crc : Crc32c⦄ where
  -- The loop: the head, the sequence number and the count that it ends with.
  unfoldable pub replay_from : ℕ → ℕ → ℕ → ℕ → Exec Gofs (ℕ × ℕ × ℕ)
  replay_from zero head seq applied = lift (err no_fuel)
  replay_from (suc fuel) head seq applied = do
    found ← reads (λ g. next_txn g head seq)
    elim found [
      | none ↦ pure (head, seq, applied)
      | some (pos, logged) ↦ do
        rewrite logged.0 logged.1
        len ← reads (λ g. ok g.sb.journal_length)
        replay_from fuel (head_after pos (length logged.0 + 2) len) ((seq + 1) % 2 ^ 64)
            ((applied + 1) % 2 ^ 32)
    ]

  unfoldable pub finish : ℕ × ℕ × ℕ → Exec Gofs ℕ
  finish (head, seq, applied) =
      if applied == 0 then pure 0 else do sync; checkpoint head seq; pure applied

  unfoldable pub replay : ℕ → Exec Gofs ℕ
  unfolding replay_from finish
  replay fuel = do
    g ← reads ok
    reached ← replay_from fuel g.sb.journal_head g.sb.journal_seq 0
    finish reached

  -- A writable open heals the superblock's copies, then replays the journal.
  unfoldable pub recover : ℕ → Bool → Exec Gofs (Unit {0})
  unfolding replay
  recover fuel from_backup = do
    good ← reads backup_superblock_ok
    if from_backup then write_superblock else if good then pure tt else write_superblock
    n ← replay fuel
    pure tt
