-- ===== src/Journal/Commit.antt =====
-- src/journal.rs, `commit`: a transaction is written to the journal and synced, then applied in place
-- and synced, then the superblock's head and sequence number advance.
use fs.Prelude.{
  ℕ, suc, ◌+◌, ◌%◌, ◌^◌, List, [], ◌∷◌, Out, ok, err, map, ltb, leb, if◌then◌else◌, length, ensure,
  journal_index, transaction_too_large, larger_than_journal,
}
use fs.Prelude.Exec.{Exec, pure, reads, lift, modify, ◌>>=◌, ◌>>◌}
use fs.Fmt.Bytes.{Bytes}
use fs.Fmt.Checksum.{Crc32c}
use fs.Device.{pwrite}
use fs.Fs.{Gofs}
use fs.Fs.Read.{resolve}
use fs.Fs.Write.{on_dev, sync, write_block, write_superblock}
use fs.Journal.Txn.{Txn, is_empty}
use fs.Journal.Encode.{desc_block, commit_block, csum_over, max_targets}

-- The index is a `u64`: the sums that its callers make of one wrap here.
unfoldable pub journal_phys : Gofs → ℕ → Out ℕ
journal_phys g idx =
    let idx = idx % 2 ^ 64 in
    if leb g.sb.journal_length idx then err journal_index else resolve g (g.sb.journal_start + idx)

-- `self.dev.pwrite(content, self.journal_phys(idx)?)?`
unfoldable pub write_journal : ℕ → Bytes → Exec Gofs (Unit {0})
unfolding journal_phys
write_journal idx content = do off ← reads (λ g. journal_phys g idx); on_dev (pwrite content off)

unfoldable pub write_data : ℕ → List Bytes → Exec Gofs (Unit {0})
write_data idx [] = pure tt
write_data idx (content ∷ blocks) = do write_journal idx content; write_data (suc idx) blocks

unfoldable pub apply_blocks : List (ℕ × Bytes) → Exec Gofs (Unit {0})
apply_blocks [] = pure tt
apply_blocks ((blk, content) ∷ blocks) = do write_block blk content; apply_blocks blocks

abbrev pub targets_of : List (ℕ × Bytes) → List ℕ
targets_of blocks = map (λ b. b.0) blocks

abbrev pub contents_of : List (ℕ × Bytes) → List Bytes
contents_of blocks = map (λ b. b.1) blocks

-- Where a transaction of `needed` blocks starts: it never wraps across the end of the journal.
unfoldable pub start_at : ℕ → ℕ → ℕ → ℕ
start_at head needed length = if ltb length ((head + needed) % 2 ^ 64) then 0 else head

-- The head behind a transaction, 0 at the end of the journal.
unfoldable pub head_after : ℕ → ℕ → ℕ → ℕ
head_after head needed length =
    let next = (head + needed) % 2 ^ 64 in if leb length next then 0 else next

module _ ⦃crc : Crc32c⦄ where
  -- The descriptor, the data and the commit block, then a sync.
  unfoldable pub write_txn : ℕ → ℕ → List (ℕ × Bytes) → Exec Gofs (Unit {0})
  write_txn head seq blocks = do
    bs ← reads (λ g. ok g.sb.blocksize)
    desc ← lift (desc_block bs seq (targets_of blocks))
    write_journal head desc
    write_data (head + 1) (contents_of blocks)
    commit ← lift (commit_block bs seq (csum_over (crc.crc32c desc) (contents_of blocks)))
    write_journal (head + 1 + length blocks) commit
    sync

  unfoldable pub checkpoint : ℕ → ℕ → Exec Gofs (Unit {0})
  checkpoint head seq = do
    modify (λ g. record g { sb = record g.sb { journal_head = head; journal_seq = seq } })
    write_superblock

  unfoldable pub commit : Txn → Exec Gofs (Unit {0})
  commit t = if is_empty t then pure tt else do
    g ← reads ok
    let n = length t.blocks
    lift (ensure (leb n (max_targets g.sb.blocksize)) transaction_too_large)
    lift (ensure (leb (n + 2) g.sb.journal_length) larger_than_journal)
    let head = start_at g.sb.journal_head (n + 2) g.sb.journal_length
    write_txn head g.sb.journal_seq t.blocks
    apply_blocks t.blocks
    sync
    checkpoint (head_after head (n + 2) g.sb.journal_length) ((g.sb.journal_seq + 1) % 2 ^ 64)
