-- ===== src/Journal/Readback.antt =====
-- A transaction that was written to the journal is read back from it.
pub mod Written
use fs.Prelude.{
  ℕ, ◌%◌, ◌+◌, ◌-◌, ◌*◌, ◌^◌, ◌≤◌, ◌<◌, ◌≡◌, ◌==◌, inl, inr, refl, subst, some, none, List, [], ◌∷◌,
  ◌++◌, ok, step, length, if◌then◌else◌, arith, le→ltb, ==-refl, ==_false, ==_iff, Bool-cases, ◌/◌,
  replicate, length-append, length-replicate,
}
use fs.Prelude.Exec
use fs.Fmt.Bytes.{Bytes}
use fs.Fmt.Checksum.{Crc32c}
use fs.Fmt.Superblock.{Superblock}
use fs.Fs.{Gofs}
use fs.Journal.Encode.{max_targets, desc_block, commit_block, csum_over}
use fs.Journal.Encode.Layout.{
  targets_bytes, length-targets_bytes, read_targets-block, AllU64, block, is_valid-block,
  word-block, length-block, block_eq-desc, block_eq-commit,
}
use fs.Journal.Replay.{
  read_journal, read_targets, read_data, read_body, read_committed, read_described, try_read_txn,
}

-- What makes a transaction fit the journal, and its addresses the 64 bits of a target.
pub record Fits (sb : Superblock) (pos seq : ℕ) (targets : List ℕ) : Type 0 where
  pub some_target : 1 ≤ length targets
  pub in_desc : length targets ≤ max_targets sb.blocksize
  pub in_journal : pos + length targets + 2 ≤ sb.journal_length
  pub seq_u64 : seq < 2 ^ 64
  pub targets_u64 : AllU64 targets
  pub bs_u32 : sb.blocksize < 2 ^ 32

module _ ⦃crc : Crc32c⦄ where
  csum_over-lt : (tc : ℕ) (blocks : List Bytes) → tc < 2 ^ 32 → csum_over tc blocks < 2 ^ 32
  unfolding csum_over
  csum_over-lt tc [] h = h
  csum_over-lt tc (content ∷ blocks) h =
      csum_over-lt (crc.crc32c_append tc content) blocks (crc.crc32c_append-lt tc content)

  -- The descriptor and the commit block of a transaction, as they are written.
  module _ (bs seq : ℕ) (targets : List ℕ) where
    unfoldable pub desc_of : Bytes
    desc_of =
        block b'5' b'F' b'S' b'J' seq (length targets)
          (0 ∷ 0 ∷ 0 ∷ 0 ∷ (targets_bytes targets ++ replicate (bs - 24 - length targets * 8) 0))

    unfoldable pub commit_of : List Bytes → Bytes
    unfolding desc_of
    commit_of blocks =
        block b'5' b'F' b'S' b'C' seq (csum_over (crc.crc32c desc_of) blocks)
          (replicate (bs - 20) 0)

    pub length-desc_of : 24 + length targets * 8 ≤ bs → length desc_of ≡ bs
    unfolding desc_of
    length-desc_of fits =
        let z : ℕ = bs - 24 - length targets * 8 in
        omega (
          arith,
          length-block b'5' b'F' b'S' b'J' seq (length targets)
              (0 ∷ 0 ∷ 0 ∷ 0 ∷ (targets_bytes targets ++ replicate z 0)),
          length-append (targets_bytes targets) (replicate z 0),
          length-targets_bytes targets,
          length-replicate {A = ℕ} z 0,
        )

    pub length-commit_of : (blocks : List Bytes) → 20 ≤ bs → length (commit_of blocks) ≡ bs
    unfolding commit_of
    length-commit_of blocks fits = omega (
      arith,
      length-block b'5' b'F' b'S' b'C' seq (csum_over (crc.crc32c desc_of) blocks)
          (replicate (bs - 20) 0),
      length-replicate {A = ℕ} (bs - 20) 0,
    )

    pub desc_block-eq : 24 + length targets * 8 ≤ bs → desc_block bs seq targets ≡ ok desc_of
    unfolding desc_of
    desc_block-eq fits = block_eq-desc bs seq targets fits

    pub commit_block-eq :
        (blocks : List Bytes)
        → 20 ≤ bs
        → commit_block bs seq (csum_over (crc.crc32c desc_of) blocks) ≡ ok (commit_of blocks)
    unfolding commit_of
    commit_block-eq blocks fits =
        block_eq-commit bs seq (csum_over (crc.crc32c desc_of) blocks) fits

    read_targets-desc_of : AllU64 targets → read_targets desc_of 0 (length targets) ≡ ok targets
    unfolding desc_of
    read_targets-desc_of all =
        read_targets-block b'5' b'F' b'S' b'J' seq (length targets) targets
          (replicate (bs - 24 - length targets * 8) 0) all

  module _ (g : Gofs) (pos seq : ℕ) (targets : List ℕ) (fits : Fits g.sb pos seq targets)
      (blocks : List Bytes) where
    n : ℕ
    n = length targets

    desc : Bytes
    desc = desc_of g.sb.blocksize seq targets

    commit : Bytes
    commit = commit_of g.sb.blocksize seq targets blocks

    read_body-held :
        read_data g (pos + 1) n ≡ ok blocks
        → read_body g pos desc commit n ≡ ok (some (targets, blocks))
    unfolding read_body commit_of n desc commit
    read_body-held hb =
        let sum : ℕ = csum_over (crc.crc32c (desc_of g.sb.blocksize seq targets)) blocks in
        step _ (read_targets-desc_of g.sb.blocksize seq targets fits.targets_u64) (
          step _ hb (
            step _
              (word-block b'5' b'F' b'S' b'C' seq sum (replicate (g.sb.blocksize - 20) 0)
                (csum_over-lt _ blocks (crc.crc32c-lt desc)))
              (rw (==-refl sum) refl)))

    read_described-held :
        read_data g (pos + 1) n ≡ ok blocks
        → read_journal g (pos + n + 1) ≡ ok commit
        → read_described g pos seq desc ≡ ok (some (targets, blocks))
    unfolding read_described read_committed desc_of commit_of n desc commit max_targets
    read_described-held hb hc =
        step _
          (word-block b'5' b'F' b'S' b'J' seq (length targets) _
            (omega (arith, fits.in_desc, fits.bs_u32)))
          (rw
            (
              ==_false (length targets) 0 (λ e. omega (arith, fits.some_target)),
              le→ltb ((g.sb.blocksize - 24) / 8) (length targets) fits.in_desc,
              le→ltb g.sb.journal_length ((pos + length targets + 2) % 2 ^ 64)
                  (omega (arith, fits.in_journal)),
            )
            (step _ hc (
              step _ (is_valid-block b'5' b'F' b'S' b'C' seq _ _ seq fits.seq_u64)
                (rw (==-refl seq) (read_body-held hb)))))

    -- Asked for its own sequence number it is found, asked for any other it is not.
    pub try_read_txn-held :
        (s : ℕ)
        → read_journal g pos ≡ ok (desc_of g.sb.blocksize seq targets)
        → read_data g (pos + 1) (length targets) ≡ ok blocks
        → read_journal g (pos + length targets + 1)
          ≡ ok (commit_of g.sb.blocksize seq targets blocks)
        → try_read_txn g pos s ≡ ok (if seq == s then some (targets, blocks) else none)
    unfolding try_read_txn desc_of n desc commit
    try_read_txn-held s hd hb hc =
        rw (le→ltb g.sb.journal_length ((pos + 2) % 2 ^ 64) (omega (arith, fits.in_journal))) (
          step _ hd (
            step _ (is_valid-block b'5' b'F' b'S' b'J' seq (length targets) _ s fits.seq_u64)
              (elim (Bool-cases (seq == s)) [
                | inl e ↦ rw e (
                    subst (λ t. read_described g pos t desc ≡ ok (some (targets, blocks)))
                      ((==_iff seq s).0 e) (read_described-held hb hc))
                | inr e ↦ rw e refl
              ])))
