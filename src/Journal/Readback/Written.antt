-- ===== src/Journal/Readback/Written.antt =====
-- Writing a transaction to the journal, then reading it back.
use fs.Prelude.{
  ℕ, zero, suc, ◌+◌, ◌*◌, ◌≤◌, ◌<◌, ◌≡◌, ◌==◌, inl, refl, sym, ap, subst, ◌∙◌, some, none, List, [],
  ◌∷◌, ok, length, if◌then◌else◌, arith,
}
use fs.Fmt.Bytes.{Bytes}
use fs.Fmt.Checksum.{Crc32c}
use fs.Device
use fs.Device.{pread}
use fs.Fs.{Gofs}
use fs.Fs.Read.{resolve}
use fs.Fs.Write.{sync}
use fs.Journal.Encode.{max_targets}
use fs.Journal.Commit.{journal_phys, write_txn, targets_of, contents_of}
use fs.Journal.Replay.{read_journal, read_data, try_read_txn}
use fs.Journal.Store.{
  IsReady, AllSized, Wrote, put, write_journal-put, read_journal-put_self, Wrote-put, Wrote-trans,
  Wrote-widen, read_data-keeps, write_data-read,
}
use fs.Journal.Readback.{
  Fits, desc_of, commit_of, length-desc_of, length-commit_of, desc_block-eq, commit_block-eq,
  try_read_txn-held,
}

length-targets_of : (blocks : List (ℕ × Bytes)) → length (targets_of blocks) ≡ length blocks
length-targets_of [] = refl
length-targets_of (b ∷ blocks) = ap suc (length-targets_of blocks)

length-contents_of : (blocks : List (ℕ × Bytes)) → length (contents_of blocks) ≡ length blocks
length-contents_of [] = refl
length-contents_of (b ∷ blocks) = ap suc (length-contents_of blocks)

-- A sync changes no block.
synced : Gofs → Gofs
synced g = (sync g).1

read_journal-synced : (g : Gofs) (i : ℕ) → read_journal (synced g) i ≡ read_journal g i
unfolding synced sync Device.sync read_journal journal_phys resolve pread
read_journal-synced g i = refl

read_data-synced : (g : Gofs) (i n : ℕ) → read_data (synced g) i n ≡ read_data g i n
unfolding read_data
read_data-synced g i zero = refl
read_data-synced g i (suc n) = rw (read_journal-synced g i, read_data-synced g (suc i) n) refl

synced-sb : (g : Gofs) → (synced g).sb ≡ g.sb
unfolding synced sync
synced-sb g = refl

module _ ⦃crc : Crc32c⦄ where
  module _ (phys : ℕ → ℕ) (g : Gofs) (pos seq : ℕ) (blocks : List (ℕ × Bytes)) where
    desc_room :
        IsReady phys g
        → Fits g.sb pos seq (targets_of blocks)
        → 24 + length (targets_of blocks) * 8 ≤ g.sb.blocksize
    unfolding max_targets
    desc_room ready fits = omega (arith, fits.in_desc, fits.some_target)

    -- The file system behind the last write, and what the journal holds there.
    write_txn-held :
        IsReady phys g
        → Fits g.sb pos seq (targets_of blocks)
        → AllSized g.sb.blocksize (contents_of blocks)
        → (g' : Gofs) × (write_txn pos seq blocks g ≡ (ok tt, synced g'))
          × Wrote phys g pos (pos + length blocks + 2) g'
          × (read_journal g' pos ≡ ok (desc_of g.sb.blocksize seq (targets_of blocks)))
          × (read_data g' (pos + 1) (length (contents_of blocks)) ≡ ok (contents_of blocks))
          × (read_journal g' (pos + length blocks + 1)
              ≡ ok (commit_of g.sb.blocksize seq (targets_of blocks) (contents_of blocks)))
    unfolding write_txn synced sync Device.sync
    write_txn-held ready fits sized =
        let bs : ℕ = g.sb.blocksize in
        let targets = targets_of blocks in
        let contents = contents_of blocks in
        let same_n : length targets ≡ length blocks = length-targets_of blocks in
        let same_c : length contents ≡ length blocks = length-contents_of blocks in
        let desc : Bytes = desc_of bs seq targets in
        let commit : Bytes = commit_of bs seq targets contents in
        let n : ℕ = length blocks in
        let room : 24 + length targets * 8 ≤ bs = desc_room ready fits in
        let g₁ = put g (phys pos) desc in
        let first : Wrote phys g pos (suc pos) g₁ =
          Wrote-put phys g pos desc ready (omega arith) (length-desc_of bs seq targets room) in
        let same₁ : g₁.sb ≡ g.sb = first.same_sb in
        let (g₂, run, rest, held) =
          write_data-read phys g₁ (pos + 1) contents first.ready
            (rw (ap (λ s. s.journal_length) same₁) (omega arith))
            (subst (λ s. AllSized s.blocksize contents) (sym same₁) sized) in
        let same₂ : g₂.sb ≡ g.sb = rest.same_sb ∙ same₁ in
        let at : ℕ = pos + 1 + n in
        let at_in : at < g₂.sb.journal_length =
          rw (ap (λ s. s.journal_length) same₂) (omega arith) in
        let size : length commit ≡ g₂.sb.blocksize =
          length-commit_of bs seq targets contents (omega arith)
          ∙ sym (ap (λ s. s.blocksize) same₂) in
        let g₃ = put g₂ (phys at) commit in
        let last : Wrote phys g₂ at (suc at) g₃ =
          Wrote-put phys g₂ at commit rest.ready at_in size in
        (
          g₃,
          rw
              (
                desc_block-eq bs seq targets room,
                write_journal-put phys g ready pos desc (omega arith),
                run,
                commit_block-eq bs seq targets contents (omega arith),
                write_journal-put phys g₂ rest.ready at commit at_in,
              )
              refl,
          Wrote-trans phys g g₁ g₃ pos (pos + 1) (pos + n + 2) (omega arith) (omega arith)
              (Wrote-widen phys g g₁ pos (suc pos) first pos (pos + 1) (omega arith) (omega arith))
              (Wrote-trans phys g₁ g₂ g₃ (pos + 1) at (pos + n + 2) (omega arith) (omega arith)
                (Wrote-widen phys g₁ g₂ (pos + 1) (pos + 1 + length contents) rest (pos + 1) at
                  (omega arith) (omega arith))
                (Wrote-widen phys g₂ g₃ at (suc at) last at (pos + n + 2) (omega arith)
                  (omega arith))),
          last.keeps pos desc (rw (ap (λ s. s.journal_length) same₂) (omega arith))
              (inl (omega arith))
              (rest.keeps pos desc (rw (ap (λ s. s.journal_length) same₁) (omega arith))
                (inl (omega arith))
                (read_journal-put_self phys g ready pos desc (omega arith)
                  (length-desc_of bs seq targets room))),
          read_data-keeps phys g₂ g₃ at (suc at) last (pos + 1) contents (omega arith)
              (rw (ap (λ s. s.journal_length) same₂) (omega arith)) held,
          subst (λ i. read_journal g₃ i ≡ ok commit) (let e : at ≡ pos + n + 1 = omega arith in e)
              (read_journal-put_self phys g₂ rest.ready at commit at_in size),
        )

  -- On a writable file system whose journal blocks resolve to places apart on the device, writing a
  -- transaction of one target or more to the journal succeeds where it fits there and in a descriptor,
  -- its numbers fit 64 bits and its contents are blocks; afterwards the journal gives back its targets
  -- and contents when asked at its position for its sequence number, and nothing when asked there for
  -- any other.
  pub try_read_txn-write_txn :
      (phys : ℕ → ℕ) (g : Gofs) (pos seq s : ℕ) (blocks : List (ℕ × Bytes))
      → IsReady phys g
      → Fits g.sb pos seq (targets_of blocks)
      → AllSized g.sb.blocksize (contents_of blocks)
      → ((write_txn pos seq blocks g).0 ≡ ok tt)
        × (try_read_txn (write_txn pos seq blocks g).1 pos s
            ≡ ok (if seq == s then some (targets_of blocks, contents_of blocks) else none))
  try_read_txn-write_txn phys g pos seq s blocks ready fits sized =
      let (g', run, wrote, held_desc, held_data, held_commit) =
        write_txn-held phys g pos seq blocks ready fits sized in
      let targets = targets_of blocks in
      let contents = contents_of blocks in
      let same : (synced g').sb ≡ g.sb = synced-sb g' ∙ wrote.same_sb in
      let bs : (synced g').sb.blocksize ≡ g.sb.blocksize = ap (λ s. s.blocksize) same in
      let n : length (targets_of blocks) ≡ length blocks = length-targets_of blocks in
      let n' : length (contents_of blocks) ≡ length (targets_of blocks) =
        length-contents_of blocks ∙ sym n in
      (
        ap (λ r. r.0) run,
        rw run (
            try_read_txn-held (synced g') pos seq targets
              (subst (λ sb. Fits sb pos seq targets) (sym same) fits) contents s
              (read_journal-synced g' pos
                ∙ held_desc
                ∙ ap (λ b. ok (desc_of b seq targets)) (sym bs))
              (subst (λ k. read_data (synced g') (pos + 1) k ≡ ok contents) n'
                (read_data-synced g' (pos + 1) (length contents) ∙ held_data))
              (read_journal-synced g' (pos + length targets + 1)
                ∙ ap (λ k. read_journal g' (pos + k + 1)) n
                ∙ held_commit
                ∙ ap (λ b. ok (commit_of b seq targets contents)) (sym bs))),
      )
