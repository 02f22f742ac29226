-- ===== src/Dir/Insert/Inserted.antt =====
-- src/dir.rs: an entry that `hashed_insert` puts into a bucket is the one that `dir_find` finds.
use fs.Alloc.Table.{AllocState, header}
use fs.Fs.Read.{read_block}
use fs.Dir.Insert.{insert_loop, hashed_insert}
use fs.Dir.Hash.{SipHash24, hash_name, bucket_index}
use fs.Dir.Find.{dir_entry, bucket_of, dir_find}
use fs.Dir.Stores.{old_gen}
use fs.Journal.Txn.Laws.{get-insert_other}
use fs.Fmt.Dirents.{DirEntry}
use fs.Dir.Stores.Readback.{inline_addr, bucket_read-bucket_write}
use fs.Dir.Bucket.Roundtrip.{IsHEntry, AllHEntries}
use fs.Dir.Insert.Partition.{matches, find_in, find_in_here, find_in_skip}
use fs.Fmt.Bytes.Laws.{bytes_eq_refl}
use fs.Dir.Bucket.{HEntry, entry_size, hentries_size, bucket_fits}
use fs.Dir.Table.{dir_block_addr, dir_block_read, dhdr_read, Header, Bucket, bucket_read}
use fs.Journal.Txn.{Txn, txn_read, txn_write, read_or}
use fs.Fmt.Bytes.{Bytes}
use fs.Fmt.Inode.{Inode, fmt_extent, is_dir}
use fs.Fmt.Checksum.{Crc32c}
use fs.Prelude.{
  ℕ, ◌+◌, ◌≤◌, ◌≡◌, refl, sym, ◌∙◌, ◌≢◌, inl, inr, true, Option, none, some, List, [], ◌∷◌, ◌++◌,
  arith, length, Bool-cases, all, ok, ==-refl, ◌^◌, ◌<◌, ap, get_elem?,
}
use fs.Fs.{Gofs}

none-some : (e : HEntry) → Path (Option HEntry) (some e) none → ⊥
none-some e h = cc

-- An entry behind others that do not match is found.
find_in-append :
    (h : ℕ) (name : List ℕ) (es : List HEntry) (new : HEntry)
    → find_in h name es ≡ none
    → matches h name new ≡ true
    → find_in h name (es ++ new ∷ []) ≡ some new
find_in-append h name [] new missing match = find_in_here h name new [] match
find_in-append h name (e ∷ es) new missing match = elim (Bool-cases (matches h name e)) [
  | inl m ↦ absurd (none-some e (sym (find_in_here h name e es m) ∙ missing))
  | inr m ↦
      find_in_skip h name e (es ++ new ∷ []) m
      ∙ find_in-append h name es new (sym (find_in_skip h name e es m) ∙ missing) match
]

hentries_size-append :
    (es : List HEntry) (new : HEntry)
    → hentries_size (es ++ new ∷ []) ≡ hentries_size es + entry_size (length new.name)
unfolding hentries_size
hentries_size-append [] new = omega arith
hentries_size-append (e ∷ es) new = omega (arith, hentries_size-append es new)

append-AllHEntries :
    (es : List HEntry) (new : HEntry) → AllHEntries es → IsHEntry new → AllHEntries (es ++ new ∷ [])
append-AllHEntries [] new all one = (one, tt)
append-AllHEntries (e ∷ es) new all one = (all.0, append-AllHEntries es new all.1 one)

room_left :
    (bs : ℕ) (es : List HEntry) (new : HEntry)
    → bucket_fits bs es new ≡ true
    → 24 + hentries_size (es ++ new ∷ []) ≤ bs
unfolding bucket_fits
room_left bs es new fits = ground (arith, hentries_size-append es new)

module _ ⦃crc : Crc32c⦄ (levels : ℕ) where
  -- A write of another block leaves the header of a directory with inline extents.
  header_kept :
      (g : Gofs) (t : Txn) (inode : Inode) (hblk blk : ℕ) (content : Bytes)
      → inode.format ≡ fmt_extent
      → dir_block_addr levels g t inode 0 ≡ ok hblk
      → blk ≢ hblk
      → dhdr_read levels g (txn_write t blk content) inode ≡ dhdr_read levels g t inode
  unfolding dhdr_read dir_block_read
  header_kept g t inode hblk blk content extent at apart =
      let other : txn_read g (txn_write t blk content) hblk ≡ txn_read g t hblk =
        unfold txn_read txn_write in
        ap (read_or (read_block g hblk)) (get-insert_other blk content hblk t.blocks apart) in
      let addr : dir_block_addr levels g (txn_write t blk content) inode 0 ≡ ok hblk =
        inline_addr levels g (txn_write t blk content) t inode 0 extent ∙ at in
      rw (addr, at, other) refl

-- The entry of a bucket for an entry of the directory.
abbrev pub entered : ℕ → DirEntry → HEntry
entered h e = record { ino = e.ino; hash = h; ftype = e.ftype; name = e.name }

module _ ⦃crc : Crc32c⦄ ⦃sip : SipHash24⦄ (levels : ℕ) where
  -- What `dir_find` finds is in the bucket of the hash.
  dir_find-found :
      (g : Gofs) (t : Txn) (inode : Inode) (name : List ℕ) (h bno : ℕ) (dh : Header) (b : Bucket)
      (new : HEntry)
      → is_dir inode ≡ true
      → inode.format ≡ fmt_extent
      → hash_name g.sb.uuid name ≡ ok h
      → dhdr_read levels g t inode ≡ ok dh
      → get_elem? dh.table (bucket_index h dh.depth) ≡ some bno
      → bucket_read levels g t inode bno ≡ ok b
      → find_in h name b.entries ≡ some new
      → dir_find levels g t inode name ≡ ok (some (dir_entry new))
  unfolding dir_find bucket_of
  dir_find-found g t inode name h bno dh b new isdir extent hashed header slot reread found =
      rw (isdir, hashed, header, slot, reread, found, extent) refl

  -- In a directory with inline extents whose header and the bucket that the name belongs to can be read and are
  -- different blocks: an entry whose name is not in the bucket, and for which the bucket has room, is inserted,
  -- which changes nothing but the transaction, and then `dir_find` finds it. The fields of the entries fit their
  -- widths, their names are text, there are fewer than 2^16 of them, and the generation of the bucket can be read.
  pub dir_find-hashed_insert :
      (s : AllocState) (inode : Inode) (dir_ino : ℕ) (e : DirEntry) (h bno hblk old : ℕ)
      (dh : Header) (bucket : Bucket)
      → is_dir inode ≡ true
      → inode.format ≡ fmt_extent
      → hash_name s.fs.sb.uuid e.name ≡ ok h
      → dir_block_addr levels s.fs s.txn inode 0 ≡ ok hblk
      → dhdr_read levels s.fs s.txn inode ≡ ok dh
      → get_elem? dh.table (bucket_index h dh.depth) ≡ some bno
      → dir_block_addr levels s.fs s.txn inode (1 + bno) ≡ ok bucket.blk
      → bucket_read levels s.fs s.txn inode bno ≡ ok bucket
      → bucket.blk ≢ hblk
      → old_gen bucket.blk s ≡ (ok old, s)
      → find_in h e.name bucket.entries ≡ none
      → bucket_fits s.fs.sb.blocksize bucket.entries (entered h e) ≡ true
      → length (bucket.entries ++ entered h e ∷ []) < 2 ^ 16
      → AllHEntries bucket.entries
      → IsHEntry (entered h e)
      → (t : Txn) × (hashed_insert levels dir_ino inode e s ≡ (ok inode, record s { txn = t }))
        × (dir_find levels s.fs t inode e.name ≡ ok (some e))
  unfolding hashed_insert insert_loop bucket_of dir_entry
  dir_find-hashed_insert s inode dir_ino e h bno hblk old dh bucket isdir extent hashed hat hread
        slot at bread apart gen missing fits few all one =
      let new = entered h e in
      let es = bucket.entries ++ new ∷ [] in
      let (content, written, reread) =
        bucket_read-bucket_write levels s inode bno bucket.blk bucket.local_depth old es extent at
          gen (room_left s.fs.sb.blocksize bucket.entries new fits) few
          (append-AllHEntries bucket.entries new all one) in
      let t : Txn = txn_write s.txn bucket.blk content in
      let header : dhdr_read levels s.fs t inode ≡ ok dh =
        header_kept levels s.fs s.txn inode hblk bucket.blk content extent hat apart ∙ hread in
      let match : matches h e.name new ≡ true = rw (==-refl h, bytes_eq_refl e.name) refl in
      let found : find_in h e.name es ≡ some new =
        find_in-append h e.name bucket.entries new missing match in
      (
        t,
        rw (hashed, hread, slot, bread, fits, written) refl,
        dir_find-found s.fs t inode e.name h bno dh
            (record { entries = es; local_depth = bucket.local_depth; blk = bucket.blk }) new isdir
            extent hashed header slot reread found,
      )
