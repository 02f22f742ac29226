-- ===== src/Dir/Check.antt =====
-- src/dir.rs, `dir_check`: what is wrong with the structure of a hashed directory, in place of the text that
-- the source makes of it.
use fs.Dir.Hash.{SipHash24, hash_name, bucket_index}
use fs.Dir.Bucket.{HEntry}
use fs.Dir.Table.{Header, Bucket, dhdr_read, bucket_read}
use fs.Dir.Find.{live_buckets}
use fs.Journal.Txn.{Txn}
use fs.Fmt.Bytes.{Bytes}
use fs.Fmt.Inode.{Inode, fmt_extent, fmt_tree}
use fs.Fmt.Checksum.{Crc32c}
use fs.Prelude.{
  ℕ, suc, Bool, not, ◌||◌, List, [], ◌∷◌, ◌++◌, ltb, leb, ◌==◌, if◌then◌else◌, get_elem?, any,
  Error, Out, ◌>>=◌, unwrap, ok, err, panic,
}
use fs.Fs.{Gofs}

pub data Problem : Type 0 where
  slot_past_end slot_freed : ℕ → ℕ → Problem
  freed_past_end : ℕ → Problem
  too_deep_bucket : ℕ → ℕ → Problem
  wrong_hash : List ℕ → Problem
  wrong_bucket : List ℕ → ℕ → Problem
  unreadable : ℕ → Error → Problem

-- A problem in front of the others if there is one.
abbrev pub report : Bool → Problem → List Problem → List Problem
report bad p ps = if bad then p ∷ ps else ps

unfoldable pub check_table : ℕ → List ℕ → ℕ → List ℕ → List Problem
check_table nbuckets freelist idx [] = []
check_table nbuckets freelist idx (b ∷ table) = report (leb nbuckets b) (slot_past_end idx b) (
    report (any (λ f. f == b) freelist) (slot_freed idx b)
      (check_table nbuckets freelist (suc idx) table))

unfoldable pub check_freelist : ℕ → List ℕ → List Problem
check_freelist nbuckets [] = []
check_freelist nbuckets (b ∷ freelist) =
    report (leb nbuckets b) (freed_past_end b) (check_freelist nbuckets freelist)

module _ ⦃sip : SipHash24⦄ where
  unfoldable pub check_entries : Bytes → Header → ℕ → List HEntry → Out (List Problem)
  unfolding bucket_index
  check_entries uuid h b [] = ok []
  check_entries uuid h b (e ∷ es) = do
    hash ← hash_name uuid e.name
    slot ← unwrap (get_elem? h.table (bucket_index hash h.depth))
    rest ← check_entries uuid h b es
    ok (
        report (not (hash == e.hash)) (wrong_hash e.name)
          (report (not (slot == b)) (wrong_bucket e.name b) rest))

  unfoldable pub check_bucket : Bytes → Header → ℕ → Out Bucket → Out (List Problem)
  unfolding check_entries
  check_bucket uuid h b panic = panic
  check_bucket uuid h b (err e) = ok (unreadable b e ∷ [])
  check_bucket uuid h b (ok bucket) = do
    problems ← check_entries uuid h b bucket.entries
    ok (report (ltb h.depth bucket.local_depth) (too_deep_bucket b bucket.local_depth) problems)

module _ ⦃crc : Crc32c⦄ ⦃sip : SipHash24⦄ (levels : ℕ) where
  unfoldable pub check_buckets : Gofs → Txn → Inode → Header → List ℕ → Out (List Problem)
  unfolding check_bucket
  check_buckets g t inode h [] = ok []
  check_buckets g t inode h (b ∷ bs) = do
    problems ← check_bucket g.sb.uuid h b (bucket_read levels g t inode b)
    rest ← check_buckets g t inode h bs
    ok (problems ++ rest)

  unfoldable pub dir_check : Gofs → Txn → Inode → Out (List Problem)
  unfolding check_table check_freelist check_buckets live_buckets
  dir_check g t inode =
      if inode.format == fmt_extent || inode.format == fmt_tree
      then (do
        h ← dhdr_read levels g t inode
        problems ← check_buckets g t inode h (live_buckets h.nbuckets 0 h.freelist)
        ok (
            check_table h.nbuckets h.freelist 0 h.table
            ++ check_freelist h.nbuckets h.freelist
            ++ problems))
      else ok []
