-- ===== src/Dir/Bucket.antt =====
-- src/dir.rs, the entries of a bucket: `bucket_entries`, `bucket_build` and `bucket_fits`. A name is its
-- UTF-16 units, and reading one replaces each lone surrogate, as in an embedded directory.
pub mod Names
pub mod Roundtrip
use fs.Alloc.Record.Order.{count}
use fs.Fmt.Bytes.{Bytes, put_slice, get_byte, put_byte, put_u16, put_u64, get_u16, get_u64}
use fs.Fmt.Dirents.{lossy, name_units, put_name}
use fs.Prelude.{
  ℕ, zero, suc, ◌+◌, ◌*◌, ◌/◌, ◌%◌, ◌^◌, Bool, List, [], ◌∷◌, length, leb, replicate, Out, ensure,
  ◌>>=◌, ◌>>◌, bucket_overflow, ok,
}

-- "5FSb"
abbrev pub bucket_magic : Bytes
bucket_magic = b'5' ∷ b'F' ∷ b'S' ∷ b'b' ∷ []

abbrev pub bk_hdr : ℕ
bk_hdr = 24

pub record HEntry : Type 0 where
  pub ino : ℕ
  pub hash : ℕ
  pub ftype : ℕ
  pub name : List ℕ

-- 20 bytes and the name, rounded up to 4.
unfoldable pub entry_size : ℕ → ℕ
entry_size units = (20 + 2 * units + 3) / 4 * 4

unfoldable pub hentries_size : List HEntry → ℕ
unfolding entry_size
hentries_size [] = 0
hentries_size (e ∷ es) = entry_size (length e.name) + hentries_size es

unfoldable pub hentry_at : Bytes → ℕ → Out (HEntry × ℕ)
unfolding name_units lossy entry_size
hentry_at buf off = do
  ino ← get_u64 buf off
  hash ← get_u64 buf (off + 8)
  ftype ← get_byte buf (off + 16)
  nlen ← get_u16 buf (off + 18)
  units ← name_units buf (off + 20) 0 nlen
  ok (record { ino = ino; hash = hash; ftype = ftype; name = lossy units }, off + entry_size nlen)

unfoldable pub entries_from : ℕ → Bytes → ℕ → Out (List HEntry)
unfolding hentry_at
entries_from zero buf off = ok []
entries_from (suc n) buf off = do
  (e, next) ← hentry_at buf off
  es ← entries_from n buf next
  ok (e ∷ es)

unfoldable pub bucket_entries : Bytes → Out (List HEntry)
unfolding entries_from
bucket_entries buf = do count ← get_u16 buf 18; entries_from count buf bk_hdr

unfoldable pub put_hentry : Bytes → ℕ → HEntry → Out Bytes
unfolding put_name
put_hentry buf off e = do
  buf ← put_u64 buf off e.ino
  buf ← put_u64 buf (off + 8) e.hash
  buf ← put_byte buf (off + 16) e.ftype
  buf ← put_u16 buf (off + 18) (length e.name % 2 ^ 16)
  put_name buf (off + 20) 0 e.name

unfoldable pub put_hentries : ℕ → Bytes → ℕ → List HEntry → Out Bytes
unfolding put_hentry entry_size
put_hentries bs buf off [] = ok buf
put_hentries bs buf off (e ∷ es) = do
  ensure (leb (off + entry_size (length e.name)) bs) bucket_overflow
  buf ← put_hentry buf off e
  put_hentries bs buf (off + entry_size (length e.name)) es

unfoldable pub bucket_build : ℕ → ℕ → List HEntry → Out Bytes
unfolding put_hentries
bucket_build bs local_depth entries = do
  buf ← put_slice (replicate bs 0) 0 bucket_magic
  buf ← put_byte buf 16 local_depth
  buf ← put_u16 buf 18 (length entries % 2 ^ 16)
  put_hentries bs buf bk_hdr entries

unfoldable pub bucket_fits : ℕ → List HEntry → HEntry → Bool
unfolding hentries_size entry_size
bucket_fits bs entries add = leb (bk_hdr + hentries_size entries + entry_size (length add.name)) bs
