-- ===== src/Dir/Find.antt =====
-- src/dir.rs, `dir_find`, `dir_list` and `dir_count`.
use fs.Dir.Hash.{SipHash24, hash_name, bucket_index}
use fs.Dir.Bucket.{HEntry}
use fs.Dir.Table.{Header, Bucket, dhdr_read, bucket_read}
use fs.Journal.Txn.{Txn}
use fs.Fmt.Bytes.{bytes_eq}
use fs.Fmt.Dirents.{DirEntry, dir_parse}
use fs.Fmt.Inode.{Inode, fmt_empty, fmt_embed, fmt_extent, fmt_tree, is_dir}
use fs.Fmt.Checksum.{Crc32c}
use fs.Prelude.{
  map, ℕ, zero, suc, ◌+◌, ◌-◌, ◌*◌, Bool, true, false, ◌&&◌, ◌||◌, Option, none, some, List, [],
  ◌∷◌, ◌++◌, length, ltb, leb, ◌==◌, if◌then◌else◌, get_elem?, any, Out, ensure, ◌>>=◌, ◌>>◌,
  unwrap, not_a_directory, bad_dir_format, ok, err,
}
use fs.Fs.{Gofs}

-- The code points of a name: a `String` is compared by them.
unfoldable pub code_points : List ℕ → List ℕ
code_points [] = []
code_points (u ∷ []) = u ∷ []
code_points (u ∷ (v ∷ units)) =
    let paired = code_points units in
    let single = code_points (v ∷ units) in
    if leb 0xd800 u && ltb u 0xdc00 && leb 0xdc00 v && ltb v 0xe000
    then (0x10000 + (u - 0xd800) * 0x400 + (v - 0xdc00)) ∷ paired
    else u ∷ single

-- Whether a list is not behind another one in lexicographic order.
unfoldable pub lex_leb : List ℕ → List ℕ → Bool
lex_leb [] bs = true
lex_leb (a ∷ as') [] = false
lex_leb (a ∷ as') (b ∷ bs) =
    let rest = lex_leb as' bs in if ltb a b then true else if ltb b a then false else rest

unfoldable pub name_leb : List ℕ → List ℕ → Bool
unfolding lex_leb code_points
name_leb a b = lex_leb (code_points a) (code_points b)

-- `sort_by`, which is stable.
unfoldable pub insert_name : DirEntry → List DirEntry → List DirEntry
unfolding name_leb
insert_name e [] = e ∷ []
insert_name e (f ∷ fs) =
    let rest = insert_name e fs in if name_leb e.name f.name then e ∷ f ∷ fs else f ∷ rest

unfoldable pub sort_names : List DirEntry → List DirEntry
unfolding insert_name
sort_names [] = []
sort_names (e ∷ es) = insert_name e (sort_names es)

unfoldable pub dir_entry : HEntry → DirEntry
dir_entry e = record { ino = e.ino; ftype = e.ftype; name = e.name }

-- `iter().position` of an entry of a bucket.
unfoldable pub hposition : ℕ → List ℕ → List HEntry → Option ℕ
hposition h name [] = none
hposition h name (e ∷ es) =
    let rest = hposition h name es in
    if e.hash == h && bytes_eq e.name name then some 0 else mathlib.Core.Option.map suc rest

unfoldable pub position : List ℕ → List DirEntry → Option ℕ
position name [] = none
position name (e ∷ es) =
    let rest = position name es in
    if bytes_eq e.name name then some 0 else mathlib.Core.Option.map suc rest

-- The entry at a position.
unfoldable pub entry_at {ℓ} : {A : Type ℓ} → List A → Option ℕ → Option A
entry_at es none = none
entry_at es (some i) = get_elem? es i

-- The numbers below `n` that are not on the freelist.
unfoldable pub live_buckets : ℕ → ℕ → List ℕ → List ℕ
live_buckets zero b freelist = []
live_buckets (suc n) b freelist =
    let rest = live_buckets n (suc b) freelist in
    if any (λ f. f == b) freelist then rest else b ∷ rest

module _ ⦃crc : Crc32c⦄ (levels : ℕ) where
  unfoldable pub list_buckets : Gofs → Txn → Inode → List ℕ → Out (List DirEntry)
  list_buckets g t inode [] = ok []
  list_buckets g t inode (b ∷ bs) = do
    bucket ← bucket_read levels g t inode b
    rest ← list_buckets g t inode bs
    ok (map dir_entry bucket.entries ++ rest)

  unfoldable pub dir_list : Gofs → Txn → Inode → Out (List DirEntry)
  unfolding list_buckets
  dir_list g t inode = do
    ensure (is_dir inode) not_a_directory
    if inode.format == fmt_empty
        then ok []
        else if inode.format == fmt_embed
        then dir_parse inode.payload
        else if inode.format == fmt_extent || inode.format == fmt_tree
        then (do
          h ← dhdr_read levels g t inode
          entries ← list_buckets g t inode (live_buckets h.nbuckets 0 h.freelist)
          ok (sort_names entries))
        else err bad_dir_format

  unfoldable pub dir_count : Gofs → Txn → Inode → Out ℕ
  unfolding dir_list
  dir_count g t inode = do entries ← dir_list g t inode; ok (length entries)

module _ ⦃crc : Crc32c⦄ ⦃sip : SipHash24⦄ (levels : ℕ) where
  -- The header, the number of the bucket that a name belongs to, and the bucket.
  unfoldable pub bucket_of : Gofs → Txn → Inode → ℕ → Out (Header × ℕ × Bucket)
  unfolding bucket_index
  bucket_of g t inode h = do
    dh ← dhdr_read levels g t inode
    bno ← unwrap (get_elem? dh.table (bucket_index h dh.depth))
    bucket ← bucket_read levels g t inode bno
    ok (dh, bno, bucket)

  unfoldable pub dir_find : Gofs → Txn → Inode → List ℕ → Out (Option DirEntry)
  unfolding bucket_of entry_at hposition position
  dir_find g t inode name = do
    ensure (is_dir inode) not_a_directory
    if inode.format == fmt_empty
        then ok none
        else if inode.format == fmt_embed
        then (do entries ← dir_parse inode.payload; ok (entry_at entries (position name entries)))
        else if inode.format == fmt_extent || inode.format == fmt_tree
        then (do
          h ← hash_name g.sb.uuid name
          (dh, bno, bucket) ← bucket_of g t inode h
          ok (
              mathlib.Core.Option.map dir_entry
                (entry_at bucket.entries (hposition h name bucket.entries))))
        else err bad_dir_format
