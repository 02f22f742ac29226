-- ===== src/Dir/Bucket/Roundtrip.antt =====
-- src/dir.rs: the entries that `bucket_build` writes are the ones that `bucket_entries` reads.
use fs.Dir.Bucket.Names.{
  blank_name, pad, AllUnits, length-name_bytes, entry_size-eq, put_name-append, name_units-append,
  length-blank_name, blank_name_zeros, pad_zeros,
}
use fs.Dir.Hash.{name_bytes}
use fs.Dir.Bucket.{
  HEntry, entry_size, hentry_at, put_hentry, hentries_size, entries_from, put_hentries,
  bucket_magic, bucket_entries, bucket_build,
}
use fs.Fmt.Bytes.Laws.{
  put_u16-append, put_u64-append, put_byte-append, from_be-to_be_two, from_be-to_be_eight,
  get_byte-append, get_u16-append, get_u64-append,
}
use fs.Fmt.Bytes.{
  Bytes, to_be, put_byte, put_u16, put_u64, get_byte, get_u16, get_u64, overwrite, put_slice,
  get_prefix, get_suffix, get_slice,
}
use fs.Fmt.Dirents.{lossy, name_units, put_name}
use mathlib.Core.List.{append_assoc}
use fs.Prelude.{
  step, ℕ, ◌+◌, ◌%◌, ◌^◌, ◌<◌, ◌≡◌, refl, List, [], ◌∷◌, ◌++◌, arith, length, replicate,
  length-append, ok, ◌*◌, ◌≤◌, sym, ap, ◌∙◌, le→leb, all, ◌-◌, replicate-add, ap₂,
}

-- The fields fit their widths, and the name is text: it has no lone surrogate.
pub record IsHEntry (e : HEntry) : Type 0 where
  pub ino : e.ino < 2 ^ 64
  pub hash : e.hash < 2 ^ 64
  pub units : AllUnits e.name
  pub text : lossy e.name ≡ e.name
  pub short : length e.name < 2 ^ 16

abbrev pub AllHEntries : List HEntry → Type 0
AllHEntries [] = Unit {0}
AllHEntries (e ∷ es) = IsHEntry e × AllHEntries es

-- The 20 bytes in front of the name.
fixed : HEntry → Bytes
unfolding to_be
fixed e = to_be 8 e.ino ++ (to_be 8 e.hash ++ (e.ftype ∷ 0 ∷ to_be 2 (length e.name)))

length-fixed : (e : HEntry) → length (fixed e) ≡ 20
unfolding fixed to_be
length-fixed e = refl

hentry_bytes : HEntry → Bytes
hentry_bytes e = fixed e ++ (name_bytes e.name ++ pad e.name)

blank_hentry : HEntry → Bytes
blank_hentry e = replicate 20 0 ++ (blank_name e.name ++ pad e.name)

length-hentry_bytes : (e : HEntry) → length (hentry_bytes e) ≡ entry_size (length e.name)
unfolding hentry_bytes
length-hentry_bytes e = omega (
  arith,
  length-append (fixed e) (name_bytes e.name ++ pad e.name),
  length-append (name_bytes e.name) (pad e.name),
  length-fixed e,
  length-name_bytes e.name,
  entry_size-eq e.name,
)

regroup : (pre f n p t : Bytes) → (pre ++ f) ++ (n ++ (p ++ t)) ≡ pre ++ ((f ++ (n ++ p)) ++ t)
regroup pre f n p t =
    append_assoc pre f (n ++ (p ++ t))
    ∙ ap (λ q. pre ++ q) (sym (append_assoc f (n ++ p) t ∙ ap (λ q. f ++ q) (append_assoc n p t)))

module _ (e : HEntry) (pre tail : Bytes) (off : ℕ) (at : off ≡ length pre) (r : IsHEntry e) where
  behind : off + 20 + 0 * 2 ≡ length (pre ++ fixed e)
  behind = omega (arith, length-append pre (fixed e), length-fixed e)

  put_one :
      put_hentry (pre ++ (blank_hentry e ++ tail)) off e ≡ ok (pre ++ (hentry_bytes e ++ tail))
  unfolding put_hentry blank_hentry hentry_bytes fixed to_be
  put_one =
      let n = length e.name in
      let rest : Bytes = (blank_name e.name ++ pad e.name) ++ tail in
      let e1 : n % 2 ^ 16 ≡ n = omega (arith, r.short) in
      rw
        (
          put_u64-append pre (replicate 20 0 ++ rest) off 0 (omega arith) e.ino
              {r = to_be 8 e.ino ++ (replicate 12 0 ++ rest)} (unfold put_u64 in refl),
          put_u64-append pre (to_be 8 e.ino ++ (replicate 12 0 ++ rest)) (off + 8) 8 (omega arith)
              e.hash {r = to_be 8 e.ino ++ (to_be 8 e.hash ++ (replicate 4 0 ++ rest))}
              (unfold put_u64 in refl),
          put_byte-append pre (to_be 8 e.ino ++ (to_be 8 e.hash ++ (replicate 4 0 ++ rest)))
              (off + 16) 16 (omega arith) e.ftype
              {r = to_be 8 e.ino ++ (to_be 8 e.hash ++ (e.ftype ∷ 0 ∷ 0 ∷ 0 ∷ rest))}
              (unfold put_byte in refl),
          e1,
          put_u16-append pre (to_be 8 e.ino ++ (to_be 8 e.hash ++ (e.ftype ∷ 0 ∷ 0 ∷ 0 ∷ rest)))
              (off + 18) 18 (omega arith) n {r = fixed e ++ rest} (unfold put_u16 in refl),
        )
        (ap (λ b. put_name b (off + 20) 0 e.name)
            (sym (regroup pre (fixed e) (blank_name e.name) (pad e.name) tail))
          ∙ put_name-append e.name (pre ++ fixed e) (pad e.name ++ tail) (off + 20) 0 behind
          ∙ ap ok (regroup pre (fixed e) (name_bytes e.name) (pad e.name) tail))

  read_one :
      hentry_at (pre ++ (hentry_bytes e ++ tail)) off ≡ ok (e, off + entry_size (length e.name))
  unfolding hentry_at
  read_one =
      let all : Bytes = hentry_bytes e ++ tail in
      let h1 : get_u64 (pre ++ all) off ≡ ok e.ino =
        get_u64-append pre all off 0 (omega arith)
        ∙ unfold hentry_bytes fixed to_be get_u64 in ap ok (from_be-to_be_eight e.ino r.ino) in
      let h2 : get_u64 (pre ++ all) (off + 8) ≡ ok e.hash =
        get_u64-append pre all (off + 8) 8 (omega arith)
        ∙ unfold hentry_bytes fixed to_be get_u64 in ap ok (from_be-to_be_eight e.hash r.hash) in
      let h3 : get_byte (pre ++ all) (off + 16) ≡ ok e.ftype =
        get_byte-append pre all (off + 16) 16 (omega arith)
        ∙ unfold hentry_bytes fixed to_be get_byte in refl in
      let h4 : get_u16 (pre ++ all) (off + 18) ≡ ok (length e.name) =
        get_u16-append pre all (off + 18) 18 (omega arith)
        ∙ unfold hentry_bytes fixed to_be get_u16 in
          ap ok (from_be-to_be_two (length e.name) r.short) in
      let h5 : name_units (pre ++ all) (off + 20) 0 (length e.name) ≡ ok e.name =
        unfold hentry_bytes in
        (ap (λ b. name_units b (off + 20) 0 (length e.name))
            (sym (regroup pre (fixed e) (name_bytes e.name) (pad e.name) tail))
          ∙ name_units-append e.name (pre ++ fixed e) (pad e.name ++ tail) (off + 20) 0 r.units
              behind) in
      step _ h1 (step _ h2 (step _ h3 (step _ h4 (step _ h5 (rw r.text refl)))))

pub flat : List HEntry → Bytes
flat [] = []
flat (e ∷ es) = hentry_bytes e ++ flat es

-- Zeros in place of the entries, and `m` bytes behind them.
room : List HEntry → ℕ → Bytes
room [] m = replicate m 0
room (e ∷ es) m = blank_hentry e ++ room es m

put_hentries-flat :
    (es : List HEntry) (bs : ℕ) (pre : Bytes) (off m : ℕ)
    → off ≡ length pre
    → off + hentries_size es ≤ bs
    → AllHEntries es
    → put_hentries bs (pre ++ room es m) off es ≡ ok (pre ++ (flat es ++ replicate m 0))
unfolding put_hentries flat room hentries_size
put_hentries-flat [] bs pre off m at fits all = refl
put_hentries-flat (e ∷ es) bs pre off m at fits (r, all) =
    rw
      (
        le→leb (off + entry_size (length e.name)) bs (omega arith),
        put_one e pre (room es m) off at r,
        ← append_assoc pre (hentry_bytes e) (room es m),
      )
      (put_hentries-flat es bs (pre ++ hentry_bytes e) (off + entry_size (length e.name)) m
          (omega (arith, length-append pre (hentry_bytes e), length-hentry_bytes e)) (omega arith)
          all
        ∙ ap ok (
            append_assoc pre (hentry_bytes e) (flat es ++ replicate m 0)
            ∙ ap (λ t. pre ++ t) (sym (append_assoc (hentry_bytes e) (flat es) (replicate m 0)))))

pub entries_from-flat :
    (es : List HEntry) (pre tail : Bytes) (off : ℕ)
    → off ≡ length pre
    → AllHEntries es
    → entries_from (length es) (pre ++ (flat es ++ tail)) off ≡ ok es
unfolding entries_from flat
entries_from-flat [] pre tail off at all = refl
entries_from-flat (e ∷ es) pre tail off at (r, all) =
    let buf : Bytes = pre ++ ((hentry_bytes e ++ flat es) ++ tail) in
    let first : hentry_at buf off ≡ ok (e, off + entry_size (length e.name)) =
      ap (λ t. hentry_at (pre ++ t) off) (append_assoc (hentry_bytes e) (flat es) tail)
      ∙ read_one e pre (flat es ++ tail) off at r in
    let split : buf ≡ (pre ++ hentry_bytes e) ++ (flat es ++ tail) =
      ap (λ t. pre ++ t) (append_assoc (hentry_bytes e) (flat es) tail)
      ∙ sym (append_assoc pre (hentry_bytes e) (flat es ++ tail)) in
    let rest : entries_from (length es) buf (off + entry_size (length e.name)) ≡ ok es =
      ap (λ b. entries_from (length es) b (off + entry_size (length e.name))) split
      ∙ entries_from-flat es (pre ++ hentry_bytes e) tail (off + entry_size (length e.name))
          (omega (arith, length-append pre (hentry_bytes e), length-hentry_bytes e)) all in
    step _ first (step _ rest refl)

blank_hentry_eq : (e : HEntry) → replicate (entry_size (length e.name)) 0 ≡ blank_hentry e
unfolding blank_hentry
blank_hentry_eq e =
    let b = length (blank_name e.name) in
    let p = length (pad e.name) in
    let size : entry_size (length e.name) ≡ 20 + (b + p) =
      omega (arith, entry_size-eq e.name, length-blank_name e.name) in
    ap (λ t. replicate t 0) size
    ∙ replicate-add {A = ℕ} 20 (b + p) 0
    ∙ ap (λ t. replicate 20 0 ++ t)
        (replicate-add {A = ℕ} b p 0
          ∙ ap₂ (λ x y. x ++ y) (sym (blank_name_zeros e.name)) (sym (pad_zeros e.name)))

-- The zeros of a block give way to blank entries.
room-eq-replicate :
    (es : List HEntry) (m k : ℕ) → k ≡ hentries_size es + m → replicate k 0 ≡ room es m
unfolding room hentries_size
room-eq-replicate [] m k h = ap (λ t. replicate t 0) (omega arith)
room-eq-replicate (e ∷ es) m k h =
    let size = entry_size (length e.name) in
    let split : k ≡ size + (k - size) = omega arith in
    ap (λ t. replicate t 0) split
    ∙ replicate-add {A = ℕ} size (k - size) 0
    ∙ ap (λ t. t ++ replicate (k - size) 0) (blank_hentry_eq e)
    ∙ ap (λ t. blank_hentry e ++ t) (room-eq-replicate es m (k - size) (omega arith))

-- The 24 bytes of a bucket in front of its entries.
unfoldable pub head : ℕ → ℕ → Bytes
unfolding to_be
head local_depth n =
    bucket_magic ++ (replicate 12 0 ++ (local_depth ∷ 0 ∷ to_be 2 n ++ replicate 4 0))

pub bucket_build-head :
    (bs local_depth : ℕ) (es : List HEntry)
    → 24 + hentries_size es ≤ bs
    → length es < 2 ^ 16
    → AllHEntries es
    → bucket_build bs local_depth es
      ≡ ok (head local_depth (length es) ++ (flat es ++ replicate (bs - 24 - hentries_size es) 0))
unfolding bucket_build head
bucket_build-head bs local_depth es fits few all =
    let m = bs - 24 - hentries_size es in
    let e1 : length es % 2 ^ 16 ≡ length es = omega arith in
    let zeros : replicate bs 0 ≡ replicate 24 0 ++ room es m =
      ap (λ t. replicate t 0) (let e : bs ≡ 24 + (bs - 24) = omega arith in e)
      ∙ replicate-add {A = ℕ} 24 (bs - 24) 0
      ∙ ap (λ t. replicate 24 0 ++ t) (room-eq-replicate es m (bs - 24) (omega arith)) in
    rw (zeros, e1)
      (unfold put_slice overwrite put_byte put_u16 in
        put_hentries-flat es bs (head local_depth (length es)) 24 m (unfold head to_be in refl) fits
          all)

-- Entries that fit their widths and whose names are text are written to a bucket that has room for them, in
-- a block of its own, and read back in their order, with the local depth.
pub bucket_entries-bucket_build :
    (bs local_depth : ℕ) (es : List HEntry)
    → 24 + hentries_size es ≤ bs
    → length es < 2 ^ 16
    → AllHEntries es
    → (buf : Bytes) × (bucket_build bs local_depth es ≡ ok buf)
      × (bucket_entries buf ≡ ok es)
      × (get_byte buf 16 ≡ ok local_depth)
unfolding bucket_entries head
bucket_entries-bucket_build bs local_depth es fits few all = (
  head local_depth (length es) ++ (flat es ++ replicate (bs - 24 - hentries_size es) 0),
  bucket_build-head bs local_depth es fits few all,
  unfold head to_be get_u16 get_slice get_suffix get_prefix in
      rw (from_be-to_be_two (length es) few)
        (entries_from-flat es (head local_depth (length es)) _ 24 refl all),
  unfold head get_byte in refl,
)
