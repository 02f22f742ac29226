-- ===== src/Fmt/AgMap/Layout.antt =====
-- The bytes of an AG map's entries, and each record written and read behind a prefix.
use fs.Prelude.{
  ℕ, ◌+◌, ◌*◌, ◌^◌, ◌<◌, ◌≡◌, refl, ap, ◌∙◌, List, [], ◌∷◌, ◌++◌, ok, arith, replicate, length,
  length-append, step,
}
use fs.Fmt.Bytes.{Bytes, to_be, put_u16, put_u32, put_u64, get_u16, get_u32, get_u64}
use fs.Fmt.Bytes.Laws.{
  get_u16-append, get_u32-append, get_u64-append, put_u16-append, put_u32-append, put_u64-append,
  from_be-to_be_two, from_be-to_be_four, from_be-to_be_eight,
}
use fs.Fmt.AgMap.{AgSegment, AgEntry, put_segment, put_entry_head}

pub record SegInRange (s : AgSegment) : Type 0 where
  pub ag_block : s.ag_block < 2 ^ 32
  pub blocks : s.blocks < 2 ^ 32
  pub dev_offset : s.dev_offset < 2 ^ 64

abbrev pub AllSegs : List AgSegment → Type 0
AllSegs [] = Unit {0}
AllSegs (s ∷ segs) = SegInRange s × AllSegs segs

pub record EntryInRange (e : AgEntry) : Type 0 where
  pub flags : e.flags < 2 ^ 16
  pub length : e.length < 2 ^ 32
  pub nseg : fs.Prelude.length e.segs < 2 ^ 16
  pub segs : AllSegs e.segs

abbrev pub AllEntries : List AgEntry → Type 0
AllEntries [] = Unit {0}
AllEntries (e ∷ entries) = EntryInRange e × AllEntries entries

-- The bytes of the segments and of the entries, and how many there are.
unfoldable pub seg_bytes : AgSegment → Bytes
unfolding to_be
seg_bytes s = to_be 4 s.ag_block ++ (to_be 4 s.blocks ++ to_be 8 s.dev_offset)

unfoldable pub segs_bytes : List AgSegment → Bytes
segs_bytes [] = []
segs_bytes (s ∷ segs) = seg_bytes s ++ segs_bytes segs

unfoldable pub head_bytes : AgEntry → Bytes
unfolding to_be
head_bytes e = to_be 2 e.flags ++ (to_be 2 (length e.segs) ++ to_be 4 e.length)

unfoldable pub entry_bytes : AgEntry → Bytes
entry_bytes e = head_bytes e ++ segs_bytes e.segs

unfoldable pub entries_bytes : List AgEntry → Bytes
entries_bytes [] = []
entries_bytes (e ∷ entries) = entry_bytes e ++ entries_bytes entries

abbrev pub entries_size : List AgEntry → ℕ
entries_size [] = 0
entries_size (e ∷ entries) = 8 + length e.segs * 16 + entries_size entries

pub length-seg_bytes : (s : AgSegment) → length (seg_bytes s) ≡ 16
unfolding seg_bytes
length-seg_bytes s = refl

pub length-head_bytes : (e : AgEntry) → length (head_bytes e) ≡ 8
unfolding head_bytes
length-head_bytes e = refl

pub length-segs_bytes : (segs : List AgSegment) → length (segs_bytes segs) ≡ length segs * 16
unfolding segs_bytes
length-segs_bytes [] = refl
length-segs_bytes (s ∷ segs) = omega (
  arith,
  length-append (seg_bytes s) (segs_bytes segs),
  length-seg_bytes s,
  length-segs_bytes segs,
)

pub length-entry_bytes : (e : AgEntry) → length (entry_bytes e) ≡ 8 + length e.segs * 16
unfolding entry_bytes
length-entry_bytes e = omega (
  arith,
  length-append (head_bytes e) (segs_bytes e.segs),
  length-head_bytes e,
  length-segs_bytes e.segs,
)

pub length-entries_bytes :
    (entries : List AgEntry) → length (entries_bytes entries) ≡ entries_size entries
unfolding entries_bytes
length-entries_bytes [] = refl
length-entries_bytes (e ∷ entries) = omega (
  arith,
  length-append (entry_bytes e) (entries_bytes entries),
  length-entry_bytes e,
  length-entries_bytes entries,
)

module _ (s : AgSegment) (pre tail : Bytes) (off : ℕ) (at : off ≡ length pre) where
  pub put_segment-append :
      put_segment (pre ++ (replicate 16 0 ++ tail)) off s ≡ ok (pre ++ (seg_bytes s ++ tail))
  unfolding put_segment seg_bytes to_be
  put_segment-append =
      step _
        (put_u32-append pre (replicate 16 0 ++ tail) off 0 (omega arith) s.ag_block
          {r = to_be 4 s.ag_block ++ (replicate 12 0 ++ tail)} (unfold put_u32 in refl))
        (step _
          (put_u32-append pre (to_be 4 s.ag_block ++ (replicate 12 0 ++ tail)) (off + 4) 4
            (omega arith) s.blocks
            {r = to_be 4 s.ag_block ++ (to_be 4 s.blocks ++ (replicate 8 0 ++ tail))}
            (unfold put_u32 in refl))
          (put_u64-append pre (to_be 4 s.ag_block ++ (to_be 4 s.blocks ++ (replicate 8 0 ++ tail)))
            (off + 8) 8 (omega arith) s.dev_offset (unfold put_u64 in refl)))

  pub get_segment-append :
      SegInRange s
      → (get_u32 (pre ++ (seg_bytes s ++ tail)) off ≡ ok s.ag_block)
        × (get_u32 (pre ++ (seg_bytes s ++ tail)) (off + 4) ≡ ok s.blocks)
        × (get_u64 (pre ++ (seg_bytes s ++ tail)) (off + 8) ≡ ok s.dev_offset)
  unfolding seg_bytes to_be
  get_segment-append r = (
    get_u32-append pre (seg_bytes s ++ tail) off 0 (omega arith)
        ∙ unfold get_u32 in ap ok (from_be-to_be_four s.ag_block r.ag_block),
    get_u32-append pre (seg_bytes s ++ tail) (off + 4) 4 (omega arith)
        ∙ unfold get_u32 in ap ok (from_be-to_be_four s.blocks r.blocks),
    get_u64-append pre (seg_bytes s ++ tail) (off + 8) 8 (omega arith)
        ∙ unfold get_u64 in ap ok (from_be-to_be_eight s.dev_offset r.dev_offset),
  )

module _ (e : AgEntry) (pre tail : Bytes) (off : ℕ) (at : off ≡ length pre) where
  pub put_entry_head-append :
      put_entry_head (pre ++ (replicate 8 0 ++ tail)) off e ≡ ok (pre ++ (head_bytes e ++ tail))
  unfolding put_entry_head head_bytes to_be
  put_entry_head-append =
      step _
        (put_u16-append pre (replicate 8 0 ++ tail) off 0 (omega arith) e.flags
          {r = to_be 2 e.flags ++ (replicate 6 0 ++ tail)} (unfold put_u16 in refl))
        (step _
          (put_u16-append pre (to_be 2 e.flags ++ (replicate 6 0 ++ tail)) (off + 2) 2 (omega arith)
            (length e.segs)
            {r = to_be 2 e.flags ++ (to_be 2 (length e.segs) ++ (replicate 4 0 ++ tail))}
            (unfold put_u16 in refl))
          (put_u32-append pre
            (to_be 2 e.flags ++ (to_be 2 (length e.segs) ++ (replicate 4 0 ++ tail))) (off + 4) 4
            (omega arith) e.length (unfold put_u32 in refl)))

  pub get_entry_head-append :
      EntryInRange e
      → (get_u16 (pre ++ (head_bytes e ++ tail)) off ≡ ok e.flags)
        × (get_u16 (pre ++ (head_bytes e ++ tail)) (off + 2) ≡ ok (length e.segs))
        × (get_u32 (pre ++ (head_bytes e ++ tail)) (off + 4) ≡ ok e.length)
  unfolding head_bytes to_be
  get_entry_head-append r = (
    get_u16-append pre (head_bytes e ++ tail) off 0 (omega arith)
        ∙ unfold get_u16 in ap ok (from_be-to_be_two e.flags r.flags),
    get_u16-append pre (head_bytes e ++ tail) (off + 2) 2 (omega arith)
        ∙ unfold get_u16 in ap ok (from_be-to_be_two (length e.segs) r.nseg),
    get_u32-append pre (head_bytes e ++ tail) (off + 4) 4 (omega arith)
        ∙ unfold get_u32 in ap ok (from_be-to_be_four e.length r.length),
  )
