-- ===== src/Resize/Regions.antt =====
-- src/resize.rs, the mapped regions of the device: `mapped_end`, `overlaps`, `overlaps_excluding`,
-- `find_gap`. The block size is never 0, which parsing the superblock checks.
use fs.Prelude.{
  ℕ, suc, ◌+◌, ◌-◌, ◌*◌, ◌%◌, ◌^◌, Bool, false, ◌&&◌, ◌||◌, Option, none, some, List, [], ◌∷◌, ◌++◌,
  ltb, leb, ◌==◌, ◌!=◌, if◌then◌else◌, any, max, min,
}
use fs.Fmt.AgMap.{AgSegment, AgEntry}

-- `s.dev_offset + s.blocks as u64 * bs`, on `u64`
unfoldable pub seg_end : ℕ → AgSegment → ℕ
seg_end bs s = (s.dev_offset + s.blocks * bs) % 2 ^ 64

-- The segments of all entries.
unfoldable pub all_segs : List AgEntry → List AgSegment
all_segs [] = []
all_segs (e ∷ entries) = e.segs ++ all_segs entries

unfoldable pub max_end : ℕ → List AgSegment → ℕ
unfolding seg_end
max_end bs [] = 0
max_end bs (s ∷ segs) = max (seg_end bs s) (max_end bs segs)

unfoldable pub mapped_end : ℕ → List AgEntry → ℕ
unfolding all_segs max_end
mapped_end bs entries = max_end bs (all_segs entries)

unfoldable pub hits : ℕ → ℕ → ℕ → AgSegment → Bool
unfolding seg_end
hits bs off len s = ltb off (seg_end bs s) && ltb s.dev_offset ((off + len) % 2 ^ 64)

-- The loop of `overlaps_excluding` at entry `i`.
unfoldable pub overlaps_from : ℕ → ℕ → ℕ → ℕ → ℕ → List AgEntry → Bool
unfolding hits
overlaps_from bs off len skip i [] = false
overlaps_from bs off len skip i (e ∷ entries) =
    (i % 2 ^ 32 != skip && any (hits bs off len) e.segs)
    || overlaps_from bs off len skip (suc i) entries

unfoldable pub overlaps_excluding : ℕ → List AgEntry → ℕ → ℕ → ℕ → Bool
unfolding overlaps_from
overlaps_excluding bs entries off len skip = overlaps_from bs off len skip 0 entries

-- `u32::MAX` excludes nothing.
unfoldable pub overlaps : ℕ → List AgEntry → ℕ → ℕ → Bool
unfolding overlaps_excluding
overlaps bs entries off len = overlaps_excluding bs entries off len (2 ^ 32 - 1)

abbrev pub Region : Type 0
Region = ℕ × ℕ

-- The order of pairs.
unfoldable pub before : Region → Region → Bool
before a b = ltb a.0 b.0 || (a.0 == b.0 && leb a.1 b.1)

unfoldable pub insert_region : Region → List Region → List Region
unfolding before
insert_region a [] = a ∷ []
insert_region a (b ∷ regions) =
    if before a b then a ∷ (b ∷ regions) else b ∷ insert_region a regions

-- `sort_unstable` on pairs.
unfoldable pub sort_regions : List Region → List Region
unfolding insert_region
sort_regions [] = []
sort_regions (a ∷ regions) = insert_region a (sort_regions regions)

unfoldable pub regions_of : ℕ → List AgSegment → List Region
unfolding seg_end
regions_of bs [] = []
regions_of bs (s ∷ segs) = (s.dev_offset, seg_end bs s) ∷ regions_of bs segs

-- The sweep of `find_gap` from `cursor` on, and the gap behind the last region.
unfoldable pub sweep : ℕ → ℕ → ℕ → List Region → Option ℕ
sweep bytes limit cursor [] = if leb bytes (limit - cursor) then some cursor else none
sweep bytes limit cursor ((s0, s1) ∷ regions) =
    let rest = sweep bytes limit (max cursor s1) regions in
    if ltb cursor s0 && leb bytes (min s0 limit - cursor) then some cursor else rest

unfoldable pub find_gap : ℕ → List AgEntry → ℕ → ℕ → Option ℕ
unfolding sweep sort_regions regions_of all_segs
find_gap bs entries bytes limit =
    sweep bytes limit 0 (sort_regions (regions_of bs (all_segs entries)))
