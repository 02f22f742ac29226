-- ===== src/Resize/Gaps.antt =====
-- The gap that `find_gap` returns, against the test that `add_ag` and `relocate` make.
use fs.Prelude.{
  ℕ, suc, ◌+◌, ◌-◌, ◌^◌, ◌≤◌, ◌<◌, ◌≡◌, ◌⊎◌, inl, inr, refl, subst, Bool, true, false, ◌&&◌, ◌||◌,
  Bool-cases, Option, some, none, List, [], ◌∷◌, ◌++◌, ltb, leb, if◌then◌else◌, any, min, max,
  arith,
}
use fs.Fmt.AgMap.{AgSegment, AgEntry}
use fs.Resize.Regions.{
  Region, all_segs, hits, overlaps_from, overlaps_excluding, overlaps, before, insert_region,
  sort_regions, regions_of, sweep, find_gap,
}

-- A region that lies apart from `bytes` bytes at `off`.
abbrev IsClear : ℕ → ℕ → Region → Type 0
IsClear off bytes r = (r.1 ≤ off) ⊎ (off + bytes ≤ r.0)

abbrev AllClear : ℕ → ℕ → List Region → Type 0
AllClear off bytes [] = Unit {0}
AllClear off bytes (r ∷ regions) = IsClear off bytes r × AllClear off bytes regions

abbrev AllFrom : ℕ → List Region → Type 0
AllFrom lo [] = Unit {0}
AllFrom lo (r ∷ regions) = (lo ≤ r.0) × AllFrom lo regions

abbrev IsAscending : List Region → Type 0
IsAscending [] = Unit {0}
IsAscending (r ∷ regions) = AllFrom r.0 regions × IsAscending regions

AllFrom-trans :
    (lo lo' : ℕ) (regions : List Region) → lo ≤ lo' → AllFrom lo' regions → AllFrom lo regions
AllFrom-trans lo lo' [] h all = tt
AllFrom-trans lo lo' (r ∷ regions) h all = (omega arith, AllFrom-trans lo lo' regions h all.1)

insert_region-AllFrom :
    (lo : ℕ) (a : Region) (regions : List Region)
    → lo ≤ a.0
    → AllFrom lo regions
    → AllFrom lo (insert_region a regions)
unfolding insert_region
insert_region-AllFrom lo a [] h all = (h, tt)
insert_region-AllFrom lo a (b ∷ regions) h all = elim (Bool-cases (before a b)) [
  | inl e ↦ rw e (h, all)
  | inr e ↦ rw e (all.0, insert_region-AllFrom lo a regions h all.1)
]

before-le : (a b : Region) → before a b ≡ true → a.0 ≤ b.0
unfolding before
before-le a b h = ground arith

before-ge : (a b : Region) → before a b ≡ false → b.0 ≤ a.0
unfolding before
before-ge a b h = ground arith

insert_region-IsAscending :
    (a : Region) (regions : List Region)
    → IsAscending regions
    → IsAscending (insert_region a regions)
unfolding insert_region
insert_region-IsAscending a [] sorted = (tt, tt)
insert_region-IsAscending a (b ∷ regions) sorted = elim (Bool-cases (before a b)) [
  | inl e ↦
      rw e ((before-le a b e, AllFrom-trans a.0 b.0 regions (before-le a b e) sorted.0), sorted)
  | inr e ↦ rw e (
    insert_region-AllFrom b.0 a regions (before-ge a b e) sorted.0,
    insert_region-IsAscending a regions sorted.1,
  )
]

sort_regions-IsAscending : (regions : List Region) → IsAscending (sort_regions regions)
unfolding sort_regions
sort_regions-IsAscending [] = tt
sort_regions-IsAscending (a ∷ regions) =
    insert_region-IsAscending a (sort_regions regions) (sort_regions-IsAscending regions)

module _ (off bytes : ℕ) where
  insert_region-AllClear :
      (a : Region) (regions : List Region)
      → AllClear off bytes (insert_region a regions)
      → IsClear off bytes a × AllClear off bytes regions
  unfolding insert_region
  insert_region-AllClear a [] all = all
  insert_region-AllClear a (b ∷ regions) all = elim (Bool-cases (before a b)) [
    | inl e ↦
        subst
          (λ t. AllClear off bytes (if t then a ∷ (b ∷ regions) else b ∷ insert_region a regions)) e
          all
    | inr e ↦
        let all' : AllClear off bytes (b ∷ insert_region a regions) =
          subst
            (λ t. AllClear off bytes (if t then a ∷ (b ∷ regions) else b ∷ insert_region a regions))
            e all in
        let rest = insert_region-AllClear a regions all'.1 in (rest.0, (all'.0, rest.1))
  ]

  sort_regions-AllClear :
      (regions : List Region)
      → AllClear off bytes (sort_regions regions)
      → AllClear off bytes regions
  unfolding sort_regions
  sort_regions-AllClear [] all = tt
  sort_regions-AllClear (a ∷ regions) all =
      let rest = insert_region-AllClear a (sort_regions regions) all in
      (rest.0, sort_regions-AllClear regions rest.1)

  AllFrom-AllClear :
      (lo : ℕ) (regions : List Region)
      → off + bytes ≤ lo
      → AllFrom lo regions
      → AllClear off bytes regions
  AllFrom-AllClear lo [] h all = tt
  AllFrom-AllClear lo (r ∷ regions) h all = (inr (omega arith), AllFrom-AllClear lo regions h all.1)

-- What a conditional that gives a value gave it by.
if_some-cases :
    (b : Bool) (x y : ℕ) (rest : Option ℕ)
    → (if b then some x else rest) ≡ some y
    → ((b ≡ true) × (x ≡ y)) ⊎ ((b ≡ false) × (rest ≡ some y))
if_some-cases true x y rest h = inl (refl, cc)
if_some-cases false x y rest h = inr (refl, h)

-- A gap that the sweep finds lies apart from the regions it still had to pass.
sweep-AllClear :
    (bytes limit cursor : ℕ) (regions : List Region) (gap : ℕ)
    → 0 < bytes
    → IsAscending regions
    → sweep bytes limit cursor regions ≡ some gap
    → (cursor ≤ gap) × (gap + bytes ≤ limit) × AllClear gap bytes regions
unfolding sweep
sweep-AllClear bytes limit cursor [] gap pos sorted h =
    elim (if_some-cases (leb bytes (limit - cursor)) cursor gap none h) [
      | inl (fits, same) ↦ (omega arith, ground arith, tt)
      | inr (short, nothing) ↦ cc
    ]
sweep-AllClear bytes limit cursor ((s0, s1) ∷ regions) gap pos sorted h =
    elim (if_some-cases (ltb cursor s0 && leb bytes (min s0 limit - cursor)) cursor gap
      (sweep bytes limit (max cursor s1) regions) h) [
        | inl (fits, same) ↦
            let before : gap + bytes ≤ s0 = ground arith in
            (
              omega arith,
              ground arith,
              (inr before, AllFrom-AllClear gap bytes s0 regions before sorted.0),
            )
        | inr (short, found) ↦
            let (behind, inside, clear) =
              sweep-AllClear bytes limit (max cursor s1) regions gap pos sorted.1 found in
            (omega arith, inside, (inl (omega arith), clear))
      ]

-- Segments whose regions are all clear are not hit.
AllClear-hits :
    (bs off bytes : ℕ) (segs others : List AgSegment)
    → off + bytes < 2 ^ 64
    → AllClear off bytes (regions_of bs (segs ++ others))
    → (any (hits bs off bytes) segs ≡ false) × AllClear off bytes (regions_of bs others)
unfolding regions_of hits
AllClear-hits bs off bytes [] others small all = (refl, all)
AllClear-hits bs off bytes (s ∷ segs) others small all =
    let (none_hit, rest) = AllClear-hits bs off bytes segs others small all.1 in
    (rw none_hit (elim all.0 [ inl behind ↦ ground arith | inr before ↦ ground arith ]), rest)

AllClear-overlaps_from :
    (bs off bytes skip i : ℕ) (entries : List AgEntry)
    → off + bytes < 2 ^ 64
    → AllClear off bytes (regions_of bs (all_segs entries))
    → overlaps_from bs off bytes skip i entries ≡ false
unfolding overlaps_from all_segs
AllClear-overlaps_from bs off bytes skip i [] small all = refl
AllClear-overlaps_from bs off bytes skip i (e ∷ entries) small all =
    let (none_hit, rest) = AllClear-hits bs off bytes e.segs (all_segs entries) small all in
    rw (none_hit, AllClear-overlaps_from bs off bytes skip (suc i) entries small rest) (both _)
  where
    both : (b : Bool) → ((b && false) || false) ≡ false
    both b = ground arith

-- A gap for one byte or more that is found below a limit of 64 bits ends at or before the limit, and
-- the test for a mapped region passes there, whatever AG is excluded.
pub find_gap-overlaps :
    (bs bytes limit gap skip : ℕ) (entries : List AgEntry)
    → 0 < bytes
    → limit < 2 ^ 64
    → find_gap bs entries bytes limit ≡ some gap
    → (gap + bytes ≤ limit)
      × (overlaps bs entries gap bytes ≡ false)
      × (overlaps_excluding bs entries gap bytes skip ≡ false)
unfolding find_gap overlaps overlaps_excluding
find_gap-overlaps bs bytes limit gap skip entries pos small h =
    let regions = regions_of bs (all_segs entries) in
    let (at, inside, sorted_clear) =
      sweep-AllClear bytes limit 0 (sort_regions regions) gap pos (sort_regions-IsAscending regions)
        h in
    let clear = sort_regions-AllClear gap bytes regions sorted_clear in
    let room : gap + bytes < 2 ^ 64 = omega arith in
    (
      inside,
      AllClear-overlaps_from bs gap bytes (2 ^ 32 - 1) 0 entries room clear,
      AllClear-overlaps_from bs gap bytes skip 0 entries room clear,
    )
