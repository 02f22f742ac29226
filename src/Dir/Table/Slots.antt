-- ===== src/Dir/Table/Slots.antt =====
-- src/dir.rs: the slots and the freelist of a header block, written and read back.
use fs.Dir.Table.{dh_hdr, table_from, freelist_from, put_table, put_freelist}
use fs.Fmt.Bytes.{Bytes, to_be, get_slice, put_u32, get_u32}
use fs.Prelude.{
  ℕ, zero, suc, ◌+◌, ◌-◌, ◌*◌, ◌^◌, ◌≤◌, ◌<◌, ◌≡◌, refl, sym, subst, ◌∙◌, inl, inr, false, List, [],
  ◌∷◌, arith, length, ltb, all, ok,
}
use fs.Fmt.Bytes.Slices.{SlicesApart, put_slice-get_slice}
use fs.Fmt.Bytes.Laws.{from_be-to_be_four, length-to_be}

abbrev pub AllU32 : List ℕ → Type 0
AllU32 [] = Unit {0}
AllU32 (b ∷ bs) = (b < 2 ^ 32) × AllU32 bs

get_u32-held :
    (b : Bytes) (off v : ℕ)
    → v < 2 ^ 32
    → get_slice b off (length (to_be 4 v)) ≡ ok (to_be 4 v)
    → get_u32 b off ≡ ok v
unfolding get_u32
get_u32-held b off v small held =
    let four : get_slice b off 4 ≡ ok (to_be 4 v) =
      subst (λ k. get_slice b off k ≡ ok (to_be 4 v)) (length-to_be 4 v) held in
    rw (four, from_be-to_be_four v small) refl

-- The same four bytes are the same number.
get_u32_same :
    (b b' : Bytes) (off : ℕ)
    → get_slice b' off 4 ≡ get_slice b off 4
    → get_u32 b' off ≡ get_u32 b off
unfolding get_u32
get_u32_same b b' off same = rw same refl

-- Only the bytes of a range are others.
abbrev pub ChangedIn : ℕ → ℕ → Bytes → Bytes → Type 0
ChangedIn off len b b' =
    (length b' ≡ length b)
    × ((o n : ℕ) → SlicesApart o n off len → get_slice b' o n ≡ get_slice b o n)

pub put_u32-ChangedIn :
    (b : Bytes) (off v : ℕ)
    → v < 2 ^ 32
    → off + 4 ≤ length b
    → (b' : Bytes) × (put_u32 b off v ≡ ok b') × (get_u32 b' off ≡ ok v) × ChangedIn off 4 b b'
unfolding put_u32
put_u32-ChangedIn b off v small fits =
    let l : length (to_be 4 v) ≡ 4 = length-to_be 4 v in
    let (b', wrote, size, held, same) = put_slice-get_slice b off (to_be 4 v) (omega arith) in
    (
      b',
      wrote,
      get_u32-held b' off v small held,
      (size, λ o n h. same o n (subst (SlicesApart o n off) (sym l) h)),
    )

pub table_from_same :
    (n : ℕ) (b b' : Bytes) (i : ℕ)
    → ((j : ℕ)
        → i ≤ j
        → j < i + n
        → get_slice b' (dh_hdr + j * 4) 4 ≡ get_slice b (dh_hdr + j * 4) 4)
    → table_from n b' i ≡ table_from n b i
unfolding table_from
table_from_same zero b b' i same = refl
table_from_same (suc n) b b' i same =
    rw
      (
        get_u32_same b b' (dh_hdr + i * 4) (same i (omega arith) (omega arith)),
        table_from_same n b b' (suc i) (λ j lo hi. same j (omega arith) (omega arith)),
      )
      refl

-- A table that fits is written and read back.
pub table_from-put_table :
    (b : Bytes) (i : ℕ) (table : List ℕ)
    → AllU32 table
    → dh_hdr + (i + length table) * 4 ≤ length b
    → (b' : Bytes) × (put_table b i table ≡ ok b')
      × (table_from (length table) b' i ≡ ok table)
      × ChangedIn (dh_hdr + i * 4) (length table * 4) b b'
unfolding put_table table_from
table_from-put_table b i [] all fits =
    (b, unfold put_table in refl, unfold table_from in refl, (refl, λ o n h. refl))
table_from-put_table b i (v ∷ table) all fits =
    let (b1, wrote, held, (size, same)) =
      put_u32-ChangedIn b (dh_hdr + i * 4) v all.0 (omega arith) in
    let (b', rest, read, (size', same')) =
      table_from-put_table b1 (suc i) table all.1 (omega arith) in
    let first : get_u32 b' (dh_hdr + i * 4) ≡ ok v =
      get_u32_same b1 b' (dh_hdr + i * 4) (same' (dh_hdr + i * 4) 4 (inl (omega arith))) ∙ held in
    (
      b',
      rw wrote rest,
      rw (first, read) refl,
      (
        size' ∙ size,
        λ o n h. elim h [
          | inl before ↦ same' o n (inl (omega arith)) ∙ same o n (inl before)
          | inr behind ↦ same' o n (inr (omega arith)) ∙ same o n (inr (omega arith))
        ],
      ),
    )

pub freelist_from_same :
    (n : ℕ) (b b' : Bytes) (k : ℕ)
    → length b' ≡ length b
    → 4 * (k + n) ≤ length b
    → ((j : ℕ)
        → k ≤ j
        → j < k + n
        → get_slice b' (length b - 4 * (j + 1)) 4 ≡ get_slice b (length b - 4 * (j + 1)) 4)
    → freelist_from n b' k ≡ freelist_from n b k
unfolding freelist_from
freelist_from_same zero b b' k size fits same = refl
freelist_from_same (suc n) b b' k size fits same =
    rw
      (
        size,
        get_u32_same b b' (length b - 4 * (k + 1)) (same k (omega arith) (omega arith)),
        freelist_from_same n b b' (suc k) size (omega arith)
            (λ j lo hi. same j (omega arith) (omega arith)),
      )
      refl

-- A freelist that fits is written and read back.
pub freelist_from-put_freelist :
    (bs : ℕ) (b : Bytes) (k : ℕ) (freelist : List ℕ)
    → length b ≡ bs
    → AllU32 freelist
    → 4 * (k + length freelist) ≤ bs
    → (b' : Bytes) × (put_freelist bs b k freelist ≡ ok b')
      × (freelist_from (length freelist) b' k ≡ ok freelist)
      × ChangedIn (bs - 4 * (k + length freelist)) (4 * length freelist) b b'
unfolding put_freelist freelist_from
freelist_from-put_freelist bs b k [] len all fits =
    (b, unfold put_freelist in refl, unfold freelist_from in refl, (refl, λ o n h. refl))
freelist_from-put_freelist bs b k (v ∷ freelist) len all fits =
    let (b1, wrote, held, (size, same)) =
      put_u32-ChangedIn b (bs - 4 * (k + 1)) v all.0 (omega arith) in
    let (b', rest, read, (size', same')) =
      freelist_from-put_freelist bs b1 (suc k) freelist (size ∙ len) all.1 (omega arith) in
    let whole : length b' ≡ bs = size' ∙ size ∙ len in
    let first : get_u32 b' (bs - 4 * (k + 1)) ≡ ok v =
      get_u32_same b1 b' (bs - 4 * (k + 1)) (same' (bs - 4 * (k + 1)) 4 (inr (omega arith)))
      ∙ held in
    let room : ltb (length b') (4 * (k + 1)) ≡ false = ground arith in
    (
      b',
      rw wrote rest,
      rw (room, whole, first, read) refl,
      (
        size' ∙ size,
        λ o n h. elim h [
          | inl before ↦ same' o n (inl (omega arith)) ∙ same o n (inl (omega arith))
          | inr behind ↦ same' o n (inr (omega arith)) ∙ same o n (inr (omega arith))
        ],
      ),
    )
