-- ===== src/Fmt/AgMap/Resolve.antt =====
-- Where `resolve` sends the blocks of a well-formed map.
use native.Mathlib.Nat.{add-mul, suc-mul}
use fs.Prelude.{
  ℕ, suc, ◌+◌, ◌-◌, ◌*◌, ◌%◌, ◌^◌, ◌≤◌, ◌<◌, ◌≡◌, ◌≢◌, ◌⊎◌, inl, inr, refl, ap, Bool, true, false,
  ◌&&◌, some, List, [], ◌∷◌, ltb, leb, if◌then◌else◌, le_or_lt, arith,
}
use fs.Fmt.AgMap.{AgSegment, AgEntry, resolve_in}

-- Two segments that share no byte of the device.
abbrev pub IsApart : ℕ → AgSegment → AgSegment → Type 0
IsApart bs s s' =
    (s.dev_offset + s.blocks * bs ≤ s'.dev_offset) ⊎ (s'.dev_offset + s'.blocks * bs ≤ s.dev_offset)

abbrev pub AllApart : ℕ → AgSegment → List AgSegment → Type 0
AllApart bs s [] = Unit {0}
AllApart bs s (s' ∷ segs) = IsApart bs s s' × AllApart bs s segs

-- A segment that ends within the 32-bit block numbers of its AG and the 64-bit offsets of the device.
abbrev pub IsWithin : ℕ → AgSegment → Type 0
IsWithin bs s = (s.ag_block + s.blocks < 2 ^ 32) × (s.dev_offset + s.blocks * bs < 2 ^ 64)

abbrev pub AllWithin : ℕ → List AgSegment → Type 0
AllWithin bs [] = Unit {0}
AllWithin bs (s ∷ segs) = IsWithin bs s × AllWithin bs segs

-- The segments of all entries.
abbrev pub EntriesWithin : ℕ → List AgEntry → Type 0
EntriesWithin bs [] = Unit {0}
EntriesWithin bs (e ∷ entries) = AllWithin bs e.segs × EntriesWithin bs entries

-- All segments of a list lie apart.
abbrev pub IsDisjoint : ℕ → List AgSegment → Type 0
IsDisjoint bs [] = Unit {0}
IsDisjoint bs (s ∷ segs) = AllApart bs s segs × IsDisjoint bs segs

-- All segments of one list lie apart from all of the other.
abbrev pub AreApart : ℕ → List AgSegment → List AgSegment → Type 0
AreApart bs [] others = Unit {0}
AreApart bs (s ∷ segs) others = AllApart bs s others × AreApart bs segs others

-- The entries of a map, each without overlaps and apart from the entries behind it.
abbrev pub EntriesApart : ℕ → AgEntry → List AgEntry → Type 0
EntriesApart bs e [] = Unit {0}
EntriesApart bs e (e' ∷ entries) = AreApart bs e.segs e'.segs × EntriesApart bs e entries

abbrev pub IsWellFormed : ℕ → List AgEntry → Type 0
IsWellFormed bs [] = Unit {0}
IsWellFormed bs (e ∷ entries) =
    IsDisjoint bs e.segs × EntriesApart bs e entries × IsWellFormed bs entries

-- The byte ranges of two blocks.
abbrev pub BlocksApart : ℕ → ℕ → ℕ → Type 0
BlocksApart bs off off' = (off + bs ≤ off') ⊎ (off' + bs ≤ off)

-- Blocks of one row: an earlier one ends where a later one starts, at the latest.
row_room : (bs k k' : ℕ) → k < k' → k * bs + bs ≤ k' * bs
row_room bs k k' h =
    let d : ℕ = k' - suc k in
    let e : k' ≡ suc k + d = omega arith in
    omega (arith, ap (λ n. n * bs) e, add-mul (suc k) d bs, suc-mul k bs)

module _ (bs : ℕ) where
  -- A block and where it lies, in a segment.
  abbrev IsIn : ℕ → ℕ → AgSegment → Type 0
  IsIn local off s =
      (s.ag_block ≤ local)
      × (local < s.ag_block + s.blocks)
      × (off ≡ s.dev_offset + (local - s.ag_block) * bs)

  IsIn-bounds :
      (local off : ℕ) (s : AgSegment)
      → IsIn local off s
      → (s.dev_offset ≤ off) × (off + bs ≤ s.dev_offset + s.blocks * bs)
  IsIn-bounds local off s (lo, hi, e) =
      (omega arith, omega (arith, row_room bs (local - s.ag_block) s.blocks (omega arith)))

  IsIn-apart :
      (local local' off off' : ℕ) (s : AgSegment)
      → local ≢ local'
      → IsIn local off s
      → IsIn local' off' s
      → BlocksApart bs off off'
  IsIn-apart local local' off off' s apart (lo, hi, e) (lo', hi', e') =
      elim (le_or_lt local local') [
        | inl le ↦ inl (
            omega (
              arith,
              row_room bs (local - s.ag_block) (local' - s.ag_block) (
                  le_ne (local - s.ag_block) (local' - s.ag_block) (omega arith)
                    (λ k. apart (omega arith))),
            ))
        | inr lt ↦
            inr
              (omega (arith, row_room bs (local' - s.ag_block) (local - s.ag_block) (omega arith)))
      ]
    where
      le_ne : (a b : ℕ) → a ≤ b → a ≢ b → a < b
      le_ne a b h ne = ground arith

  -- A resolved block lies in the first segment or resolves in the others.
  resolve_in-cases :
      (local off : ℕ) (s : AgSegment) (segs : List AgSegment)
      → IsWithin bs s
      → resolve_in local bs (s ∷ segs) ≡ some off
      → IsIn local off s ⊎ (resolve_in local bs segs ≡ some off)
  unfolding resolve_in
  resolve_in-cases local off s segs (blocks_fit, bytes_fit) h =
      split (leb s.ag_block local && ltb local ((s.ag_block + s.blocks) % 2 ^ 32)) refl h
    where
      inside :
          local < s.ag_block + s.blocks
          → s.ag_block ≤ local
          → (s.dev_offset + (local - s.ag_block) * bs) % 2 ^ 64
            ≡ s.dev_offset + (local - s.ag_block) * bs
      inside hi lo = omega (arith, row_room bs (local - s.ag_block) s.blocks (omega arith))

      split :
          (b : Bool)
          → (leb s.ag_block local && ltb local ((s.ag_block + s.blocks) % 2 ^ 32)) ≡ b
          → (if b
              then some ((s.dev_offset + (local - s.ag_block) * bs) % 2 ^ 64)
              else resolve_in local bs segs)
            ≡ some off
          → IsIn local off s ⊎ (resolve_in local bs segs ≡ some off)
      split true e h =
          let lo : s.ag_block ≤ local = ground arith in
          let hi : local < s.ag_block + s.blocks = ground arith in
          inl (lo, hi, (let same = inside hi lo in cc))
      split false e h = inr h

  resolve_in-apart_from :
      (local off : ℕ) (s : AgSegment) (segs : List AgSegment)
      → AllApart bs s segs
      → AllWithin bs segs
      → resolve_in local bs segs ≡ some off
      → (s.dev_offset + s.blocks * bs ≤ off) ⊎ (off + bs ≤ s.dev_offset)
  resolve_in-apart_from local off s [] all within h = absurd (unfold resolve_in in cc)
  resolve_in-apart_from local off s (s' ∷ segs) all (fits, within) h =
      elim (resolve_in-cases local off s' segs fits h) [
        | inl here ↦
            let (lo, hi) = IsIn-bounds local off s' here in
            elim all.0 [ inl a ↦ inl (omega arith) | inr a ↦ inr (omega arith) ]
        | inr there ↦ resolve_in-apart_from local off s segs all.1 within there
      ]

  -- A block of one segment, and one of segments that lie apart from it.
  IsIn-apart_from :
      (local local' off off' : ℕ) (s : AgSegment) (segs : List AgSegment)
      → AllApart bs s segs
      → AllWithin bs segs
      → IsIn local off s
      → resolve_in local' bs segs ≡ some off'
      → BlocksApart bs off off'
  IsIn-apart_from local local' off off' s segs all within here there =
      let (lo, hi) = IsIn-bounds local off s here in
      elim (resolve_in-apart_from local' off' s segs all within there) [
        | inl a ↦ inl (omega arith)
        | inr a ↦ inr (omega arith)
      ]

  pub BlocksApart-sym : (off off' : ℕ) → BlocksApart bs off off' → BlocksApart bs off' off
  BlocksApart-sym off off' (inl a) = inr a
  BlocksApart-sym off off' (inr a) = inl a

  pub resolve_in-apart :
      (local local' off off' : ℕ) (segs : List AgSegment)
      → IsDisjoint bs segs
      → AllWithin bs segs
      → local ≢ local'
      → resolve_in local bs segs ≡ some off
      → resolve_in local' bs segs ≡ some off'
      → BlocksApart bs off off'
  resolve_in-apart local local' off off' [] all within apart h h' = absurd (unfold resolve_in in cc)
  resolve_in-apart local local' off off' (s ∷ segs) all (fits, within) apart h h' =
      elim (resolve_in-cases local off s segs fits h) [
        | inl here ↦ elim (resolve_in-cases local' off' s segs fits h') [
          | inl here' ↦ IsIn-apart local local' off off' s apart here here'
          | inr there' ↦ IsIn-apart_from local local' off off' s segs all.0 within here there'
        ]
        | inr there ↦ elim (resolve_in-cases local' off' s segs fits h') [
          | inl here' ↦
              BlocksApart-sym off' off
                (IsIn-apart_from local' local off' off s segs all.0 within here' there)
          | inr there' ↦ resolve_in-apart local local' off off' segs all.1 within apart there there'
        ]
      ]

  pub resolve_in-AreApart :
      (local local' off off' : ℕ) (segs others : List AgSegment)
      → AreApart bs segs others
      → AllWithin bs segs
      → AllWithin bs others
      → resolve_in local bs segs ≡ some off
      → resolve_in local' bs others ≡ some off'
      → BlocksApart bs off off'
  resolve_in-AreApart local local' off off' [] others all within within' h h' =
      absurd (unfold resolve_in in cc)
  resolve_in-AreApart local local' off off' (s ∷ segs) others all (fits, within) within' h h' =
      elim (resolve_in-cases local off s segs fits h) [
        | inl here ↦ IsIn-apart_from local local' off off' s others all.0 within' here h'
        | inr there ↦
            resolve_in-AreApart local local' off off' segs others all.1 within within' there h'
      ]
