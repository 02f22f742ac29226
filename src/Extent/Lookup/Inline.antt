-- ===== src/Extent/Lookup/Inline.antt =====
-- src/extent.rs: what `map_lookup` says of inline extents, against the blocks that the extents have.
use fs.Alloc.Table.{add_u64}
use fs.Extent.Lookup.{extents_lookup}
use fs.Extent.Node.{Map, hole, run}
use fs.Fmt.Extents.{Extent}
use fs.Prelude.{
  ℕ, suc, ◌+◌, ◌-◌, ◌^◌, ◌≤◌, ◌<◌, min, ◌≡◌, refl, ◌⊎◌, inl, inr, Bool, true, false, ◌&&◌, some,
  List, [], ◌∷◌, arith, ltb, leb, if◌then◌else◌, Bool-cases, get_elem?,
}

-- An extent has block `fblock` of the file as block `blk`, and `len` blocks from there to its end.
abbrev pub Has : Extent → ℕ → ℕ → ℕ → Type 0
Has e fblock blk len =
    (e.file_block ≤ fblock)
    × (fblock + len ≡ e.file_block + e.blocks)
    × (blk + e.file_block ≡ e.blk + fblock)

-- An extent has no block of a range of the file.
abbrev pub IsOutside : ℕ → ℕ → Extent → Type 0
IsOutside lo hi e = (e.file_block + e.blocks ≤ lo) ⊎ (hi ≤ e.file_block)

abbrev pub AllOutside : ℕ → ℕ → List Extent → Type 0
AllOutside lo hi [] = Unit {0}
AllOutside lo hi (e ∷ es) = IsOutside lo hi e × AllOutside lo hi es

-- The sums of each extent fit 64 bits.
abbrev pub AllFit : List Extent → Type 0
AllFit [] = Unit {0}
AllFit (e ∷ es) = (e.file_block + e.blocks < 2 ^ 64) × (e.blk + e.blocks < 2 ^ 64) × AllFit es

-- What a lookup must say of a block: a run is the rest of an extent, and a hole has no block of any, up to
-- a block number.
abbrev pub Says : List Extent → ℕ → ℕ → Map → Type 0
Says es fblock next (hole n) = AllOutside fblock (fblock + n) es × (fblock + n ≤ next)
Says es fblock next (run blk len) =
    (i : ℕ) × (e : Extent) × (get_elem? es i ≡ some e) × (0 < len) × Has e fblock blk len

-- The bound that the next extent sets.
abbrev bound : Extent → ℕ → ℕ → ℕ
bound e fblock next = if ltb fblock e.file_block then min next e.file_block else next

abbrev has_block : Extent → ℕ → Bool
has_block e fblock = leb e.file_block fblock && ltb fblock (add_u64 e.file_block e.blocks)

apart :
    (e : Extent) (fblock next n : ℕ)
    → e.file_block + e.blocks < 2 ^ 64
    → has_block e fblock ≡ false
    → fblock + n ≤ bound e fblock next
    → IsOutside fblock (fblock + n) e
apart e fblock next n fits missed below = ground arith

bound-le : (e : Extent) (fblock next n : ℕ) → n ≤ bound e fblock next → n ≤ next
bound-le e fblock next n below = ground arith

le-bound : (e : Extent) (fblock next : ℕ) → fblock ≤ next → fblock ≤ bound e fblock next
le-bound e fblock next below = ground arith

Says-cons :
    (e : Extent) (es : List Extent) (fblock next : ℕ) (m : Map)
    → e.file_block + e.blocks < 2 ^ 64
    → has_block e fblock ≡ false
    → Says es fblock (bound e fblock next) m
    → Says (e ∷ es) fblock next m
Says-cons e es fblock next (hole n) fits missed (clear, below) =
    ((apart e fblock next n fits missed below, clear), bound-le e fblock next (fblock + n) below)
Says-cons e es fblock next (run blk len) fits missed (i, f, at, long, has) =
    (suc i, f, at, long, has)

Says-here :
    (e : Extent) (es : List Extent) (fblock next : ℕ)
    → e.file_block + e.blocks < 2 ^ 64
    → e.blk + e.blocks < 2 ^ 64
    → has_block e fblock ≡ true
    → Says
        (e ∷ es)
        fblock
        next
        (run (add_u64 e.blk (fblock - e.file_block)) (e.blocks - (fblock - e.file_block)))
Says-here e es fblock next fits blk_fits hit =
    (0, e, refl, ground arith, (ground arith, ground arith, ground arith))

-- A lookup in inline extents finds a run only if it is the rest of one of the extents from the block on, and a
-- hole only if none of its blocks is in an extent. The sums of each extent fit 64 bits.
pub extents_lookup-Says :
    (es : List Extent) (fblock next : ℕ)
    → AllFit es
    → fblock ≤ next
    → Says es fblock next (extents_lookup es fblock next)
unfolding extents_lookup
extents_lookup-Says [] fblock next fits below = (tt, omega arith)
extents_lookup-Says (e ∷ es) fblock next (fits, blk_fits, rest) below =
    elim (Bool-cases (has_block e fblock)) [
      | inl hit ↦ rw hit (Says-here e es fblock next fits blk_fits hit)
      | inr missed ↦ rw missed (
          Says-cons e es fblock next _ fits missed (
            extents_lookup-Says es fblock (bound e fblock next) rest
              (le-bound e fblock next below)))
    ]
