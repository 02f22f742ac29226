-- ===== src/Extent/Inline/Add.antt =====
-- src/extent.rs: a run that `extent_ensure` adds to the inline extents is found by a lookup.
use fs.Alloc.Table.{add_u64, add_u32}
use fs.Extent.Lookup.Inline.{AllFit, IsOutside, AllOutside}
use fs.Extent.Inline.{add_run}
use fs.Extent.Lookup.{extents_lookup}
use fs.Extent.Node.{run}
use fs.Fmt.Extents.{Extent}
use fs.Prelude.{
  ℕ, ◌+◌, ◌-◌, ◌^◌, ◌≤◌, ◌<◌, ◌≡◌, ◌≢◌, ◌⊎◌, inl, inr, false, ◌&&◌, List, [], ◌∷◌, arith, ltb, leb,
  ◌==◌, Bool-cases, ◌%◌, ap₂, true,
}

skips :
    (e : Extent) (lo hi x : ℕ)
    → e.file_block + e.blocks < 2 ^ 64
    → IsOutside lo hi e
    → lo ≤ x
    → x < hi
    → (leb e.file_block x && ltb x (add_u64 e.file_block e.blocks)) ≡ false
skips e lo hi x fits apart above below = ground arith

hit_new :
    (pos blk want x : ℕ)
    → pos + want < 2 ^ 64
    → want < 2 ^ 32
    → x < pos + want
    → pos ≤ x
    → (leb pos x && ltb x (add_u64 pos (want % 2 ^ 32))) ≡ true
hit_new pos blk want x fits small below above = ground arith

-- An extent that ends where the run starts has fewer than 2^32 blocks with it.
abbrev pub HasRoom : ℕ → ℕ → Extent → Type 0
HasRoom pos want e = (e.file_block + e.blocks ≢ pos) ⊎ (e.blocks + want < 2 ^ 32)

abbrev pub AllRoom : ℕ → ℕ → List Extent → Type 0
AllRoom pos want [] = Unit {0}
AllRoom pos want (e ∷ es) = HasRoom pos want e × AllRoom pos want es

room_of :
    (pos want : ℕ) (e : Extent)
    → HasRoom pos want e
    → e.file_block + e.blocks ≡ pos
    → e.blocks + want < 2 ^ 32
room_of pos want e (inl ne) eq = absurd (ne eq)
room_of pos want e (inr room) eq = room

merged :
    (e : Extent) (es : List Extent) (pos blk want x next : ℕ)
    → (add_u64 e.file_block e.blocks == pos && add_u64 e.blk e.blocks == blk) ≡ true
    → e.file_block + e.blocks < 2 ^ 64
    → e.blk + e.blocks < 2 ^ 64
    → HasRoom pos want e
    → pos + want < 2 ^ 64
    → blk + want < 2 ^ 64
    → pos ≤ x
    → x < pos + want
    → extents_lookup (add_run pos blk want (e ∷ es)) x next ≡ run (blk + (x - pos)) (pos + want - x)
unfolding extents_lookup add_run
merged e es pos blk want x next m fits blk_fits room pos_fits blk_small above below =
    let ends : e.file_block + e.blocks ≡ pos = ground arith in
    let small : e.blocks + want < 2 ^ 32 = room_of pos want e room ends in
    let longer : add_u32 e.blocks (want % 2 ^ 32) ≡ e.blocks + want = ground arith in
    let hit : (leb e.file_block x && ltb x (add_u64 e.file_block (e.blocks + want))) ≡ true =
      ground arith in
    rw (m, longer, hit) (ap₂ run (ground arith) (ground arith))

-- A lookup of a block of a run that is added, as a new extent or behind the one that it continues, gives the
-- block where the run has it and the blocks from there to the run's end. The run has fewer than 2^32 blocks, its
-- ends and the sums of each extent fit 64 bits, no extent has a block of the run, and an extent that ends in the
-- file where the run starts has fewer than 2^32 blocks with it.
pub extents_lookup-add_run :
    (es : List Extent) (pos blk want x next : ℕ)
    → AllFit es
    → AllOutside pos (pos + want) es
    → AllRoom pos want es
    → want < 2 ^ 32
    → pos + want < 2 ^ 64
    → blk + want < 2 ^ 64
    → pos ≤ x
    → x < pos + want
    → extents_lookup (add_run pos blk want es) x next ≡ run (blk + (x - pos)) (pos + want - x)
unfolding extents_lookup add_run
extents_lookup-add_run [] pos blk want x next fit apart rooms small pos_fits blk_small above below =
    rw (hit_new pos blk want x pos_fits small below above) (ap₂ run (omega arith) (omega arith))
extents_lookup-add_run (e ∷ es) pos blk want x next (fits, blk_fits, fit) (this, apart)
      (room, rooms) small pos_fits blk_small above below =
    elim (Bool-cases (add_u64 e.file_block e.blocks == pos && add_u64 e.blk e.blocks == blk)) [
      | inl m ↦ merged e es pos blk want x next m fits blk_fits room pos_fits blk_small above below
      | inr m ↦
          rw (m, skips e pos (pos + want) x fits this above below)
            (extents_lookup-add_run es pos blk want x _ fit apart rooms small pos_fits blk_small
              above below)
    ]
