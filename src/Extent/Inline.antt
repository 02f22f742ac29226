-- ===== src/Extent/Inline.antt =====
-- src/extent.rs, `extent_ensure`: a range is mapped in the inline extents; the mapping becomes a tree where
-- a run cannot be had in one piece or there are more extents than fit. One round of fuel for each block.
pub mod Add
use fs.Prelude.Exec.{◌>>=◌, pure, lift, attempt}
use fs.Alloc.Table.{Alloc, add_u32, add_u64}
use fs.Alloc.Extents.{alloc_extent}
use fs.Extent.Insert.{to_tree}
use fs.Fmt.Inode.{Inode}
use fs.Fmt.Checksum.{Crc32c}
use fs.Fmt.Extents.{Extent, max_inline_extents, extents_parse, extents_store}
use fs.Prelude.{
  ℕ, zero, suc, ◌-◌, ◌%◌, ◌^◌, min, Bool, ◌&&◌, Option, none, some, List, [], ◌∷◌, ◌++◌, length,
  ltb, leb, ◌==◌, if◌then◌else◌, Error, no_fuel, err,
}

unfoldable pub covers : ℕ → Extent → Bool
covers pos e = leb e.file_block pos && ltb pos (add_u64 e.file_block e.blocks)

-- The first extent that has a block.
unfoldable pub covering : ℕ → List Extent → Option Extent
unfolding covers
covering pos [] = none
covering pos (e ∷ es) = if covers pos e then some e else covering pos es

-- Where the next extent behind a block starts.
unfoldable pub next_start : ℕ → List Extent → Option ℕ
next_start pos [] = none
next_start pos (e ∷ es) =
    let rest = next_start pos es in
    if ltb pos e.file_block
    then elim rest [ none ↦ some e.file_block | some n ↦ some (min e.file_block n) ]
    else rest

unfoldable pub next_or : Option ℕ → ℕ → ℕ
next_or none end = end
next_or (some n) end = n

-- A run of `want` blocks lengthens the first extent that it continues in the file and on the device, or is
-- an extent of its own behind the others.
unfoldable pub add_run : ℕ → ℕ → ℕ → List Extent → List Extent
add_run pos blk want [] = record { file_block = pos; blk = blk; blocks = want % 2 ^ 32 } ∷ []
add_run pos blk want (e ∷ es) =
    let rest = add_run pos blk want es in
    if add_u64 e.file_block e.blocks == pos && add_u64 e.blk e.blocks == blk
    then record e { blocks = add_u32 e.blocks (want % 2 ^ 32) } ∷ es
    else e ∷ rest

-- `sort_by_key`, which is stable.
unfoldable pub insert_sorted : Extent → List Extent → List Extent
insert_sorted e [] = e ∷ []
insert_sorted e (f ∷ fs) =
    let rest = insert_sorted e fs in if leb e.file_block f.file_block then e ∷ f ∷ fs else f ∷ rest

unfoldable pub sort_by_start : List Extent → List Extent
unfolding insert_sorted
sort_by_start [] = []
sort_by_start (e ∷ es) = insert_sorted e (sort_by_start es)

module _ ⦃crc : Crc32c⦄ where
  unfoldable pub store_extents : ℕ → ℕ → Inode → List Extent → Alloc Inode
  unfolding to_tree sort_by_start
  store_extents depth ag inode extents =
      if ltb max_inline_extents (length extents) then to_tree depth ag inode extents else do
        payload ← lift (extents_store inode.payload (sort_by_start extents))
        pure (record inode { payload = payload })

  unfoldable pub ensure_from :
      ℕ
      → (depth ag : ℕ) → Inode
      → (pos end : ℕ) → List Extent
      → List (ℕ × ℕ)
      → Alloc (Inode × List (ℕ × ℕ))
  unfolding covering next_start next_or add_run to_tree store_extents
  ensure_from zero depth ag inode pos end extents fresh =
      if ltb pos end
      then lift (err no_fuel)
      else do inode ← store_extents depth ag inode extents; pure (inode, fresh)
  ensure_from (suc fuel) depth ag inode pos end extents fresh =
      if ltb pos end
      then elim (covering pos extents) [
        | some e ↦ ensure_from fuel depth ag inode (add_u64 e.file_block e.blocks) end extents fresh
        | none ↦
            let next = min (next_or (next_start pos extents) end) end in
            let want = next - pos in
            attempt (alloc_extent ag want)
              (λ (blk : ℕ).
                ensure_from fuel depth ag inode next end (add_run pos blk want extents)
                  (fresh ++ (pos, want) ∷ []))
              (λ (e : Error).
                if length extents == 0
                then lift (err e)
                else do inode ← to_tree depth ag inode extents; pure (inode, fresh))
      ]
      else do inode ← store_extents depth ag inode extents; pure (inode, fresh)

  unfoldable pub extent_ensure : ℕ → ℕ → Inode → (fblock n : ℕ) → Alloc (Inode × List (ℕ × ℕ))
  unfolding ensure_from
  extent_ensure depth ag inode fblock n = do
    extents ← lift (extents_parse inode.payload)
    ensure_from n depth ag inode fblock (add_u64 fblock n) extents []
