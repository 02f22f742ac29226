-- ===== src/Fmt/Extents.antt =====
-- src/fmt.rs, `Extent`, `extents_parse` and `extents_store`: at most six 20-byte records of mapped
-- runs in an inode's payload, ended by a record of no blocks.
pub mod Roundtrip
use fs.Prelude.{
  ℕ, zero, suc, ◌+◌, ◌*◌, true, false, List, [], ◌∷◌, Out, ok, ensure, leb, ◌==◌, replicate, length,
  too_many_extents, ◌>>=◌, ◌>>◌,
}
use fs.Fmt.Bytes.{Bytes, put_u32, put_u64, get_u32, get_u64}

pub record Extent : Type 0 where
  pub file_block : ℕ
  pub blk : ℕ
  pub blocks : ℕ

abbrev pub extent_rec : ℕ
extent_rec = 20

abbrev pub max_inline_extents : ℕ
max_inline_extents = 6

-- The rounds of the loop from index `i`, with `n` left.
unfoldable pub parse_from : Bytes → ℕ → ℕ → Out (List Extent)
parse_from payload i zero = ok []
parse_from payload i (suc n) = do
  let off = i * extent_rec
  blocks ← get_u32 payload (off + 16)
  elim (blocks == 0) [
    | true ↦ ok []
    | false ↦ do
      file_block ← get_u64 payload off
      blk ← get_u64 payload (off + 8)
      rest ← parse_from payload (suc i) n
      ok (record { file_block = file_block; blk = blk; blocks = blocks } ∷ rest)
  ]

unfoldable pub extents_parse : Bytes → Out (List Extent)
unfolding parse_from
extents_parse payload = parse_from payload 0 max_inline_extents

-- The body of the loop that stores the records.
unfoldable pub put_extent : Bytes → ℕ → Extent → Out Bytes
put_extent payload off e = do
  payload ← put_u64 payload off e.file_block
  payload ← put_u64 payload (off + 8) e.blk
  put_u32 payload (off + 16) e.blocks

unfoldable pub store_from : Bytes → ℕ → List Extent → Out Bytes
store_from payload i [] = ok payload
store_from payload i (e ∷ extents) = do
  payload ← put_extent payload (i * extent_rec) e
  store_from payload (suc i) extents

unfoldable pub extents_store : Bytes → List Extent → Out Bytes
unfolding store_from
extents_store payload extents = do
  ensure (leb (length extents) max_inline_extents) too_many_extents
  store_from (replicate (length payload) 0) 0 extents
