-- ===== src/Journal/Txn.antt =====
-- src/journal.rs, `Txn`: new contents of blocks by address, in ascending order of the addresses, as
-- the `BTreeMap` iterates.
pub mod Laws
use fs.Prelude.{
  ℕ, Bool, true, false, Option, none, some, List, [], ◌∷◌, Out, ok, ◌==◌, ltb, if◌then◌else◌,
}
use fs.Fmt.Bytes.{Bytes}
use fs.Fs.{Gofs}
use fs.Fs.Read.{read_block}

pub record Txn : Type 0 where
  pub blocks : List (ℕ × Bytes)

abbrev pub empty : Txn
empty = record { blocks = [] }

unfoldable pub is_empty : Txn → Bool
is_empty t = elim t.blocks [ [] ↦ true | b ∷ blocks ↦ false ]

unfoldable pub get : ℕ → List (ℕ × Bytes) → Option Bytes
get blk [] = none
get blk ((b, content) ∷ blocks) = if b == blk then some content else get blk blocks

unfoldable pub insert : ℕ → Bytes → List (ℕ × Bytes) → List (ℕ × Bytes)
insert blk content [] = (blk, content) ∷ []
insert blk content ((b, old) ∷ blocks) =
    if ltb blk b
    then (blk, content) ∷ ((b, old) ∷ blocks)
    else if b == blk
    then (blk, content) ∷ blocks
    else (b, old) ∷ insert blk content blocks

unfoldable pub read_or : Out Bytes → Option Bytes → Out Bytes
read_or below none = below
read_or below (some content) = ok content

-- Reads see the transaction's own writes.
unfoldable pub txn_read : Gofs → Txn → ℕ → Out Bytes
unfolding get read_or
txn_read g t blk = read_or (read_block g blk) (get blk t.blocks)

unfoldable pub txn_write : Txn → ℕ → Bytes → Txn
unfolding insert
txn_write t blk content = record { blocks = insert blk content t.blocks }
