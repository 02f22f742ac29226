-- ===== src/File/Paths.antt =====
-- src/fs.rs, names looked up on the device. A path is its UTF-16 units.
pub mod Names
use fs.Fs.Inodes.{read_inode}
use fs.Dir.Hash.{SipHash24}
use fs.Dir.Find.{dir_list, dir_find}
use fs.Journal.Txn.{empty}
use fs.Fmt.Bytes.{bytes_eq}
use fs.Fmt.Dirents.{DirEntry}
use fs.Fmt.Checksum.{Crc32c}
use fs.Prelude.{
  ℕ, ◌||◌, Option, none, some, List, [], ◌∷◌, length, ◌==◌, if◌then◌else◌, Out, ◌>>=◌, found_or,
  no_such_file, is_root, ok,
}
use fs.Fs.{Gofs}

-- A unit in front of the first part.
unfoldable pub onto_first : ℕ → List (List ℕ) → List (List ℕ)
onto_first u [] = (u ∷ []) ∷ []
onto_first u (c ∷ cs) = (u ∷ c) ∷ cs

-- `split('/')` and the filter: the parts between slashes that are neither empty nor ".".
unfoldable pub split_slash : List ℕ → List (List ℕ)
unfolding onto_first
split_slash [] = [] ∷ []
split_slash (u ∷ units) =
    let rest = split_slash units in if u == b'/' then [] ∷ rest else onto_first u rest

unfoldable pub real_parts : List (List ℕ) → List (List ℕ)
real_parts [] = []
real_parts (c ∷ cs) =
    let rest = real_parts cs in if length c == 0 || bytes_eq c (b'.' ∷ []) then rest else c ∷ rest

unfoldable pub components : List ℕ → List (List ℕ)
unfolding split_slash real_parts
components path = real_parts (split_slash path)

-- `split_last`: the last part and those before it.
unfoldable pub split_last : List (List ℕ) → Option (List ℕ × List (List ℕ))
split_last [] = none
split_last (c ∷ cs) = elim (split_last cs) [
  | none ↦ some (c, [])
  | some last ↦ some (last.0, c ∷ last.1)
]

module _ ⦃crc : Crc32c⦄ (levels : ℕ) where
  unfoldable pub dir_entries : Gofs → ℕ → Out (List DirEntry)
  dir_entries g ino = do inode ← read_inode g ino; dir_list levels g empty inode

module _ ⦃crc : Crc32c⦄ ⦃sip : SipHash24⦄ (levels : ℕ) where
  unfoldable pub dir_lookup : Gofs → ℕ → List ℕ → Out (Option ℕ)
  dir_lookup g dir name = do
    inode ← read_inode g dir
    found ← dir_find levels g empty inode name
    ok (elim found [ none ↦ none | some e ↦ some e.ino ])

  -- The parts of a path, one directory after the other.
  unfoldable pub walk : Gofs → ℕ → List (List ℕ) → Out ℕ
  unfolding dir_lookup
  walk g ino [] = ok ino
  walk g ino (c ∷ cs) = do
    found ← dir_lookup g ino c
    next ← found_or found no_such_file
    walk g next cs

  unfoldable pub lookup_path : Gofs → List ℕ → Out ℕ
  unfolding walk components
  lookup_path g path = walk g g.sb.root_ino (components path)

  unfoldable pub resolve_parent : Gofs → List ℕ → Out (ℕ × List ℕ)
  unfolding walk components split_last
  resolve_parent g path = do
    (name, dirs) ← found_or (split_last (components path)) is_root
    ino ← walk g g.sb.root_ino dirs
    ok (ino, name)
