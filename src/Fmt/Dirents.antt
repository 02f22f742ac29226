-- ===== src/Fmt/Dirents.antt =====
-- src/fmt.rs, `DirEntry`, `dir_parse` and `dir_append`: the entries of a small directory in an inode's
-- payload. A name is its UTF-16 units; reading one replaces each lone surrogate by U+FFFD.
use fs.Prelude.{
  ℕ, zero, suc, ◌+◌, ◌*◌, ◌%◌, ◌^◌, Bool, ◌&&◌, List, [], ◌∷◌, Out, ok, ◌>>=◌, ◌>>◌, ensure, leb,
  ltb, ◌==◌, if◌then◌else◌, length, name_too_long, embedded_directory_full,
}
use fs.Fmt.Bytes.{Bytes, get_byte, get_u16, get_u64, put_byte, put_u16, put_u64}
use fs.Fmt.Inode.{inode_payload}

pub record DirEntry : Type 0 where
  pub ino : ℕ
  pub ftype : ℕ
  pub name : List ℕ

abbrev is_high : ℕ → Bool
is_high u = leb 0xd800 u && ltb u 0xdc00

abbrev is_low : ℕ → Bool
is_low u = leb 0xdc00 u && ltb u 0xe000

abbrev is_surrogate : ℕ → Bool
is_surrogate u = leb 0xd800 u && ltb u 0xe000

-- `String::from_utf16_lossy`, as units again.
unfoldable pub lossy : List ℕ → List ℕ
lossy [] = []
lossy (u ∷ []) = (if is_surrogate u then 0xfffd else u) ∷ []
lossy (u ∷ (v ∷ units)) =
    let paired = lossy units in
    let single = lossy (v ∷ units) in
    if is_high u && is_low v
    then u ∷ (v ∷ paired)
    else (if is_surrogate u then 0xfffd else u) ∷ single

-- `(i..i + n).map(|i| get_u16(payload, off + i * 2))`
unfoldable pub name_units : Bytes → ℕ → ℕ → ℕ → Out (List ℕ)
name_units payload off i zero = ok []
name_units payload off i (suc n) = do
  u ← get_u16 payload (off + i * 2)
  units ← name_units payload off (suc i) n
  ok (u ∷ units)

-- The loop of `dir_parse`; each round takes 10 bytes or more of the payload.
unfoldable pub dirents_from : ℕ → Bytes → ℕ → Out (List DirEntry)
unfolding name_units lossy
dirents_from zero payload off = ok []
dirents_from (suc fuel) payload off = if ltb (length payload) (off + 10) then ok [] else do
  ino ← get_u64 payload off
  if ino == 0 then ok [] else do
    ftype ← get_byte payload (off + 8)
    nlen ← get_byte payload (off + 9)
    if ltb (length payload) (off + 10 + nlen * 2) then ok [] else do
      units ← name_units payload (off + 10) 0 nlen
      entries ← dirents_from fuel payload (off + 10 + nlen * 2)
      ok (record { ino = ino; ftype = ftype; name = lossy units } ∷ entries)

unfoldable pub dir_parse : Bytes → Out (List DirEntry)
unfolding dirents_from
dir_parse payload = dirents_from (length payload) payload 0

-- The bytes of the entries.
unfoldable pub dirents_size : List DirEntry → ℕ
dirents_size [] = 0
dirents_size (e ∷ entries) = 10 + length e.name * 2 + dirents_size entries

unfoldable pub put_name : Bytes → ℕ → ℕ → List ℕ → Out Bytes
put_name payload off i [] = ok payload
put_name payload off i (u ∷ units) = do
  payload ← put_u16 payload (off + i * 2) u
  put_name payload off (suc i) units

unfoldable pub dir_append : Bytes → DirEntry → Out Bytes
unfolding dir_parse dirents_size put_name
dir_append payload e = do
  ensure (leb (length e.name) 255) name_too_long
  entries ← dir_parse payload
  let off = dirents_size entries
  ensure (leb (off + (10 + length e.name * 2)) inode_payload) embedded_directory_full
  payload ← put_u64 payload off e.ino
  payload ← put_byte payload (off + 8) e.ftype
  payload ← put_byte payload (off + 9) (length e.name % 2 ^ 8)
  put_name payload (off + 10) 0 e.name
