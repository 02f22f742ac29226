-- ===== src/Dir/Embedded.antt =====
-- src/dir.rs, `dir_remove` on a directory whose entries lie in the inode's payload.
use fs.Dir.Find.{position}
use fs.Fmt.Bytes.{Bytes}
use fs.Fmt.Dirents.{DirEntry, dir_parse, dir_append}
use fs.Fmt.Inode.{Inode, inode_payload, fmt_empty}
use fs.Prelude.{
  ℕ, zero, suc, List, [], ◌∷◌, length, ◌==◌, if◌then◌else◌, get_elem?, replicate, Out, ◌>>=◌,
  unwrap, found_or, not_found, ok,
}

-- `Vec::remove`
unfoldable pub remove_at {ℓ} : {A : Type ℓ} → ℕ → List A → List A
remove_at i [] = []
remove_at zero (a ∷ as') = as'
remove_at (suc i) (a ∷ as') = a ∷ remove_at i as'

-- The entries, written into an empty payload one after the other.
unfoldable pub repack : List DirEntry → Bytes → Out Bytes
repack [] p = ok p
repack (e ∷ es) p = dir_append p e >>= repack es

unfoldable pub embed_remove : Inode → List ℕ → Out (Inode × DirEntry)
unfolding position remove_at repack
embed_remove inode name = do
  entries ← dir_parse inode.payload
  i ← found_or (position name entries) not_found
  removed ← unwrap (get_elem? entries i)
  let rest = remove_at i entries
  p ← repack rest (replicate inode_payload 0)
  let format = if length rest == 0 then fmt_empty else inode.format
  ok (record inode { payload = p; format = format }, removed)
