-- ===== src/File/Create.antt =====
-- src/fs.rs, new names: `create_at`, `mkdir_at` and `symlink_at` over `mknod`, and `link_at`. The content
-- of a symbolic link is the UTF-8 bytes of its target.
use fs.Alloc.Table.{Alloc}
use fs.Prelude.Exec.{◌>>=◌, ◌>>◌, Exec, pure, reads, lift}
use fs.Alloc.Slots.{alloc_inode}
use fs.File.Op.{
  with_txn, dt_file, dt_dir, touch, add_link, new_inode, check_name, get_inode, put_inode,
  commit_txn,
}
use fs.Dir.Insert.{dir_insert}
use fs.Dir.Hash.{SipHash24}
use fs.Dir.Find.{dir_find}
use fs.Fmt.Bytes.{Bytes, put_slice}
use fs.Fmt.Addr.{blk_split}
use fs.Fmt.Inode.{Ts, Inode, inode_payload, fmt_embed, is_dir}
use fs.Fmt.Checksum.{Crc32c}
use fs.Prelude.{
  ℕ, bit_and, bit_or, true, false, not, Option, none, some, List, length, leb, ◌==◌, if◌then◌else◌,
  ensure, already_exists, parent_not_directory, symlink_too_long, link_to_directory, err,
}
use fs.Fs.{Gofs}

-- The target of a symbolic link lies in the payload.
unfoldable pub with_content : Option Bytes → Inode → Alloc Inode
with_content none inode = pure inode
with_content (some bytes) inode = do
  lift (ensure (leb (length bytes) inode_payload) symlink_too_long)
  payload ← lift (put_slice inode.payload 0 bytes)
  pure (record inode { format = fmt_embed; payload = payload; size = length bytes })

-- `mode & 0o7777` under a file type.
unfoldable pub mode_of : ℕ → ℕ → ℕ
mode_of kind mode = bit_or kind (bit_and mode 0o7777)

module _ ⦃crc : Crc32c⦄ ⦃sip : SipHash24⦄ (levels : ℕ) (clock : ℕ → Ts) where
  unfoldable pub mknod : ℕ → List ℕ → (mode ftype nlink : ℕ) → Option Bytes → Exec Gofs ℕ
  unfolding with_content
  mknod parent name mode ftype nlink content = with_txn (do
    lift (check_name name)
    pinode ← get_inode parent
    lift (ensure (is_dir pinode) parent_not_directory)
    found ← reads (λ s. dir_find levels s.fs s.txn pinode name)
    elim found [
      | some other ↦ lift (err already_exists)
      | none ↦ do
        ino ← alloc_inode (blk_split parent).0
        inode ← with_content content (new_inode (clock 0) mode nlink)
        put_inode ino inode
        pinode ← dir_insert levels parent pinode (record { ino = ino; ftype = ftype; name = name })
        let linked = if ftype == dt_dir then add_link pinode else pinode
        put_inode parent (touch (clock 1) false linked)
        commit_txn
        pure ino
    ])

  unfoldable pub create_at : ℕ → List ℕ → ℕ → Exec Gofs ℕ
  unfolding mknod mode_of
  create_at parent name mode = mknod parent name (mode_of 0o100000 mode) dt_file 1 none

  unfoldable pub mkdir_at : ℕ → List ℕ → ℕ → Exec Gofs ℕ
  unfolding mknod mode_of
  mkdir_at parent name mode = mknod parent name (mode_of 0o040000 mode) dt_dir 2 none

  unfoldable pub symlink_at : ℕ → List ℕ → Bytes → Exec Gofs ℕ
  unfolding mknod
  symlink_at parent name target = mknod parent name 0o120777 dt_file 1 (some target)

  unfoldable pub link_at : ℕ → ℕ → List ℕ → Exec Gofs (Unit {0})
  link_at ino parent name = with_txn (do
    lift (check_name name)
    inode ← get_inode ino
    lift (ensure (not (is_dir inode)) link_to_directory)
    pinode ← get_inode parent
    pinode ← dir_insert levels parent pinode (record { ino = ino; ftype = dt_file; name = name })
    put_inode ino (touch (clock 0) true (add_link inode))
    put_inode parent (touch (clock 1) false pinode)
    commit_txn)
