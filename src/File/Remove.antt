-- ===== src/File/Remove.antt =====
-- src/fs.rs, `unlink_at` and `rmdir_at` over `remove_common`.
use fs.Prelude.Exec.{◌>>=◌, ◌>>◌, Exec, pure, reads, lift}
use fs.Alloc.Slots.{free_inode}
use fs.Alloc.Table.{Alloc}
use fs.File.Op.{with_txn, is_immutable, touch, drop_link, get_inode, put_inode, commit_txn}
use fs.Dir.Hash.{SipHash24}
use fs.Dir.Find.{dir_count, dir_find}
use fs.Dir.Remove.{dir_remove}
use fs.Extent.Free.{map_free_all}
use fs.Alloc.Record.Order.{count}
use fs.Fmt.Inode.{Ts, Inode, is_dir}
use fs.Fmt.Checksum.{Crc32c}
use fs.Prelude.{
  ℕ, Bool, true, false, not, List, ◌==◌, if◌then◌else◌, ensure, found_or, not_a_directory,
  no_such_file, is_a_directory, immutable_file, not_empty,
}
use fs.Fs.{Gofs}

module _ ⦃crc : Crc32c⦄ (levels : ℕ) where
  -- The blocks and the slot of an inode are freed.
  unfoldable pub free_file : ℕ → Inode → Alloc (Unit {0})
  free_file ino inode = do inode ← map_free_all levels inode; free_inode ino

  -- An empty directory goes.
  unfoldable pub free_directory : ℕ → Inode → Alloc (Unit {0})
  unfolding free_file
  free_directory ino inode = do
    count ← reads (λ s. dir_count levels s.fs s.txn inode)
    lift (ensure (count == 0) not_empty)
    free_file ino inode

  -- One link less; without links the file goes. `kept` is what becomes of an inode that stays.
  unfoldable pub release_link : (Inode → Inode) → ℕ → Inode → Alloc (Unit {0})
  unfolding free_file drop_link
  release_link kept ino inode =
      let dropped = drop_link inode in
      if dropped.nlink == 0 then free_file ino dropped else put_inode ino (kept dropped)

module _ ⦃crc : Crc32c⦄ ⦃sip : SipHash24⦄ (levels : ℕ) (clock : ℕ → Ts) where
  unfoldable pub remove_common : ℕ → List ℕ → Bool → Exec Gofs (Unit {0})
  unfolding free_directory release_link
  remove_common parent name want_dir = with_txn (do
    pinode ← get_inode parent
    found ← reads (λ s. dir_find levels s.fs s.txn pinode name)
    ent ← lift (found_or found no_such_file)
    inode ← get_inode ent.ino
    lift (
        if want_dir
        then ensure (is_dir inode) not_a_directory
        else ensure (not (is_dir inode)) is_a_directory)
    lift (ensure (not (is_immutable inode)) immutable_file)
    pinode ←
        if want_dir
        then (do free_directory levels ent.ino inode; pure (drop_link pinode))
        else (do release_link levels (touch (clock 0) true) ent.ino inode; pure pinode)
    (pinode, removed) ← dir_remove levels pinode name
    put_inode parent (touch (clock 1) false pinode)
    commit_txn)

  unfoldable pub unlink_at : ℕ → List ℕ → Exec Gofs (Unit {0})
  unfolding remove_common
  unlink_at parent name = remove_common parent name false

  unfoldable pub rmdir_at : ℕ → List ℕ → Exec Gofs (Unit {0})
  unfolding remove_common
  rmdir_at parent name = remove_common parent name true
