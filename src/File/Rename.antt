-- ===== src/File/Rename.antt =====
-- src/fs.rs, `rename_at`.
use fs.Prelude.Exec.{◌>>=◌, ◌>>◌, Exec, pure, reads, lift}
use fs.Alloc.Table.{Alloc}
use fs.File.Op.{
  with_txn, dt_dir, is_immutable, touch, drop_link, add_link, check_name, get_inode, put_inode,
  commit_txn,
}
use fs.File.Remove.{free_directory, release_link}
use fs.Dir.Insert.{dir_insert}
use fs.Dir.Hash.{SipHash24}
use fs.Dir.Find.{dir_find}
use fs.Dir.Remove.{dir_remove}
use fs.Fmt.Dirents.{DirEntry}
use fs.Fmt.Inode.{Ts, Inode, is_dir}
use fs.Fmt.Checksum.{Crc32c}
use fs.Prelude.{
  ℕ, false, not, ◌||◌, none, some, List, ◌==◌, if◌then◌else◌, ensure, found_or, not_a_directory,
  no_such_file, is_a_directory, immutable_file,
}
use fs.Fs.{Gofs}

module _ ⦃crc : Crc32c⦄ ⦃sip : SipHash24⦄ (levels : ℕ) where
  -- The file that has the new name loses it: the directory without the name.
  unfoldable pub replace_target : Inode → DirEntry → DirEntry → List ℕ → Alloc Inode
  replace_target dst ent existing n2 = do
    ei ← get_inode existing.ino
    lift (ensure (not (is_immutable ei)) immutable_file)
    let moves_dir = ent.ftype == dt_dir
    lift (ensure (moves_dir || not (is_dir ei)) is_a_directory)
    lift (ensure (not moves_dir || is_dir ei) not_a_directory)
    dst ←
        if is_dir ei
        then (do free_directory levels existing.ino ei; pure (drop_link dst))
        else (do release_link levels (λ inode. inode) existing.ino ei; pure dst)
    (dst, removed) ← dir_remove levels dst n2
    pure dst

  -- The entry under its new name.
  unfoldable pub enter_as : ℕ → Inode → DirEntry → List ℕ → Alloc Inode
  enter_as p2 dst ent n2 =
      dir_insert levels p2 dst (record { ino = ent.ino; ftype = ent.ftype; name = n2 })

  -- The name moves within a directory.
  unfoldable pub move_within : (ℕ → Ts) → ℕ → Inode → DirEntry → (n1 n2 : List ℕ) → Alloc (Unit {0})
  unfolding enter_as
  move_within clock p2 dst ent n1 n2 = do
    (dst, removed) ← dir_remove levels dst n1
    dst ← enter_as p2 dst ent n2
    put_inode p2 (touch (clock 0) false dst)
    commit_txn

  -- The name moves from one directory to another; a directory takes its link to the parent with it.
  unfoldable pub move_across :
      (ℕ → Ts) → (p1 p2 : ℕ) → (src dst : Inode) → DirEntry → (n1 n2 : List ℕ) → Alloc (Unit {0})
  unfolding enter_as
  move_across clock p1 p2 src dst ent n1 n2 = do
    (src, removed) ← dir_remove levels src n1
    dst ← enter_as p2 dst ent n2
    let moves_dir = ent.ftype == dt_dir
    let left = if moves_dir then drop_link src else src
    let entered = if moves_dir then add_link dst else dst
    put_inode p1 (touch (clock 0) false left)
    put_inode p2 (touch (clock 1) false entered)
    commit_txn

  unfoldable pub finish_rename :
      (ℕ → Ts) → (p1 p2 : ℕ) → (src dst : Inode) → DirEntry → (n1 n2 : List ℕ) → Alloc (Unit {0})
  unfolding move_within move_across
  finish_rename clock p1 p2 src dst ent n1 n2 =
      if p1 == p2
      then move_within clock p2 dst ent n1 n2
      else move_across clock p1 p2 src dst ent n1 n2

  unfoldable pub rename_at : (ℕ → Ts) → ℕ → List ℕ → ℕ → List ℕ → Exec Gofs (Unit {0})
  unfolding replace_target finish_rename
  rename_at clock p1 n1 p2 n2 = with_txn (do
    lift (check_name n2)
    src ← get_inode p1
    found ← reads (λ s. dir_find levels s.fs s.txn src n1)
    ent ← lift (found_or found no_such_file)
    dst ← if p1 == p2 then pure src else get_inode p2
    target ← reads (λ s. dir_find levels s.fs s.txn dst n2)
    elim target [
      | none ↦ finish_rename clock p1 p2 src dst ent n1 n2
      | some existing ↦ if existing.ino == ent.ino then pure tt else do
        dst ← replace_target dst ent existing n2
        finish_rename clock p1 p2 src dst ent n1 n2
    ])
