-- ===== src/File/Attr.antt =====
-- src/fs.rs, `setattr`, the calls by path, `import` and `kernel_update`.
use fs.Fs.Write.{sync}
use fs.Prelude.Exec.{◌>>=◌, ◌>>◌, Exec, pure, reads, lift, modify}
use fs.Alloc.Table.{add_u64, superblock}
use fs.Fs.Write.{on_dev}
use fs.Fs.Inodes.{read_inode}
use fs.File.Truncate.{truncate}
use fs.File.Paths.{dir_lookup, resolve_parent}
use fs.File.Write.{write}
use fs.File.Op.{with_txn, on_fs, touch, get_inode, put_inode, commit_txn}
use fs.File.Rename.{rename_at}
use fs.File.Create.{create_at, mkdir_at}
use fs.File.Remove.{unlink_at, rmdir_at}
use fs.Dir.Hash.{SipHash24}
use fs.Fmt.Bytes.{Bytes, bytes_eq}
use fs.Fmt.Inode.{Ts, Inode, is_dir}
use fs.Fmt.Checksum.{Crc32c}
use fs.Fmt.Extents.{Extent, extents_parse}
use fs.Device.{pwrite}
use fs.Prelude.{
  ℕ, ◌+◌, ◌-◌, ◌*◌, bit_and, bit_or, Bool, false, not, ◌&&◌, ◌||◌, Option, none, some, List, [],
  ◌∷◌, ◌++◌, length, leb, ◌==◌, if◌then◌else◌, take, replicate, ensure, found_or, into_itself,
  no_kernel_region, kernel_missing, kernel_too_large, err,
}
use fs.Fs.{Gofs}

unfoldable pub given {ℓ} : {A : Type ℓ} → Option A → A → A
given none a = a
given (some b) a = b

-- The attributes of `setattr` apart from the size.
pub record Attributes : Type 0 where
  pub mode : Option ℕ
  pub uid : Option ℕ
  pub gid : Option ℕ
  pub atime : Option Ts
  pub mtime : Option Ts

-- `(inode.mode & 0o170000) | (m & 0o7777)`
unfoldable pub new_mode : Option ℕ → ℕ → ℕ
new_mode none mode = mode
new_mode (some m) mode = bit_or (bit_and mode 0o170000) (bit_and m 0o7777)

unfoldable pub with_attributes : Attributes → Ts → Inode → Inode
unfolding given new_mode
with_attributes a now inode = record inode {
  mode = new_mode a.mode inode.mode;
  uid = given a.uid inode.uid;
  gid = given a.gid inode.gid;
  atime = given a.atime inode.atime;
  mtime = given a.mtime inode.mtime;
  ctime = now;
}

module _ ⦃crc : Crc32c⦄ (levels : ℕ) (clock : ℕ → Ts) where
  unfoldable pub resize_to : ℕ → Option ℕ → Exec Gofs (Unit {0})
  resize_to ino none = pure tt
  resize_to ino (some size) = do
    inode ← reads (λ g. read_inode g ino)
    if not (is_dir inode) && not (inode.size == size)
        then truncate levels clock ino size
        else pure tt

  -- The size is a transaction of its own; its clock is read first.
  unfoldable pub setattr : ℕ → Option ℕ → Attributes → Exec Gofs Inode
  unfolding resize_to with_attributes
  setattr ino size a = do
    resize_to ino size
    with_txn (do
      inode ← get_inode ino
      let changed = with_attributes a (clock 1) inode
      put_inode ino changed
      commit_txn
      pure changed)

-- `trim_matches('/')`
unfoldable pub trim_start : List ℕ → List ℕ
trim_start [] = []
trim_start (u ∷ units) = if u == b'/' then trim_start units else u ∷ units

unfoldable pub trim_end : List ℕ → List ℕ
trim_end [] = []
trim_end (u ∷ units) =
    let rest = trim_end units in if u == b'/' && length rest == 0 then [] else u ∷ rest

unfoldable pub trim_slashes : List ℕ → List ℕ
unfolding trim_start trim_end
trim_slashes path = trim_end (trim_start path)

unfoldable pub starts_with : List ℕ → List ℕ → Bool
starts_with path prefix = bytes_eq (take (length prefix) path) prefix

module _ ⦃crc : Crc32c⦄ ⦃sip : SipHash24⦄ (levels : ℕ) (clock : ℕ → Ts) where
  -- The directory and the name that a path ends in.
  unfoldable pub parent_of : List ℕ → Exec Gofs (ℕ × List ℕ)
  parent_of path = reads (λ g. resolve_parent levels g path)

  unfoldable pub create : List ℕ → ℕ → Exec Gofs ℕ
  unfolding parent_of
  create path mode = do (p, n) ← parent_of path; create_at levels clock p n mode

  unfoldable pub mkdir : List ℕ → ℕ → Exec Gofs ℕ
  unfolding parent_of
  mkdir path mode = do (p, n) ← parent_of path; mkdir_at levels clock p n mode

  unfoldable pub unlink : List ℕ → Exec Gofs (Unit {0})
  unfolding parent_of
  unlink path = do (p, n) ← parent_of path; unlink_at levels clock p n

  unfoldable pub rmdir : List ℕ → Exec Gofs (Unit {0})
  unfolding parent_of
  rmdir path = do (p, n) ← parent_of path; rmdir_at levels clock p n

  unfoldable pub rename : List ℕ → List ℕ → Exec Gofs (Unit {0})
  unfolding parent_of trim_slashes starts_with
  rename from to =
      let f = trim_slashes from in
      let t = trim_slashes to in
      if bytes_eq t f || starts_with t (f ++ b'/' ∷ [])
      then lift (err into_itself)
      else do (p1, n1) ← parent_of from; (p2, n2) ← parent_of to; rename_at levels clock p1 n1 p2 n2

  -- A new file with its content; the times of the write come behind those of the creation.
  unfoldable pub import : List ℕ → Bytes → ℕ → Exec Gofs ℕ
  unfolding create
  import path bytes mode = do
    ino ← create path mode
    written ← write levels (λ k. clock (k + 2)) ino 0 bytes
    pure ino

  -- The blocks reserved for the boot kernel.
  unfoldable pub kernel_capacity : ℕ → List Extent → ℕ
  kernel_capacity bs [] = 0
  kernel_capacity bs (e ∷ es) = e.blocks * bs

  unfoldable pub kernel_name : List ℕ
  kernel_name = b'k' ∷ b'e' ∷ b'r' ∷ b'n' ∷ b'e' ∷ b'l' ∷ b'.' ∷ b'b' ∷ b'i' ∷ b'n' ∷ []

  -- The kernel's bytes are on the device before the metadata that describes them.
  unfoldable pub kernel_update : Bytes → Exec Gofs (Unit {0})
  unfolding kernel_capacity kernel_name
  kernel_update bytes = with_txn (do
    sb ← superblock
    lift (ensure (not (sb.kernel_offset == 0)) no_kernel_region)
    found ← reads (λ s. dir_lookup levels s.fs sb.root_ino kernel_name)
    ino ← lift (found_or found kernel_missing)
    inode ← get_inode ino
    extents ← lift (extents_parse inode.payload)
    let capacity = kernel_capacity sb.blocksize extents
    lift (ensure (leb (length bytes) capacity) kernel_too_large)
    let padded = bytes ++ replicate (capacity - length bytes) 0
    on_fs (on_dev (pwrite padded sb.kernel_offset))
    on_fs sync
    let sized : Inode = record inode { size = length bytes }
    put_inode ino (touch (clock 0) false sized)
    on_fs (
        modify (λ g. record g {
          sb = record g.sb { kernel_end = add_u64 g.sb.kernel_offset (length bytes) };
        }))
    commit_txn)
