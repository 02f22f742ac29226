-- ===== src/File/Op.antt =====
-- src/fs.rs, what the operations share: a transaction from `txn` to `commit`, inodes read and written
-- through it, times, and the test of a name. `Ts::now` is the clock of the operating system; an operation
-- has it as a function from the places where it is called, counted from 0, to the times it gives there.
use fs.Prelude.Exec.{◌>>=◌, Exec, reads, modify}
use fs.Alloc.Table.{AllocState, Alloc, add_u32}
use fs.Fs.Inodes.{read_inode_txn, write_inode_txn}
use fs.Journal.Txn.{empty}
use fs.Journal.Commit.{commit}
use fs.Fmt.Bytes.{bytes_eq}
use fs.Fmt.Inode.{Ts, Inode, inode_payload, fmt_empty}
use fs.Fmt.Checksum.{Crc32c}
use fs.Fmt.AgHeader.{AgHeader}
use fs.Prelude.{
  ℕ, ◌-◌, bit_and, Bool, not, ◌||◌, List, [], ◌∷◌, length, leb, ◌==◌, if◌then◌else◌, replicate, any,
  Out, ensure, name_too_long, invalid_name, ok, err,
}
use fs.Fs.{Gofs}

-- The AG header before one is loaded; each call of the allocator loads its own.
abbrev pub no_header : AgHeader
no_header = record {
  ag_num = 0;
  gen = 0;
  length = 0;
  free_blocks = 0;
  rsvd_blocks = 0;
  full_blocks = 0;
  alloc_root = 0;
  ino_hint = 0;
  data_hint = 0;
  tbl_arena = 0;
}

-- An operation with an empty transaction; the transaction is dropped at its end.
abbrev pub dropping {ℓ} : {A : Type ℓ} → Out A × AllocState → Out A × Gofs
dropping (result, s) = (result, s.fs)

abbrev pub with_txn {ℓ} : {A : Type ℓ} → Exec AllocState A → Exec Gofs A
with_txn m g = dropping (m (record { fs = g; txn = empty; hdr = no_header }))

-- A call on the file system itself.
abbrev pub on_fs {ℓ} : {A : Type ℓ} → Exec Gofs A → Exec AllocState A
on_fs m s = ((m s.fs).0, record s { fs = (m s.fs).1 })

unfoldable pub inode_flag_immutable : ℕ
inode_flag_immutable = 1

abbrev pub dt_file : ℕ
dt_file = 1

abbrev pub dt_dir : ℕ
dt_dir = 2

unfoldable pub is_immutable : Inode → Bool
unfolding inode_flag_immutable
is_immutable inode = not (bit_and inode.flags inode_flag_immutable == 0)

unfoldable pub touch : Ts → Bool → Inode → Inode
touch now ctime_only inode =
    if ctime_only then record inode { ctime = now } else record inode { ctime = now; mtime = now }

-- `saturating_sub(1)` is the subtraction of ℕ.
unfoldable pub drop_link : Inode → Inode
drop_link inode = record inode { nlink = inode.nlink - 1 }

unfoldable pub add_link : Inode → Inode
add_link inode = record inode { nlink = add_u32 inode.nlink 1 }

abbrev default_ts : Ts
default_ts = record { sec = 0; nsec = 0 }

-- `Inode::default`
unfoldable pub default_inode : Inode
default_inode = record {
  format = fmt_empty;
  mode = 0;
  nlink = 0;
  uid = 0;
  gid = 0;
  flags = 0;
  gen = 0;
  size = 0;
  nblocks = 0;
  atime = default_ts;
  mtime = default_ts;
  ctime = default_ts;
  btime = default_ts;
  xattr = 0;
  payload = replicate inode_payload 0;
}

unfoldable pub new_inode : Ts → ℕ → ℕ → Inode
unfolding default_inode
new_inode now mode nlink = record default_inode {
  mode = mode;
  nlink = nlink;
  atime = now;
  mtime = now;
  ctime = now;
  btime = now;
}

-- A name that a directory may have: not empty, without "/", not "." or "..", at most 255 units.
unfoldable pub check_name : List ℕ → Out (Unit {0})
check_name name =
    let dot = b'.' ∷ [] in
    let dots = b'.' ∷ b'.' ∷ [] in
    if length name == 0 || any (λ u. u == b'/') name || bytes_eq name dot || bytes_eq name dots
    then err invalid_name
    else ensure (leb (length name) 255) name_too_long

module _ ⦃crc : Crc32c⦄ where
  unfoldable pub get_inode : ℕ → Alloc Inode
  get_inode ino = reads (λ s. read_inode_txn s.fs s.txn ino)

  unfoldable pub put_inode : ℕ → Inode → Alloc (Unit {0})
  put_inode ino inode = do
    t ← reads (λ s. write_inode_txn s.fs s.txn ino inode)
    modify (λ s. record s { txn = t })

  unfoldable pub commit_txn : Alloc (Unit {0})
  commit_txn = do t ← reads (λ s. ok s.txn); on_fs (commit t)
