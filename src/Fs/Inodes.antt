-- ===== src/Fs/Inodes.antt =====
-- src/fs.rs, reading and writing inodes, on the device and through a transaction.
pub mod Laws
use fs.Prelude.{ℕ, Out, ok, ◌>>=◌}
use fs.Fmt.Bytes.{put_slice, get_slice}
use fs.Fmt.Checksum.{Crc32c}
use fs.Fmt.Inode
use fs.Fmt.Inode.{Inode, inode_size}
use fs.Device.{pread}
use fs.Fs.{Gofs}
use fs.Fs.Read.{inode_phys, inode_block_off}
use fs.Journal.Txn.{Txn, txn_read, txn_write}

module _ ⦃crc : Crc32c⦄ where
  unfoldable pub read_inode : Gofs → ℕ → Out Inode
  read_inode g ino = do off ← inode_phys g ino; buf ← pread g.dev inode_size off; Inode.parse buf

  unfoldable pub read_inode_txn : Gofs → Txn → ℕ → Out Inode
  read_inode_txn g t ino = do
    (blk, off) ← inode_block_off g ino
    buf ← txn_read g t blk
    slot ← get_slice buf off inode_size
    Inode.parse slot

  unfoldable pub write_inode_txn : Gofs → Txn → ℕ → Inode → Out Txn
  write_inode_txn g t ino inode = do
    (blk, off) ← inode_block_off g ino
    buf ← txn_read g t blk
    bytes ← Inode.to_bytes inode
    buf ← put_slice buf off bytes
    ok (txn_write t blk buf)
