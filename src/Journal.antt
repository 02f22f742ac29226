-- ===== src/Journal.antt =====
-- src/journal.rs: metadata transactions. `Txn` has the transaction and its reads and writes, `Encode`
-- the descriptor and commit blocks, `Commit` writing and applying a transaction, `Replay` reading
-- transactions back, `Recover` replaying them and `Open` opening a file system; `Store` and `Readback`
-- are about what the journal holds after writes.
pub mod Txn
pub mod Encode
pub mod Commit
pub mod Replay
pub mod Recover
pub mod Open
pub mod Store
pub mod Readback
