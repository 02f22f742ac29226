-- ===== src/File.antt =====
-- src/fs.rs: the operations on files, directories and paths. `Op` has what they share: each runs through a
-- transaction that its last step commits. `Paths` looks names up, `Read`, `Write` and `Truncate` are the
-- content of files, `Create`, `Remove` and `Rename` the name space, `Attr` the attributes, the calls by
-- path and the boot kernel.
pub mod Op
pub mod Paths
pub mod Read
pub mod Write
pub mod Truncate
pub mod Create
pub mod Remove
pub mod Rename
pub mod Attr
