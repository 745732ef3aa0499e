-- ===== src/Filesys.antt =====
-- NachOS-4.0/code/filesys: files and directories over the disk.
pub mod Header
pub mod Directory
pub mod Disk
pub mod Latency
pub mod OpenFile
pub mod Layout
pub mod FileSystem
mod Tests
