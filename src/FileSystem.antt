-- ===== src/FileSystem.antt =====
-- The file system of file_system/: inodes and directories (fs.c), and the FUSE operations
-- (fisopfs.c).
pub mod Types
pub mod Inodes
pub mod Directory
pub mod Operations
pub mod Disk
pub mod Content
pub mod Reading
pub mod Lookup
pub mod Creation
pub mod Making
mod Tests
mod TestsDisk
