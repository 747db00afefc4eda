-- ===== src/FileSystem.antt =====
-- The file system, file-system/filesys/.
pub mod Block
pub mod Cache
pub mod FreeMap
pub mod Volume
pub mod Inode
pub mod Samples
mod Tests
