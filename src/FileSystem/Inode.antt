-- ===== src/FileSystem/Inode.antt =====
-- Inodes, file-system/filesys/inode.c, over the sectors of a volume.
pub mod Disk
pub mod File
pub mod Bytes
pub mod Read
pub mod Allocate
pub mod Grow
pub mod Indirect
pub mod Direct
mod Tests
