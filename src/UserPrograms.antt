-- ===== src/UserPrograms.antt =====
-- User programs: user-programs/userprog/ and, where it has gone on, virtual-memory/userprog/.
pub mod Descriptors
pub mod Children
pub mod Segment
pub mod Threads
pub mod Syscall
pub mod Stack
