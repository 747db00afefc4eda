-- ===== src/VirtualMemory.antt =====
-- The directory virtual-memory: the interrupts, the swap, the page directories, the supplemental page
-- table, the frames, and the mapping of files.
pub mod Interrupt
pub mod Swap
pub mod Pagedir
pub mod Page
pub mod Frame
pub mod Fetch
pub mod Mapping
pub mod Exception
