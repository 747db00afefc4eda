-- ===== src/FileSystem/Cache.antt =====
-- The buffer cache, file-system/filesys/cache.c. The code runs here without another thread in
-- between, so a lock is free when it is asked for; `data + offset` and `size` are in bytes.
pub mod Defs
pub mod Arrays
pub mod Invariant
pub mod Lookup
pub mod Operations
pub mod Save
