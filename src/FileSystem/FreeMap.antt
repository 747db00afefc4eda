-- ===== src/FileSystem/FreeMap.antt =====
-- The map of free sectors, file-system/filesys/free-map.c.
pub mod Defs
pub mod Laws
