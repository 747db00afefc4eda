-- ===== src/FileSystem/Block.antt =====
-- The block device under the file system (devices/block.h, outside the repository): an interface.
-- A sector is a list of bytes; the calls are made at sectors that the device has.
use cs124_my_pintos.Common.{ℕ, ◌≡◌, List, length, ◌==◌, if◌then◌else◌}

abbrev pub block_sector_size : ℕ
block_sector_size = 512

pub record Block : Type 1 where
  pub Device : Type 0
  pub block_read : Device → ℕ → List ℕ
  pub block_write : Device → ℕ → List ℕ → Device
  pub length-block_read : (d : Device) (s : ℕ) → length (block_read d s) ≡ block_sector_size
  pub block_read-block_write :
      (d : Device) (s t : ℕ) (bytes : List ℕ)
      → length bytes ≡ block_sector_size
      → block_read (block_write d s bytes) t ≡ (if s == t then bytes else block_read d t)
