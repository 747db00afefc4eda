-- ===== src/UserPrograms/Segment.antt =====
-- Loading a segment: `validate_segment`, the case PT_LOAD of `load`, and `load_segment` of
-- user-programs/userprog/process.c. All numbers are `uint32_t`.
pub mod Laws
mod Tests
use cs124_my_pintos.Common.{
  ℕ, zero, suc, ◌+◌, ◌-◌, ◌*◌, ◌/◌, ◌%◌, ◌^◌, Bool, true, false, not, Option, none, some, List, [],
  ◌∷◌, ◌==◌, ltb, leb, if◌then◌else◌,
}

abbrev pub pg_size : ℕ
pg_size = 4096

-- `PHYS_BASE`, where the kernel's part of the address space begins
abbrev pub phys_base : ℕ
phys_base = 0xc000_0000

abbrev pub u32 : ℕ
u32 = 2 ^ 32

abbrev pub is_user_vaddr : ℕ → Bool
is_user_vaddr a = ltb a phys_base

-- The fields of `struct Elf32_Phdr` that are read.
pub record Phdr : Type 0 where
  pub p_offset : ℕ
  pub p_vaddr : ℕ
  pub p_filesz : ℕ
  pub p_memsz : ℕ

unfoldable pub validate_segment : Phdr → (file_length : ℕ) → Bool
validate_segment phdr file_length =
    let stop = (phdr.p_vaddr + phdr.p_memsz) % u32 in
    if not (phdr.p_offset % pg_size == phdr.p_vaddr % pg_size)
    then false
    else if ltb file_length phdr.p_offset
    then false
    else if ltb phdr.p_memsz phdr.p_filesz
    then false
    else if phdr.p_memsz == 0
    then false
    else if not (is_user_vaddr phdr.p_vaddr)
    then false
    else if not (is_user_vaddr stop)
    then false
    else if ltb stop phdr.p_vaddr
    then false
    else if ltb phdr.p_vaddr pg_size
    then false
    else true

-- `ROUND_UP (x, PGSIZE)` in 32 bits
unfoldable pub round_up_page : ℕ → ℕ
round_up_page x = ((x + pg_size - 1) % u32 / pg_size * pg_size) % u32

-- What the case PT_LOAD hands to `load_segment`.
pub record Plan : Type 0 where
  pub file_page : ℕ
  pub mem_page : ℕ
  pub read_bytes : ℕ
  pub zero_bytes : ℕ

unfoldable pub plan : Phdr → Plan
unfolding round_up_page
plan phdr =
    let page_offset = phdr.p_vaddr % pg_size in
    let total = round_up_page ((page_offset + phdr.p_memsz) % u32) in
    let read = (page_offset + phdr.p_filesz) % u32 in
    if ltb 0 phdr.p_filesz
    then record {
      file_page = phdr.p_offset / pg_size * pg_size;
      mem_page = phdr.p_vaddr / pg_size * pg_size;
      read_bytes = read;
      zero_bytes = (total + u32 - read) % u32;
    }
    else record {
      file_page = phdr.p_offset / pg_size * pg_size;
      mem_page = phdr.p_vaddr / pg_size * pg_size;
      read_bytes = 0;
      zero_bytes = total;
    }

-- What a page of the segment is made of: `bytes` from the file at `from`, then zeros.
pub record PageFill : Type 0 where
  pub upage : ℕ
  pub from : ℕ
  pub bytes : ℕ
  pub zeros : ℕ

-- The results of `palloc_get_page`, of `file_read` (whether it gets all it asked for) and of
-- `install_page` for a page: whether the round ends well.
abbrev pub Environment : Type 0
Environment = ℕ → Bool

-- The loop of `load_segment` with fuel; the file position moves by what is read. It gives the pages
-- that were installed, and the return value; none is fuel that has run out.
unfoldable pub load_loop :
    Environment → ℕ → (upage pos read_bytes zero_bytes : ℕ) → Option (Bool × List PageFill)
load_loop env zero upage pos read_bytes zero_bytes = none
load_loop env (suc fuel) upage pos read_bytes zero_bytes =
    let page_read_bytes = if ltb read_bytes pg_size then read_bytes else pg_size in
    let page_zero_bytes = pg_size - page_read_bytes in
    if read_bytes + zero_bytes == 0
    then some (true, [])
    else if env upage
    then elim (load_loop env fuel ((upage + pg_size) % u32) (pos + page_read_bytes)
        (read_bytes - page_read_bytes) ((zero_bytes + u32 - page_zero_bytes) % u32)) [
          | none ↦ none
          | some (done, pages) ↦ some (
            done,
            record { upage = upage; from = pos; bytes = page_read_bytes; zeros = page_zero_bytes }
                ∷ pages,
          )
        ]
    else some (false, [])

-- The whole of `load_segment`; `none` is also a failed assertion. The fuel is a round for each page, and one to end by.
unfoldable pub load_segment : Environment → Plan → Option (Bool × List PageFill)
unfolding load_loop
load_segment env p =
    if not ((p.read_bytes + p.zero_bytes) % u32 % pg_size == 0)
    then none
    else if not (p.mem_page % pg_size == 0)
    then none
    else if not (p.file_page % pg_size == 0)
    then none
    else load_loop env ((p.read_bytes + p.zero_bytes) / pg_size + 1) p.mem_page p.file_page
        p.read_bytes p.zero_bytes
