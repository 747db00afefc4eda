-- ===== src/VirtualMemory/Mapping.antt =====
-- virtual-memory/userprog/syscall.c: `sys_mmap` and `sys_munmap`, over the supplemental page table and
-- the file descriptors. `file_reopen` and `file_close` are parameters, as the other operations of files
-- are.
pub mod Laws
pub mod Undo
mod Tests
use cs124_my_pintos.Common.{
  ℕ, zero, suc, ◌+◌, ◌-◌, ◌*◌, ◌/◌, ◌%◌, Bool, true, false, not, ◌||◌, Option, none, some, List,
  ◌==◌, if◌then◌else◌, ℤ, pos, negsuc,
}
use cs124_my_pintos.UserPrograms.Segment.{pg_size, u32}
use cs124_my_pintos.UserPrograms.Descriptors.{FileStore, create_fd, fd_to_file, remove_fd}
use cs124_my_pintos.UserPrograms.Children.{minus_one}
use cs124_my_pintos.UserPrograms.Syscall.{Outcome, returned, process_exited, kernel_fault}
use cs124_my_pintos.VirtualMemory.Swap.{SwapBlock}
use cs124_my_pintos.VirtualMemory.Page.{Process, page_in_table, page_set_file}
use cs124_my_pintos.VirtualMemory.Frame.{Vm}
use cs124_my_pintos.VirtualMemory.Fetch.{Files, eq_off, page_unmap}

-- The pages of a file; a length that is not positive has none. No file is so long that the sum
-- overflows.
abbrev pub num_pages : (file_length : ℤ) → ℕ
num_pages (pos n) = (n + (pg_size - 1)) / pg_size
num_pages (negsuc n) = 0

-- `addr + i * PGSIZE`
abbrev pub upage_at : (addr i : ℕ) → ℕ
upage_at addr i = (addr + i * pg_size) % u32

-- The loop that looks for a page of the table, `n` rounds from `i` on.
unfoldable pub any_in_table : (n i addr : ℕ) → Process → Bool
any_in_table zero i addr p = false
any_in_table (suc n) i addr p =
    if page_in_table (upage_at addr i) p then true else any_in_table n (suc i) addr p

-- The loop that enters the pages; `memory` says for each round whether `malloc` succeeds.
unfoldable pub set_file_loop : (memory : ℕ → Bool) (n i addr f : ℕ) → Process → Bool × Process
set_file_loop memory zero i addr f p = (true, p)
set_file_loop memory (suc n) i addr f p =
    let (done, q) = page_set_file (memory i) (upage_at addr i) f (pos (i * pg_size)) p in
    if done then set_file_loop memory n (suc i) addr f q else (false, q)

module _ {Sector : Type 0} (block : SwapBlock Sector) (files : Files Sector)
    (file_reopen : files.Fs → ℕ → Option ℕ × files.Fs) (file_close : files.Fs → ℕ → files.Fs) where
  -- The current process, the files and the memory.
  pub record Mapper : Type 0 where
    pub files_open : List FileStore
    pub fs : files.Fs
    pub vm : Vm block
    pub self_status : ℕ

  abbrev pub with_process : Process → Mapper → Mapper
  with_process p s = record s { vm = record s.vm { process = p } }

  -- The descriptor of the new mapping, or -1.
  unfoldable pub mmap_fd : (memory : Bool) (f : ℕ) → Mapper → Outcome Mapper ℕ
  unfolding create_fd
  mmap_fd memory f s =
      let (mapid, files_open) = create_fd memory s.files_open (some f) true in
      let t = record s { files_open = files_open } in
      elim mapid [ none ↦ returned minus_one t | some id ↦ returned id t ]

  -- `memory` says for each page, and at last for the descriptor, whether `malloc` succeeds.
  unfoldable pub sys_mmap : (memory : ℕ → Bool) (fd addr : ℕ) → Mapper → Outcome Mapper ℕ
  unfolding mmap_fd
  sys_mmap memory fd addr s =
      if (fd == 0) || (fd == 1) || (addr == 0) || not (addr % pg_size == 0)
      then returned minus_one s
      else elim (fd_to_file fd s.files_open) [
        | none ↦ process_exited (record s { self_status = minus_one })
        | some f ↦
            let n = num_pages (files.file_length s.fs f) in
            if eq_off (files.file_length s.fs f) (pos 0)
            then returned minus_one s
            else if any_in_table n 0 addr s.vm.process
            then returned minus_one s
            else (let (g, fs) = file_reopen s.fs f in
                let t = record s { fs = fs } in
                elim g [
                  | none ↦ returned minus_one t
                  | some new ↦
                      let (done, p) = set_file_loop memory n 0 addr new s.vm.process in
                      let u = with_process p t in
                      if done then mmap_fd (memory n) new u else returned minus_one u
                ])
      ]

  unfoldable pub sys_munmap : (mapping : ℕ) → Mapper → Outcome Mapper (Unit {0})
  sys_munmap mapping s = elim (fd_to_file mapping s.files_open) [
    | none ↦ returned tt s
    | some f ↦ elim (page_unmap block files f s.fs s.vm) [
      | none ↦ kernel_fault
      | some (fs, vm) ↦ returned tt (record s {
        fs = file_close fs f;
        vm = vm;
        files_open = (remove_fd mapping s.files_open).1;
      })
    ]
  ]
