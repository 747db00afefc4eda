-- ===== src/VirtualMemory/Exception/Laws.antt =====
-- When `page_fault` of virtual-memory/userprog/exception.c ends a process.
use cs124_my_pintos.Common.{none, some, ℕ, ◌+◌, ◌≡◌, refl, Bool, true, false, Option}
use cs124_my_pintos.VirtualMemory.Interrupt.{intr_on}
use cs124_my_pintos.VirtualMemory.Swap.{SwapBlock}
use cs124_my_pintos.VirtualMemory.Frame.{Vm}
use cs124_my_pintos.VirtualMemory.Fetch.{Files, page_fetch}
use cs124_my_pintos.VirtualMemory.Exception.{
  IntrFrame, is_write, Ending, resumed, panicked, kill, Faults, page_fault,
}

module _ {Sector : Type 0} (block : SwapBlock Sector) (files : Files Sector)
    (sel_ucseg sel_kcseg init_page_dir init_ram_pages : ℕ) (new : Option ℕ) (memory : Bool)
    (fs : files.Fs) where
  abbrev pub Handler : Type 0
  Handler = Faults block files sel_ucseg sel_kcseg init_page_dir init_ram_pages new memory fs

  abbrev pub fault : ℕ → IntrFrame → Handler → Ending Handler
  fault fault_addr f s =
      page_fault block files sel_ucseg sel_kcseg init_page_dir init_ram_pages new memory fs
        fault_addr f s

  -- The state after the fault is counted.
  abbrev pub counted : Handler → Handler
  counted s = record s { intr_level = intr_on; page_fault_cnt = s.page_fault_cnt + 1 }

  pub page_fault-fetched :
      (fault_addr : ℕ) (f : IntrFrame) (s : Handler) (o : Option (Bool × Vm block))
      → page_fetch block files init_page_dir init_ram_pages new memory fault_addr f.esp
          (is_write f.error_code)
          fs
          s.vm
        ≡ o
      → fault fault_addr f s ≡ (elim o as (λ x. Ending Handler) [
        | none ↦ panicked
        | some (true, vm) ↦ resumed (record (counted s) { vm = vm })
        | some (false, vm) ↦ kill sel_ucseg sel_kcseg f.cs (record (counted s) { vm = vm })
      ])
  unfolding page_fault
  page_fault-fetched fault_addr f s o e = rw (page_fault, e) refl
