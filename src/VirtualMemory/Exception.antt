-- ===== src/VirtualMemory/Exception.antt =====
-- virtual-memory/userprog/exception.c: `exception_init`, `kill` and `page_fault`, over `page_fetch` of vm/page.c. The
-- selectors of the user's and the kernel's code are those of the kernel's loader, and parameters. What
-- the functions print is left out.
pub mod Laws
pub mod Resume
mod Tests
use cs124_my_pintos.Common.{
  ℕ, ◌+◌, ◌/◌, ◌%◌, Bool, true, false, not, Option, none, some, List, [], ◌∷◌, ◌==◌, if◌then◌else◌,
}
use cs124_my_pintos.VirtualMemory.Interrupt.{
  IntrLevel, intr_off, intr_on, Interrupts, intr_register_int,
}
use cs124_my_pintos.VirtualMemory.Swap.{SwapBlock}
use cs124_my_pintos.VirtualMemory.Frame.{Vm}
use cs124_my_pintos.VirtualMemory.Fetch.{Files, page_fetch}

-- The fields of `struct intr_frame` that the handlers read.
pub record IntrFrame : Type 0 where
  pub cs : ℕ
  pub error_code : ℕ
  pub esp : ℕ

-- PF_W in the error code
unfoldable pub is_write : (error_code : ℕ) → Bool
is_write error_code = not (error_code / 2 % 2 == 0)

-- How a handler ends: it returns, the thread exits, or the kernel panics, which a failed assertion and
-- an access of the kernel through NULL end in too.
pub data Ending (A : Type 0) : Type 0 where
  resumed : A → Ending A
  thread_exited : A → Ending A
  panicked : Ending A

unfoldable pub kill : {A : Type 0} → (sel_ucseg sel_kcseg cs : ℕ) → A → Ending A
kill sel_ucseg sel_kcseg cs s =
    if cs == sel_ucseg
    then thread_exited s
    else if cs == sel_kcseg
    then panicked
    else thread_exited s

-- `kill` for the exceptions of a list, each with the privilege level that may raise it.
unfoldable pub register_kill :
    (sel_kcseg : ℕ) (intr_stubs names : ℕ → ℕ) (kill_ : ℕ)
    → List (ℕ × ℕ)
    → Interrupts
    → Option Interrupts
register_kill sel_kcseg intr_stubs names kill_ [] s = some s
register_kill sel_kcseg intr_stubs names kill_ ((vec_no, dpl) ∷ rest) s =
    elim (intr_register_int sel_kcseg intr_stubs vec_no dpl intr_on kill_ (names vec_no) s) [
      | none ↦ none
      | some t ↦ register_kill sel_kcseg intr_stubs names kill_ rest t
    ]

-- The handlers and the names of the exceptions are numbers.
unfoldable pub exception_init :
    (sel_kcseg : ℕ) (intr_stubs names : ℕ → ℕ) (kill_ page_fault_ : ℕ)
    → Interrupts
    → Option Interrupts
unfolding register_kill
exception_init sel_kcseg intr_stubs names kill_ page_fault_ s =
    elim (register_kill sel_kcseg intr_stubs names kill_
      ((3, 3)
        ∷ (4, 3)
        ∷ (5, 3)
        ∷ (0, 0)
        ∷ (1, 0)
        ∷ (6, 0)
        ∷ (7, 0)
        ∷ (11, 0)
        ∷ (12, 0)
        ∷ (13, 0)
        ∷ (16, 0)
        ∷ (19, 0)
        ∷ [])
      s) [
        | none ↦ none
        | some t ↦ intr_register_int sel_kcseg intr_stubs 14 0 intr_off page_fault_ (names 14) t
      ]

module _ {Sector : Type 0} (block : SwapBlock Sector) (files : Files Sector)
    (sel_ucseg sel_kcseg init_page_dir init_ram_pages : ℕ) (new : Option ℕ) (memory : Bool)
    (fs : files.Fs) where
  pub record Faults : Type 0 where
    pub page_fault_cnt : ℕ
    pub intr_level : IntrLevel
    pub vm : Vm block

  -- The address that faulted is read from CR2.
  unfoldable pub page_fault : (fault_addr : ℕ) → IntrFrame → Faults → Ending Faults
  page_fault fault_addr f s =
      let t = record s { intr_level = intr_on; page_fault_cnt = s.page_fault_cnt + 1 } in
      elim (page_fetch block files init_page_dir init_ram_pages new memory fault_addr f.esp
        (is_write f.error_code) fs t.vm) [
          | none ↦ panicked
          | some (true, vm) ↦ resumed (record t { vm = vm })
          | some (false, vm) ↦ kill sel_ucseg sel_kcseg f.cs (record t { vm = vm })
        ]
