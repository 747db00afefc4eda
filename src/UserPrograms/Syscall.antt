-- ===== src/UserPrograms/Syscall.antt =====
-- user-programs/userprog/syscall.c: the access to user memory, and what a system call can end in. The
-- files, `process_execute` and the keyboard are an interface; file descriptors and children are those
-- of Descriptors and Children, page directories those of VirtualMemory/Pagedir. An `int` is the number
-- of its 32 bits.
pub mod Calls
pub mod Handler
pub mod Console
pub mod Arguments
pub mod Exec
mod Tests
use cs124_my_pintos.Common.{
  ℕ, zero, suc, ◌+◌, ◌*◌, ◌-◌, ◌%◌, ◌^◌, Bool, true, false, not, ◌&&◌, Option, none, some, List, [],
  ◌∷◌, ◌++◌, ◌==◌, if◌then◌else◌,
}
use cs124_my_pintos.UserPrograms.Segment.{u32, is_user_vaddr, phys_base}
use cs124_my_pintos.UserPrograms.Descriptors.{FileStore}
use cs124_my_pintos.UserPrograms.Children.{Child, Parent, minus_one}
use cs124_my_pintos.VirtualMemory.Pagedir.{Memory, pagedir_get_page}

-- What the system calls use of the rest of the kernel; `Outside` is its state. A file is a number, a
-- result of `none` is NULL or TID_ERROR, and the bytes of a read are as many as were read.
pub record System : Type 1 where
  pub Outside : Type 0
  pub filesys_create : Outside → (name : List ℕ) (initial_size : ℕ) → Bool × Outside
  pub filesys_remove : Outside → (name : List ℕ) → Bool × Outside
  pub filesys_open : Outside → (name : List ℕ) → Option ℕ × Outside
  pub file_length : Outside → (file : ℕ) → ℕ
  pub file_read : Outside → (file size : ℕ) → List ℕ × Outside
  pub file_write : Outside → (file : ℕ) (bytes : List ℕ) → ℕ × Outside
  pub file_seek : Outside → (file position : ℕ) → Outside
  pub file_tell : Outside → (file : ℕ) → ℕ
  pub process_execute : Outside → (cmd_line : List ℕ) → Option ℕ × Outside
  pub input_getc : Outside → ℕ × Outside
  pub exited : Outside → Child → ℕ
  pub has_memory : Outside → Bool

-- How a system call ends: it returns, the process has exited, the machine is off, or the kernel has
-- used an address that is not mapped.
pub data Outcome (W A : Type 0) : Type 0 where
  returned : A → W → Outcome W A
  process_exited : W → Outcome W A
  powered_off : W → Outcome W A
  kernel_fault : Outcome W A

unfoldable pub and_then : {W A B : Type 0} → Outcome W A → (A → W → Outcome W B) → Outcome W B
and_then (returned a w) f = f a w
and_then (process_exited w) f = process_exited w
and_then (powered_off w) f = powered_off w
and_then kernel_fault f = kernel_fault

-- A number from its bytes, the lowest first.
unfoldable pub word_of : List ℕ → ℕ
word_of [] = 0
word_of (b ∷ bs) = b + 256 * word_of bs

module _ (system : System) where
  -- The current process: `self_status` is that of its `self`, `ram` the bytes of memory at the kernel's
  -- addresses, and `console` the bytes that were handed to `putbuf`, in order.
  pub record World : Type 0 where
    pub pagedir : ℕ
    pub memory : Memory
    pub ram : ℕ → ℕ
    pub files_open : List FileStore
    pub parent : Parent
    pub self_status : ℕ
    pub console : List ℕ
    pub outside : system.Outside

  -- The kernel's address of a byte of user memory.
  unfoldable pub user_kaddr : (uaddr : ℕ) → World → Option ℕ
  user_kaddr uaddr w = elim (pagedir_get_page w.pagedir uaddr w.memory) [
    | none ↦ none
    | some none ↦ none
    | some (some kaddr) ↦ if kaddr == 0 then none else some kaddr
  ]

  unfoldable pub is_valid_uaddr : (uaddr : ℕ) → World → Bool
  unfolding user_kaddr
  is_valid_uaddr uaddr w =
      if not (is_user_vaddr uaddr)
      then false
      else elim (user_kaddr uaddr w) [ none ↦ false | some kaddr ↦ true ]

  -- The loops that test `n` bytes from an address.
  unfoldable pub valid_bytes : (n uaddr : ℕ) → World → Bool
  valid_bytes zero uaddr w = true
  valid_bytes (suc n) uaddr w =
      if is_valid_uaddr uaddr w then valid_bytes n ((uaddr + 1) % u32) w else false

  -- `n` bytes of user memory; `none` is a byte that is not mapped.
  unfoldable pub read_bytes : (n uaddr : ℕ) → World → Option (List ℕ)
  read_bytes zero uaddr w = some []
  read_bytes (suc n) uaddr w = elim (user_kaddr uaddr w) [
    | none ↦ none
    | some kaddr ↦ elim (read_bytes n ((uaddr + 1) % u32) w) [
      | none ↦ none
      | some rest ↦ some (w.ram kaddr ∷ rest)
    ]
  ]

  -- The bytes of a string up to its 0. An address that is not of user memory is not mapped, so that
  -- the size of user memory is enough fuel.
  unfoldable pub string_loop : (fuel uaddr : ℕ) → World → Option (List ℕ)
  string_loop zero uaddr w = none
  string_loop (suc fuel) uaddr w = elim (user_kaddr uaddr w) [
    | none ↦ none
    | some kaddr ↦ if w.ram kaddr == 0 then some [] else elim (string_loop fuel (uaddr + 1) w) [
      | none ↦ none
      | some rest ↦ some (w.ram kaddr ∷ rest)
    ]
  ]

  unfoldable pub read_string : (uaddr : ℕ) → World → Option (List ℕ)
  unfolding string_loop
  read_string uaddr w = string_loop (phys_base - uaddr) uaddr w

  unfoldable pub sys_exit : {A : Type 0} → (status : ℕ) → World → Outcome World A
  sys_exit status w = process_exited (record w { self_status = status })

  -- The argument at `esp`; the caller goes on 4 bytes above.
  unfoldable pub grab_arg : (esp : ℕ) → World → Outcome World ℕ
  unfolding sys_exit
  grab_arg esp w =
      if valid_bytes 4 esp w
      then elim (read_bytes 4 esp w) [ none ↦ kernel_fault | some bs ↦ returned (word_of bs) w ]
      else sys_exit minus_one w
