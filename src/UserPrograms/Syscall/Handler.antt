-- ===== src/UserPrograms/Syscall/Handler.antt =====
-- user-programs/userprog/syscall.c: `syscall_handler`. The numbers of the calls are of lib/syscall-nr.h:
-- `call_of` reads them. The bodies of sys_chdir and the calls after it are empty in the code, and what
-- they return is a parameter.
use cs124_my_pintos.Common.{ℕ, ◌+◌, ◌%◌, Option, none, some}
use cs124_my_pintos.UserPrograms.Segment.{u32}
use cs124_my_pintos.UserPrograms.Syscall.{
  System, Outcome, returned, process_exited, and_then, World, sys_exit, grab_arg,
}
use cs124_my_pintos.UserPrograms.Syscall.Calls.{
  sys_halt, sys_exec, sys_wait, sys_create, sys_remove, sys_open, sys_filesize, sys_read, sys_write,
  sys_seek, sys_tell, sys_close,
}

-- The cases of the handler; `unknown` is the default.
pub data Call : Type 0 where
  halt : Call
  exit : Call
  exec : Call
  wait : Call
  create : Call
  remove : Call
  open_file : Call
  filesize : Call
  read : Call
  write : Call
  seek : Call
  tell : Call
  close : Call
  chdir : Call
  mkdir : Call
  readdir : Call
  isdir : Call
  inumber : Call
  unknown : Call

-- How many arguments the handler takes.
abbrev pub arity : Call → ℕ
arity halt = 0
arity create = 2
arity read = 3
arity write = 3
arity seek = 2
arity readdir = 2
arity unknown = 0
arity exit = 1
arity exec = 1
arity wait = 1
arity remove = 1
arity open_file = 1
arity filesize = 1
arity tell = 1
arity close = 1
arity chdir = 1
arity mkdir = 1
arity isdir = 1
arity inumber = 1

module _ (system : System) (call_of : ℕ → Call) (indeterminate : ℕ) where
  -- A call with one, two or three arguments from `esp` up.
  unfoldable pub with_one :
      {A : Type 0} (esp : ℕ) (f : ℕ → World system → Outcome (World system) A)
      → World system
      → Outcome (World system) A
  with_one esp f w = and_then (grab_arg system esp w) f

  unfoldable pub with_two :
      {A : Type 0} (esp : ℕ) (f : ℕ → ℕ → World system → Outcome (World system) A)
      → World system
      → Outcome (World system) A
  unfolding with_one
  with_two esp f w = with_one esp (λ a. with_one ((esp + 4) % u32) (f a)) w

  unfoldable pub with_three :
      {A : Type 0} (esp : ℕ) (f : ℕ → ℕ → ℕ → World system → Outcome (World system) A)
      → World system
      → Outcome (World system) A
  unfolding with_two
  with_three esp f w = with_one esp (λ a. with_two ((esp + 4) % u32) (f a)) w

  -- The call's result goes to `eax`.
  unfoldable pub to_eax : Outcome (World system) ℕ → Outcome (World system) (Option ℕ)
  to_eax o = and_then o (λ a w. returned (some a) w)

  unfoldable pub no_eax : Outcome (World system) (Unit {0}) → Outcome (World system) (Option ℕ)
  no_eax o = and_then o (λ a w. returned none w)

  -- The arguments of a call are above its number; `none` leaves `eax` as it was.
  unfoldable pub dispatch : Call → (esp : ℕ) → World system → Outcome (World system) (Option ℕ)
  dispatch halt esp w = sys_halt system w
  dispatch exit esp w = with_one esp (λ status v. sys_exit system status v) w
  dispatch exec esp w = with_one esp (λ cmd_line v. to_eax (sys_exec system cmd_line v)) w
  dispatch wait esp w = with_one esp (λ pid v. to_eax (sys_wait system pid v)) w
  dispatch create esp w =
      with_two esp (λ file initial_size v. to_eax (sys_create system file initial_size v)) w
  dispatch remove esp w = with_one esp (λ file v. to_eax (sys_remove system file v)) w
  dispatch open_file esp w = with_one esp (λ file v. to_eax (sys_open system file v)) w
  dispatch filesize esp w = with_one esp (λ fd v. to_eax (sys_filesize system fd v)) w
  dispatch read esp w =
      with_three esp (λ fd buffer size v. to_eax (sys_read system fd buffer size v)) w
  dispatch write esp w =
      with_three esp (λ fd buffer size v. to_eax (sys_write system fd buffer size v)) w
  dispatch seek esp w = with_two esp (λ fd position v. no_eax (sys_seek system fd position v)) w
  dispatch tell esp w = with_one esp (λ fd v. to_eax (sys_tell system fd v)) w
  dispatch close esp w = with_one esp (λ fd v. no_eax (sys_close system fd v)) w
  dispatch chdir esp w = with_one esp (λ dir v. returned (some indeterminate) v) w
  dispatch mkdir esp w = with_one esp (λ dir v. returned (some indeterminate) v) w
  dispatch readdir esp w = with_two esp (λ fd name v. returned (some indeterminate) v) w
  dispatch isdir esp w = with_one esp (λ fd v. returned (some indeterminate) v) w
  dispatch inumber esp w = with_one esp (λ fd v. returned (some indeterminate) v) w
  dispatch unknown esp w = process_exited w

  unfoldable pub syscall_handler : (esp : ℕ) → World system → Outcome (World system) (Option ℕ)
  unfolding dispatch
  syscall_handler esp w = with_one esp (λ number v. dispatch (call_of number) ((esp + 4) % u32) v) w
