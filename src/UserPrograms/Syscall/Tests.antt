-- ===== src/UserPrograms/Syscall/Tests.antt =====
-- The theorems at a process with one page of user memory.
use cs124_my_pintos.Common.{
  ℕ, ◌+◌, ◌*◌, ◌%◌, ◌≡◌, refl, inl, true, false, none, some, List, [], ◌++◌, arith, ◌==◌,
  if◌then◌else◌, take, length, ◌⊎◌,
}
use cs124_my_pintos.UserPrograms.Segment.{u32}
use cs124_my_pintos.UserPrograms.Children.{add_child}
use cs124_my_pintos.VirtualMemory.Pagedir.{pagedir_get_page}
use cs124_my_pintos.UserPrograms.Syscall.{
  System, returned, World, is_valid_uaddr, valid_bytes, read_bytes, read_string, user_kaddr,
}
use cs124_my_pintos.UserPrograms.Syscall.Calls.{
  std_out, max_putbuf_len, or_minus_one, sys_exec, sys_write,
}
use cs124_my_pintos.UserPrograms.Syscall.Handler.{Call, syscall_handler}
use cs124_my_pintos.UserPrograms.Syscall.Arguments.{killed, syscall_handler-killed}
use cs124_my_pintos.UserPrograms.Syscall.Console.{repeated, sys_write-repeated}
use cs124_my_pintos.UserPrograms.Syscall.Exec.{sys_exec-killed}

-- Files that are empty, and a keyboard that has nothing.
abbrev sample_system : System
sample_system = record {
  Outside = ℕ;
  filesys_create = λ s name n. (true, s);
  filesys_remove = λ s name. (false, s);
  filesys_open = λ s name. (none, s);
  file_length = λ s f. 0;
  file_read = λ s f n. ([], s);
  file_write = λ s f bs. (0, s);
  file_seek = λ s f n. s;
  file_tell = λ s f. 0;
  process_execute = λ s name. (some (length name), s + 1);
  input_getc = λ s. (0, s);
  exited = λ s c. c.status;
  has_memory = λ s. true;
}

-- The page at 0x8048000 has the number of each byte, and 0 in the fourth.
abbrev process : World sample_system
process = record {
  pagedir = 7;
  memory = record {
    directories = λ d i. if d == 7 then (if i == 32 then some 9 else none) else none;
    tables = λ t j. record {
      page = 0xc0004000;
      present = j == 72;
      writable = true;
      dirty = false;
      accessed = false;
    };
    active = 7;
    loads = 1;
    freed = [];
  };
  ram = λ k. if k == 0xc0004003 then 0 else k % 256 + 1;
  files_open = [];
  parent = record { children_init = false; children = [] };
  self_status = 0;
  console = [];
  outside = 5;
}

abbrev call_of : ℕ → Call
call_of n = if n == 9 then Call.write else Call.unknown

not_valid : valid_bytes sample_system 4 ((8 + 4 * 0) % u32) process ≡ false
unfolding valid_bytes is_valid_uaddr user_kaddr pagedir_get_page
not_valid = refl

syscall_handler-killed_example :
    syscall_handler sample_system call_of 0 8 process ≡ killed sample_system process
syscall_handler-killed_example =
    syscall_handler-killed sample_system call_of 0 8 0 process (omega arith) not_valid
      (λ number e. omega arith)

buffer_valid : is_valid_uaddr sample_system 0x8048000 process ≡ true
unfolding is_valid_uaddr user_kaddr pagedir_get_page
buffer_valid = refl

bytes_valid : valid_bytes sample_system (max_putbuf_len * 0 + 3) 0x8048000 process ≡ true
unfolding valid_bytes is_valid_uaddr user_kaddr pagedir_get_page
bytes_valid = refl

sys_write-repeated_example :
    (bs : List ℕ) × (read_bytes sample_system (max_putbuf_len * 0 + 3) 0x8048000 process ≡ some bs)
    × (sys_write sample_system std_out 0x8048000 (max_putbuf_len * 0 + 3) process
        ≡ returned
            (max_putbuf_len * 0 + 3)
            (record process { console = ([] ++ repeated 0 (take max_putbuf_len bs)) ++ take 3 bs }))
sys_write-repeated_example =
    sys_write-repeated sample_system 0 3 0x8048000 process (omega arith) (inl refl) buffer_valid
      bytes_valid

sys_exec-killed_example :
    (sys_exec sample_system 0x8048000 process ≡ killed sample_system process)
    ⊎ ((name : List ℕ) × (read_string sample_system 0x8048000 process ≡ some name)
        × (sys_exec sample_system 0x8048000 process
            ≡ returned (or_minus_one (sample_system.process_execute 5 name).0) (record process {
              parent = add_child process.parent (sample_system.process_execute 5 name).0;
              outside = (sample_system.process_execute 5 name).1;
            })))
sys_exec-killed_example = sys_exec-killed sample_system 0x8048000 process
