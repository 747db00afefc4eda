-- ===== src/Lib.antt =====
-- Verification of four projects on the Pintos teaching kernel: a file system with a cache and growing
-- inodes, a priority scheduler, user programs, and virtual memory. The repository holds the files
-- that each project changed; the rest of the kernel is not in it, and is a parameter here.
--
-- file-system/filesys. Every access of an inode (inode.c) goes through the cache (cache.c), and new
-- sectors come from the free map (free-map.c).
--   FileSystem/Cache: the 64 entries of `buffer_cache` as a list before a block device, which is the
--     interface FileSystem/Block. `contents` is the abstract view of a cache: the bytes of each sector.
--   FileSystem/FreeMap: the free map over an interface of bitmaps.
--   FileSystem/Volume: what an inode needs of both, as an interface, and in Volume/Mounted that a
--     cache and a free map fill it.
--   FileSystem/Inode: `struct inode_disk` in Disk, `struct inode` in File. Bytes says what a file holds,
--     by the sectors that the inode names; Direct is about the sectors that are appended.
-- user-programs/userprog and virtual-memory/userprog.
--   UserPrograms/Descriptors: the descriptors of syscall.c. UserPrograms/Children: waiting for a child,
--     of process.c. UserPrograms/Segment: the loading of a segment, of process.c.
--   UserPrograms/Stack: `setup_stack` of process.c. UserPrograms/Syscall: the system calls of
--     user-programs/userprog/syscall.c, with their functions in Syscall/Calls and the dispatch in
--     Syscall/Handler, over an interface of the files, the keyboard and `process_execute`.
--   UserPrograms/Threads: threads/thread.c, with the switch of threads in Threads/Switch and the
--     operations as steps in Threads/Steps.
-- priority-scheduler.
--   PriorityScheduler/FixedPoint: lib/kernel/fixed-point.c. PriorityScheduler/Thread:
--     threads/thread.c, with the feedback queue in Thread/Mlfqs. PriorityScheduler/Timer:
--     devices/timer.c.
-- virtual-memory.
--   VirtualMemory/Interrupt: threads/interrupt.c. VirtualMemory/Swap: vm/swap.c.
--     VirtualMemory/Pagedir: userprog/pagedir.c. VirtualMemory/Page: the table of
--     vm/page.c. VirtualMemory/Frame: vm/frame.c, over the swap and the table. VirtualMemory/Fetch: the
--     functions of vm/page.c that move the data of a page, over the frames and an interface of files.
--     VirtualMemory/Mapping: `sys_mmap` and `sys_munmap` of userprog/syscall.c.
--     VirtualMemory/Exception: userprog/exception.c.
--
-- State is passed explicitly. A function that can fail an assertion returns an Option, and `none` is
-- the failure; where a function also runs on fuel, `none` is fuel that has run out. The fuel of the
-- loops over a file is the number of bytes or sectors left and one more, that of `load_loop` the pages and
-- one more, that of `page_unmap` the length of the table and one more,
-- that of the loops over a string the size of user memory above it, that of the loop of `sys_write` the size
-- and one more; the two functions of cache.c that call themselves do so at most once when they run
-- alone; `get_priority` takes its fuel as an argument.
-- Numbers are natural numbers, with `% 2 ^ 32` where the code computes in 32 bits and can wrap;
-- `int` and `int64_t` of the scheduler are signed, and wrap around (Common/Int). A descriptor is the
-- number of its 32 bits.
-- A function that switches threads ends right after the switch; what a thread does when it runs again, as
-- to put its interrupt level back, is a step of its own.
--
-- Not modelled: locks and the interleaving of threads within a function, the headers of an
-- executable, the exit of a process (its effect on the scheduler is a parameter), the
-- checks of addresses of virtual-memory, which fetch pages, the start of the file system, and printing.
pub mod Common
pub mod FileSystem
pub mod UserPrograms
pub mod PriorityScheduler
pub mod VirtualMemory
