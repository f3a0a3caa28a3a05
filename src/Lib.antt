-- ===== src/Lib.antt =====
-- Verification of orionOS, a kernel for 32-bit x86 in C.
--
-- The parts of the kernel that are modelled, and how they meet:
--   Pmm        mm/pmm.c, kernel/multiboot.h: the allocator of physical pages. `Pmm` holds the static
--              variables; pmm_init, pmm_alloc_page, pmm_free_page and pmm_reserve_region have the
--              names of the C functions. Paging and the heap take their pages from it.
--   Paging     mm/paging.c: page directories and tables as frames of physical memory (`Vmm`), the walk
--              (Paging/Walk) and the mapping of a page (Paging/Ready, Tables, Map). It fills the
--              interface by which the heap asks for pages (heap_pager).
--   Kheap      mm/mem.c: the kernel heap. `Heap` holds the static variables and the headers by their
--              address; Kheap has the operations on blocks and kfree, Kheap/Request the requests.
--              Kheap/Blocks says which list of blocks a heap stands for; Merge, Carve, Search and
--              Grow follow kfree, a cut block, the first fit and a new block on that list.
--   Syscall    kernel/syscall.c: the checks of what a program passes, and two services: the open
--              files (Syscall/Files, the table `Fds`) and the messages to the GUI server
--              (Syscall/Gui, the ring `Gui`). A call gets its registers and the pid of its process.
--   Proc       kernel/proc/proc.c: the process table `Procs` (Proc), exit, kill and reaping
--              (Proc/Lifecycle), the round robin and the switch (Proc/Switch), kernel threads and
--              the list of processes (Proc/Create); and cpu/timer.c: the timer interrupt, which
--              calls the scheduler at the end of a time slice (Proc/Switch/Slice). A pointer into the table is the index of its
--              slot. Calls of other parts (kfree, the TSS, the page directory, the shell) are
--              recorded in the field `calls`, the latest first. What kmalloc and paging answer
--              when a thread is created is an argument.
--   Workqueue  kernel/proc/workqueue.c: the ring of deferred work, against a bounded queue
--              (Workqueue/Queue). Drivers enqueue from interrupts; one thread runs the items.
--   Timer      kernel/proc/timer_task.c: tasks that fall due at a tick. `Timers` holds the slots and the
--              next id (Timer); Timer/Ticks is about the clock, Timer/Run about the
--              calls, Timer/Cancel about the slots.
--   Disk       fs/disk.c, fs/disk.h, fs/fs_quick.h: the table of drives, the probe of a drive, and
--              the protocol by which a rescan is requested (Disk/Rescan), which goes through the
--              work queue.
--   Ramdisk    drivers/ramdisk.c: an image in memory that takes a slot of the table of drives.
--   Log        kernel/log.c: the kernel log, a ring, and the boot log, a buffer that fills up.
--   CString    libc/string.c: strings, memory and numbers. Compare, Move, Copy, Search, Edit and
--              Number hold its families of functions and their theorems.
--   Base       what they share: Boolean tests, arrays as lists, bytes, bit masks, bitmaps.
--
-- Conventions. Numbers are the native naturals; an operation of the code that wraps has its
-- `% 2 ^ w` written out. An array is a list that keeps its length, which the invariants state; a
-- write out of range changes nothing in the model, and the invariants rule it out. A static variable
-- is a field of the component's record, and a function that changes it returns the new record. A
-- section with interrupts off is one step.
--
-- Loops. A `for` loop over an array is recursion on the number of rounds left. workqueue_run goes
-- round until the queue is empty: it runs on fuel, and enough fuel is given by a theorem. reverse
-- runs on the length of its string, timer_task_run_due on one round more than there are tasks due,
-- and int_to_ascii on ten digits, which 32 bits do not exceed. find_free_block runs on fuel, more
-- than there are blocks; the doubling of normalize_align on 33 rounds, after which it would go on
-- for ever. validate_user_buffer visits at most `2 ^ 20` pages.
--
-- Parameters. The pager under the heap (Kheap.Request.Pager), the file system under the calls on
-- files (Syscall.Files.FileSystem), what is mapped and what stands in a program's memory, the disk
-- under the probe, the callbacks of the work queue, what a timer task does, the probe that an
-- attached RAM disk is given to, and the addresses that the linker sets are arguments of the
-- definitions that use them.
--
-- Not modelled: messages to the screen; the drivers of devices and the processor's tables, which
-- are register access; user processes with fork and exec, the start of paging and the directories
-- of processes, the file systems, the other system calls and the program loaders; and the user
-- programs.
pub mod Base
pub mod Workqueue
pub mod Pmm
pub mod Paging
pub mod Kheap
pub mod Syscall
pub mod Log
pub mod Disk
pub mod Ramdisk
pub mod Proc
pub mod CString
pub mod Timer
