-- ===== src/Lib.antt =====
-- Sparrow-OS: models of the kernel's parts and proofs about them.
--
-- The kernel stands on a few shared parts. A bitmap hands out pages, pids, inodes and disk
-- blocks; a doubly linked list holds the ready tasks, the waiters of a semaphore, the open inodes
-- and the free memory blocks; a byte ring joins the keyboard to its readers and the two ends of a
-- pipe; the string functions serve the file system and the shell. The scheduler moves tasks
-- between the ready list and the processor, the clock drives it, and semaphores and locks block
-- and unblock tasks through it.
--
-- Each file of the C code has a module of the same name, whose functions have the names of the C
-- functions; a loop or a half of a function that is split off has a name of its own. The child
-- modules hold the proofs, one module for each thing that they prove, and Tests holds runs.
--
--   Bitmap       sparrow/lib/kernel/bitmap.c    bits, as memory from the pointer `bits` on
--   Interrupt    sparrow/kernel/interrupt.c     the interrupt flag
--   LinkedList   sparrow/lib/kernel/list.c      a store of links at addresses; View says which
--                                               sequence a list stands for
--   CString      sparrow/lib/string.c           a flat memory of bytes
--   IoQueue      sparrow/device/ioqueue.c, sparrow/shell/pipe.c: the ring, and pipe reads and writes
--   Inode        sparrow/fs/inode.c             inodes in the table on the disk, and the open ones
--   Files        sparrow/fs/file.c, sparrow/fs/fs.c, sparrow/shell/pipe.c, sparrow/userprog/fork.c: the
--                                               file table, descriptors, open, close and seek
--   Keyboard     sparrow/device/keyboard.c      key map and interrupt handler
--   Memory       sparrow/kernel/memory.c        addresses of table entries and of arena blocks; Pages
--                                               has the pools of frames and the page tables, Release
--                                               the way back, Heap sys_malloc and sys_free, Init
--                                               the split of the memory between the pools
--   Stdio        sparrow/lib/stdio.c            printing of numbers and formats
--   Paths        sparrow/fs/fs.c, sparrow/shell/buildin_cmd.c: splitting and resolving paths
--   Thread       sparrow/thread/thread.c, sparrow/device/timer.c: tasks, schedule, clock, pids
--   Sync         sparrow/thread/sync.c          semaphores and reentrant locks
--   Shell        sparrow/shell/shell.c          the words of a command line
--   Common       what the modules share: tests, lists, words and results of calls
--
-- Numbers are natural numbers; a word of 32 bits, a byte or a pid wraps around as written. A call
-- gives `done`, or `panic` for a failed ASSERT or a write over the end of a buffer, or `out_of_fuel`. A task that must wait stops in
-- the middle of its call: `schedule` gives the kernel in which the next task runs, and what the
-- code does when the first one runs again is a function of its own (`resume`, `resume_down`,
-- `resume_getchar`). Above the linked list, the queues are the sequences that the lists stand
-- for.
--
-- The allocator works in layers: sys_malloc cuts pages into blocks, malloc_page joins a run of free
-- virtual pages to free frames through the page tables, and each pool is a bitmap. The memory is
-- words at physical addresses, and the code's accesses go through the page directory and the tables
-- in them, so that two directory entries with one frame share a table, as those of the first 4 MB and
-- of the 4 MB from 0xc0000000 on do from the loader on. The headers of the arenas and the free lists
-- are separate parts of the state.
--
-- The disk is its bytes. An inode is read and written by whole sectors; in memory it is shared, and
-- counts how often it is open. A slot of the file table names an open inode or a pipe, and a
-- descriptor of a thread names a slot.
--
-- Fuel: the loops of a bitmap scan take two rounds more than the bitmap has bits, since each
-- round moves on by a bit; a walk over a list takes a round for each element and one for the
-- tail; a loop over a string takes a round for each byte up to the NUL; a loop over a path takes
-- a round for each character and one more, since each round takes a name off; so does that over a
-- command line; the printing of a word of 32 bits takes at most 32 rounds, since each divides by
-- 10 or 16. The theorems say that this is enough.
--
-- Not modelled are the boot code and the assembly files (hardware set-up), the descriptor tables,
-- the drivers of the screen, the timer chip and the disk below the sector, the stubs of the system
-- calls and the user programs. Of the file system, the creation, reading and writing of files, the
-- directories and the format of a partition are not modelled; nor are the copy of a process by fork,
-- exec, wait and exit, and the loop of the shell.
pub mod Bitmap
pub mod CString
pub mod Common
pub mod Files
pub mod Inode
pub mod Interrupt
pub mod IoQueue
pub mod Keyboard
pub mod LinkedList
pub mod Memory
pub mod Paths
pub mod Shell
pub mod Stdio
pub mod Sync
pub mod Thread
