-- ===== src/Lib.antt =====
-- Verification of the operating systems course assignments (CS330) in this repository.
--
-- The repository has four assignments. gemOS, a small kernel, appears twice: with files and pipes in
-- Assignment2, and with memory areas in Assignment3 (Assignment3/Ass3/src, whose mmap.c is the same
-- as Assignment3/170635/mmap.c). Assignment4/ass4 has threaded user programs: a block hash (part-1),
-- a reader-writer lock (part-2), and an open-addressing hash table (part-3); the solutions stand in
-- Assignment4/ass4/170635. Assignment1 has small programs on the file system and on processes.
--
-- Base passes library names on and defines Boolean tests, lists over the native numbers, and the sum
-- and difference of two `unsigned long`. Threads sums a weight over a family of threads or slots.
--
-- MemoryMap: `vm_area_map`, `vm_area_unmap` and `vm_area_mprotect` of Assignment3/Ass3/src/mmap.c, on
-- the list `ctx->vm_area` (include/context.h). A list of areas stands for the linked list, in its
-- order; an AreaTable has the list and the counter `stats->num_vm_area`, to which each call adds its
-- `alloc_vm_area` and `dealloc_vm_area`. The loops over areas are recursive functions that return
-- the new list and what the loop has counted.
--   Areas: the areas, the bounds of the region, rounding to pages, what a call gives back.
--   View: the address space that a list of areas describes.
--   Unmap, Protect, Map: the three system calls, with what they are shown to do in the child modules.
-- The calls also go to the page tables for each page of a range. The model gives the addresses
-- that the page table routine is called with, in order, in the result of a call (`vm_area_mprotect` passes
-- the start of the range in every round); what is done for one page stands in PageTable. Memory
-- never runs out: the code does not test what `alloc_vm_area` returns. Each `return -1` of `vm_area_map`
-- stands in front of the first change that the call makes, so a search that fails is a result without a
-- list. `page_round` gives 2^31 for the lengths 2^31 - 4095 to 2^31 - 1, where the rounding in the
-- source overflows an `int`, which C leaves undefined.
--
-- PageTable: `get_pte`, `pfn_unmap`, `change_permissions` and `alloc_pfn` of Assignment3/Ass3/src/mmap.c,
-- `install_page_table` of entry.c, and the reference counts of page.c. A Machine has the 512 entries of
-- each frame that is a table, the counts, and the two regions of frames; the allocator is an interface,
-- FrameSource, a record of operations and of the law that they obey. The flush of the TLB is left out.
--   Lookup, Tree: the walk of the tables, and when the tables of a process form a tree.
--   Grow, Tables: adding a table below an entry, and the three tables on the way to a page.
--   Write, Same, Install, Entries, Unmap, Permissions: the entry of one page, made, found, cleared and changed.
--
-- PageFault: `vm_area_pagefault` of mmap.c, which joins the two: its checks on the list of areas, and the
-- page it installs.
--
-- CopyOnWrite: `handle_cow_fault` of Assignment3/Ass3/src/cfork.c, on the same tables. The words of a frame
-- are its entries, so that copying a page is copying the entries of a frame. The loop over the pages of the
-- data segment runs on fuel, one round for each page of the segment and one more.
--
-- FaultHandler: `do_page_fault` of entry.c, over CopyOnWrite, PageFault and `install_page_table`. The loop
-- that moves the stack down runs on fuel, one round for each page and one more, which is enough where the
-- stack begins at the start of a page. The address of the fault is an argument.
--
-- Process: the areas and the tables of one process together: `vm_area_unmap` with its calls of `pfn_unmap`,
-- `vm_area_mprotect` with its calls of `change_permissions`, and `vm_area_pagefault` on the areas.
--
-- Frames: `struct page_list` (include/memory.h), `get_free_page`, `os_pfn_alloc` and `os_page_free` of
-- Assignment3/Ass3/src/memory.c, for one region, with its bitmap as a function. The scan of the bitmap
-- runs on fuel, one round for each word up to the limit. Source makes it a FrameSource, and Answer has every answer that it gives.
--
-- Scheduler: `pick_next_context`, `do_sleep_and_alarm_account`, `schedule` and `handle_timer_tick` of
-- Assignment3/Ass3/src/schedule.c, and `do_sleep`, `do_alarm`, `do_signal` and `invoke_sync_signal` of
-- entry.c. The search for the next process runs on fuel, one round for each of the seven processes.
-- Switching stacks and page tables, which is assembly, is left out.
--
-- RwLock: `init_rwlock`, `write_lock`, `write_unlock`, `read_lock` and `read_unlock` of
-- Assignment4/ass4/170635/rwlock.c over `atomic_add` of part-2/common.h. Each atomic access is a step
-- of a thread, and Reach holds of the states that any interleaving of the steps of `n` threads makes.
-- The lock is the 64-bit pattern of the `long`. `sched_yield` has no effect on the lock. The bound of
-- 64 threads keeps the sum of all claims on the lock within 64 bits.
--
-- BlockHash: `calculate_and_store_hash` and the set-up of Assignment4/ass4/part-1/main.c, and the worker
-- `hashit` of Assignment4/ass4/170635/thread_func.c. The part of a worker inside the lock is one step, and
-- so is the hash of a block; Reach holds of the states that any interleaving of the workers makes.
--
-- HashTable: `hash_t`, `hashfunc` and `init_hashtable` of Assignment4/ass4/part-3/common.h, and `lookup`,
-- `insert_update` and `purge_key` of Assignment4/ass4/170635/parallel_hash.c. An operation is run
-- without another thread in between: the mutex of an entry has no effect then. `table` is a function
-- from slots to entries. The probe loop runs on fuel, `table_size + 1` rounds: the loop ends when it is
-- at its first slot again. `malloc` gives the memory asked for. A failed `assert` is a result of its
-- own.
--
-- InputManager: the threads of the same program: `read_op` and `done_one` of parallel_hash.c, `process` and
-- the set-up of part-3/main.c. The part of `read_op` in front of its wait, each look at the slots after a
-- wait, the operation on the table and `done_one` are one step each, and Reach holds of the states that any
-- interleaving of the threads makes. A thread in its wait looks at the slots only after it is woken: by the
-- broadcast of `done_one`, or by a return of `pthread_cond_wait` without one, which POSIX allows and which
-- may come at any time. The input file is mapped and does not change. The order
-- of the ids in it is a hypothesis; `inputgen` numbers the operations that it writes.
--
-- Files: file objects, descriptors and their reference counts, from file.c of the gemOS of Assignment2
-- (Assignment2/OS_CS330_Assignment_2-master-74142bb70987a9ece2389665671106766b5c7bc8/gemOS/src, as are
-- the next ones): `generic_close`, `fd_dup`, `fd_dup2`, `do_file_fork` and `do_file_exit`, in Make `create_pipe` of pipe.c,
-- `do_close` of entry.c and the end of `do_regular_file_open`, in Calls the calls of a process as data, and
-- in System the processes with their calls, fork and exit. A store says
-- which file objects and pipes are allocated; a pointer is a number, and a table has a pointer or
-- nothing for each descriptor. An access through a dangling pointer is a result of its own. The pages that
-- `os_page_alloc` gives are arguments; that they are not in use is what Frames shows of the allocator.
--
-- Pipe: `pipe_read` and `pipe_write` of pipe.c, which Files has the structures of. A buffer is a
-- function from positions to bytes, positions are not negative. The loops run on fuel: the read loops
-- take at most `buffer_offset + 1` rounds and the write loop one for each position up to the size.
--
-- Regular: `do_read_regular`, `do_write_regular` and `do_lseek_regular` of file.c, over `flat_read` and
-- `flat_write` of fs.c. The disk and the caller's buffer are two memories. The null
-- tests on the file object and its inode are left out: both are given. Where an `int` count or offset
-- is negative the loops of fs.c leave the file; this is a result of its own.
--
-- Inodes: the inode table of fs.c, `flat_lookup_inode`, `get_free_inode`, `flat_create_inode` and
-- `flat_remove_inode`, and `do_regular_file_open` of file.c on it. A file name is the list of its
-- characters; the copying loop of `flat_create_inode` is not given a name of 256 characters or more.
--
-- Not modelled: `cfork` and `vfork`, creation and
-- exit of processes, devices and boot code of gemOS; the layout of the inodes at boot;
-- the mutexes of the entries of the hash table; the programs of Assignment1; test programs, and
-- the copies of a file that stand elsewhere in the repository.
pub mod Base
pub mod BlockHash
pub mod CopyOnWrite
pub mod FaultHandler
pub mod Files
pub mod Frames
pub mod HashTable
pub mod Inodes
pub mod InputManager
pub mod MemoryMap
pub mod PageFault
pub mod PageTable
pub mod Pipe
pub mod Process
pub mod Regular
pub mod RwLock
pub mod Scheduler
pub mod Threads
