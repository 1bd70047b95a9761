-- ===== src/Lib.antt =====
-- Verification of the kernel of Enclave OS.
--
-- The program is a kernel for 32-bit x86 (the files at the root of the repository, with the headers
-- under include/) with a port to ARM (arch/arm/) and a small user space (user_src/). Each process
-- has a page directory (paging.c), a list of virtual memory areas (vma.c) and a table of file
-- descriptors (vfs.c). The system calls mmap, munmap, mprotect and brk (syscall.c) edit the areas and
-- the page tables; fork clones the address space with copy on write, and the page fault handler makes
-- pages on demand and copies the shared ones when the area allows the access. The nodes of the areas
-- and the open files come from the kernel heap (heap.c), and page tables and pages from the page
-- allocator (pmm.c), which counts the references to a page. Files are nodes of tmpfs.c behind the
-- descriptors. The keyboard interrupt (keyboard.c) fills a ring buffer, from which the shell is fed.
-- All parts use the string and number routines of klib.c.
--
-- The files:
-- - Prelude: Boolean tests on numbers, lists and integers over the native numbers, changes of options,
--   bits, and the lemmas on them that the parts share. Kerrno: the error codes of include/kerrno.h
--   that the modelled functions return, with 0 as `success`.
-- - Vma: vma.c and include/vma.h. `VmaNode` is a node of the list with the address that kmalloc gave
--   it, and a task is the list of its nodes, or `none` for NULL. Vma itself has the lookups
--   (vma_find, vma_intersects, vma_find_free_area) and the insertion of vma_add; Vma/Edit has the
--   functions that edit the list. The results of kmalloc are a list that is given in advance, in
--   which 0 is NULL and whose end is NULL for good, and the nodes given to kfree are recorded
--   (`Nodes`), so that a theorem speaks of every way in which kmalloc can fail. The two editing
--   loops share the walk along the list (`walk`), and one round of each is a function of its node
--   (`unmap_round`, `protect_round`). Vma/View says what a list means: which area covers an
--   address, with what flags, and when the list is in order. Vma/Lookup, Vma/Area, Vma/Edit/Points,
--   Order, Failure, Balance, Add and Clone are about these.
-- - Pmm: pmm.c. The state is the bitmap, as a function of byte and bit, the reference counts and the
--   counters. A word of the scan in pmm_alloc_page is the little-endian view of four bytes. The
--   interrupts are off in each operation, so one operation is one step. Pmm/Init is pmm_init with
--   the boot loader's data of include/multiboot.h; the memory map and the module table are the lists
--   of their entries. Pmm/Init/Boot has the reservations at the start of paging_init (paging.c). Pmm/
--   Bits, Alloc, Refs, Account, Regions, Init/Memory, Init/Safe and Init/Used are about these.
-- - Keyboard: keyboard.c. The state is the ring buffer and the modifiers; the scancode that the
--   interrupt handler reads from the port is its argument. Keyboard/Queue is about the ring buffer,
--   Keyboard/Keys about the state machine.
-- - Klib: klib.c. A C string is the list of its bytes without the terminating 0. Klib/Strings,
--   Klib/Digits and Klib/Atoi are about the string routines and the conversions. Klib/Hex has k_atoh,
--   and Klib/Put the two helpers of k_vsprintf that write numbers, about which is Klib/Put/Layout.
-- - Heap: heap.c. The state is the tree of the buddy allocator, as a function of the node number, the
--   block headers by their address, and the counters; kfree takes the header that kmalloc has
--   written at the address. Heap/Bounds and Heap/Frees are about these; Heap/Forest, Heap/Blocks,
--   Heap/Separate, Heap/Merge, Heap/Release and Heap/Return are about the shape of the tree, the
--   blocks of kmalloc and what kfree takes back.
-- - Tmpfs: tmpfs.c. A file is the fields of its vfs_node_t that the callbacks use, its data the
--   buffer with its size and capacity; a memset or memcpy past the end of the buffer is a result of
--   its own, `overrun`. The block that kmalloc returns for a size is an argument, none for NULL,
--   with any bytes in it. Tmpfs/Dir has tmpfs_create and tmpfs_unlink on the chain of siblings.
--   Tmpfs/Bytes and Tmpfs/Dir/Names are about these.
-- - Paging: paging.c and include/paging.h. Physical memory is seen through the direct map as frames of
--   1024 words, a function of frame and index, and a word is an entry: the number of a frame and its
--   twelve flags. A directory is known by its frame. Paging itself maps, unmaps and protects a page;
--   Paging/Fault is the write fault resolver and page_fault_handler, whose end is a value (return, the
--   task killed, the machine stopped); Paging/Space makes, clones and destroys an address space.
--   Paging/Walk has the walk through the tables, for entries without PAGE_PS, and its frame properties;
--   Tables, Fresh, Map and Unmap, Fault/Cases, Copy and Private, and Space/Share, Entries, Single, Directory and Fork are about these.
-- - Syscall: syscall.c and include/syscall.h. The checks of pointers and strings from user space, over
--   the bytes of the process as a function of the address, and the handlers of mmap, munmap, mprotect
--   and brk, which compose Vma/Edit with Paging. A sequence of calls is a list of `Call`. Syscall/
--   Pointers, Rights, Ranges and Protect are about these.
-- - Vfs: the descriptors of vfs.c and syscall.c. The state is the table of the current task, the
--   descriptors of all other tasks, the open files with their addresses, and the nodes by address; what
--   kfree has got is no longer among the open files, or has the mark `freed`. `Step` is what a task
--   does with its descriptors, and `Reach` a number of steps; the answers of kmalloc and of path
--   resolution are arguments of a step. Vfs/Files, Count, Share, Release, Sound, Dups, Opens, Steps and
--   Leak are about these.
-- The files called Tests run the definitions on concrete inputs.
--
-- Bounds: numbers are natural numbers, and where the source computes on uint32_t or uint64_t and may
-- wrap, the model takes the remainder by 2 ^ 32 or 2 ^ 64. A subtraction that the source guards is
-- the one of natural numbers, which stops at 0. Loops over a list are structural; the loops over
-- pages run as many rounds as there are pages; the loop over the digits of a number runs at most 33
-- rounds, which are enough for 32 bits in any base from 2 on, as a lemma in Klib/Digits shows,
-- and the loop that doubles a capacity in tmpfs.c at most 20, which are enough below 1 MB. The loops
-- of heap.c go through at most 15 levels.
--
-- The loops over a page table and a directory run 1024, 768 and 256 rounds as in the source. Counts of
-- references wrap at 32 bits in Vfs, so what holds there along a run is about a largest count at its
-- start and a number of steps whose sum is below 2 ^ 32.
--
-- Not modelled: what the serial log prints, console output, the devices and the set-up of the hardware
-- tables; the TLB, the kernel stacks, and the direct map that paging_init builds; the statistics of the
-- heap; tasks and the scheduler; path resolution and mounts, and the callbacks of a node other than those of tmpfs.c; the
-- FAT32 file system and the ELF loader; tmpfs_init; the ARM port and the programs of user space.
pub mod Prelude
pub mod Kerrno
pub mod Vma
pub mod Keyboard
pub mod Pmm
pub mod Klib
pub mod Heap
pub mod Tmpfs
pub mod Paging
pub mod Syscall
pub mod Vfs
