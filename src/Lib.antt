-- ===== src/Lib.antt =====
-- VeloxOS, a small x86-64 kernel in C: its memory allocators and page tables, its scheduler, its
-- keyboard, and its file systems.
--
-- The page-frame allocator (mm/pmm.c) hands out 4 KiB frames of physical memory from a bitmap. The
-- virtual allocator (mm/vmalloc.c) keeps a list of free ranges of kernel addresses, takes a range
-- for each request, gets a frame for each of its pages and maps it through the page tables
-- (mm/paging.c). The kernel heap (mm/kmalloc.c) cuts pools from it into blocks. The scheduler
-- (kernel/sched.c) takes a stack from the virtual allocator for each new task, keeps a run queue
-- for each CPU, and switches tasks when the timer interrupts. Interrupts come in through
-- isr_handler (arch/x86_64/isr_handler.c), which calls the handler registered for the vector
-- (arch/x86_64/irq.c) and the scheduler. The keyboard's handler
-- (arch/x86_64/drivers/IO/ps2_keyboard.c) turns scancodes into events for its listeners. The
-- virtual file system (fs/vfs/vfs.c) finds the mount that covers a path and asks the file system's
-- driver for each segment below it; FAT32 (fs/fat32.c, which fs/vfs/fat32_vfs.c makes a driver)
-- reads its volume through the partition table (fs/partition/gpt.c), which reads the disk.
--
-- Files and what they model:
--   Mm/Bitmap      bit_test, bit_set, bit_clear of mm/pmm.c
--   Mm/Pmm         the state and the operations of mm/pmm.c; its children: the marking of a page
--                  (Marks) and of a range (Ranges), the allocation (Alloc), the release (Free)
--   Mm/PmmInit     pmm_init of mm/pmm.c, on the memory map of boot/boot.h; its children: the place of
--                  the bitmap (Places), the filled bitmap (Fresh), what is marked (Marking), and the
--                  whole (Correct)
--   Mm/Kmalloc     mm/kmalloc.c; its children: the free list (FreeList), finding and
--                  cutting a block (Fit), the list after a block is taken (Handed), the allocation (Alloc)
--   Mm/Paging      the state, the walk and the translation of mm/paging.c; its children: the entries
--                  (Entry), the operations on pages (Pages), paging_init (Boot), the tables as a tree
--                  (Tree), the steps that keep it (Steps), and what the operations do (Map, MapRange,
--                  Unmap)
--   Mm/Ranges      the free list of mm/vmalloc.c: vmalloc_free_range, range_end and the search; its
--                  children: what a list stands for (Order), the insertion (Coalesce), the search
--                  (Carve)
--   Mm/Vmalloc     vmalloc_init_once_locked, vmalloc_init, vmalloc and vfree of mm/vmalloc.c; its
--                  children: the region (Init), the allocation (Alloc, Success), the release (Release)
--   Mm/Frames      the interface `Pages` of Mm/Vmalloc filled by mm/pmm.c and mm/paging.c
--   Kernel/Sched   the tasks, the run queue and the tick of kernel/sched.c; its children: the queue as
--                  a list (Queue), the tick on one CPU (Tick), sequences of ticks (Rotate), all CPUs
--                  (Cpus), sched_spawn (Spawn), sched_init and sched_ap_init (Init)
--   Arch/Irq       the handler table of arch/x86_64/irq.c and isr_handler of
--                  arch/x86_64/isr_handler.c, which calls the scheduler; its child: the timer (Timer)
--   Arch/Keyboard  arch/x86_64/drivers/IO/ps2_keyboard.c; its children: the list (Order), the
--                  registration (Register, Unregister), the events (Event)
--   Fs/Vfs         fs/vfs/vfs.c; its children: the path helpers (Paths), the search for a mount (Find),
--                  the nodes and the lists of children (Nodes), the lookup of a path (Resolve), the
--                  mount table (Mounts), the open files (Files)
--   Fs/Fat32Vfs    fs/vfs/fat32_vfs.c, the driver that joins Fs/Vfs and Fs/Fat32; its children: the nodes,
--                  lookups and mounting (Tree), what a lookup leaves alone (Keeps), a mounted volume
--                  (Mounting), reads of a file (Reading)
--   Fs/Gpt         fs/partition/gpt.c; its children: the table (Table) and the layout of its entries (Init), reads in a
--                  partition (Read)
--   Fs/Fat32       fs/fat32.c; its children: the names (Names), the directories (Dirs), lookups and
--                  paths (Lookup), the bytes of a file (Files), where clusters lie (Geometry)
--   Prelude        names of the libraries, tests on numbers, arrays as lists, masks as arithmetic, and
--                  unsigned 64-bit arithmetic
--   Tests          small states to which the theorems are applied
--
-- How the code is modelled. The static variables of a file are a record; a function takes it and
-- returns the new one. A function that holds its file's spin lock, with interrupts off, is one
-- step. A 64-bit word is a number below 2 ^ 64, and sums and differences wrap where the C code's
-- do. A pointer is a number and NULL is 0. `panic` is a result of its own. The bytes of the bitmap
-- are a list, and so is the used part of the array of free ranges; the tasks are a store from
-- addresses to records, and the run queue is linked through them as in the code. vmalloc and vfree
-- use the frames and the page tables through the interface `Pages`, whose state and behaviour are
-- arbitrary, a panic in paging_map_page included; Mm/Frames fills it. The page tables are a
-- memory: the entry at an index of the table at a physical address, which the kernel reaches
-- through its direct map. In sched_spawn the results of kmalloc and vmalloc are arguments, and the
-- calls are listed. In sched_init the count that the LAPIC's calibration gives is an argument, in
-- isr_handler the effect of the handlers, and in the keyboard's interrupt the byte from the port.
-- In the file systems a string is the list of its bytes, an out parameter a result, and an int an
-- integer; the heap, the drivers' functions and the disk's reads are arguments, and a run that
-- leaves its buffer is a result of its own. An int priority is held as its distance from the least
-- int.
--
-- Loops are recursion on the rounds that the C loop's bounds give, or on the list the loop runs
-- over, so that no fuel can run out; the walks along the listeners, along the blocks of the heap
-- and along the children of a node are recursion on fuel, of which at least the list's length is
-- asked, and the walks along the clusters of a directory and through a tree of nodes that is freed
-- are on fuel whose end without an answer is a result of its own. The scan of
-- pmm_try_alloc_page_phys has one round for each page, and the loops over a range of pages one for
-- each of its pages.
--
-- Bounds: a valid page allocator has at most 2 ^ 52 pages, so that every page's address is a word.
-- A valid free list has fewer than 128 ranges, the size of the array. The trees of page tables are
-- for allocators of at most 2 ^ 40 pages, so that every frame's address fits an entry. Where an
-- end is rounded up to a page, the statements ask that this does not wrap, or say what happens
-- when it does.
--
-- Not modelled: the block drivers, ACPI and the APICs, the console and the start-up code; the
-- start of the LAPIC timer; the messages that are printed; the accesses of CR3 and CR4 and of the
-- TLB; what the hardware does with a frame once it is returned. limine/ is the boot loader, a
-- project of its own.
pub mod Prelude
pub mod Mm
pub mod Kernel
pub mod Arch
pub mod Fs
pub mod Tests
