-- ===== src/Lib.antt =====
-- my_os: models of the kernel's C code, and what is proved of them.
--
-- The kernel boots through assembly, sets up its segments and interrupt gates, its frame allocator, paging
-- and heap, the disk driver and the processes, and ends in a shell. Interrupts reach the keyboard handler,
-- which writes to the screen and to a ring of typed characters, and the timer, which turns the scheduler.
-- Swapping stores pages in slots of the disk. The files here follow these parts:
--
--   Base        bytes and bits, lists, signed numbers, page alignment: what the others share.
--   Pmm         memory/pmm.c. The bitmap is a function from its indices to bytes; pmm_alloc_frame and the
--               rest keep their names. Pmm/Search is about the next-fit loops, Pmm/Owners about the frames
--               that callers hold, Pmm/Init about pmm_init.
--   Screen      drivers/screen.c. The VGA buffer is a function from its indices to cells.
--   Keyboard    drivers/keyboard.c. handle_scancode works on the ring buffer and on a Screen.
--   Kmalloc     memory/kmalloc.c. Slab is one slab, Caches the lists of slabs, Large the list of large
--               allocations, Entry is kmalloc, kfree and init_kmalloc. Paging and frames are a parameter
--               with a state of its own, so that a call of kmalloc from within vmm.c is not followed.
--   Vmm         memory/vmm.c. Entries are page entries and parts of addresses, State is the memory behind
--               the processor's translation, Fifo the queue of pages, Swap, Map and Contexts the functions
--               that work on entries, addresses and directories. The frames and the swap slots are those of
--               Pmm and Disk; the heap and the transfer of a page are a parameter.
--   Std         std/string.c, std/stdlib.c, std/stdio.c and memory/utills.c.
--   Gdt, Idt    gdt.c and interupts/idt.c: the tables, with what the processor reads back from an entry.
--   Io          the port instructions of drivers/io.h, inline assembly, as a parameter of the drivers: what
--               each does to a state of the machine.
--   Ports       interupts/pic.c, drivers/pit.c and drivers/pci.c over Io.
--   Disk        drivers/disk.c. Slots is the table of swap slots, Identify and Ata are the commands over Io,
--               Transfer is disk_read and disk_write, with memory/kmalloc.c as a parameter, an allocator
--               that may refuse. Drive states as laws over Io what the ATA documents say of a drive, its
--               registers, its busy times and its transfers, and follows the driver through them. What a FLUSH CACHE does at a busy
--               drive or within a transfer, where the driver sends it, the documents leave open: there
--               IgnoresFlush is a hypothesis of the theorems on writes. Drive/Model is a machine that
--               keeps the laws.
--   Processes   processes/scheduler.c, with the nodes of the queue in a memory from addresses to nodes,
--               processes/pid.c, and in Process, Create and Boot the life of a process in process.c and
--               pcb.c over Vmm.
--   Interrupts  interupts/interupts_handler.c: the choice of the handler, and in Handlers what the handlers
--               of exceptions, of the keyboard and of the timer do.
--   Errors      errors.c and std/assert.c: what stands on the screen when the kernel stops.
--   Shell       shell.c: reading a line, and in Commands the commands.
--
-- Conventions. A number of w bits is a natural number, and where the code can wrap, `% 2 ^ w` is written
-- out. A pointer is an address and 0 is NULL. A failed assertion, a panic, undefined behaviour and waiting
-- for an interrupt are `none`. A C string that is read is the list of its bytes before the NUL; a buffer that
-- is written is a function from indices to bytes.
--
-- Fuel. Loops with a bound in the code recurse on the rounds left. Fuel is used by int_to_string (ten rounds,
-- enough for the ten digits of an int), by disk_read and disk_write (as many rounds as sectors, of which each
-- round takes at least one), by scheduler_remove_process (a round for each node), and by the unbounded wait
-- of ata_write_sectors for the drive, where none says that the drive was still busy; at a drive that keeps
-- the laws of Drive one round of it is enough. The walks of kmalloc.c
-- over slabs and large allocations take a round for each node, which the theorems count. In vmm.c finding an
-- entry can swap in its table, and that can swap out a page, for which an entry is found again: fuel bounds
-- these nested calls, and where no table is swapped out none is made, so that the theorems hold for any fuel.
--
-- Not modelled: the start-up code, which calls in order what the files model, the printers of processes and
-- the messages of init_disk_driver and pit_init, the endless loop of shell, the processor's caches of
-- translations, and all assembly, but that a switch of processes stores the new one as the current process.
pub mod Base
pub mod Disk
pub mod Errors
pub mod Gdt
pub mod Idt
pub mod Interrupts
pub mod Io
pub mod Keyboard
pub mod Kmalloc
pub mod Pmm
pub mod Ports
pub mod Processes
pub mod Screen
pub mod Shell
pub mod Std
pub mod Vmm
