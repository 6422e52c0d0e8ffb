-- ===== src/Lib.antt =====
-- The NewLand kernel of StardustOS, and the parts of its C libraries that the kernel stands on.
--
-- The parts, the files that model them, and the code:
-- - Prelude (Tests, Lists, Bytes, Errors, Faults): tests on numbers, lists over the native
--   numbers, C strings as lists of bytes, the errors of libraries/libc/include/errno.h with the
--   results of calls (`Ret`), and undefined behaviour as `none`.
-- - Slist (Laws): the list macros of libraries/liblist/include/liblist.h, as the kernel's tables
--   write them out, and Slist.Chain (Links, Refines): the same macros on the pointers. Liblist
--   (Laws): libraries/liblist/src/list.c.
-- - Libc: Libgen for dirname and basename; Memory for memset, memcpy, memmove and memcmp;
--   Strings for strlen, strcmp, strncmp, strcpy and strncpy; Numbers and Itoa for ultoa and
--   itoa; Formats (Render, Written, Output, Print, Streams, Sent) for vsnprintf and vfprintf
--   (libraries/libc/src).
-- - Dev (Invariant, Lookup, Minors): the device table of newland/src/dev.c. Block (Numbers,
--   Files) and Tty (Numbers): newland/src/dev/block.c and newland/src/dev/tty.c, which register
--   their devices in it and number them. Bus (Devices): newland/src/bus.c, whose devices are
--   served by those of the table. Pci (Names, Scan with Depth, Endless and Resources): the scan
--   of newland/arch/x86/modules/bus/pci.c, which fills the buses in through the ports of a
--   machine.
-- - Phys (Bits, Pages, Ranges, Alloc) and Paging (Entries, Boot with Reserved): the page map and
--   its allocator, the page directories and tables with their allocators, and the boot loader's
--   memory map, of newland/arch/x86/src/mem.c.
-- - Arch (Gates, Interrupts, Delivery, Clock): the descriptor tables, handlers, timer and clock
--   of newland/arch/x86/src (idt.c, irq.c, gdt.c, timer.c, clock.c). Multiboot (Names): the boot
--   loader's modules as devices, newland/arch/x86/src/multiboot.c.
-- - Fs (Registry, Mounts, Resolve, Files): nodes, the registry of file systems, mount points,
--   path lookup and the calls on nodes of newland/src/fs.c.
-- - Proc (Table, Create, Signal, Schedule, RoundRobin, Usage): the process table, creation and
--   removal, signals, the scheduler and its record in newland/arch/x86/src/proc.c.
-- - Nvk (Lookup, Exec, Running, Reading): the same table in the host program
--   tools/nvk/src/proc.c, with its threads, and proc_exec over Fs with
--   libraries/libfile/src/elf.c.
-- - System (Descriptors, Syscalls): the calls of newland/src/system.c on the current process and
--   its open descriptors, over Proc and Fs, and newland/src/syscall.c, which calls them by
--   number.
-- - Devfs (Order): newland/src/fs/devfs.c, over Dev and Block. Procfs (Names, Cleanup, Children,
--   Listing): newland/src/fs/procfs.c, over Liblist, Fs and Proc. Log (Printing):
--   newland/src/log.c, over Libc and Tty. Modules (Loading): newland/src/module.c. Time (Dates):
--   newland/src/time.c.
-- Each of these has its tests and examples in a module Examples.
--
-- How the state corresponds: a struct is a record with the fields that the modelled code reads,
-- a list of nodes is a list with the newest node first, a static counter is a field beside its
-- list, and a call takes the state and gives its result with the new state. A `proc_t*` is the
-- process's id and an `fs_node_t*` an address; a handler of a driver or a file system is a
-- function on a state `W` of its own, and NULL is `none`. `kmalloc` is an argument: whether
-- there is memory, or the junk that the new struct holds. An `int` or `unsigned` keeps its
-- wrap-around at 2 ^ 32 where it can wrap. A result `none` of a call is a fault: a read through
-- NULL, a write past an array, a division by zero; or the end of the fuel.
--
-- Fuel: path lookup, the calls that follow links, `module_init`, `procfs_cleanup`, the loops
-- over C strings and over a chain of pointers, `ultoa`, `itoa`, `vsnprintf` (33 rounds for 32
-- bits), the recursion of the PCI scan through bridges, and the pair `virt_map` and
-- `mem_allocident` take fuel. For lookup of a name, strings, lists, `procfs_cleanup`, `ultoa`,
-- `vsnprintf`, the memory map, the PCI scan without bridges and the mapping of a page in a table
-- that is there, the theorems say how much is enough. All other loops are structural.
--
-- Not modelled: interrupts are off, as the code has it, while a table changes, and the FPU, the
-- registers, the TLB and freed memory leave no trace in the state. Left out are the order of
-- start-up, assembly stubs, ELF loading, initrd, the floating point format, the serial driver
-- under newland/arch/x86/modules, the host side of tools/nvk (emulator, files), and liballoc and
-- miniz, which are submodules.
pub mod Prelude
pub mod Slist
pub mod Dev
pub mod Bus
pub mod Liblist
pub mod Modules
pub mod Time
pub mod Block
pub mod Devfs
pub mod Tty
pub mod Phys
pub mod Paging
pub mod Libc
pub mod Fs
pub mod Proc
pub mod Procfs
pub mod Log
pub mod System
pub mod Pci
pub mod Arch
pub mod Multiboot
pub mod Nvk
