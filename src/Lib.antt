-- ===== src/Lib.antt =====
-- The kernel of Custom_OS, a 32-bit operating system in C, and its libraries.
--
-- The boot code starts kernel_main (src/kernel.c), which sets up the terminal, the segment
-- descriptors (src/gdt/gdt.c), the kernel heap (src/memory/heap), the file system and the disk
-- (src/fs, src/disk), the interrupt table (src/idt/idt.c), the page tables (src/memory/paging),
-- the commands of the kernel (src/isr80h) and the keyboard (src/keyboard), loads a first process
-- (src/task/process.c, src/loader/formats) and switches to its task (src/task/task.c). User
-- programs reach the kernel by interrupt 0x80 only.
--
-- Each component is a module with one function for each function of the C file, named as there;
-- the modules below it hold its theorems, and Tests the runs at concrete inputs.
-- Base - the shared names, lists, memories (functions from addresses to values), the codes of
--   src/status.h, integers and the bitwise or of disjoint fields.
-- Memory - src/memory/memory.c. Laws states what the three routines do.
-- Heap - src/memory/heap/heap.c and kheap.c. The table's entries are a memory indexed by the
--   block, so a write behind the table's end is visible. Search is about the search for a run of
--   blocks, Mark about the two marking loops, Laws about heap_malloc and heap_free, Invariant
--   about the well-formedness of the table, Faults about requests that are not served.
-- Text - src/string/string.c. A pointer is the list of the bytes up to the end of its buffer, and
--   none is an access behind that end.
-- Keyboard - src/keyboard/keyboard.c, the buffer as the ring of struct keyboard_buffer; Classic is
--   src/keyboard/classic.c, with the scan code as an argument.
-- Terminal - the terminal functions of src/kernel.c, over the cells of the video memory, which
--   starts at index 0.
-- Gdt - src/gdt/gdt.c, over the bytes of the table.
-- Paging - src/memory/paging/paging.c, over a memory of words that holds the directory and its
--   tables; Chunk makes and frees the tables of an address space, on the kernel's heap.
-- Streamer - src/disk/disk.c and streamer.c; the device is a parameter.
-- Elf - src/loader/formats/elf.c and elfloader.c, over the bytes of the file; Loading is elf_load,
--   over the calls of fs/file.c, which stand in File.Calls as a record that File.OnHeap fills.
-- PathParser - src/fs/pparser.c; what the calls of kzalloc return is a parameter, and OnHeap is
--   the same on the kernel's heap.
-- Task - src/task/task.c, the list of tasks by their addresses; Ring is about its order, Removal
--   about taking a task out, and Save is about the registers of a task.
-- Idt - src/idt/idt.c and src/isr80h/isr80h.c, the tables of handlers by their addresses.
-- Interrupts - src/idt/idt.c with src/task/task.c: interrupt_handler and isr80h_handler, from the
--   frame on the stack to the task that runs next.
-- Process - src/task/process.c, the table of processes and the memory of one, over the heap and
--   the page tables; Image maps a program and its stack, System is the kernel with all processes
--   and tasks, and makes and frees them, Loading loads a program from its file, Arguments passes
--   arguments to it.
-- File - src/fs/file.c, with the driver of the file system as a parameter; OnHeap is fopen, fread,
--   fstat and fclose on the kernel, as the loaders call them. A path is never parsed with success,
--   so fopen opens no file, and what the loaders do with an open file is modelled but never
--   reached.
-- Fat16 - src/fs/fat/fat16.c, the clusters and the reading of their bytes over the streamer; Item
--   is about the fields and the name of a directory item, Directory about the root directory and
--   fat16_resolve, Search about loading and finding items over the kernel's heap, Handle about
--   open files. Clusters, Reading, Entries, Lookup, Names, Opening and Seeking hold the theorems.
-- SystemCalls - src/isr80h/misc.c, src/isr80h/io.c and src/isr80h/heap.c, the commands of a
--   running program: task_get_stack_item of src/task/task.c reads their arguments, and they call
--   Process, Keyboard and Terminal through the table of Idt. Sums wrap at 2^32.
-- UserLib - the programs' library, programs/stdlib/src: itoa of stdlib.c (Decimal), printf of
--   stdio.c (Format), strtok of string.c (Tokens) and the reading of a line of peachos.c
--   (Editing).
--
-- Machine integers are natural numbers with the wrap-around of the C types written out: addresses
-- and sizes modulo 2 ^ 32, the cursor modulo 2 ^ 16, characters as bytes. Integers that the code
-- lets become negative are of type ℤ. Errors are values of Result, and none stands for a panic or
-- for an access that the model does not follow.
--
-- Loops recur on the rounds that they have left or on a list. Where the code has no such bound a
-- function takes fuel: diskstreamer_read, whose recursion is at most one deeper than the bytes
-- asked for; fat16_read_internal_from_stream, likewise, given one more than that by its caller;
-- the count of a directory's items, whose loop ends at the first item with an empty name;
-- parse_rest, one round for each byte of the path; strtok, for each of its two loops, and the
-- reading of a line, one round for each key. The theorems say how much fuel is enough.
--
-- Not modelled: the assembly and port I/O, kernel_main and the start of the devices, the system
-- calls that load and end processes and the one that prints a string, the command parser of the
-- user programs and the programs themselves. fat16_init only names the table of the driver's
-- functions.
pub mod Base
pub mod Elf
pub mod Fat16
pub mod File
pub mod Gdt
pub mod Heap
pub mod Idt
pub mod Interrupts
pub mod Keyboard
pub mod Memory
pub mod Paging
pub mod PathParser
pub mod Process
pub mod Streamer
pub mod SystemCalls
pub mod Task
pub mod Terminal
pub mod Text
pub mod UserLib
