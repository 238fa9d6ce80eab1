-- ===== src/Lib.antt =====
-- A verification library for RazOS, a small operating system for i386 with its kernel and C library.
--
-- The kernel keeps a list of file nodes and, for each task, a table of 32 open files. The calls of vfs.c test the
-- descriptor and go on through the pointers of the node: to ramfs.c, where a file is a list of 256-byte blocks, to
-- fifofs.c, or to the console files. The keyboard handler writes its characters to stdin; what goes to stdout is put
-- on the screen by vga.c. Tasks stand in a table of 256 under their pids; a fork copies the table of open files.
--
-- Which file models what (paths are from the root of the repository):
--   Base           names and lemmas that all share: Boolean tests, 32-bit words, arrays, the laws of `&` and `|`
--   Fs.Kernel      the state: kernel/src/fs/vfs.h, fifofs.h, razos_kernel_headers/sys/stat.h, the statics of stdin.c
--   Fs.Blocks      the loops over blocks of kernel/src/fs/ramfs.c and fifofs.c
--   Fs.Ramfs       read_ramfs, write_ramfs, creat_ramfs of kernel/src/fs/ramfs.c
--   Fs.Fifofs      the functions of kernel/src/fs/fifofs.c
--   Fs.Stdio       stdin.c, stdout.c and stderr.c of kernel/src/fs
--   Fs.Fd, Fs.Creat, Fs.Vfs  kernel/src/fs/vfs.c and stat.c; mkfifo of fifofs.c
--   Fs.Fcntl       kernel/src/fs/do_fcntl.c
--   Fs.Valid       the invariant of the table of descriptors along sequences of calls
--   Tasks          get_task, alloc_empty_task, task_fork_inner, task_kill, task_destroy and sched_next of
--                  kernel/src/mm/task.c; sys_wait of kernel/src/syscall/sys_tasking.c
--   Keyboard       kernel/src/drivers/kb.c
--   Console        kernel/src/vga.c, and set_color, kputchar and kputs of kernel/src/console.c
--   Paging         the frames and tables of kernel/src/mm/paging.c
--   Vm             kernel/src/mm/kvm.c and uvm.c, whose loops are the same but for the functions for one page
--   Kmalloc        do_kmalloc and do_kfree of kernel/src/mm/kmalloc.c, over ksbrk
--   Format         kernel/lib/vsprintf.c: numstr and atoi_ptr; Format.Printer is the state machine of vsprintf, and
--                  Format.Items says what a format means
--   Stdlib         rlibc/stdlib/qsort.c and bsearch.c
--   Memory         the functions of kernel/lib/string.c that write memory
--   Strings        those that read strings
--   Ctype          kernel/lib/ctype.c
--   Calendar       rlibc/time/mktime.c and gmtime.c
--
-- Representation. An `int` or `uint32_t` is its bit pattern below 2^32 as a native number; sums wrap by `% 2 ^ 32`
-- where the source can reach that. A kernel function takes the state and ends with a value and a state, stops at a
-- bad access to memory (`fault`), or waits (`blocked`). `kmalloc` is a list of the successes and failures of its
-- next calls. A run that waits ends there; a read that is woken starts again, an open of a fifo goes on with `wait_writers` or `wait_readers`, and what the rest of `open_vfs` does behind it is not modelled. The pointers of functions in a new node are NULL or ones of the kernel. A pointer to a node is its place in the list, a pointer to a task its pid. Memory that `kmalloc`
-- returns holds values of the state's `junk` until it is written. In Memory an address space is a function, and no
-- run reaches its end; in Paging a page table is named by its address and a bit field is a Boolean, `kmalloc_pa`
-- is a list of results, and the pages that it maps itself for the heap of the kernel are left out; in Stdlib an
-- array is a function, the bytes of an element are one value, and a place is the number of an element; in Strings
-- a string is the list of its bytes without the terminator. The words of flags of the keyboard are records of
-- their bits. The arrays of inodes have the 1024 entries of their headers.
--
-- Fuel. `strcpy` and `strcat` take fuel, one step for each byte and one for the terminator. A write to blocks takes
-- one step for each byte; each step fills at least one. `month_loop` takes a step for each day and each round takes
-- off 28 or more, `year_loop` one for each month.
--
-- The loop of vsprintf takes at most three steps for each byte of the format. A queue of dead children
-- has fewer than 256 tasks. The loops of kvm.c and uvm.c have
-- 2^20 + 1 rounds, more than there are pages in 4 GiB. Each call within dsort and bsearch
-- is for fewer elements, so their number is enough.
--
-- Not modelled: pipes, the wrappers of kmalloc.c, the program loader, vdprintf.c, page_flags and the copying of
-- page directories, the freeing of the memory of a dead task, the functions that build the console nodes, hardware
-- tables, assembly and floating point. The key codes that the keyboard handler packs and nobody reads are left
-- out.
pub mod Base
pub mod Calendar
pub mod Console
pub mod Ctype
pub mod Format
pub mod Fs
pub mod Keyboard
pub mod Kmalloc
pub mod Memory
pub mod Paging
pub mod Stdlib
pub mod Strings
pub mod Tasks
pub mod Vm
