-- ===== src/Lib.antt =====
-- Light OS, a small Unix-like kernel for the 386 in C (student-distrib/): three text terminals on
-- one screen, six processes, a read-only file system, ten system calls, and a scheduler that the
-- timer drives.
--
-- The kernel is one record, `Kernel.Kernel`: its fields are the global variables of the .c files,
-- the control blocks of the processes, the page tables, physical memory as a function from
-- addresses to bytes, the bytes sent to ports (latest first), and the registers that a context
-- switch loads. An operation is a function on that record; a result -1 is `failure`; a write that
-- would leave its array is `none`. What a port gives is an argument (`inb`), and so are the scan
-- codes and clock interrupts that arrive while a loop waits. Numbers are naturals with the 32-bit
-- wrap-around written out; an `int32_t` is an integer.
--
-- The parts, and the files of student-distrib/ that they model:
--   Common            helpers: lists by index, Boolean tests, integers, partial results
--   Memory            lib.c: memcpy and memset (Copy), memmove (Move), memset_word and
--                     memset_dword (Fill)
--   CString, Number   lib.c: strlen, strncmp, strcpy, strncpy, strrev; itoa
--   Text              the string literals of the C code, as bytes
--   FileSystem        filesystem.c, filesystem.h: the image, read_dentry_by_name, read_data;
--                     FileSystem/Ops has the operations of files and directories
--   Kernel            syscall.h, general_file.h, paging.h, lib.h: the state
--   Console           lib.c: putc, back_putc, clear and the variants for the shown terminal;
--                     blue_screen, test_interrupts
--   Printf            lib.c: puts and printf
--   Paging            paging.c, and the functions of syscall.c that change the page tables
--   I8259             i8259.c: the interrupt controller
--   Keyboard          keyboard.c: scan codes and the switch between terminals; Keyboard/Handler has
--                     keyboard_handler
--   TerminalDriver    terminal.c
--   Descriptors       general_file.c: the descriptor table of a process, over a record of drivers
--   Devices           the drivers of the descriptor table, filled in by the tables of operations in
--                     filesystem.c and terminal.c
--   Process           syscall.c: Pool (the process slots), Command and Execute (syscall_execute),
--                     Halt (syscall_halt), Switching (the context switches), Schedule (schedule,
--                     and pit.c), Boot (the three shells), Calls (the other calls)
--   Rtc               rtc.c: the real-time clock and the clock of each terminal
--   Idt, Gdt          idtInit.c and x86_desc.h: the gates, and the segment descriptors that
--                     kernel.c builds
--   Exceptions        exceptions.c
--   Entry             kernel.c: entry, from the boot loader's information to the waiting loop
--   Programs          user programs over the system calls: syscalls/ece391cat.c, ece391ls.c,
--                     ece391shell.c, and ece391_fdputs and ece391_strcmp of ece391support.c
--   Tests             small concrete states at which the theorems are applied
--
-- How the parts meet: `keyboard_handler` prints by way of Console and switches terminals by way of
-- Paging; `terminal_read` waits while the handler runs; `schedule` and the system calls change the
-- page tables by way of Paging; the descriptor table calls the drivers, which read the file system.
-- `entry` runs every initialiser and leaves the machine in which the timer, the keyboard and the
-- system calls start. A system call that can wait runs over `Devices.World`: the kernel, and the
-- scan codes and clock interrupts that are still to come. A user program is a function over it; what
-- the programs do that the shell starts is a parameter of the shell.
--
-- Bounds and fuel. `strlen` runs on 2^32 rounds, one for each value of its counter; copying loops
-- run on their length; the directory search on its 63 entries; `read_data` on the number of blocks
-- from the first to the last; the loop of `rtc_write` on 11 rounds, of which the eleventh (2048) is
-- the one that the loop's condition ends; `terminal_read` on the scan codes that arrive and
-- `rtc_read` on the clock interrupts that arrive, so that a wait that they do not end is a result
-- of its own. The loop of `itoa` has a round for each of 32 bits and one for its last test; those of
-- `puts` and `printf` have 2^32, which is enough for a string with an end in the address space, and
-- without one they give no result;
-- `print_map` has 2^32, enough since each entry of the memory map is behind the one before it; the
-- loop of `cat` has one round for each 1024 bytes of the file, and two more; that of `ls` one round
-- more than it prints lines; the loop of the shell runs on a number of rounds that is given, since it
-- ends only at `exit` or at a failure.
--
-- Not modelled: the assembly files, which save registers around the calls of the C functions, and
-- the instructions that load the processor's table registers; tests.c; the other user programs
-- (syscalls/, fish/). The boot loader's structures are read
-- from memory at the offsets that multiboot.h gives them. Before paging is turned on the video pages
-- stand for themselves. Memory beyond the video pages, the image and a program's page is not tied
-- to the C structures that stand in it: the control blocks are a function from process numbers.
pub mod Common
pub mod Memory
pub mod Number
pub mod CString
pub mod Text
pub mod FileSystem
pub mod Kernel
pub mod Console
pub mod Printf
pub mod Paging
pub mod I8259
pub mod Keyboard
pub mod TerminalDriver
pub mod Descriptors
pub mod Devices
pub mod Idt
pub mod Exceptions
pub mod Gdt
pub mod Entry
pub mod Process
pub mod Rtc
pub mod Programs
pub mod Tests
