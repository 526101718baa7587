-- ===== src/Lib.antt =====
-- A verification library for janus86, a small kernel for the 386 with a shell.
--
-- The program. `src/kernel/janus86.c` clears the screen, sets up paging and the file system
-- registry, probes the drives, scans them for partitions and enters the shell; its calls that set
-- up the interrupt controller, the interrupt table and the delay are commented out, and that code
-- is modelled as it stands. The shell calls the commands, these call the registry, and that calls
-- a file system through function pointers; everything prints by `kprintf`, which uses the string
-- functions and the screen.
--
-- The files and what they model:
--   Base                 lists, tests, bits and words over the native numbers
--   Memory, Io           the flat memory of bytes, the trace of port writes and prints
--   Str                  src/kernel/string.c
--   Sched                src/kernel/sched.c, include/sched.h, include/system.h
--   Pic                  drivers/8259.c
--   Keyboard             drivers/keyboard.c, include/keydefs.h
--   Paging               src/mm/pageinit.c
--   Idt                  src/kernel/idt.c: set_vector, InitIDT, the handlers and the copy of init_gdt
--   Pit, Delay           drivers/pit.c, src/kernel/delay.c
--   Fs                   src/kernel/fs.c
--   Disk                 drivers/diskio.c, include/diskio.h
--   Shell                src/utils/shell.c
--   Commands             src/utils/shell_builtin.c, over Shell, Fs and Str
--   Screen               drivers/video.c
--   Serial               drivers/serial.c
--   Ports                src/kernel/x86.c, src/kernel/bootinfo.c, src/kernel/janus86.c
--   Ide                  drivers/hd.c
--   Printf, Console      src/kernel/kprintf.c: vsnprintf, and the loop of kprintf
--   Heap                 src/mm/kmalloc.c; Heap/Tiles and Heap/Rows have the row of blocks that it
--                        keeps, Heap/Live the sequences of calls
--   Fat                  src/fs/vfat_module/fat32.c: names, directories, files and paths
--   Ext2                 src/fs/ext2: superblock.c, ext2.c and dir.c
--   Elf                  src/kernel/elf.c
-- Fat and Ext2 use the sectors that Disk delivers and are what Fs calls; both split a path by
-- Fat/Pathname. A definition has the name of its C function. Globals are a record that is passed on;
-- a fault, such as an index outside an array, and a loop that does not end are `none`. A port is a
-- list of the bytes that it delivers and a trace of those sent.
--
-- Bounds and fuel. Unsigned arithmetic is modulo 2^32 where it can wrap; an int is taken not to
-- leave its range. Memory addresses do not wrap. Loops over a string that ends by NUL run on fuel, for which its length is enough; the calibration of the delay on fuel for 31
-- doublings; the digits of a number on 11 rounds, enough from radix 8 on; the chain of boot
-- sectors on fuel for its sectors, and a chain of clusters on fuel for these, since a chain on
-- disk can be endless. The walks over the free list have fuel for its blocks, the search of kfree
-- for twice these; since a block has a unit at least, twice the units of the kernel's memory are
-- always enough. A line longer than the 256 bytes of its buffer, a path longer than 100, and in a
-- directory of ext2 a block or an entry beyond 4096 and a name beyond 255, are faults. A path is
-- split with fuel for its characters and a block of directory entries is read with fuel for its
-- bytes, which is always enough.
--
-- Parameters: what a file system driver does when it is called from Fs or Commands, what the
-- serial port delivers, the sectors of the disk in Disk, Fat and Ext2, the addresses of handlers,
-- of the heap and of the entries of a module, and the contents of memory that was not written
-- before.
--
-- Not modelled: the assembly files under boot and src/kernel and the inline assembly, but for its
-- effect on the state; src/kernel/taskhandle.c, which does not compile and is in no build file;
-- load_gdt and the two tasks, which print for ever; the text of the commands' messages, told by
-- their kind; what the ELF loader prints, allocates and frees. In the file systems the addresses
-- of nodes are not modelled, and the long names of FAT32 are not cut off at the 255 bytes of a
-- node. The name of a driver ends with the header of its module at the latest; where that has no
-- NUL behind it, strcpy copies what follows in the heap, which is not modelled.
pub mod Base
pub mod Memory
pub mod Str
pub mod Io
pub mod Sched
pub mod Pic
pub mod Keyboard
pub mod Paging
pub mod Idt
pub mod Pit
pub mod Delay
pub mod Fs
pub mod Disk
pub mod Shell
pub mod Commands
pub mod Screen
pub mod Serial
pub mod Ports
pub mod Ide
pub mod Printf
pub mod Console
pub mod Heap
pub mod Fat
pub mod Ext2
pub mod Elf
