-- ===== src/Lib.antt =====
-- A model of the orcas kernel, a small 32-bit x86 kernel in C, and what holds of it.
--
-- The program boots through loader.s into kernel.c, which sets up the console, the segments, the
-- interrupts, the memory, the threads and the file system in that order. From then on interrupts
-- drive it: the keyboard handler edits and runs a command line, the timer gives the processor to
-- the next thread. The file system stands on a cache of blocks, and that on the polled disk.
--
-- Files, and the code that they model:
--   Base: tests, lists, casts and bits that all parts share; no code of the kernel.
--   Memory (memory.c, memory.h): Page has the macros, Machine the state (memory, free list,
--     break, heap end, page directory, cr3), Pool allocPage and freePage, Table getpte, translate
--     and map, Range rangemap, Kernel kmemInit, switchPageTable and switchpgt, Heap vmalloc, sbrk and
--     kmalloc, Copy copypgt.
--   Gdt (gdt.c), Idt (idt.c), Port (port.c), Timer (timer.c): descriptors, gates and dispatch,
--     port writes, the timer's divisor.
--   Ide (ide.c): testIdeState, hardReadWait, hardWrite; Ide/Driver has hardDriverInit, and Ide/Disk
--     a drive that the transfers are run on: it gives data only where its status has BSY clear
--     and DRQ set, and takes data only where it asks for it when the words arrive. hardRead up to its
--     sleep is in Fs/Cache/Wait, since it links the buffers of the cache.
--   Util (util.c): memmove, strcmp, strncpy, strlen, strcat, split.
--   Console (console.c): clear, getPos, setPos, putc, puts, printi, printf, cslInit; Console/Hardware
--     has getCursor, setCursor and scroll.
--   Thread (thread.c, thread.h): the table, thrCreate, thrSched, and the wake-ups; Thread/Entry
--     (switch.s) has the context switch, Thread/Mutex the mutex under any interleaving, with the
--     spinlocks, thrCondWait and thrCondBroadcast that it uses, and Thread/Semaphore the semaphore.
--   Lock (concurrency.c): the spinlock under any interleaving of its threads.
--   Keyboard (keyboard.c): the key map, the line, parseCmd and the choice of the command;
--     Keyboard/Controller has kbdDriverInit, getc and gets, and Keyboard/Shell kbdInterruptHandler
--     with the commands that it runs on the tree of Fs/Directory.
--   Fs (fs.c): the search and marking of allocInode, freeInode, allocData and freeData, the table of
--     open files, eof, and getNextDir and getFileName in Fs/Path. Fs/Cache has the cache of blocks
--     (blockCacheInit, getCachedBlock, relCachedBlock), with blockRead and blockWrite on a drive in
--     Fs/Cache/Disk; Fs/Data has allocData on that cache, and Fs/Transfer read and write of an open
--     file, on the table of files, the inodes, and that cache and its drive. Fs/Super has
--     readSuperblock, writeSuperblock and diskLayoutInit, and Fs/Inodes the cache of inodes
--     (inodeCacheInit, getCachedInode, and what allocInode does with the inode that it gets).
--     Fs/Directory has the tree of directories (struct fs with both caches and the memory), namei,
--     getInode and ls; Fs/Allocator allocInode, freeInode and freeData on the disk;
--     Fs/Calls creat, mk, cd and open, with rm in its child Remove and cat, fsInit and fsLoad in
--     its child Start.
--   Functions keep their names, in lower case with underscores.
--
-- How the code is modelled. A word or an `int` is the number of its bits, and sums wrap where they
-- are written with u32; an `int` is compared by gt_int. Memory that holds words is a function from
-- the address of an aligned word; memory that holds texts is a function from the address of a byte.
-- A function that changes global state takes the state and returns it. Writes to ports are a list
-- in time order, and the bytes that a port answers are an argument. Messages on the console, the
-- console's lock, and the instructions lgdt, lidt, cli and sti are left out. What the linker or the
-- assembler chooses (kernheap, the entry points, the interrupt vectors) is a parameter, and so are
-- the values of variables that the code never sets: the node of freePage, and the first value of
-- `t` in thrSched.
--
-- Fuel. Loops over a fixed range count the rounds that are left and cannot run out. Loops up to a
-- bound or a NUL take fuel: rangemap needs one round more than there are pages (65536 for
-- kmemInit), sbrk one more than the pages it adds, the string functions one more than the length
-- of the text. Each result about them is for every fuel that is enough, and gives the outcome.
-- printi has 32 rounds, which every int in base 2 and up ends within. A status poll ends with the
-- answers that it is given. A search in a bucket of a cache has fuel as well: the results about it
-- are for buckets of which at most two nodes are looked at, and for every fuel that is enough.
--
-- A call of the file system has one fuel for all its loops and chains; the results about directories
-- are for every fuel from 101 on, one more than the longest name, and for directories of one block.
--
-- Not modelled: kernel.c, loader.s and the entry stubs, and the empty bodies of process.c,
-- syscall.c and user.c; of the command line, the prompt and its newlines. A thread that has slept
-- is woken, but what it does when it is switched to is left out: thrSched never returns to it, so
-- that it goes on where it last yielded. allocData releases the address of its own pointer as a
-- block; that node is a parameter, and its fields are apart from the other locals. The other local
-- objects of the calls of fs.c have addresses that are parameters (Frame and Locals), and where the
-- code passes the address of a pointer in place of a block, what stands there is one as well; a
-- write past a buffer of the cache does not reach the fields behind it. Functions that only test
-- others by printing are left out.
pub mod Base
pub mod Memory
pub mod Gdt
pub mod Idt
pub mod Port
pub mod Ide
pub mod Timer
pub mod Util
pub mod Console
pub mod Thread
pub mod Lock
pub mod Keyboard
pub mod Fs
