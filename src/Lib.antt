-- ===== src/Lib.antt =====
-- xv6 with the course's changes to its scheduler: a kernel for x86 of a few C files in one
-- directory.
--
-- Parts and files. `Pipe` is pipe.c: `write`, `read` and `close` are pipewrite, piperead and
-- pipeclose on a record for struct pipe, with the counters modulo 2 ^ 32; a call that sleeps
-- returns with what it still has to do. `Pipe/Ring` has the bytes that the ring holds,
-- `Pipe/Order` is about single calls and `Pipe/Schedule` about any sequence of them.
-- `Proc` is proc.c with proc.h. A pointer to a process is the index of its slot in the table, and
-- the state of the kernel is the record `Kernel`. `Proc/Life` has allocproc, fork, exit and wait;
-- `Proc/Sched` has the scheduler, sched, yield, sleep, wakeup and kill, sys_increasepriority of
-- sysproc.c and the clock tick of trap.c. Each is one step, as most hold ptable.lock from end to
-- end; exit takes it after it has closed the files, which is taken as part of the same step, and
-- the changes of priority take no lock. A panic is `none`. `Proc/System` puts them together: any
-- processor's process, the scheduler of an idle processor or the world outside takes the next
-- step. What proc.c calls of memory and files is a parameter (`MemOps`, `FileOps`), about
-- which nothing is assumed. `Proc/Tree`, `Proc/Birth`, `Proc/Scan` and
-- `Proc/Keep` have the lemmas, `Proc/Fork`, `Proc/Exit`, `Proc/Wait` and `Proc/Signal` the single
-- calls, `Proc/Preserve` and `Proc/Safety` the invariant, `Proc/Queue` the priorities and the
-- scheduler's round. `Log` is log.c over the buffers and the disk. The disk takes a given number
-- of writes and then no more, which is how the machine stops in the middle; a restart empties the
-- buffers. A block is written whole or not at all. `Log/Memory`, `Log/Crash`, `Log/Install` and
-- `Log/Head` follow the disk through the loops, `Log/Commit` and `Log/Recover` put them together;
-- `Log/Ops`, `Log/Absorb` and `Log/Reserve` are about operations that run side by side.
-- `Strings` is string.c over a memory with a byte at each address, with the two instructions of
-- x86.h that memset uses. `Strings/Copy` is about memmove and safestrcpy, `Strings/Compare` about
-- memset and the comparisons.
-- `Grep` is the matcher of grep.c: `match`, `matchhere` and `matchstar`, with `matchhere` by
-- recursion on the pattern. `Grep/Language` says what a pattern stands for, and `Grep/Search` that
-- the functions find it. `Numerals` is printint of printf.c and atoi of ulib.c.
-- `Pages` is kfree and kalloc of kalloc.c, with the free pages linked through their first words in
-- a memory of words; the end of the kernel's image, a symbol of the linker, is a parameter.
-- `Spin` is spinlock.c: `enter`, `spin` and `claim` are the parts of acquire, `disclaim` and
-- `drop` those of release, as steps of any number of processors on one lock; other locks are the
-- steps that push and pop only. `Spin/Exclusion` and `Spin/Sound` are about the lock,
-- `Spin/Nesting` about pushcli and popcli.
-- `Buffers` is binit, bget and brelse of bio.c over an array of buffers, where a pointer is an
-- index and the head is one more. `Buffers/Circle` and `Buffers/Cache` relate the pointers to the
-- list of the buffers in the order of their use, `Buffers/Refine`, `Buffers/Release` and
-- `Buffers/Start` have the operations.
-- `Fs` is balloc and bfree of fs.c over the contents of the blocks, and `Fs/Bits`, `Fs/Alloc` and
-- `Fs/FreeMap` are about them. `Inodes` is the cache of inodes of fs.c, over the free map for
-- itrunc; `Inodes/Refs`, `Inodes/Put` and `Inodes/Fresh`, which has ialloc, are about the
-- references, and `Inodes/Trunc`, `Inodes/Emptied`, `Inodes/Itrunc` and `Inodes/Last` about the
-- blocks that itrunc and iput free. `Paths` is skipelem of fs.c, and `Paths/Elements` has what the loop of namex sees of a
-- path.
-- `Content` is bmap, readi and writei of fs.c over both; `Content/Stable` is about the addresses
-- that bmap gives, `Content/Reading` about the bytes that readi reads, and `Content/Layout`,
-- `Content/Writing`, `Content/Growth` and `Content/RoundTrip` about those that writei writes, to files whose blocks
-- are there already. The bytes at `src` are a function, and what a driver registers for a device is
-- a parameter.
-- `Dirs` is dirlookup and dirlink of fs.c over `Content`, where a name is a buffer of bytes;
-- `Dirs/Entries` is about the loops over the entries, `Dirs/Names` about the entry that is written,
-- with `Strings/Names` for strncpy, and `Dirs/Link` and `Dirs/Added` about both operations.
-- `Paging` is walkpgdir, mappages, clearpteu and uva2ka of vm.c over the memory of `Pages`, with the
-- entries and the bits of a word as in mmu.h. `Paging/Words` is about the bits, `Paging/Frames` has
-- the directory, its tables and the free pages apart; `Paging/Fresh`, `Paging/Grown` and
-- `Paging/Walk` are about walkpgdir, `Paging/Entry`, `Paging/Map`, `Paging/Range` and
-- `Paging/Mapping` about mappages, and `Paging/User` about the other two.
-- `Files` is the table of open files of file.c over `Pipe` and `Inodes`, and `Files/Close` is
-- about the references to them.
-- `Shell` is the parser of sh.c on the list of the bytes of a line. `Shell/Scan` and `Shell/Total`
-- are about its ending; `Shell/Syntax` has command lines as trees and writes them, and
-- `Shell/Tokens`, `Shell/Accepts`, `Shell/Parts` and `Shell/RoundTrip` parse them back.
-- `Prelude` has what the parts share. The `Tests` modules run the operations on small states.
--
-- Bounds. Loops over a table or a list of blocks recurse on the number of rounds that are left:
-- NPROC, NOFILE, the count in the header of the log or the length of a region, as in the source.
-- The loop of `printint` has 32 rounds, which are enough for a number of 32 bits in any base. The
-- loops of readi and writei have a round for each byte and those over a directory one for each
-- entry, since a round moves at least one byte or entry, and that of balloc one for each block of
-- the free map; the searches of bget have one more round than there are buffers. The loops and calls of the parser have one more round than the line has bytes, and
-- that of mappages has a round for each page from the first to the last. Counters and numbers of
-- the kernel wrap at 32 bits as in the source, `nextpid` and `timecpu` too, and a theorem that needs
-- them not to wrap has a bound on the number of steps.
--
-- Not modelled: locks and interrupts in the other parts, where each operation is one step, and with
-- them the tests of sched; the wakeup of brelse; the block in which an inode is on the disk; the
-- contents of user memory; the printing of procdump and processinfo; initlog, growproc and
-- userinit; and the other files, which are hardware access, or work above or below these parts.
pub mod Prelude
pub mod Pipe
pub mod Strings
pub mod Grep
pub mod Pages
pub mod Paging
pub mod Numerals
pub mod Proc
pub mod Spin
pub mod Buffers
pub mod Fs
pub mod Inodes
pub mod Paths
pub mod Files
pub mod Shell
pub mod Content
pub mod Dirs
pub mod Log
