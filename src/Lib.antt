-- ===== src/Lib.antt =====
-- Verification of parts of the kernel, a descendant of xv6 with a lottery scheduler and a history of
-- each process's running times, and of its user programs.
--
-- Parts, files and sources:
--   Proc.antt         proc.h and the process table of proc.c: entries, the history of figures
--   Proc/Alloc.antt   allocproc and fork
--   Proc/Exit.antt    exit and wait
--   Proc/Wake.antt    sleep, wakeup1, wakeup, kill and yield
--   Proc/Perf.antt    the history `perf_data` and the five look-ups by process id
--   Proc/Lottery.antt a round of the scheduler under SCHEDULER_LOTTERY, and random.c
--   Proc/Robin.antt   a pass of the scheduler under SCHEDULER_DEFAULT
--   Proc/Query.antt   getrunticks, gettickets, sys_set_tickets and job_position
--   Proc/Pids.antt    process ids over the operations above, as steps of the kernel
--   Pipe.antt         pipe.c
--   Text.antt         string.c
--   Log.antt          log.c
--   Cache.antt        bio.c, the list of buffers
--   File.antt         file.c, the reference counts of open files
--   Kalloc.antt       kalloc.c
--   Syscall.antt      syscall.c, the arguments of system calls and the dispatch
--   Sleeplock.antt    sleeplock.c
--   Spinlock.antt     spinlock.c, with the steps of several processors
--   Fs.antt           fs.c: blocks, inodes and the superblock
--   Fs/Bitmap.antt    balloc and bfree
--   Fs/Map.antt       bmap and itrunc
--   Fs/Dinode.antt    iupdate, ilock and ialloc
--   Fs/Content.antt   readi, writei and stati
--   Fs/Icache.antt    iget, idup and iput
--   Fs/Dir.antt       dirlookup and dirlink
--   Fs/Path.antt      skipelem
--   Grep.antt         the matcher of grep.c
--   Sysfile.antt      sysfile.c: file descriptors, and the arguments of exec
--   Vm.antt           vm.c: walkpgdir, mappages and clearpteu, on memory as frames of bytes
--   Vm/Space.antt     allocuvm, deallocuvm, freevm; its child Fork: setupkvm, copyuvm, inituvm
--   Vm/Copy.antt      uva2ka and copyout
--   Vm/Sbrk.antt      growproc of proc.c and sys_sbrk of sysproc.c
--   Console.antt      console.c: the ring of typed bytes
--   User.antt         user programs: Ulib (ulib.c), Printf (printf.c), Uniq (uniq.c) and Wc (wc.c)
--   Prelude.antt      helpers: Boolean tests, lists and tables, 32-bit words, loops that break
-- The modules below a part hold its theorems; its Tests hold runs on small inputs.
--
-- How the code is read. A pointer into a table is the index of its entry, and a null pointer is
-- `none`. A C `int` or `uint` is its 32-bit pattern: additions and subtractions are written with
-- their wrap-around, and comparisons of `int` go by the sign bit. The functions of proc.c are cut at
-- their critical sections and where they switch to the scheduler: each piece runs under ptable.lock
-- and is one function from a kernel state to the next. pipe.c is cut where it sleeps. Answers of
-- other parts (a page from `kalloc`, a page table from `copyuvm`, a file) are arguments; calls that
-- change other parts (`kfree`, `freevm`, `filedup`, `fileclose`, `idup`, `iput`) are returned in
-- order. `fork` is one step, though the code lets go of ptable.lock between allocproc and the rest:
-- an entry that allocproc has taken is EMBRYO, and no other code takes or frees one.
-- The parts meet in the kernel state: fork takes an entry from allocproc, exit files figures
-- in the history and wakes the parent that wait put to sleep, and the scheduler files and reads the
-- same figures. The log stands on a disk and a cache of blocks, and keeps every state that the disk
-- has been in, since the machine may stop between any two writes.
--
-- fs.c stands on the log and the cache: a block is what `bread` gives, and what `log_write` records
-- changes it at once; its panics on a full log are in Log. An inode's blocks are its own when they are marked in the free map, lie among
-- the data and are all different, and the blocks before the data are marked too.
--
-- Loops are recursion on the table or the count. `strlen` takes fuel, since nothing but a NUL ends
-- it: one more than the length of the text is enough. So does `freerange`: more than the range's
-- length in pages is enough. `balloc` looks at size / 4096 + 1 blocks of the free map, which are all,
-- and `readi` and `writei` move a byte at least in each of as many turns as there are bytes, and so
-- does `copyout`. `deallocuvm` and `allocuvm` have a turn for each page up to the larger size and one
-- more, and jump or move up a page in each. The number printer has 32 turns, more than a 32-bit number
-- has digits to base 10 or 16; `^U` has 128, one for each byte of the ring; `uniq` has one for each byte
-- of its input and one more, since a turn that goes on reads a byte.
--
-- vm.c works on memory as frames of bytes, page tables included, and takes pages from kalloc and gives
-- them back. An address space is well formed, for a labelling of the frames, when its directory, its
-- tables and its pages are different frames, and the free list has other ones. The links of the free
-- list lie in free frames and are not shown there.
--
-- Not modelled: the walk along a path and the calls that need it (link, unlink, create, exec), the
-- allocator of user programs, the shell, devices and start-up code, and the FIFO scheduler, whose code
-- uses fields that do not exist.
pub mod Prelude
pub mod Proc
pub mod Pipe
pub mod Text
pub mod Grep
pub mod Log
pub mod Kalloc
pub mod File
pub mod Cache
pub mod Syscall
pub mod Sleeplock
pub mod Fs
pub mod Sysfile
pub mod User
pub mod Console
pub mod Vm
pub mod Spinlock
