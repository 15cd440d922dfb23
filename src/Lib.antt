-- ===== src/Lib.antt =====
-- Four course projects on xv6 for RISC-V: a bootloader (Project-1), demand paging with
-- copy-on-write fork (Project-2), a library of user-level threads (Project-3) and a
-- trap-and-emulate virtual machine monitor (Project-4). This library models Project-4's monitor,
-- Project-3's library, Project-1's bootloader, Project-2's page faults, swap area, copy-on-write fork,
-- process table, pipes, buffer cache and file system log, and the parts of the kernel's memory
-- management that these call. Paths below are relative to
-- <project>/cse536-release/xv6-riscv/.
--
-- Base: shared helpers. Numbers are natural numbers; a 64-bit value has its bound written out
-- (`u64` is `% 2 ^ 64`). An `Outcome` is what a kernel routine comes to: it returns, or it stops
-- the machine in `panic`, which also stands for a null pointer that is followed.
--
-- Vm/Memory models kernel/kalloc.c and memset() of kernel/string.c: memory is a function from
-- addresses to bytes and the free list a list of pages. Vm/Table models walk(), walkaddr(),
-- mappages() and copyin() of kernel/vm.c. A page table is three functions:
-- which pages of the tree are there, and the leaf entries. The pages of the tree are taken from
-- the free list, but their addresses are not kept. The loop of mappages() has 2 ^ 26 + 1
-- rounds, more than there are pages below the largest address, where walk() panics; that of copyin()
-- has as many as there are bytes, and every round takes one at least. Vm/Table/Entries sees a page
-- table as a function from virtual pages to entries, and Vm/Table/Range mappages() as an update of
-- that function. Vm/User models uvmunmap(), uvmalloc(), uvmdealloc(), uvmcopy(), uvmclear(), copyout()
-- and copyin() of Project-2's kernel/vm.c; the question whether a group shares a page is an argument
-- of those that free pages.
--
-- Trap models Project-4's kernel/trap-and-emulate.c. Trap/State has the virtual registers
-- (vm_virtual_state), the trap frame of kernel/proc.h and the process; a State is what a call of
-- the monitor reads and writes. Trap/Csr is the table from CSR codes to registers and the two
-- searches in it, Trap/Frame the switches on general registers (get_trapframe(),
-- csrr_write_trapframe()), Trap/Write csrw_write(), Trap/Pmp the second page table that stands for
-- physical memory protection, Trap/Emulate decoding and the emulated instructions, Trap/Init the
-- state in which a guest starts. The host traps an instruction of the guest and calls
-- trap_and_emulate(), which fetches it by copyin(), tests the guest's mode against the registers,
-- and on mret builds the protected page table. kill() sets the flag `killed` and no more: the
-- process goes on to the end of the handler.
--
-- Threads models Project-3's user/ulthread.c and user/ulthread.h. Threads/State has the table of
-- 100 slots, slot 0 for the scheduler, and the calls of a thread; Threads/Schedule one round of
-- ulthread_schedule() for each algorithm, with its loops over the 99 slots of threads by structural
-- recursion on the rounds left; Threads/Life the calls on every branch, and Threads/Life/Steps runs,
-- as sequences of calls by the thread that runs and of rounds of the scheduler. A round ends where
-- the source calls ulthread_context_switch(): it switches to a thread, or it returns because there
-- is none. `before` is the number that the source reads as the priority in ul_thread[-1].
--
-- Boot models Project-1's bootloader/elf.c, bootloader/load.c and bootloader/start.c. Boot/Elf reads
-- the ELF headers of the two kernels, Boot/Load copies a kernel from its disk in memory, block by
-- block, and Boot/Start is the secure boot test and start(), on one memory with the disks, the copy
-- and the system information table at 0x80080000 in it. The hash is a parameter, since
-- bootloader/sha256.c is a third party's; so are the digest that the build expects and the address of
-- the linker's symbol `end`. The int that counts blocks is a natural number: kernel_copy() stops at
-- block 2000. The local variables and the code of the bootloader are not in the modelled memory.
--
-- Cow models the first half of Project-2's kernel/cow.c: the table of groups of processes that share
-- pages, and the array of shared pages of a group. The write behind the end of the array goes to
-- `count`, which the compiler puts there.
--
-- Paging models the rest of Project-2. Paging/State has the fields of struct proc that it uses, the
-- trackers and the disk, as blocks of 1024 bytes that bread() and bwrite() read and write.
-- Paging/Swap models evict_page_to_disk() and retrieve_page_from_disk() of kernel/pfault.c,
-- Paging/Fault the handler, with loadseg() and flags2perm() of kernel/exec.c, Paging/Heap
-- track_heap() and growproc() of kernel/proc.c and the loop of exec() that clears the tracker, and
-- Paging/Fork uvmcopy_cow() and copy_on_write() of kernel/cow.c. The file of a program is its size and
-- content, as readi() gives them. The handler ends at the label `bad` before the page table is freed.
--
-- Log models kernel/log.c of Project-2. Log/State has the log in memory and the device below it: the
-- disk, what bread() shows of each block, and the number of blocks that are written before the power
-- fails; a write without power changes the cache and not the disk. A block is its 256 words.
-- Log/Commit models commit(), recover_from_log() and initlog() with all they call, and a restart of
-- the machine; Log/Transaction models begin_op(), log_write() and end_op(). A caller that sleeps in
-- begin_op() is a call that gives `none`. A commit runs without steps of other calls between its
-- writes, since begin_op() sleeps meanwhile. Log/Transaction/Steps has runs of system calls, each
-- with the number of its log_write()s.
--
-- Cache models kernel/bio.c of Project-2: the list of buffers, the most recently used first, and
-- bread(), bwrite(), brelse(), bpin() and bunpin() on it. A buffer in use is named by its device and
-- block, as the pointer that bread() gives is. Cache/View has what the cache shows of each block,
-- which is the part of the cache that Log/State keeps; Cache/Write follows a block that is read,
-- changed, written and released.
--
-- Process models kernel/proc.c of Project-2. Process/State has the table: the fields of a process's
-- life (state, channel, pid, parent), the fields of its memory and files, and KernelOps, the
-- interface to what the table calls (pages, page tables, files, which Vm and Cow model in part).
-- Process/User is what allocproc(), freeproc(), fork() and exit() do to memory and files,
-- Process/Table the calls on the whole table, Process/Steps runs of them. wakeup() skips the process
-- that runs. A call is one step, since it holds the locks of what it changes; sleep() and wait()
-- end a step where they give up the processor, and a turn of wait() looks at the table once.
--
-- Pipe models kernel/pipe.c of Project-2, with the 512 bytes as a function of the place and the
-- counters by 32 bits. `input` is what copyin() reads of the caller's memory, byte by byte, and
-- `can_copy` whether copyout() can write. A call that sleeps says how many bytes it has written,
-- and goes on from there when it wakes up.
-- Pipe/Turns has the loop of turns, with a number of turns that is shown to be enough.
--
-- Fuel: none of the definitions that model code runs out. Each loop has a bound in the source (the size of a table,
-- or the pages of a range), and the recursion is on what is left of it.
--
-- Not modelled: assembly (the context switch, the trampoline), output by printf(), locks, which no
-- modelled property depends on, since each call runs under its lock or on one hart; the SHA-256 of the
-- bootloader; the rest of exec(), userinit() and either_copyout(); pipealloc(); the parts of xv6 that
-- no project changes (file system above the log, devices, system calls, user programs) and the guest
-- kernel, which the monitor runs as data.
pub mod Base
pub mod Boot
pub mod Vm
pub mod Trap
pub mod Threads
pub mod Cow
pub mod Paging
pub mod Log
pub mod Process
pub mod Cache
pub mod Pipe
