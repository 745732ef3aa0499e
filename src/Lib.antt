-- ===== src/Lib.antt =====
-- NachOS 4.0: the simulated MIPS machine, the system calls of its kernel, its threads and
-- semaphores, its file system on a disk, and the bitmaps, lists and hash tables of its library.
-- Paths are relative to NachOS-4.0/code.
--
-- PARTS. The machine (machine/) runs user programs one instruction at a time, over a register file,
-- a memory of bytes and a page table or TLB, and enters the kernel by RaiseException. The kernel
-- keeps free sectors and frames in bitmaps (lib/bitmap.cc), queues in linked lists (lib/list.cc),
-- the blocks of a file in a file header (filesys/filehdr.cc) and names in a directory
-- (filesys/directory.cc). Map, headers and directory are bytes on a disk of 1024 sectors, which the
-- file system (filesys/filesys.cc) reads and writes through open files (filesys/openfile.cc). A
-- trap calls ExceptionHandler (userprog/exception.cc), which runs the system calls
-- (userprog/ksyscall.h) over the machine, the console and, as FILESYS_STUB selects, files of the
-- host. The scheduler (threads/scheduler.cc) switches between threads, which wait for each other at
-- semaphores (threads/synch.cc).
--
-- FILES.
--   Common          shared names; Asserts: ASSERT and results; Words, WordBounds, Bits: 32-bit words
--                   as numbers below 2 ^ 32 with the wrap-around written out, and their bits; Int:
--                   the integers; Lists, Tests: lists and Boolean tests.
--   Bitmap          lib/bitmap.{h,cc}: Mark = mark, Clear = clear, Test = test, FindAndSet =
--                   find_and_set, NumClear = num_clear, the constructor = create. Words: one word;
--                   Single: one bit; Search: the loops.
--   LinkedList      lib/list.{h,cc}: a List object with its elements in a heap. Append = append,
--                   Prepend = prepend, RemoveFront = remove_front, IsInList = is_in_list,
--                   SanityCheck = sanity_check. Chains: what a pointer leads to; Queue, Removal, Sanity:
--                   the operations on the sequence of cells.
--   Machine         machine/machine.{h,cc}, translate.h: the state, RaiseException = raise_exception,
--                   DelayedLoad = delayed_load. Sound: the invariant of the state.
--   Machine/Instruction  mipssim.h: the tables; Decode = decode.
--   Machine/Multiply     Mult = mult, with its loop = rounds.
--   Machine/Translate    translate.cc: Translate = translate.
--   Machine/Memory       translate.cc: ReadMem = read_mem, WriteMem = write_mem.
--   Machine/Execute      mipssim.cc: OneInstruction = one_instruction; each case of its switch is a
--                   definition execute_<op> in Integer, Branch or Transfer. Ending: how a case ends.
--   Filesys/Header  filesys/filehdr.{h,cc}: Allocate = allocate, Deallocate = deallocate.
--   Filesys/Directory  filesys/directory.{h,cc}: Find = find, Add = add, Remove = remove.
--   Filesys/Disk    machine/disk.{h,cc}: the bytes of the disk; a sector read = read_sector, written =
--                   write_sector.
--   Filesys/Latency  machine/disk.{h,cc} as a device: ReadRequest = read_request, WriteRequest =
--                   write_request, ComputeLatency = compute_latency. Arrival: where the head is then.
--   Filesys/OpenFile  filesys/openfile.{h,cc} over the disk: ReadAt = read_at, WriteAt = write_at with
--                   the reading of its edges = read_edges. Blocks: the loops over sectors; ReadAt,
--                   Edges, WriteAt: what a range of bytes gets.
--   Filesys/Layout  the bytes of a header, a map and a directory: FetchFrom and WriteBack of
--                   filesys/filehdr.cc = fetch_header, store_header, of pbitmap.cc = fetch_map,
--                   store_map, of directory.cc = fetch_directory, store_directory. Ints, Headers,
--                   Objects: from an object to its bytes and back.
--   Filesys/FileSystem  filesys/filesys.cc: the constructor = construct, with format_disk or
--                   open_files and then open_console; Create = create_file, Open = open_name or
--                   open_slot, FindFreeSlot = free_slot, Remove = remove_file. Mounted: the invariant of
--                   the disk and what a file of it is; Booted: the headers of its two own files; Fresh,
--                   NewHeader, Flush, Release: the steps; Format, Start, Create, Refuse, Remove,
--                   RoundTrip: the operations; Files: the files that stay.
--   AddrSpace       userprog/addrspace.{h,cc}: the constructor's table = entries_from, InitRegisters =
--                   init_registers, RestoreState = restore_state, Translate = translate_space. Load:
--                   Load = load, from the bytes of a file on the disk into the memory; Placed: where
--                   they are then.
--   HashTable       lib/hash.{h,cc}: Insert = insert, Remove = remove, Find = find, ReHash = re_hash,
--                   SanityCheck = sanity_check. Buckets: one item; Rehash: the growth; Table, Removal:
--                   the table as a map.
--   Host            lib/sysdep.cc: the calls of the host on files, over a parameter `Host`. OpenFile,
--                   FileSystem: the stub classes of filesys/openfile.h and filesys/filesys.h, ReadAt =
--                   read_at, FindFreeSlot = find_free_slot and so on; Slots: the table of open files.
--   Syscall         the kernel of a system call. Number: SysReadNum = read_num, SysPrintNum = print_num;
--                   Text: User2System = user_to_system, System2User = system_to_user; Files: SysOpen =
--                   sys_open and so on; Handler: ExceptionHandler = exception_handler, IncreasePC =
--                   increase_pc; Instruction: OneInstruction with this handler.
--   Threads         threads/scheduler.{h,cc}, thread.{h,cc}: ReadyToRun = ready_to_run,
--                   FindNextToRun = find_next_to_run, Run = run. Semaphore: threads/synch.{h,cc}, P = p
--                   with its loop p_loop, V = v, and Sleep, Yield, Fork, Finish; Invariant, Sleep,
--                   Steps, Runs: what holds between steps and after many. Lock: Acquire =
--                   acquire_start or acquire_again, then acquire_end; Release = release_start, then
--                   release_end.
--   Interrupt       machine/interrupt.{h,cc}: Schedule = schedule, CheckIfDue = check_if_due with its loop
--                   run_handlers, OneTick = one_tick, Idle = idle; SortedList::Insert of lib/list.cc =
--                   insert. Queue: the order of the queue; Due: the handlers; Check: CheckIfDue.
--
-- CHOICES. A failed ASSERT, a fault of the host (an index outside of an array, a NULL or dangling
-- pointer, a division that traps) and a call that never comes back are all `aborted`. Pointers that
-- may be NULL, and -1 for "none", are Options. The build is the one of build.linux: SIM_FIX and
-- RDATA are defined and the host is little-endian with 32-bit ints, on which signed arithmetic
-- wraps; the file system on the disk is the code that is compiled without FILESYS_STUB. The
-- kernel's ExceptionHandler is a parameter, `Handler`, of the machine, which Syscall fills in; a
-- theorem that needs something of it says so in its hypotheses. The characters that will be typed
-- are a list, and GetChar at its end never comes back. A thread is a number, and a step of the
-- threads is what one does between two points where interrupts may come: P up to its return or its
-- sleep, the rest of P after a sleep, V, Yield. The lists of threads are sequences, as LinkedList
-- justifies.
--
-- BOUNDS. Loops over bits, blocks and table entries are structural recursion on what is left. The
-- loop of Mult has 32 rounds, as in the code. The search of IsInList follows at most numInList
-- elements, which is enough for every object that holds the cells it counts; the assertion in the loop
-- of SanityCheck stops it there. The value of a semaphore and the times of the disk are ints that
-- wrap, and a theorem about them says up to where it holds. The loop of CheckIfDue
-- has fuel, and as many rounds as interrupts are pending are enough, since no handler makes another
-- one due. The loops over the blocks of a file run over the sectors of the range that is read or
-- written. What new memory holds before it is written is a parameter `fresh`.
--
-- NOT MODELLED. Printing, debugging, self tests and destructors; the console and the network, which
-- are calls of the host; the destructor of the FileSystem on the disk, files of a negative size, and
-- the waiting for the disk; conditions, and the user registers and stacks of threads; and
-- everything that is not NachOS itself (compilers, converters, tutorials, test programs).
pub mod AddrSpace
pub mod Bitmap
pub mod Common
pub mod Filesys
pub mod HashTable
pub mod Host
pub mod Interrupt
pub mod LinkedList
pub mod Machine
pub mod Syscall
pub mod Threads
