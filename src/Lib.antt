-- ===== src/Lib.antt =====
-- ZeldaOS is a small 32-bit x86 kernel in C. This library models its core data structures and the
-- part of the kernel that is built on them, and proves what makes them correct.
--
-- Parts, and the file that models each (paths from the repository's root):
--   lib/list.c, lib/include/list.h       Links      the doubly linked lists inside other structures
--   lib/include/ring.h                   ByteRing   the byte stream queue of the terminals
--   kernel/task.c, kernel/include/task.h Task       states of tasks, transitions, waking up
--   kernel/task.c                        Scheduler  the queues of tasks and the choice of the next
--   kernel/task_signal.c                 Signal     posting, taking and catching signals
--   kernel/wait_queue.c                  WaitQueue  tasks that wait for an event
--   lib/hash_table.c                     HashTable  tables whose buckets are linked lists
--   lib/generic_tree.c                   GenericTree trees of any width as binary trees
--   lib/string.c                         CStr       strings and buffers
--   network/net_packet.c                 Packet     the payload of packets, the pool of packets
--   memory/kernel_vma.c                  KernelVma  the areas of the kernel's address space
--   kernel/userspace_vma.c               UserVma    the areas of a task's address space
--   memory/paging.c                      Paging     pages of memory, page tables
--   kernel/task_paging.c                 UserPaging the pages of a task, page faults of a task
--   device/pseudo_terminal.c             Terminal   what a pseudo terminal shows
--   filesystem/memfs_blocking.c          MemBlocks  the contents of the files in memory
--   kernel/include/zelda_posix.h         Status     the error codes
--   shared helpers                       Prelude    lists, tests and the result of an ASSERT
--
-- How they interact: a wait queue is a linked list of entries, and waking it wakes the task of
-- each; signals are recorded in the task and wake it too; both go through the transition table of
-- `transit_state`. The scheduler moves tasks between its queues by their states. The buckets of a
-- hash table and the pool of packets are linked lists as well, and their proofs rest on the
-- theorems about these. The areas of a task are found by name with `strcmp`.
-- A page fault of a task looks for the area of the address, takes a page of memory and enters it
-- into the page tables of the task, which are made of pages of the inventory.
--
-- How the code is represented: a function of the source is a function of the same name; the state it
-- changes is an argument and a part of its result. A failed ASSERT is `panic` of `Outcome`. Fields of
-- structs are natural numbers below the bound of their C type, and arithmetic that can wrap is
-- written out modulo its width. The memory of the linked lists maps each address to the two pointers
-- that the node there holds. A LIST_FOREACH walk takes fuel and ends in `none` without it; more fuel
-- than nodes is enough, and the theorems about walks say so. The queues of the scheduler are sequences
-- of tasks, and the ASSERTs of `list_append` and of `reclaim_task` on the links of a task are tests on
-- these sequences.
--
-- The bitmap of the pages of memory is a function from the index of a byte to the byte, and so is
-- the memory in which the page tables lie, by the address of a word. The searches for free pages take
-- as many rounds as there are pages below their boundary, and the blocks of a file are found in as
-- many rounds as there are bytes to write; both are shown to be enough.
--
-- Not modelled: log output; hardware (port I/O, the control registers and the TLB, descriptor tables,
-- the network card), assembly and boot code; user programs, among them application/tinyvm, which is a
-- copy of another project; the address of `return_from_pl3_signal_context`, which the linker chooses
-- and which is a parameter, as are the start and the boundary of the memory that is found at boot
-- time; the callbacks of a hash table, which its users supply; the dumps of tables to the log;
-- creating tasks, and reclaiming them but for those ASSERTs, the file systems, and reading from
-- terminals. KernelVma takes
-- `get_page`, `kernel_map_page` and `virt2phy` as parameters, so that its theorems hold whatever
-- these do.
pub mod Prelude
pub mod Status
pub mod Task
pub mod Signal
pub mod Links
pub mod ByteRing
pub mod WaitQueue
pub mod Packet
pub mod HashTable
pub mod KernelVma
pub mod CStr
pub mod UserVma
pub mod Scheduler
pub mod GenericTree
pub mod MemBlocks
pub mod Paging
pub mod UserPaging
pub mod Terminal
