-- ===== src/Lib.antt =====
-- HeMem: tiered memory of a fast device (DRAM) and a large one (NVM), managed in user space.
--
-- The library libhemem.so (src/Makefile, -D ALLOC_HEMEM) intercepts large mmap calls, gives each huge page of a mapping a frame of one of the two devices, samples which pages are read, and moves hot pages to DRAM and cold ones to NVM. The development follows that build: assertions are on, USE_DMA and COOL_IN_PLACE are defined, LLAMA and SAMPLE_BASED_COOLING are not.
--
-- Parts, files and correspondence:
--   src/spsc-ring.c, the rings of requests between threads: Ring.antt (`ring_buf_put` is `put`, and so on); Ring/Queue.antt is the queue that a ring promises to be, Ring/Entries.antt what a loop that empties a ring relies on.
--   src/fifo.c, the doubly linked lists of pages: Fifo.antt, over a memory of links (the fields `next`, `prev`, `list` of a page) and list heads. Fifo/Rep.antt says when that memory stands for sequences of pages; Fifo/Moves.antt is what a client of the lists relies on.
--   src/hemem.h, src/pebs.h, the data: Memory.antt and its children. `struct hemem_page` without links is `Page`; the global variables are one record `State`.
--   src/hemem.c, tracking and migration of pages: Hemem/Pages.antt, Hemem/Migrate.antt; faults and mappings: Hemem/Fault.antt, Hemem/Mapping.antt, over the interface of a policy (Hemem/Policy.antt, the macros `pagefault` and `mmgr_remove` of src/hemem.h) that Pebs/Interface.antt fills. Hemem/Tracked.antt is the invariant of the table of pages.
--   src/pebs.c, the placement policy: Pebs/Lists.antt (the six lists), Pebs/Heat.antt (`make_hot`, `make_cold`), Pebs/Scan.antt (one record of the sampling thread), Pebs/Migrate.antt, Pebs/Alloc.antt (page faults and freeing), Pebs/Cool.antt (`partial_cool`), Pebs/Policy.antt (one iteration of the policy thread), Pebs/Init.antt (`pebs_init`). Pebs/Invariant.antt states what holds of the lists and pages between steps, Pebs/Invariant/Off.antt what holds while a thread has pages in hand that are on no list. Pebs/Invariant/Draining.antt and Pebs/Invariant/Answering.antt are about the loops over the rings, Pebs/Invariant/Loop.antt about the migration loop, Pebs/Invariant/Walk.antt about cooling (Pebs/Invariant/Ahead.antt and Pebs/Invariant/Tours.antt say which pages a walk visits), Pebs/Invariant/Heard.antt about what a sample tells the policy, Pebs/Invariant/Iteration.antt about a whole iteration.
--   src/policies/lru.c, the policy of the build with ALLOC_LRU (without LRU_SWAP): Lru/Lists.antt, Lru/Scan.antt (the scans of `lru_kscand` and the calls for the accessed and dirty bits), Lru/Policy.antt (`lru_kswapd`, giving out and taking back), Lru/Interface.antt (the second instance of the policy interface, and `lru_init`). Lru/Route.antt, Lru/Partition.antt and Lru/Sorted.antt describe a scan by sequences, Lru/Shift.antt and Lru/Journey.antt by single pages.
--   src/policies/simple.c, the policy of the build with ALLOC_SIMPLE: Simple.antt and its children.
--   src/interpose.c, the hook of the system calls: Interpose.antt.
--   src/timer.c, differences of times: Timer.antt.
--
-- Conventions: a function that changes the global state takes it and returns the new one; `none` is a failed assertion (the process aborts), a shift or a count in an `int` that C leaves undefined, or too little fuel. A pointer to a page or list is a number, NULL is `none`. Unsigned 64-bit arithmetic keeps its wrap-around (Prelude/Words.antt). Each list function runs under the list's lock and is one step. `handle_wp_fault` returns whether it is done or still waits for a migration; `pebs_remove_page` goes on only when the ring of freed pages has room.
--
-- Fuel: the loops of `hemem_mmap_populate` and `hemem_munmap` are given one round more than the region has base pages, and each round advances by at least one. `skip_enforced` is given one round more than the list has entries, and each round takes an entry off. The loops over the rings of the policy thread take their fuel from the caller; one round more than the ring has entries is enough, since each round takes one out and no other thread is between. The migration loop needs one round more than the hot list of NVM has pages, since each round that goes on takes one off it. A whole iteration takes one number for all its loops, above the number of pages and of the entries of each ring.
--
-- Not the program's code, and so parameters (Memory/Kernel.antt): the kernel's answers to mmap and to the userfaultfd calls, which may depend on all calls before (a mapping without MAP_FIXED may be at any address), and the hash table of src/uthash.h with the documented laws of HASH_FIND, HASH_ADD and HASH_DEL. The state keeps the list of calls made.
--
-- Not modelled: logging, timing, statistics output, thread creation and CPU pinning, the perf buffers themselves (a sample record enters as an argument), the policies of src/policies/paging.c and src/policies/hemem-mmgr.c, the FlexKVS application and the micro benchmarks.
pub mod Prelude
pub mod Ring
pub mod Fifo
pub mod Memory
pub mod Hemem
pub mod Pebs
pub mod Interpose
pub mod Lru
pub mod Simple
pub mod Timer
